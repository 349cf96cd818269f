-- ===== src/Core/LogWriter/Appends.antt =====
-- `Write` of core/log_writer.go where nothing fails.
use kokorobox_service.Core.LogWriter.{
  done, failure, report_and_close, put, next_fault, later_faults, content_of, with_file, call,
  open_file, open_with_access, append_bytes, shrink_over, stat_size, enforce_limit_locked,
  enforce_or_close, write_open, ensure_open_locked, LogWriter, logged, write,
}
use kokorobox_service.Common.{
  ap, sym, subst, ◌∷◌, ◌<◌, length-append, arith, le→leb, leb, ◌==◌, List, Bool, Option, refl, ◌++◌,
  ◌≤◌, ◌+◌, length, is_empty, [], ◌≡◌, Text, ℕ, false, true,
}
use kokorobox_service.Core.LogWriter.Bound.{logged-put_content}
use kokorobox_service.Common.Effects.{Outcome, done, failure}

length-pos : (p : Text) → is_empty p ≡ false → 0 < length p
length-pos [] h = absurd (ground arith)
length-pos (c ∷ p) h = omega arith

module _ (low : ℕ → ℕ) (path : Text) (n : ℕ) (p : Text) (last_error : Text)
    (reports : List Text) where
  abbrev before : Bool → (Text → Option Text) → LogWriter
  before opened files = record {
    is_open = opened;
    path = path;
    save_logs = true;
    max_bytes = n;
    closed = false;
    last_error = last_error;
    files = files;
    reports = reports;
    faults = [];
  }

  abbrev Appended : Text → LogWriter → Type 0
  Appended s t = (logged t ≡ s ++ p) × (t.is_open ≡ true)

  limited : is_empty p ≡ false → (s : Text) → length s + length p ≤ n → (n == 0) ≡ false
  limited some_bytes s fits = let some_length = length-pos p some_bytes in ground arith

  enforce_limit_locked_lem :
      (files : Text → Option Text)
      → (n == 0) ≡ false
      → leb (length (content_of (files path))) n ≡ true
      → enforce_limit_locked low (before true files) ≡ done tt (before true files)
  unfolding enforce_limit_locked stat_size shrink_over call next_fault later_faults
  enforce_limit_locked_lem files positive le = rw (positive, le) refl

  settled : Outcome Text LogWriter (Unit {0}) → LogWriter
  settled o = elim o [ done _ t ↦ t | failure message t ↦ report_and_close message t ]

  write_open_lem :
      (files : Text → Option Text)
      → is_empty p ≡ false
      → length (content_of (files path)) + length p ≤ n
      → write_open low p (before true files)
        ≡ before true (with_file path (content_of (files path) ++ p) files)
  unfolding settled write_open enforce_or_close append_bytes put next_fault later_faults
  write_open_lem files some_bytes fits =
      ap (λ (o : Outcome Text LogWriter (Unit {0})). settled o)
        (enforce_limit_locked_lem (with_file path (content_of (files path) ++ p) files)
          (limited some_bytes _ fits) le)
    where
      all :
          logged (before true (with_file path (content_of (files path) ++ p) files))
          ≡ content_of (files path) ++ p
      all = logged-put_content (content_of (files path) ++ p) (before true files)

      le :
          leb
            (length (logged (before true (with_file path (content_of (files path) ++ p) files))))
            n
          ≡ true
      le = le→leb _ n (rw all (omega (arith, length-append (content_of (files path)) p)))

  write_open-Appended :
      (files : Text → Option Text)
      → is_empty p ≡ false
      → length (content_of (files path)) + length p ≤ n
      → Appended (content_of (files path)) (write_open low p (before true files))
  write_open-Appended files some_bytes fits =
      rw (write_open_lem files some_bytes fits)
        (logged-put_content (content_of (files path) ++ p) (before true files), refl)

  ensure_open_locked_lem :
      (files : Text → Option Text)
      → is_empty p ≡ false
      → length (content_of (files path)) + length p ≤ n
      → ensure_open_locked low (before false files)
        ≡ done tt (before true (with_file path (content_of (files path)) files))
  unfolding ensure_open_locked enforce_limit_locked stat_size shrink_over open_with_access open_file
      put call next_fault later_faults
  ensure_open_locked_lem files some_bytes fits =
      rw
        (
          limited some_bytes _ fits,
          logged-put_content (content_of (files path)) (before true files),
          le,
        )
        refl
    where
      le : leb (length (content_of (files path))) n ≡ true
      le = le→leb _ n (omega arith)

  appends :
      (opened : Bool) (files : Text → Option Text)
      → is_empty p ≡ false
      → is_empty path ≡ false
      → length (content_of (files path)) + length p ≤ n
      → Appended (content_of (files path)) (write low p (before opened files)).1
  unfolding write
  appends true files some_bytes named fits =
      rw (some_bytes, named)
        (unfold ensure_open_locked in write_open-Appended files some_bytes fits)
  appends false files some_bytes named fits =
      rw (some_bytes, named, ensure_open_locked_lem files some_bytes fits)
        (subst (λ s. Appended s (write_open low p (before true files'))) same
          (write_open-Appended files' some_bytes
            (subst (λ (s : Text). length s + length p ≤ n) (sym same) fits)))
    where
      files' : Text → Option Text
      files' = with_file path (content_of (files path)) files

      same : content_of (files' path) ≡ content_of (files path)
      same = logged-put_content (content_of (files path)) (before true files)

-- Where no call fails, a Write of an open writer that saves appends the bytes, as long as the log fits in its limit.
pub write_appends :
    (low : ℕ → ℕ) (p : Text) (w : LogWriter)
    → w.faults ≡ []
    → w.closed ≡ false
    → is_empty p ≡ false
    → w.save_logs ≡ true
    → is_empty w.path ≡ false
    → length (logged w) + length p ≤ w.max_bytes
    → (logged (write low p w).1 ≡ logged w ++ p) × ((write low p w).1.is_open ≡ true)
write_appends low p w works usable some_bytes saving path fits =
    rw (usable, saving, works)
      (appends low w.path w.max_bytes p w.last_error w.reports w.is_open w.files some_bytes path
        fits)
