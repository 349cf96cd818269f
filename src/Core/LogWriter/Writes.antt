-- ===== src/Core/LogWriter/Writes.antt =====
-- `Write` of core/log_writer.go: what the log holds after it, and how long it is, whatever fails in it.
use kokorobox_service.Common.Effects.{Outcome, done, failure, Post, Post-bind, Post-mono}
use kokorobox_service.Core.LogWriter.{
  LogWriter, logged, shrink, shrink_over, stat_size, target_bytes, append_bytes, drawn,
  enforce_limit_locked, ensure_open_locked, enforce_or_close, write_open, write, report_and_close,
  report_error_locked, join_errors, close_file_locked,
}
use kokorobox_service.Core.LogWriter.Tail.{
  Within-append_take, length-Within, Within-prefix, Within-trans, Suffix-append, Within-Suffix,
  Suffix-refl, Suffix, Within,
}
use kokorobox_service.Core.LogWriter.Bound.{
  logged-put_content, call-Post, At-Part, At, Part, Cut, call-At, put-Post, open_with_access-At,
  shrink-Post,
}
use kokorobox_service.Common.{
  Bool-cases, is_empty, take, ◌⊎◌, ◌∷◌, ◌++◌, ap, sym, subst, leb→le, leb, text_eq, ◌≢◌, by_test,
  not, ◌||◌, refl, length, ◌==◌, false, inr, inl, ◌≡◌, arith, Text, ◌<◌, ◌≤◌, ℕ, true,
}

-- What float64 makes of seven tenths of a limit is not more than the limit.
abbrev pub Lowers : (ℕ → ℕ) → Type 0
Lowers low = (n : ℕ) → low n ≤ n

module _ (low : ℕ → ℕ) (lowers : Lowers low) (n : ℕ) (positive : 0 < n) where
  target-le : target_bytes low n ≤ n
  unfolding target_bytes
  target-le = omega (arith, lowers n)

  enforce-Post :
      (b : Text) (w : LogWriter)
      → At n b w
      → w.is_open ≡ true
      → Post (λ _. Cut n b) (λ _. Part n b) (enforce_limit_locked low w)
  unfolding enforce_limit_locked stat_size shrink_over
  enforce-Post b w at opened =
      by_test (Post (λ _. Cut n b) (λ _. Part n b)) (w.max_bytes == 0 || not w.is_open)
        (λ e. absurd (limited e))
        (λ e.
          Post-bind (λ size t. At n b t × (size ≡ length b) × (t.is_open ≡ true)) (λ _. Part n b) _
            _ _
            (Post-bind (λ _ t. At n b t × (t.is_open ≡ true)) (λ _. Part n b) _ _ _
              (call-Post (λ t. At n b t × (t.is_open ≡ true)) (Part n b) _ w (at, opened)
                (At-Part n b w at))
              (λ _ t p. (p.0, ap length at.1, p.1)))
            (λ size t p. over size t p.0 p.1 p.2))
    where
      limited : (w.max_bytes == 0 || not w.is_open) ≢ true
      limited = ground arith

      over :
          (size : ℕ) (t : LogWriter)
          → At n b t
          → size ≡ length b
          → t.is_open ≡ true
          → Post (λ _. Cut n b) (λ _. Part n b) (shrink_over low size t)
      over size t at_t e opened_t =
          unfold shrink_over in
          by_test (Post (λ _. Cut n b) (λ _. Part n b)) (leb size t.max_bytes)
            (λ fits. (
              at_t.0,
              rw at_t.1 (Suffix-refl b),
              rw at_t.1 (let le = leb→le size t.max_bytes fits in omega arith),
              opened_t,
            ))
            (λ more.
              subst
                (λ k.
                  Post (λ _. Cut n b) (λ _. Part n b) (shrink k (target_bytes low t.max_bytes) t))
                (sym e)
                (shrink-Post (target_bytes low t.max_bytes) n b t at_t
                  (subst (λ k. target_bytes low k ≤ n) (sym at_t.0) target-le)))

  ensure-Post :
      (b : Text) (w : LogWriter)
      → At n b w
      → Post
          (λ _ t. (t.max_bytes ≡ n) × Suffix (logged t) b × (t.is_open ≡ true))
          (λ _. Part n b)
          (ensure_open_locked low w)
  unfolding ensure_open_locked
  ensure-Post b w at =
      by_test
        (Post (λ _ t. (t.max_bytes ≡ n) × Suffix (logged t) b × (t.is_open ≡ true)) (λ _. Part n b))
        w.is_open (λ opened. (at.0, rw at.1 (Suffix-refl b), opened))
        (λ shut.
          Post-bind (λ _. At n b) (λ _. Part n b) _ _ _
            (Post-mono (λ _. At n b) _ (λ _. At n b) _ _ (λ _ t p. p) (λ _ t p. At-Part n b t p)
              (call-At n b _ w at))
            (λ _ t at_t.
              Post-bind (λ _ t. At n b t × (t.is_open ≡ true)) (λ _. Part n b) _ _ _
                (Post-mono (λ _ t. At n b t × (t.is_open ≡ true)) _ (λ _. At n b) _ _ (λ _ t p. p)
                  (λ _ t p. At-Part n b t p) (open_with_access-At n b _ t at_t))
                (λ _ u at_u.
                  Post-mono (λ _. Cut n b) _ (λ _. Part n b) _ _ (λ _ t p. (p.0, p.1, p.3))
                    (λ _ t p. p) (enforce-Post b u at_u.0 at_u.1))))

  -- What a write leaves of the text that was there and the bytes that came.
  abbrev Written : Text → LogWriter → Type 0
  Written b t = Part n b t × (t.is_open ≡ true → length (logged t) ≤ n)

  report-At : (b m : Text) (w : LogWriter) → At n b w → At n b (report_error_locked m w)
  unfolding report_error_locked
  report-At b m w at = by_test (At n b) (text_eq m w.last_error) (λ _. at) (λ _. at)

  shut_report :
      (m : Text) (w : LogWriter) → w.is_open ≡ false → (report_error_locked m w).is_open ≡ false
  unfolding report_error_locked
  shut_report m w e =
      by_test (λ (t : LogWriter). t.is_open ≡ false) (text_eq m w.last_error) (λ _. e) (λ _. e)

  close-Post :
      (b : Text) (w : LogWriter)
      → At n b w
      → Post
          (λ _ t. At n b t × (t.is_open ≡ false))
          (λ _ t. At n b t × (t.is_open ≡ false))
          (close_file_locked w)
  unfolding close_file_locked
  close-Post b w at =
      by_test (Post (λ _ t. At n b t × (t.is_open ≡ false)) (λ _ t. At n b t × (t.is_open ≡ false)))
        w.is_open
        (λ _.
          call-Post (λ t. At n b t × (t.is_open ≡ false)) (λ t. At n b t × (t.is_open ≡ false)) _
            (record w { is_open = false }) (at, refl) (at, refl))
        (λ shut. (at, shut))

  join_errors-shut :
      (b m : Text) (w : LogWriter)
      → At n b w
      → At n b (join_errors m close_file_locked w).1
        × ((join_errors m close_file_locked w).1.is_open ≡ false)
  unfolding join_errors
  join_errors-shut b m w at = go (close_file_locked w) (close-Post b w at)
    where
      go :
          (o : Outcome Text LogWriter (Unit {0}))
          → Post (λ _ t. At n b t × (t.is_open ≡ false)) (λ _ t. At n b t × (t.is_open ≡ false)) o
          → At n b
              (elim o as (λ _. Text × LogWriter) [
                | done _ t ↦ (m, t)
                | failure second t ↦ (m ++ (10 ∷ second), t)
              ]).1
            × ((elim o as (λ _. Text × LogWriter) [
              | done _ t ↦ (m, t)
              | failure second t ↦ (m ++ (10 ∷ second), t)
            ]).1.is_open
                ≡ false)
      go (done a t) p = p
      go (failure e t) p = p

  report_and_close-Written :
      (b m : Text) (w : LogWriter) → Part n b w → Written b (report_and_close m w)
  unfolding report_and_close
  report_and_close-Written b m w part =
      let r = join_errors m close_file_locked w in
      let shut = join_errors-shut (logged w) m w (part.0, refl) in
      let at = report-At (logged w) r.0 r.1 shut.0 in
      ((at.0, rw at.1 part.1), λ opened. absurd (let e = shut_report r.0 r.1 shut.1 in cc))

  enforce_or_close-Written :
      (b : Text) (w : LogWriter) → At n b w → w.is_open ≡ true → Written b (enforce_or_close low w)
  unfolding enforce_or_close
  enforce_or_close-Written b w at opened =
      go (enforce_limit_locked low w) (enforce-Post b w at opened)
    where
      go :
          (o : Outcome Text LogWriter (Unit {0}))
          → Post (λ _. Cut n b) (λ _. Part n b) o
          → Written b (elim o [ done _ t ↦ t | failure m t ↦ report_and_close m t ])
      go (done a t) p = ((p.0, Within-Suffix _ b p.1), λ _. p.2)
      go (failure e t) p = report_and_close-Written b e t p

  write_open-Written :
      (b p : Text) (w : LogWriter)
      → w.max_bytes ≡ n
      → Suffix (logged w) b
      → w.is_open ≡ true
      → Written (b ++ p) (write_open low p w)
  unfolding write_open append_bytes
  write_open-Written b p w limit cut opened = go (append_bytes p w) (
      put-Post (λ t. At n (logged w ++ p) t × (t.is_open ≡ true)) (Part n (b ++ p)) _ _ _ w
        ((limit, logged-put_content (logged w ++ p) (drawn w)), opened)
        (limit, Within-trans _ _ _ (Within-prefix (logged w) p) grown)
        (λ k. (
          limit,
          rw (logged-put_content (logged w ++ take k p) (drawn w))
              (Within-trans _ _ _ (Within-append_take k (logged w) p) grown),
        )))
    where
      grown : Within (logged w ++ p) (b ++ p)
      grown = Within-Suffix _ _ (Suffix-append (logged w) b p cut)

      go :
          (o : Outcome Text LogWriter (Unit {0}))
          → Post (λ _ t. At n (logged w ++ p) t × (t.is_open ≡ true)) (λ _. Part n (b ++ p)) o
          → Written
              (b ++ p)
              (elim o [ done _ t ↦ enforce_or_close low t | failure m t ↦ report_and_close m t ])
      go (done a t) q =
          let r = enforce_or_close-Written (logged w ++ p) t q.0 q.1 in
          ((r.0.0, Within-trans _ _ _ r.0.1 grown), r.1)
      go (failure e t) q = report_and_close-Written (b ++ p) e t q

  abbrev Bounded : Text → Text → LogWriter → Type 0
  Bounded b p t =
      Part n (b ++ p) t
      × (t.is_open ≡ true → (length (logged t) ≤ n) ⊎ (length (logged t) ≤ length b))

  write-Bounded :
      (p : Text) (w : LogWriter) → w.max_bytes ≡ n → Bounded (logged w) p (write low p w).1
  unfolding write
  write-Bounded p w limit =
      by_test (λ (r : ℕ × LogWriter). Bounded (logged w) p r.1)
        (w.closed || is_empty p || not w.save_logs || is_empty w.path)
        (λ _. ((limit, Within-prefix (logged w) p), λ _. inr (omega arith)))
        (λ _. go (ensure_open_locked low w) (ensure-Post (logged w) w (limit, refl)))
    where
      go :
          (o : Outcome Text LogWriter (Unit {0}))
          → Post
              (λ _ t. (t.max_bytes ≡ n) × Suffix (logged t) (logged w) × (t.is_open ≡ true))
              (λ _. Part n (logged w))
              o
          → Bounded
              (logged w)
              p
              (elim o [ done _ t ↦ write_open low p t | failure m t ↦ report_error_locked m t ])
      go (done a t) q =
          let r = write_open-Written (logged w) p t q.0 q.1 q.2 in (r.0, λ opened. inl (r.1 opened))
      go (failure e t) q =
          let at = report-At (logged t) e t (q.0, refl) in
          (
            (at.0, rw at.1 (Within-trans _ _ _ q.1 (Within-prefix (logged w) p))),
            λ _. inr (rw at.1 (length-Within _ _ q.1)),
          )

-- After a Write the log is a connected part of what it was with the new bytes behind it, whatever fails, and it is
-- within the limit, or no longer than it was, or the writer has no file open; if there is a limit, and seven tenths of
-- a number, as they are computed, are not more than the number.
pub write_bounded :
    (low : ℕ → ℕ) (p : Text) (w : LogWriter)
    → Lowers low
    → 0 < w.max_bytes
    → Within (logged (write low p w).1) (logged w ++ p)
      × ((length (logged (write low p w).1) ≤ w.max_bytes)
          ⊎ (length (logged (write low p w).1) ≤ length (logged w))
          ⊎ ((write low p w).1.is_open ≡ false))
write_bounded low p w lowers positive =
    let r = write-Bounded low lowers w.max_bytes positive p w refl in
    (
      r.0.1,
      elim (Bool-cases (write low p w).1.is_open) [
        | inr shut ↦ inr (inr shut)
        | inl opened ↦ elim (r.1 opened) [ inl fits ↦ inl fits | inr short ↦ inr (inl short) ]
      ],
    )
