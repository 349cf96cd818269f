-- ===== src/Router/Diagnostics/History.antt =====
-- The log of diagnostics against the history of all that was recorded since it was cleared.
use kokorobox_service.Router.Diagnostics.{
  [], ◌^◌, ◌%◌, is_empty, ◌-◌, length, drop, ◌+◌, if◌then◌else◌, ◌++◌, ◌∷◌, Text, List, ℕ,
  max_diagnostic_entries, DiagnosticEntry, Diagnostics, limit_message, append_entry,
  store_diagnostic, record_diagnostic_at, diagnostic_logs, clear_diagnostic_logs, clean_message,
}
use Prim.Native.Nat.{zero, suc}
use mathlib.Core.Path.{ap₂}
use kokorobox_service.Common.{
  refl, inr, inl, length-append, ltb, sym, Bool-cases, length-drop, ◌∙◌, arith, ap, suc, ◌≤◌, ◌≡◌,
}

pub data Call : Type 0 where
  log : Text → Text → Text → Call
  clear : Call

-- A history that forgets nothing but what is cleared.
pub record History : Type 0 where
  pub count : ℕ
  pub recorded : List DiagnosticEntry

-- The last entries of a list.
abbrev pub last : {A : Type 0} → ℕ → List A → List A
last n xs = drop (length xs - n) xs

abbrev pub extend : Text → Text → Text → History → History
extend time level message h = record {
  count = (h.count + 1) % 2 ^ 64;
  recorded =
      h.recorded
      ++ (record { id = (h.count + 1) % 2 ^ 64; time = time; message = message; level = level }
          ∷ []);
}

module _ (trim : Text → Text) where
  unfoldable pub note : History → Call → History
  note h (log time level message) =
      let cleaned = clean_message trim message in
      if is_empty cleaned then h else extend time level (limit_message cleaned) h
  note h clear = record h { recorded = [] }

  unfoldable pub step : Diagnostics → Call → Diagnostics
  step d (log time level message) = record_diagnostic_at trim time level message d
  step d clear = clear_diagnostic_logs d

  unfoldable pub run_history : History → List Call → History
  run_history h [] = h
  run_history h (c ∷ cs) = run_history (note h c) cs

  unfoldable pub run : Diagnostics → List Call → Diagnostics
  run d [] = d
  run d (c ∷ cs) = run (step d c) cs

length-last : {A : Type 0} (n : ℕ) (xs : List A) → length (last n xs) ≤ n
length-last n xs = omega (arith, length-drop (length xs - n) xs)

drop-append :
    {A : Type 0} (n : ℕ) (xs ys : List A) → n ≤ length xs → drop n (xs ++ ys) ≡ drop n xs ++ ys
drop-append zero xs ys h = refl
drop-append (suc n) [] ys h = absurd (omega arith)
drop-append (suc n) (x ∷ xs) ys h = drop-append n xs ys (omega arith)

drop-nil : (A : Type 0) (n : ℕ) → drop {A = A} n [] ≡ []
drop-nil A zero = refl
drop-nil A (suc n) = refl

drop-drop : {A : Type 0} (m n : ℕ) (xs : List A) → drop m (drop n xs) ≡ drop (n + m) xs
drop-drop m zero xs = ap (λ k. drop k xs) (omega arith)
drop-drop {A} m (suc n) [] = drop-nil A m ∙ sym (drop-nil A (suc n + m))
drop-drop m (suc n) (x ∷ xs) =
    let e : suc (n + m) ≡ suc n + m = omega arith in
    let tail : drop (suc (n + m)) (x ∷ xs) ≡ drop (suc n + m) (x ∷ xs) =
      ap (λ k. drop k (x ∷ xs)) e in
    drop-drop m n xs ∙ tail

-- Cutting after each append leaves what cutting once would leave.
last-append : {A : Type 0} (n : ℕ) (xs ys : List A) → last n (last n xs ++ ys) ≡ last n (xs ++ ys)
last-append n xs ys =
    ap (last n) (sym (drop-append j xs ys (omega arith)))
    ∙ drop-drop (length (drop j (xs ++ ys)) - n) j (xs ++ ys)
    ∙ ap (λ k. drop k (xs ++ ys)) (omega (arith, length-drop j (xs ++ ys), length-append xs ys))
  where
    j : ℕ
    j = length xs - n

append_entry-last :
    (e : DiagnosticEntry) (entries : List DiagnosticEntry)
    → append_entry e entries ≡ last max_diagnostic_entries (entries ++ (e ∷ []))
unfolding append_entry
append_entry-last e entries = elim (Bool-cases (ltb 1000 (length (entries ++ (e ∷ []))))) [
  | inl more ↦ rw more refl
  | inr fits ↦ rw fits (
      ap (λ k. drop k (entries ++ (e ∷ [])))
        (let few : length (entries ++ (e ∷ [])) - 1000 ≡ 0 = ground arith in sym few))
]

-- The log shows the last thousand entries of a history.
abbrev Shows : Diagnostics → History → Type 0
Shows d h = (d.next_id ≡ h.count) × (d.entries ≡ last max_diagnostic_entries h.recorded)

store-Shows :
    (time level message : Text) (d : Diagnostics) (h : History)
    → Shows d h
    → Shows (store_diagnostic time level message d) (extend time level message h)
unfolding store_diagnostic
store-Shows time level message d h shows = (
  ap (λ n. (n + 1) % 2 ^ 64) shows.0,
  append_entry-last _ d.entries
      ∙ ap₂ (λ n es. last max_diagnostic_entries (es ++ (entry n ∷ []))) shows.0 shows.1
      ∙ last-append max_diagnostic_entries h.recorded (entry h.count ∷ []),
)
  where
    entry : ℕ → DiagnosticEntry
    entry n = record { id = (n + 1) % 2 ^ 64; time = time; message = message; level = level }

module _ (trim : Text → Text) where
  step-Shows :
      (d : Diagnostics) (h : History) (c : Call) → Shows d h → Shows (step trim d c) (note trim h c)
  unfolding step note record_diagnostic_at clear_diagnostic_logs
  step-Shows d h clear shows = (shows.0, refl)
  step-Shows d h (log time level message) shows = go (clean_message trim message)
    where
      go :
          (cleaned : Text)
          → Shows
              (if is_empty cleaned
                then d
                else store_diagnostic time level (limit_message cleaned) d)
              (if is_empty cleaned then h else extend time level (limit_message cleaned) h)
      go [] = shows
      go (c ∷ s) = store-Shows time level (limit_message (c ∷ s)) d h shows

  run-Shows :
      (calls : List Call) (d : Diagnostics) (h : History)
      → Shows d h
      → Shows (run trim d calls) (run_history trim h calls)
  unfolding run run_history
  run-Shows [] d h shows = shows
  run-Shows (c ∷ cs) d h shows =
      run-Shows cs (step trim d c) (note trim h c) (step-Shows d h c shows)

  -- After any calls, DiagnosticLogs gives the last thousand entries of all that were recorded since the last clearing,
  -- and they are numbered on from before it.
  pub diagnostic_logs_refine :
      (calls : List Call)
      → diagnostic_logs (run trim (record { next_id = 0; entries = [] }) calls)
        ≡ last max_diagnostic_entries
            (run_history trim (record { count = 0; recorded = [] }) calls).recorded
  unfolding diagnostic_logs
  diagnostic_logs_refine calls = (run-Shows calls _ _ (refl, refl)).1
