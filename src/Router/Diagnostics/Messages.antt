-- ===== src/Router/Diagnostics/Messages.antt =====
-- What the log of diagnostics keeps of a message.
use kokorobox_service.Router.Diagnostics.{
  Diagnostics, cut_invalid, limit_message, max_message, clean_message, record_diagnostic_at,
  store_diagnostic,
}
use kokorobox_service.Common.{
  take-append-drop, drop, valid_cut, ◌⊎◌, ◌++◌, ◌∙◌, sym, [], eqb→eq, ap, ltb, ◌==◌, ◌∷◌, arith,
  Bool-cases, to_valid_utf8_valid, take, ◌≡◌, length, is_empty, ◌≤◌, List, valid_string, Text, ℕ,
  false, true, inr, inl, suc, zero, refl,
}
use mathlib.Core.List.{append-nil}

-- A message that is kept of a text: a prefix in valid UTF-8, at most 4096 bytes, that is the whole text or lacks at
-- most three bytes of a rune to the limit.
pub record Kept (s : Text) (m : Text) : Type 0 where
  pub rest : Text
  pub prefix : m ++ rest ≡ s
  pub valid : valid_string m ≡ true
  pub short : length m ≤ max_message
  pub long : (m ≡ s) ⊎ (4093 ≤ length m)

cut_invalid_lem :
    (n m : ℕ) (s : Text)
    → m ≤ n
    → valid_string (take m s) ≡ true
    → (k : ℕ) × (m ≤ k) × (k ≤ n) × (cut_invalid n s ≡ take k s) × (valid_string (take k s) ≡ true)
unfolding cut_invalid
cut_invalid_lem zero m s le v =
    let e : m ≡ 0 = omega arith in (0, omega arith, omega arith, refl, rw e at v)
cut_invalid_lem (suc n) m s le v = elim (Bool-cases (valid_string (take (suc n) s))) [
  | inl good ↦ (suc n, le, omega arith, rw (good, cut_invalid) refl, good)
  | inr bad ↦ elim (Bool-cases (m == suc n)) [
    | inl last ↦ absurd (
        let e : m ≡ suc n = eqb→eq m (suc n) last in
        let v' : valid_string (take (suc n) s) ≡ true = rw e at v in cc (sym v' ∙ bad))
    | inr before ↦
        let (k, a, b, c, d) = cut_invalid_lem n m s (ground arith) v in
        (k, a, omega arith, rw (bad, cut_invalid) c, d)
  ]
]

length-take : {A : Type 0} (n : ℕ) (xs : List A) → n ≤ length xs → length (take n xs) ≡ n
length-take zero xs h = refl
length-take (suc n) [] h = absurd (omega arith)
length-take (suc n) (x ∷ xs) h = ap suc (length-take n xs (omega arith))

limit_message-Kept : (s : Text) → valid_string s ≡ true → Kept s (limit_message s)
unfolding limit_message
limit_message-Kept s v = elim (Bool-cases (ltb max_message (length s))) [
  | inr fits ↦ rw fits (record {
    rest = [];
    prefix = append-nil s;
    valid = v;
    short = ground arith;
    long = inl refl;
  })
  | inl more ↦
      let le : 4096 ≤ length s = ground arith in
      let (m, a, b, good) = valid_cut max_message s v le in
      let (k, c, d, e, valid) = cut_invalid_lem max_message m s a good in
      let len = length-take k s (omega arith) in
      rw (more, e)
        (record {
          rest = drop k s;
          prefix = take-append-drop k s;
          valid = valid;
          short = omega arith;
          long = inr (omega arith);
        })
]

-- A message of which something is left after trimming is stored as a prefix of its valid form, in valid UTF-8, that is
-- the whole of it or has 4093 to 4096 bytes.
pub record_diagnostic_at_keeps :
    (trim : Text → Text) (time level message : Text) (d : Diagnostics)
    → is_empty (clean_message trim message) ≡ false
    → (m : Text) × Kept (clean_message trim message) m
      × (record_diagnostic_at trim time level message d ≡ store_diagnostic time level m d)
unfolding record_diagnostic_at
record_diagnostic_at_keeps trim time level message d some_text = (
  limit_message (clean_message trim message),
  limit_message-Kept (clean_message trim message)
      (unfold clean_message in to_valid_utf8_valid (trim message)),
  rw some_text refl,
)
