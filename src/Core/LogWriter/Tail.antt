-- ===== src/Core/LogWriter/Tail.antt =====
-- What the log holds is always a part of what was written to it.
use kokorobox_service.Core.LogWriter.{after_newline, from_line_start}
use kokorobox_service.Common.{
  ◌∙◌, ◌==◌, sym, Bool-cases, ◌++◌, length-append, take-append-drop, ap, arith, ◌∷◌, ◌≤◌,
  Option-cases, ◌≡◌, drop, [], length, take, Text, ℕ, inr, inl, some, refl,
}
use mathlib.Core.List.{append_assoc, append-nil}

-- A text that another ends in, and one that stands somewhere in another.
abbrev pub Suffix : Text → Text → Type 0
Suffix s t = (before : Text) × (before ++ s ≡ t)

abbrev pub Within : Text → Text → Type 0
Within s t = (before : Text) × (behind : Text) × (before ++ (s ++ behind) ≡ t)

pub Suffix-refl : (s : Text) → Suffix s s
Suffix-refl s = ([], refl)

pub Suffix-trans : (r s t : Text) → Suffix r s → Suffix s t → Suffix r t
Suffix-trans r s t (a, e) (b, f) = (b ++ a, append_assoc b a r ∙ ap (◌++◌ b) e ∙ f)

pub Suffix-append : (s t p : Text) → Suffix s t → Suffix (s ++ p) (t ++ p)
Suffix-append s t p (a, e) = (a, sym (append_assoc a s p) ∙ ap (λ x. x ++ p) e)

pub Within-Suffix : (s t : Text) → Suffix s t → Within s t
Within-Suffix s t (a, e) = (a, [], ap (◌++◌ a) (append-nil s) ∙ e)

pub Within-trans : (r s t : Text) → Within r s → Within s t → Within r t
Within-trans r s t (a, b, e) (c, d, f) = (c ++ a, b ++ d, step ∙ f)
  where
    step : (c ++ a) ++ (r ++ (b ++ d)) ≡ c ++ (s ++ d)
    step =
        append_assoc c a (r ++ (b ++ d))
        ∙ ap (◌++◌ c) (
            ap (◌++◌ a) (sym (append_assoc r b d))
            ∙ sym (append_assoc a (r ++ b) d)
            ∙ ap (λ x. x ++ d) e)

pub Within-take : (n : ℕ) (s : Text) → Within (take n s) s
Within-take n s = ([], drop n s, take-append-drop n s)

pub Within-prefix : (s p : Text) → Within s (s ++ p)
Within-prefix s p = ([], p, refl)

pub Within-append_take : (n : ℕ) (s p : Text) → Within (s ++ take n p) (s ++ p)
Within-append_take n s p =
    ([], drop n p, append_assoc s (take n p) (drop n p) ∙ ap (◌++◌ s) (take-append-drop n p))

pub Suffix-drop : (n : ℕ) (s : Text) → Suffix (drop n s) s
Suffix-drop n s = (take n s, take-append-drop n s)

pub length-Within : (s t : Text) → Within s t → length s ≤ length t
length-Within s t (a, b, e) =
    omega (arith, length-append a (s ++ b), length-append s b, ap length e)

after_newline-Suffix : (s : Text) {r : Text} → after_newline s ≡ some r → Suffix r s
unfolding after_newline
after_newline-Suffix [] h = absurd (ground arith)
after_newline-Suffix (c ∷ s) {r} h = elim (Bool-cases (c == 10)) [
  | inl e ↦ (c ∷ [], ground (arith, e))
  | inr e ↦
      let later : after_newline s ≡ some r = ground (arith, e) in
      let (a, f) = after_newline-Suffix s later in (c ∷ a, ap (◌∷◌ c) f)
]

pub from_line_start-Suffix : (s : Text) → Suffix (from_line_start s) s
unfolding from_line_start
from_line_start-Suffix s = elim (Option-cases (after_newline s)) [
  | inl e ↦ rw (e, from_line_start) (Suffix-refl s)
  | inr ([], e) ↦ rw (e, from_line_start) (Suffix-refl s)
  | inr (c ∷ r, e) ↦ rw (e, from_line_start) (after_newline-Suffix s e)
]
