-- ===== src/Common/Trim.antt =====
-- When strings.TrimSpace has nothing to do.
use mathlib.Core.List.{reverse-append, reverse, reverse-cons, reverse-reverse, [], ◌∷◌, ◌++◌}
use mathlib.Core.Path.{sym, ap, ◌∙◌, ◌≡◌, refl}
use mathlib.Core.Bool.{false}
use native.Mathlib.Omega.{arith}
use Prim.Native.Nat.{ℕ, zero, suc, ◌+◌, ◌%◌, ◌/◌}
use kokorobox_service.Common.Tests.{ltb, Bool-cases}
use mathlib.Core.Logic.{◌⊎◌, inl, inr}
use kokorobox_service.Common.Lists.{All}
use kokorobox_service.Common.Texts.{Text, is_space, trim_left, trim_space}
use kokorobox_service.Common.Decimals.{format_digits, format_uint}

abbrev pub NoSpace : Text → Type 0
NoSpace = All (λ c. is_space c ≡ false)

NoSpace-append : (s t : Text) → NoSpace s → NoSpace t → NoSpace (s ++ t)
NoSpace-append [] t h k = k
NoSpace-append (c ∷ s) t h k = (h.0, NoSpace-append s t h.1 k)

NoSpace-reverse : (s : Text) → NoSpace s → NoSpace (reverse s)
NoSpace-reverse [] h = tt
NoSpace-reverse (c ∷ s) h =
    rw (reverse-cons c s) (NoSpace-append (reverse s) (c ∷ []) (NoSpace-reverse s h.1) (h.0, tt))

trim_left-NoSpace : (s : Text) → NoSpace s → trim_left s ≡ s
unfolding trim_left
trim_left-NoSpace [] h = refl
trim_left-NoSpace (c ∷ s) h = rw h.0

pub trim_space-NoSpace : (s : Text) → NoSpace s → trim_space s ≡ s
unfolding trim_space
trim_space-NoSpace s h =
    rw (trim_left-NoSpace s h, trim_left-NoSpace (reverse s) (NoSpace-reverse s h))
      (reverse-reverse s)

digit_no_space : (n : ℕ) → is_space (48 + n) ≡ false
unfolding is_space
digit_no_space n = ground arith

format_digits-NoSpace :
    (fuel n : ℕ) (rest : Text) → NoSpace rest → NoSpace (format_digits fuel n rest)
unfolding format_digits
format_digits-NoSpace zero n rest h = h
format_digits-NoSpace (suc fuel) n rest h = elim (Bool-cases (ltb n 10)) [
  | inl small ↦ rw small (digit_no_space n, h)
  | inr large ↦
      rw large
        (format_digits-NoSpace fuel (n / 10) ((48 + n % 10) ∷ rest) (digit_no_space (n % 10), h))
]

pub trim_space-format_uint : (n : ℕ) → trim_space (format_uint n) ≡ format_uint n
unfolding format_uint
trim_space-format_uint n =
    trim_space-NoSpace (format_digits (suc n) n []) (format_digits-NoSpace (suc n) n [] tt)

trim_left_head :
    (s : Text)
    → (trim_left s ≡ []) ⊎ ((c : ℕ) × (t : Text) × (trim_left s ≡ c ∷ t) × (is_space c ≡ false))
unfolding trim_left
trim_left_head [] = inl refl
trim_left_head (c ∷ s) = elim (Bool-cases (is_space c)) [
  | inl space ↦ rw space (trim_left_head s)
  | inr other ↦ rw other (inr (c, s, refl, other))
]

trim_left_stop : (c : ℕ) (s : Text) → is_space c ≡ false → trim_left (c ∷ s) ≡ c ∷ s
unfolding trim_left
trim_left_stop c s h = rw h

trim_left_idem : (s : Text) → trim_left (trim_left s) ≡ trim_left s
trim_left_idem s = elim (trim_left_head s) [
  | inl e ↦ rw e (unfold trim_left in refl)
  | inr (c, t, e, other) ↦ rw e (trim_left_stop c t other)
]

trim_left-append_last :
    (s : Text) (c : ℕ) → is_space c ≡ false → (t : Text) × (trim_left (s ++ c ∷ []) ≡ t ++ c ∷ [])
unfolding trim_left
trim_left-append_last [] c h = ([], rw h)
trim_left-append_last (d ∷ s) c h = elim (Bool-cases (is_space d)) [
  | inl space ↦ let (t, e) = trim_left-append_last s c h in (t, rw space e)
  | inr other ↦ (d ∷ s, rw other)
]

-- What is left of a text from its first byte that is no space.
trim_right : Text → Text
trim_right s = reverse (trim_left (reverse s))

trim_right_idem : (s : Text) → trim_right (trim_right s) ≡ trim_right s
unfolding trim_right
trim_right_idem s = rw (reverse-reverse (trim_left (reverse s)), trim_left_idem (reverse s))

trim_left-trim_right :
    (c : ℕ) (s : Text) → is_space c ≡ false → trim_left (trim_right (c ∷ s)) ≡ trim_right (c ∷ s)
unfolding trim_right
trim_left-trim_right c s h =
    let (t, e) = trim_left-append_last (reverse s) c h in
    rw (reverse-cons c s, e, reverse-append t (c ∷ [])) (trim_left_stop c (reverse t) h)

trim_left-trim_space : (s : Text) → trim_left (trim_space s) ≡ trim_space s
unfolding trim_space
trim_left-trim_space s = elim (trim_left_head s) [
  | inl e ↦ rw e (unfold trim_left in refl)
  | inr (c, t, e, other) ↦ rw e (unfold trim_right in trim_left-trim_right c t other)
]

trim_space_lem : (s : Text) → trim_space s ≡ trim_right (trim_left s)
unfolding trim_space trim_right
trim_space_lem s = refl

pub trim_space_idem : (s : Text) → trim_space (trim_space s) ≡ trim_space s
trim_space_idem s =
    trim_space_lem (trim_space s)
    ∙ ap trim_right (trim_left-trim_space s ∙ trim_space_lem s)
    ∙ trim_right_idem (trim_left s)
    ∙ sym (trim_space_lem s)
