-- ===== src/Common/Utf8.antt =====
-- UTF-8 on texts of bytes: utf8.ValidString and strings.ToValidUTF8.
use Prim.Native.Nat.{ℕ, zero, suc, ◌+◌, ◌≤◌, ◌<◌}
use mathlib.Core.Path.{◌≡◌, refl, sym, ◌∙◌}
use mathlib.Core.Logic.{◌≢◌, ◌⊎◌, inl, inr}
use mathlib.Core.Bool.{Bool, true, false, ◌&&◌}
use mathlib.Core.Option.{Option, none, some}
use mathlib.Core.List.{List, [], ◌∷◌}
use native.Mathlib.Omega.{arith}
use kokorobox_service.Common.Tests.{
  leb, ltb, ◌==◌, if◌then◌else◌, and_split, Bool-cases, Option-cases,
}
use kokorobox_service.Common.Lists.{length, take}
use kokorobox_service.Common.Texts.{Text}

-- The ranges of the bytes that may follow a first byte, if it is one.
unfoldable pub ranges_after : ℕ → Option (List (ℕ × ℕ))
ranges_after c =
    if ltb c 0x80
    then some []
    else if ltb c 0xC2
    then none
    else if ltb c 0xE0
    then some (rest ∷ [])
    else if c == 0xE0
    then some ((0xA0, 0xBF) ∷ rest ∷ [])
    else if c == 0xED
    then some ((0x80, 0x9F) ∷ rest ∷ [])
    else if ltb c 0xF0
    then some (rest ∷ rest ∷ [])
    else if c == 0xF0
    then some ((0x90, 0xBF) ∷ rest ∷ rest ∷ [])
    else if ltb c 0xF4
    then some (rest ∷ rest ∷ rest ∷ [])
    else if c == 0xF4
    then some ((0x80, 0x8F) ∷ rest ∷ rest ∷ [])
    else none
  where
    rest : ℕ × ℕ
    rest = (0x80, 0xBF)

unfoldable pub in_range : ℕ × ℕ → ℕ → Bool
in_range (lo, hi) c = leb lo c && leb c hi

-- Whether a text is valid from the midst of a rune on, of which bytes in these ranges are left.
unfoldable pub valid_in : List (ℕ × ℕ) → Text → Bool
unfolding in_range
valid_in [] [] = true
valid_in (r ∷ rs) [] = false
valid_in [] (c ∷ s) = elim (ranges_after c) [ none ↦ false | some rs ↦ valid_in rs s ]
valid_in (r ∷ rs) (c ∷ s) = in_range r c && valid_in rs s

unfoldable pub valid_string : Text → Bool
unfolding valid_in
valid_string s = valid_in [] s

unfoldable pub follows : List (ℕ × ℕ) → Text → Bool
unfolding in_range
follows [] s = true
follows (r ∷ rs) [] = false
follows (r ∷ rs) (c ∷ s) = in_range r c && follows rs s

-- The bytes of the rune that a text starts with, but the first; `none` if it starts with none.
unfoldable pub rune_rest : ℕ → Text → Option (List (ℕ × ℕ))
unfolding follows
rune_rest c s = elim (ranges_after c) [
  | none ↦ none
  | some rs ↦ if follows rs s then some rs else none
]

-- U+FFFD.
abbrev pub replacement : Text → Text
replacement s = 0xEF ∷ 0xBF ∷ 0xBD ∷ s

-- `skip` bytes of a valid rune are still to be copied. A run of invalid bytes is replaced once.
unfoldable pub to_valid : ℕ → Bool → Text → Text
unfolding rune_rest
to_valid skip invalid [] = []
to_valid (suc k) invalid (c ∷ s) = c ∷ to_valid k false s
to_valid zero invalid (c ∷ s) = elim (rune_rest c s) [
  | none ↦ if invalid then to_valid 0 true s else replacement (to_valid 0 true s)
  | some rs ↦ c ∷ to_valid (length rs) false s
]

unfoldable pub to_valid_utf8 : Text → Text
unfolding to_valid
to_valid_utf8 s = to_valid 0 false s

follows_split :
    (r : ℕ × ℕ) (rs : List (ℕ × ℕ)) (c : ℕ) (s : Text)
    → follows (r ∷ rs) (c ∷ s) ≡ true
    → (in_range r c ≡ true) × (follows rs s ≡ true)
unfolding follows
follows_split r rs c s h = and_split (in_range r c) (follows rs s) h

rune_rest-follows :
    (c : ℕ) (s : Text) {rs : List (ℕ × ℕ)}
    → rune_rest c s ≡ some rs
    → (ranges_after c ≡ some rs) × (follows rs s ≡ true)
unfolding rune_rest
rune_rest-follows c s h = elim (Option-cases (ranges_after c)) [
  | inl no_rune ↦ absurd (ground (arith, no_rune))
  | inr (ts, e) ↦ elim (Bool-cases (follows ts s)) [
    | inl f ↦ ground (arith, e, f)
    | inr f ↦ absurd (ground (arith, e, f))
  ]
]

valid_in_first :
    (c : ℕ) (s : Text) {rs : List (ℕ × ℕ)}
    → ranges_after c ≡ some rs
    → valid_in [] (c ∷ s) ≡ valid_in rs s
unfolding valid_in
valid_in_first c s e = rw (e, valid_in) refl

to_valid_rune :
    (invalid : Bool) (c : ℕ) (s : Text) {rs : List (ℕ × ℕ)}
    → rune_rest c s ≡ some rs
    → to_valid 0 invalid (c ∷ s) ≡ c ∷ to_valid (length rs) false s
unfolding to_valid
to_valid_rune invalid c s e = rw (e, to_valid) refl

to_valid_bad :
    (invalid : Bool) (c : ℕ) (s : Text)
    → rune_rest c s ≡ none
    → to_valid 0 invalid (c ∷ s)
      ≡ (if invalid then to_valid 0 true s else replacement (to_valid 0 true s))
unfolding to_valid
to_valid_bad invalid c s e = rw (e, to_valid) refl

replaced : (t : Text) → valid_in [] t ≡ true → valid_in [] (replacement t) ≡ true
unfolding valid_in ranges_after in_range
replaced t h = h

first_valid :
    (invalid : Bool) (c : ℕ) (s : Text)
    → valid_in [] (to_valid 0 true s) ≡ true
    → ((rs : List (ℕ × ℕ))
        → follows rs s ≡ true
        → valid_in rs (to_valid (length rs) false s) ≡ true)
    → valid_in [] (to_valid 0 invalid (c ∷ s)) ≡ true
first_valid invalid c s bad good = elim (Option-cases (rune_rest c s)) [
  | inl e ↦ rw (to_valid_bad invalid c s e) (after_bad invalid)
  | inr (rs, e) ↦
      let (r, f) = rune_rest-follows c s e in
      rw (to_valid_rune invalid c s e)
        (valid_in_first c (to_valid (length rs) false s) r ∙ good rs f)
]
  where
    after_bad :
        (b : Bool)
        → valid_in [] (if b then to_valid 0 true s else replacement (to_valid 0 true s)) ≡ true
    after_bad true = bad
    after_bad false = replaced _ bad

to_valid-valid_in :
    (rs : List (ℕ × ℕ)) (invalid : Bool) (s : Text)
    → follows rs s ≡ true
    → valid_in rs (to_valid (length rs) invalid s) ≡ true
unfolding valid_in to_valid follows
to_valid-valid_in [] invalid [] h = refl
to_valid-valid_in (r ∷ rs) invalid [] h = cc
to_valid-valid_in (r ∷ rs) invalid (c ∷ s) h =
    let both = and_split (in_range r c) (follows rs s) h in
    rw both.0 (to_valid-valid_in rs false s both.1)
to_valid-valid_in [] invalid (c ∷ s) h =
    first_valid invalid c s (to_valid-valid_in [] true s refl) (λ rs. to_valid-valid_in rs false s)

pub to_valid_utf8_valid : (s : Text) → valid_string (to_valid_utf8 s) ≡ true
unfolding valid_string to_valid_utf8 follows
to_valid_utf8_valid s = to_valid-valid_in [] false s refl

-- A cut in a valid text leaves at most three bytes of a rune.
module _ (n : ℕ) (s : Text) (rs : List (ℕ × ℕ)) where
  abbrev Near : Type 0
  Near = (m : ℕ) × (m ≤ n) × (n ≤ m + 3) × (valid_in rs (take m s) ≡ true)

pub length-ranges_after : (c : ℕ) {rs : List (ℕ × ℕ)} → ranges_after c ≡ some rs → length rs ≤ 3
unfolding ranges_after
length-ranges_after c h = ground arith

bad_first : (c : ℕ) (s : Text) → ranges_after c ≡ none → valid_in [] (c ∷ s) ≢ true
unfolding valid_in
bad_first c s e = rw (e, valid_in) (λ h. cc)

cut_near :
    (n : ℕ) (s : Text) (rs : List (ℕ × ℕ))
    → valid_in rs s ≡ true
    → n ≤ length s
    → (n < length rs) ⊎ Near n s rs
unfolding valid_in
cut_near zero s [] h le = inr (0, omega arith, omega arith, refl)
cut_near zero s (r ∷ rs) h le = inl (omega arith)
cut_near (suc n) [] rs h le = absurd (omega arith)
cut_near (suc n) (c ∷ s) (r ∷ rs) h le =
    let both = and_split (in_range r c) (valid_in rs s) h in
    elim (cut_near n s rs both.1 (omega arith)) [
      | inl short ↦ inl (omega arith)
      | inr (m, a, b, v) ↦ inr (suc m, omega arith, omega arith, rw (both.0) v)
    ]
cut_near (suc n) (c ∷ s) [] h le = elim (Option-cases (ranges_after c)) [
  | inl e ↦ absurd (bad_first c s e h)
  | inr (rs, e) ↦ elim (cut_near n s rs (sym (valid_in_first c s e) ∙ h) (omega arith)) [
    | inl short ↦ inr (0, omega arith, omega (arith, length-ranges_after c e), refl)
    | inr (m, a, b, v) ↦ inr (suc m, omega arith, omega arith, valid_in_first c (take m s) e ∙ v)
  ]
]

pub valid_cut :
    (n : ℕ) (s : Text)
    → valid_string s ≡ true
    → n ≤ length s
    → (m : ℕ) × (m ≤ n) × (n ≤ m + 3) × (valid_string (take m s) ≡ true)
unfolding valid_string
valid_cut n s h le = elim (cut_near n s [] h le) [
  | inl short ↦ absurd (omega arith)
  | inr near ↦ near
]
