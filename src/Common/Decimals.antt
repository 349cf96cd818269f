-- ===== src/Common/Decimals.antt =====
-- strconv.FormatUint and strconv.ParseUint, base 10.
use Prim.Native.Nat.{ℕ, zero, suc, ◌+◌, ◌-◌, ◌*◌, ◌/◌, ◌%◌, ◌≤◌, ◌<◌}
use mathlib.Core.Path.{ap, ◌≡◌, refl, ◌∙◌}
use mathlib.Core.Logic.{inl, inr}
use mathlib.Core.Bool.{◌&&◌}
use mathlib.Core.List.{[], ◌∷◌}
use mathlib.Core.Option.{Option, none, some}
use native.Mathlib.Omega.{arith}
use kokorobox_service.Common.Tests.{le→leb, ltb, leb, if◌then◌else◌, Bool-cases}
use kokorobox_service.Common.Texts.{Text}

unfoldable pub parse_digits : ℕ → Text → Option ℕ
parse_digits acc [] = some acc
parse_digits acc (c ∷ s) =
    let rest = parse_digits (acc * 10 + (c - 48)) s in if leb 48 c && leb c 57 then rest else none

-- At most `limit`: 2^32 - 1 for a bit size of 32.
unfoldable pub parse_uint : ℕ → Text → Option ℕ
unfolding parse_digits
parse_uint limit [] = none
parse_uint limit (c ∷ s) = elim (parse_digits 0 (c ∷ s)) [
  | none ↦ none
  | some n ↦ if leb n limit then some n else none
]

unfoldable pub format_digits : ℕ → ℕ → Text → Text
format_digits zero n rest = rest
format_digits (suc fuel) n rest =
    let more = format_digits fuel (n / 10) ((48 + n % 10) ∷ rest) in
    if ltb n 10 then (48 + n) ∷ rest else more

-- A number has no more digits than its own value plus one.
unfoldable pub format_uint : ℕ → Text
unfolding format_digits
format_uint n = format_digits (suc n) n []

parse_digits-format_digits :
    (fuel n : ℕ) (rest : Text)
    → n < fuel
    → parse_digits 0 (format_digits fuel n rest) ≡ parse_digits n rest
unfolding parse_digits format_digits
parse_digits-format_digits zero n rest h = absurd (omega arith)
parse_digits-format_digits (suc fuel) n rest h = elim (Bool-cases (ltb n 10)) [
  | inl small ↦ rw small (ground arith)
  | inr large ↦
      rw large
        (parse_digits-format_digits fuel (n / 10) ((48 + n % 10) ∷ rest) (ground arith) ∙ step)
]
  where
    step : parse_digits (n / 10) ((48 + n % 10) ∷ rest) ≡ parse_digits n rest
    step =
        rw (le→leb 48 (48 + n % 10) (omega arith), le→leb (48 + n % 10) 57 (omega arith))
          (ap (λ k. parse_digits k rest) (omega arith))

format_digits_cons :
    (fuel n c : ℕ) (rest : Text) → (d : ℕ) × (s : Text) × (format_digits fuel n (c ∷ rest) ≡ d ∷ s)
unfolding format_digits
format_digits_cons zero n c rest = (c, rest, refl)
format_digits_cons (suc fuel) n c rest = elim (Bool-cases (ltb n 10)) [
  | inl small ↦ rw small (48 + n, c ∷ rest, refl)
  | inr large ↦ rw large (format_digits_cons fuel (n / 10) (48 + n % 10) (c ∷ rest))
]

pub format_uint_cons : (n : ℕ) → (d : ℕ) × (s : Text) × (format_uint n ≡ d ∷ s)
unfolding format_uint
format_uint_cons n = elim (Bool-cases (ltb n 10)) [
  | inl small ↦ rw small (48 + n, [], refl)
  | inr large ↦ rw large (format_digits_cons n (n / 10) (48 + n % 10) [])
]

parse_digits-format_uint : (n : ℕ) → parse_digits 0 (format_uint n) ≡ some n
unfolding parse_digits format_uint
parse_digits-format_uint n = parse_digits-format_digits (suc n) n [] (omega arith)

parse_uint_cons :
    (limit n d : ℕ) (s : Text)
    → parse_digits 0 (d ∷ s) ≡ some n
    → n ≤ limit
    → parse_uint limit (d ∷ s) ≡ some n
unfolding parse_uint
parse_uint_cons limit n d s e h = rw (e, parse_uint) (rw (le→leb n limit h))

-- Parsing what was formatted gives the number back, if it is within the limit.
pub parse_uint-format_uint : (limit n : ℕ) → n ≤ limit → parse_uint limit (format_uint n) ≡ some n
parse_uint-format_uint limit n h =
    let (d, s, e) = format_uint_cons n in
    rw e (parse_uint_cons limit n d s (rw e at (parse_digits-format_uint n)) h)
