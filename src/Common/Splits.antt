-- ===== src/Common/Splits.antt =====
-- strings.Split undoes strings.Join where no part holds the separator.
use mathlib.Core.List.{List, [], ◌∷◌, ◌++◌, reverse, reverse-cons, append_assoc, append-nil}
use mathlib.Core.Path.{◌≡◌, refl, ap, ◌∙◌}
use mathlib.Core.Bool.{true, not, false}
use Prim.Native.Nat.{ℕ}
use native.Mathlib.Omega.{arith}
use kokorobox_service.Common.Tests.{and_split, eq→eqb, ◌==◌}
use kokorobox_service.Common.Lists.{all, All}
use kokorobox_service.Common.Texts.{Text, split_from, split_on, join}

abbrev pub Free : ℕ → Text → Type 0
Free sep = All (λ c. (c == sep) ≡ false)

shift : (c : ℕ) (acc s : Text) → reverse (c ∷ acc) ++ s ≡ reverse acc ++ (c ∷ s)
shift c acc s = rw (reverse-cons c acc) (append_assoc (reverse acc) (c ∷ []) s)

split_from_last :
    (sep : ℕ) (acc s : Text) → Free sep s → split_from sep acc s ≡ (reverse acc ++ s) ∷ []
unfolding split_from
split_from_last sep acc [] f = rw (append-nil (reverse acc))
split_from_last sep acc (c ∷ s) f =
    rw f.0 (split_from_last sep (c ∷ acc) s f.1 ∙ ap (λ t. t ∷ []) (shift c acc s))

split_from_part :
    (sep : ℕ) (acc s rest : Text)
    → Free sep s
    → split_from sep acc (s ++ (sep ∷ rest)) ≡ (reverse acc ++ s) ∷ split_from sep [] rest
unfolding split_from
split_from_part sep acc [] rest f = rw (eq→eqb sep sep refl, append-nil (reverse acc))
split_from_part sep acc (c ∷ s) rest f = rw f.0 (
    split_from_part sep (c ∷ acc) s rest f.1 ∙ ap (λ t. t ∷ split_from sep [] rest) (shift c acc s))

pub split_on-join :
    (sep : ℕ) (s : Text) (parts : List Text)
    → All (Free sep) (s ∷ parts)
    → split_on sep (join sep (s ∷ parts)) ≡ s ∷ parts
unfolding split_on join
split_on-join sep s [] f = split_from_last sep [] s f.0
split_on-join sep s (t ∷ parts) f =
    split_from_part sep [] s (join sep (t ∷ parts)) f.0 ∙ ap (◌∷◌ s) (split_on-join sep t parts f.1)

pub Free-of_all : (sep : ℕ) (s : Text) → all (λ c. not (c == sep)) s ≡ true → Free sep s
unfolding all
Free-of_all sep [] h = tt
Free-of_all sep (c ∷ s) h =
    let (here, rest) = and_split (not (c == sep)) (all (λ d. not (d == sep)) s) h in
    (ground arith, Free-of_all sep s rest)
