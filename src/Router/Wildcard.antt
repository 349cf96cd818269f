-- ===== src/Router/Wildcard.antt =====
-- `wildcardMatches` of processrouter/types.go: a loop that goes back to the last star, and what it is to compute.
-- An index is the rest of the text from it.
pub mod Matching
use kokorobox_service.Common.{
  ℕ, zero, suc, ◌+◌, ◌*◌, Bool, true, false, ◌&&◌, ◌||◌, Option, none, some, List, [], ◌∷◌, Text,
  is_empty, length, to_lower, ◌==◌, if◌then◌else◌,
}

-- A star matches any text, any other byte itself.
unfoldable pub any_tail : (Text → Bool) → Text → Bool
any_tail f [] = f []
any_tail f (x ∷ v) = f (x ∷ v) || any_tail f v

unfoldable pub starts_with : ℕ → (Text → Bool) → Text → Bool
starts_with c f [] = false
starts_with c f (x ∷ v) = (c == x) && f v

unfoldable pub matches : Text → Text → Bool
matches [] v = is_empty v
matches (c ∷ p) v = if c == b'*' then any_tail (matches p) v else starts_with c (matches p) v

-- The loop at the end, which skips the stars that are left.
unfoldable pub only_stars : Text → Bool
only_stars [] = true
only_stars (c ∷ p) = (c == b'*') && only_stars p

-- The rest of the pattern after the last star, and the text from where that rest was tried.
abbrev pub Star : Type 0
Star = Option (Text × Text)

-- One turn of the loop on a text that is not over, with the loop itself as an argument.
unfoldable pub go_back : (Text → Text → Star → Bool) → Star → Bool
go_back loop none = false
go_back loop (some (sp, [])) = false
go_back loop (some (sp, y ∷ sv)) = loop sp sv (some (sp, sv))

unfoldable pub turn : (Text → Text → Star → Bool) → Text → ℕ → Text → Star → Bool
turn loop [] x vs star = go_back loop star
turn loop (c ∷ p) x vs star =
    if c == x
    then loop p vs star
    else if c == b'*'
    then loop p (x ∷ vs) (some (p, x ∷ vs))
    else go_back loop star

unfoldable pub wildcard_loop : ℕ → Text → Text → Star → Bool
wildcard_loop n p [] star = only_stars p
wildcard_loop zero p (x ∷ vs) star = false
wildcard_loop (suc n) p (x ∷ vs) star = turn (wildcard_loop n) p x vs star

-- Enough turns: between two returns to a star there are at most as many as bytes are left.
unfoldable pub turns : Text → Text → ℕ
turns p v = suc (suc (length v) * suc (length p + length v) + (length p + length v))

unfoldable pub wildcard_matches : Text → Text → Bool
wildcard_matches pattern value =
    let p = to_lower pattern in let v = to_lower value in wildcard_loop (turns p v) p v none
