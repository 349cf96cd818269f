-- ===== src/Router/Wildcard/Matching.antt =====
-- The loop of `wildcardMatches` of processrouter/types.go and the reference definition.
use native.Mathlib.Nat.{mul-le-mul_right}
use kokorobox_service.Common.{
  sym, ◌∙◌, ap, ℕ, zero, suc, ◌+◌, ◌*◌, ◌≤◌, ◌<◌, ◌≡◌, refl, Bool, true, false, ◌||◌, none, some,
  [], ◌∷◌, Text, length, drop, ◌==◌, arith, All, to_lower, Bool-cases, inl, inr,
}
use kokorobox_service.Router.Wildcard.{
  any_tail, starts_with, matches, only_stars, Star, go_back, turn, wildcard_loop, turns,
  wildcard_matches,
}

any_tail-drop :
    (f : Text → Bool) (k : ℕ) (v : Text) → any_tail f (drop k v) ≡ true → any_tail f v ≡ true
unfolding any_tail
any_tail-drop f zero v h = h
any_tail-drop f (suc k) [] h = h
any_tail-drop f (suc k) (x ∷ v) h = ground (arith, any_tail-drop f k v h)

any_tail-drop-eq :
    (f : Text → Bool) (v : Text) → any_tail f v ≡ true → (k : ℕ) × (f (drop k v) ≡ true)
unfolding any_tail
any_tail-drop-eq f [] h = (0, h)
any_tail-drop-eq f (x ∷ v) h = elim (Bool-cases (f (x ∷ v))) [
  | inl here ↦ (0, here)
  | inr other ↦ let (k, e) = any_tail-drop-eq f v (ground (arith, other)) in (suc k, e)
]

drop-nil : (j : ℕ) → drop {A = ℕ} j [] ≡ []
drop-nil zero = refl
drop-nil (suc j) = refl

drop-suc : (k : ℕ) (v : Text) → drop (suc k) v ≡ drop 1 (drop k v)
drop-suc zero v = refl
drop-suc (suc k) [] = refl
drop-suc (suc k) (x ∷ v) = drop-suc k v

drop_comm : (j k : ℕ) (v : Text) → drop j (drop k v) ≡ drop k (drop j v)
drop_comm zero k v = refl
drop_comm (suc j) k v =
    drop-suc j (drop k v)
    ∙ ap (drop 1) (drop_comm j k v)
    ∙ swap k (drop j v)
    ∙ ap (drop k) (sym (drop-suc j v))
  where
    swap : (k : ℕ) (v : Text) → drop 1 (drop k v) ≡ drop k (drop 1 v)
    swap zero v = refl
    swap (suc k) [] = sym (drop-nil (suc k))
    swap (suc k) (x ∷ v) = sym (drop-suc k v)

-- What is left to try of the last star.
unfoldable later : Star → Bool
later none = false
later (some (sp, [])) = false
later (some (sp, y ∷ sv)) = any_tail (matches sp) sv

-- The text has no star.
abbrev pub NoStar : Text → Type 0
NoStar v = All (λ c. (c == b'*') ≡ false) v

-- Where the loop stands: the bytes since the last star matched, one by one.
abbrev Since : Text → Text → Star → Type 0
Since p v none = Unit {0}
Since p v (some (sp, sv)) =
    (m : ℕ) × NoStar sv
    × (v ≡ drop m sv)
    × ((w : Text) → matches sp w ≡ true → matches p (drop m w) ≡ true)

only_stars_lem : (p : Text) → only_stars p ≡ matches p []
unfolding only_stars matches any_tail starts_with
only_stars_lem [] = refl
only_stars_lem (c ∷ p) = ground (arith, only_stars_lem p)

later-matches :
    (p v : Text) (star : Star)
    → Since p v star
    → later star ≡ true
    → (k : ℕ) × (matches p (drop (suc k) v) ≡ true)
unfolding later
later-matches p v none since h = cc
later-matches p v (some (sp, [])) since h = cc
later-matches p v (some (sp, y ∷ sv)) (m, free, e, keeps) h =
    let (k, found) = any_tail-drop-eq (matches sp) sv h in
    (k, rw (e, drop_comm (suc k) m (y ∷ sv)) (keeps (drop (suc k) (y ∷ sv)) found))

-- How far a return to the star can still go.
abbrev Room : ℕ → ℕ → Text → Text → Star → Type 0
Room b n p v none = (length p + length v ≤ b) × (suc (length v) * suc b + (length p + length v) < n)
Room b n p v (some (sp, sv)) =
    (length p + length v ≤ b)
    × (length v ≤ length sv)
    × (length sp + length sv ≤ b)
    × (length sv * suc b + (length p + length v) < n)

-- What the loop is to compute, with so many turns.
abbrev Right : ℕ → ℕ → Type 0
Right b n =
    (p v : Text) (star : Star)
    → NoStar v
    → Since p v star
    → Room b n p v star
    → wildcard_loop n p v star ≡ (matches p v || later star)

later-split : (sp sv : Text) → (matches sp sv || later (some (sp, sv))) ≡ any_tail (matches sp) sv
unfolding later any_tail
later-split sp [] = ground arith
later-split sp (y ∷ sv) = refl

back_lem :
    (b n : ℕ) (p : Text) (x : ℕ) (vs : Text) (star : Star)
    → Since p (x ∷ vs) star
    → Room b (suc n) p (x ∷ vs) star
    → Right b n
    → go_back (wildcard_loop n) star ≡ later star
unfolding go_back later
back_lem b n p x vs none since room ih = refl
back_lem b n p x vs (some (sp, [])) since room ih = refl
back_lem b n p x vs (some (sp, y ∷ sv)) (m, free, e, keeps) room ih =
    ih sp sv (some (sp, sv)) free.1 (0, free.1, refl, λ w h. h)
      (omega arith, omega arith, omega arith, omega arith)
    ∙ later-split sp sv

matches_plain :
    (c : ℕ) (p v : Text)
    → (c == b'*') ≡ false
    → matches (c ∷ p) v ≡ true
    → matches p (drop 1 v) ≡ true
unfolding matches starts_with
matches_plain c p [] plain h = ground (arith, plain)
matches_plain c p (x ∷ v) plain h = ground (arith, plain)

-- One byte more since the star.
Since-step :
    (c : ℕ) (p : Text) (x : ℕ) (vs : Text) (star : Star)
    → (c == b'*') ≡ false
    → Since (c ∷ p) (x ∷ vs) star
    → Since p vs star
Since-step c p x vs none plain since = tt
Since-step c p x vs (some (sp, sv)) plain (m, free, e, keeps) = (
  suc m,
  free,
  ap (drop 1) e ∙ sym (drop-suc m sv),
  λ w h. rw (drop-suc m w) (matches_plain c p (drop m w) plain (keeps w h)),
)

absorb : (b l : Bool) → (l ≡ true → b ≡ true) → b ≡ (b || l)
absorb true l h = refl
absorb false true h = h refl
absorb false false h = refl

-- A star that is reached makes the last one needless.
star_absorbs :
    (c : ℕ) (p v : Text) (star : Star)
    → (c == b'*') ≡ true
    → Since (c ∷ p) v star
    → later star ≡ true
    → any_tail (matches p) v ≡ true
unfolding matches
star_absorbs c p v star is_star since h =
    let (k, found) = later-matches (c ∷ p) v star since h in
    any_tail-drop (matches p) (suc k) v (simp is_star at found)

step_same :
    (b n c : ℕ) (p : Text) (x : ℕ) (vs : Text) (star : Star)
    → NoStar (x ∷ vs)
    → Since (c ∷ p) (x ∷ vs) star
    → Room b (suc n) (c ∷ p) (x ∷ vs) star
    → Right b n
    → (c == x) ≡ true
    → wildcard_loop n p vs star ≡ (matches (c ∷ p) (x ∷ vs) || later star)
unfolding matches starts_with
step_same b n c p x vs star free since room ih same =
    let plain : (c == b'*') ≡ false = ground (arith, free.0, same) in
    ih p vs star free.1 (Since-step c p x vs star plain since) (shrink star room)
    ∙ simp (plain, same)
  where
    shrink : (star : Star) → Room b (suc n) (c ∷ p) (x ∷ vs) star → Room b n p vs star
    shrink none room = (omega arith, omega arith)
    shrink (some (sp, sv)) room = (omega arith, omega arith, omega arith, omega arith)

step_star :
    (b n c : ℕ) (p : Text) (x : ℕ) (vs : Text) (star : Star)
    → NoStar (x ∷ vs)
    → Since (c ∷ p) (x ∷ vs) star
    → Room b (suc n) (c ∷ p) (x ∷ vs) star
    → Right b n
    → (c == b'*') ≡ true
    → wildcard_loop n p (x ∷ vs) (some (p, x ∷ vs)) ≡ (matches (c ∷ p) (x ∷ vs) || later star)
unfolding matches
step_star b n c p x vs star free since room ih is_star =
    ih p (x ∷ vs) (some (p, x ∷ vs)) free (0, free, refl, λ w h. h) (room' star room)
    ∙ later-split p (x ∷ vs)
    ∙ absorb (any_tail (matches p) (x ∷ vs)) (later star)
        (star_absorbs c p (x ∷ vs) star is_star since)
    ∙ simp is_star
  where
    room' :
        (star : Star)
        → Room b (suc n) (c ∷ p) (x ∷ vs) star
        → Room b n p (x ∷ vs) (some (p, x ∷ vs))
    room' none room = (omega arith, omega arith, omega arith, omega arith)
    room' (some (sp, sv)) room =
        (omega arith, omega arith, omega arith, omega (arith, mul-le-mul_right (suc b) room.1))

step_other :
    (c : ℕ) (p : Text) (x : ℕ) (vs : Text)
    → (c == x) ≡ false
    → (c == b'*') ≡ false
    → matches (c ∷ p) (x ∷ vs) ≡ false
unfolding matches starts_with
step_other c p x vs other plain = simp (other, plain)

matches_nil : (x : ℕ) (vs : Text) → matches [] (x ∷ vs) ≡ false
unfolding matches
matches_nil x vs = refl

loop_step :
    (b n : ℕ) (p : Text) (x : ℕ) (vs : Text) (star : Star)
    → NoStar (x ∷ vs)
    → Since p (x ∷ vs) star
    → Room b (suc n) p (x ∷ vs) star
    → Right b n
    → turn (wildcard_loop n) p x vs star ≡ (matches p (x ∷ vs) || later star)
unfolding turn
loop_step b n [] x vs star free since room ih =
    back_lem b n [] x vs star since room ih ∙ ap (λ m. m || later star) (sym (matches_nil x vs))
loop_step b n (c ∷ p) x vs star free since room ih = elim (Bool-cases (c == x)) [
  | inl same ↦ rw same (step_same b n c p x vs star free since room ih same)
  | inr other ↦ rw other (elim (Bool-cases (c == b'*')) [
    | inl is_star ↦ rw is_star (step_star b n c p x vs star free since room ih is_star)
    | inr plain ↦
        rw (plain, step_other c p x vs other plain) (back_lem b n (c ∷ p) x vs star since room ih)
  ])
]

no-Room : (b : ℕ) (p v : Text) (star : Star) → Room b 0 p v star → ⊥
no-Room b p v none room = omega arith
no-Room b p v (some (sp, sv)) room = omega arith

loop-Right : (b n : ℕ) → Right b n
unfolding wildcard_loop
loop-Right b n p [] star free since room =
    only_stars_lem p
    ∙ absorb (matches p []) (later star) (λ h. ended (later-matches p [] star since h))
  where
    ended : (k : ℕ) × (matches p (drop (suc k) []) ≡ true) → matches p [] ≡ true
    ended (k, h) = h
loop-Right b zero p (x ∷ vs) star free since room = absurd (no-Room b p (x ∷ vs) star room)
loop-Right b (suc n) p (x ∷ vs) star free since room =
    loop_step b n p x vs star free since room (loop-Right b n)

-- On a value without a star, the loop of `wildcardMatches`, which goes back to the last star only, computes whether
-- the pattern matches the value without regard to case, where a star matches any text and any other byte itself.
pub wildcard_matches_lem :
    (pattern value : Text)
    → NoStar (to_lower value)
    → wildcard_matches pattern value ≡ matches (to_lower pattern) (to_lower value)
unfolding wildcard_matches turns later
wildcard_matches_lem pattern value free =
    loop-Right (length (to_lower pattern) + length (to_lower value))
      (turns (to_lower pattern) (to_lower value)) (to_lower pattern) (to_lower value) none free tt
      (omega arith, omega arith)
    ∙ absorb_none (matches (to_lower pattern) (to_lower value))
  where
    absorb_none : (b : Bool) → (b || false) ≡ b
    absorb_none true = refl
    absorb_none false = refl
