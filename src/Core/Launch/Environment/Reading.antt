-- ===== src/Core/Launch/Environment/Reading.antt =====
-- What a process reads from the entries of its environment (core/launch.go): the value that a started process has of a name
use mathlib.Core.List.{Memᴰ, Permᴰ}
use kokorobox_service.Common.{
  text_eq_refl, ap, sym, map, ◌⊎◌, text_eq_iff, get-put, text_eq→eq, ◌∙◌, Bool-cases, All, subst,
  inr, inl, ℕ, put, ◌++◌, arith, is_empty, not, text_eq, ◌≡◌, by_test, get, Bool, Option,
  contains_byte, Text, List, ◌&&◌, if◌then◌else◌, ◌∷◌, [], false, true, some, none, refl,
}
use kokorobox_service.Core.Launch.Environment.{copy_map, env_entry}
use kokorobox_service.Core.Launch.Flags.{after_equals}
use kokorobox_service.Core.Launch.{before_equals}

-- is that of the last entry that reads as this name, as the package os/exec of Go leaves it.

unfoldable pub entry_parts : ℕ → Text → Option Text → Option (Text × Text)
entry_parts c name none = none
entry_parts c name (some v) = some (c ∷ name, v)

-- The name and the value of an entry: the part before the first "=" that is not its first byte, and the part after it.
unfoldable pub read_entry : Text → Option (Text × Text)
unfolding entry_parts
read_entry [] = none
read_entry (c ∷ s) = entry_parts c (before_equals s) (after_equals s)

unfoldable pub value_of : (Text → Text → Bool) → Text → Option (Text × Text) → Option Text
value_of same k none = none
value_of same k (some (j, v)) = if same j k then some v else none

unfoldable pub or_value : Option Text → Option Text → Option Text
or_value (some v) o = some v
or_value none o = o

-- `same` says which names are one: those that are equal, or on Windows those that are but for the case.
unfoldable pub child_value : (Text → Text → Bool) → Text → List Text → Option Text
unfolding or_value value_of read_entry
child_value same k [] = none
child_value same k (s ∷ ss) = or_value (child_value same k ss) (value_of same k (read_entry s))

-- An entry of a map whose name is not empty and holds no "=".
unfoldable pub is_plain : Text × Text → Bool
is_plain e = not (is_empty e.0) && not (contains_byte e.0 b'=')

plain_after :
    (k v : Text)
    → contains_byte k b'=' ≡ false
    → (after_equals (k ++ (b'=' ∷ v)) ≡ some v) × (before_equals (k ++ (b'=' ∷ v)) ≡ k)
unfolding after_equals before_equals contains_byte
plain_after [] v h = (refl, refl)
plain_after (c ∷ k) v h = ground (arith, h, plain_after k v)

read_entry_cons :
    (c : ℕ) (s v j : Text)
    → after_equals s ≡ some v
    → before_equals s ≡ j
    → read_entry (c ∷ s) ≡ some (c ∷ j, v)
unfolding read_entry entry_parts
read_entry_cons c s v j after before = rw (after, before) refl

pub plain_entry : (e : Text × Text) → is_plain e ≡ true → read_entry (env_entry e) ≡ some e
unfolding read_entry is_plain contains_byte
plain_entry ([], v) h = ground (arith, h)
plain_entry (c ∷ k, v) h =
    let (after, before) = plain_after k v (ground (arith, h)) in
    read_entry_cons c (k ++ (b'=' ∷ v)) v k after before

-- No key twice.
abbrev pub Once : List (Text × Text) → Type 0
Once [] = Unit {0}
Once ((k, v) ∷ m) = (get k m ≡ none) × Once m

pub put-Once : (k v : Text) (m : List (Text × Text)) → Once m → Once (put k v m)
unfolding put get
put-Once k v [] h = (refl, tt)
put-Once k v ((j, w) ∷ m) h =
    by_test Once (text_eq j k)
      (λ same. (subst (λ i. get i m ≡ none) (text_eq→eq j k same) h.0, h.1))
      (λ other. (
        ground (arith, get-put k j v m, text_eq_iff k j, text_eq_iff j k, other, h.0),
        put-Once k v m h.1,
      ))

pub copy_map-Once : (es m : List (Text × Text)) → Once m → Once (copy_map es m)
unfolding copy_map
copy_map-Once [] m h = h
copy_map-Once ((k, v) ∷ es) m h = copy_map-Once es (put k v m) (put-Once k v m h)

-- An entry of the name has the value.
abbrev pub Agrees : Text → Text → Text × Text → Type 0
Agrees k v e = text_eq e.0 k ≡ true → e.1 ≡ v

get-Agrees_unset : (k v : Text) (m : List (Text × Text)) → get k m ≡ none → All (Agrees k v) m
unfolding get
get-Agrees_unset k v [] h = tt
get-Agrees_unset k v ((j, w) ∷ m) h =
    (λ same. ground (arith, h, same), get-Agrees_unset k v m (ground (arith, h)))

pub get-Agrees :
    (k v : Text) (m : List (Text × Text)) → Once m → get k m ≡ some v → All (Agrees k v) m
unfolding get
get-Agrees k v [] once h = tt
get-Agrees k v ((j, w) ∷ m) once h = elim (Bool-cases (text_eq j k)) [
  | inl same ↦ (
    λ _. ground (arith, h, same),
    get-Agrees_unset k v m (subst (λ i. get i m ≡ none) (text_eq→eq j k same) once.0),
  )
  | inr other ↦
      (λ same. ground (arith, other, same), get-Agrees k v m once.1 (ground (arith, h, other)))
]

pub get-Mem : (k v : Text) (m : List (Text × Text)) → get k m ≡ some v → Memᴰ (k, v) m
unfolding get
get-Mem k v [] h = ground (arith, h)
get-Mem k v ((j, w) ∷ m) h = elim (Bool-cases (text_eq j k)) [
  | inl same ↦
      let key = text_eq→eq j k same in let value : w ≡ v = ground (arith, h, same) in Memᴰ.head cc
  | inr other ↦ Memᴰ.tail (get-Mem k v m (ground (arith, h, other)))
]

module _ {A : Type 0} where
  pub All-Perm : (P : A → Type 0) {xs ys : List A} → Permᴰ xs ys → All P xs → All P ys
  All-Perm P Permᴰ.nil h = tt
  All-Perm P (Permᴰ.cons e d) h = (subst P e h.0, All-Perm P d h.1)
  All-Perm P (Permᴰ.swap e f) h = (subst P f h.1.0, (subst P e h.0, h.1.1))
  All-Perm P (Permᴰ.trans d e) h = All-Perm P e (All-Perm P d h)

  pub Mem-Perm : {a : A} {xs ys : List A} → Permᴰ xs ys → Memᴰ a xs → Memᴰ a ys
  Mem-Perm Permᴰ.nil m = m
  Mem-Perm (Permᴰ.cons e d) (Memᴰ.head f) = Memᴰ.head (f ∙ e)
  Mem-Perm (Permᴰ.cons e d) (Memᴰ.tail m) = Memᴰ.tail (Mem-Perm d m)
  Mem-Perm (Permᴰ.swap e f) (Memᴰ.head g) = Memᴰ.tail (Memᴰ.head (g ∙ e))
  Mem-Perm (Permᴰ.swap e f) (Memᴰ.tail (Memᴰ.head g)) = Memᴰ.head (g ∙ f)
  Mem-Perm (Permᴰ.swap e f) (Memᴰ.tail (Memᴰ.tail m)) = Memᴰ.tail (Memᴰ.tail m)
  Mem-Perm (Permᴰ.trans d e) m = Mem-Perm e (Mem-Perm d m)

pub read_plain :
    (k v : Text) (e : Text × Text)
    → is_plain e ≡ true
    → Agrees k v e
    → (value_of text_eq k (read_entry (env_entry e)) ≡ none)
      ⊎ (value_of text_eq k (read_entry (env_entry e)) ≡ some v)
unfolding value_of
read_plain k v (j, w) plain agrees =
    subst (λ r. (value_of text_eq k r ≡ none) ⊎ (value_of text_eq k r ≡ some v))
      (sym (plain_entry (j, w) plain))
      (by_test (λ o. (o ≡ none) ⊎ (o ≡ some v)) (text_eq j k) (λ same. inr (ap some (agrees same)))
        (λ _. inl refl))

read_own :
    (k v : Text) (e : Text × Text)
    → is_plain e ≡ true
    → (k, v) ≡ e
    → value_of text_eq k (read_entry (env_entry e)) ≡ some v
unfolding value_of
read_own k v e plain own =
    subst (λ r. value_of text_eq k r ≡ some v) (ap some own ∙ sym (plain_entry e plain))
      (rw (text_eq_refl k) refl)

-- Where every entry of the name has the value, a process that is started has it, or has none of this name.
pub child_value-Agrees :
    (k v : Text) (es : List (Text × Text))
    → All (λ e. is_plain e ≡ true) es
    → All (Agrees k v) es
    → (child_value text_eq k (map env_entry es) ≡ none)
      ⊎ (child_value text_eq k (map env_entry es) ≡ some v)
unfolding child_value or_value
child_value-Agrees k v [] plain agrees = inl refl
child_value-Agrees k v (e ∷ es) plain agrees = elim (child_value-Agrees k v es plain.1 agrees.1) [
  | inl unset ↦ rw unset (read_plain k v e plain.0 agrees.0)
  | inr set ↦ inr (rw set refl)
]

pub child_value-Mem :
    (k v : Text) (es : List (Text × Text))
    → All (λ e. is_plain e ≡ true) es
    → All (Agrees k v) es
    → Memᴰ (k, v) es
    → child_value text_eq k (map env_entry es) ≡ some v
unfolding child_value or_value
child_value-Mem k v [] plain agrees m = elim m [ ]
child_value-Mem k v (e ∷ es) plain agrees (Memᴰ.head same) =
    elim (child_value-Agrees k v es plain.1 agrees.1) [
      | inl unset ↦ rw unset (read_own k v e plain.0 same)
      | inr set ↦ rw set refl
    ]
child_value-Mem k v (e ∷ es) plain agrees (Memᴰ.tail m) =
    rw (child_value-Mem k v es plain.1 agrees.1 m) refl

module _ (P : Text × Text → Type 0) where
  pub put-All : (k v : Text) (m : List (Text × Text)) → P (k, v) → All P m → All P (put k v m)
  unfolding put
  put-All k v [] p h = (p, tt)
  put-All k v ((j, w) ∷ m) p h =
      by_test (All P) (text_eq j k) (λ _. (p, h.1)) (λ _. (h.0, put-All k v m p h.1))

  pub copy_map-All : (es m : List (Text × Text)) → All P es → All P m → All P (copy_map es m)
  unfolding copy_map
  copy_map-All [] m h i = i
  copy_map-All ((k, v) ∷ es) m h i = copy_map-All es (put k v m) h.1 (put-All k v m h.0 i)
