-- ===== src/Core/Launch/Profiles/Variables.antt =====
-- That the environment of a profile keeps its normal form (core/launch.go).
use kokorobox_service.Core.Launch.Environment.Reading.{Once, put-Once, put-All}
use kokorobox_service.Common.{
  ◌∙◌, err, trim_space_idem, Bool-cases, sym, ok_inj, ap, subst, ok, text_eq_iff, get-put, is_empty,
  ◌++◌, arith, trim_space, All, ◌≡◌, Text, get, List, if◌then◌else◌, ◌∷◌, [], false, inr, inl, none,
  refl, put,
}
use kokorobox_service.Core.Launch.Profiles.{empty_name, trimmed_env}
use mathlib.Core.List.{append_assoc, append-nil}

abbrev pub Trimmed : Text × Text → Type 0
Trimmed e = (trim_space e.0 ≡ e.0) × (is_empty e.0 ≡ false)

pub trimmed_env-Trimmed :
    (es acc m : List (Text × Text))
    → Once acc
    → All Trimmed acc
    → trimmed_env es acc ≡ ok m
    → Once m × All Trimmed m
unfolding trimmed_env
trimmed_env-Trimmed [] acc m once trimmed h =
    subst (λ x. Once x × All Trimmed x) (ok_inj h) (once, trimmed)
trimmed_env-Trimmed ((k, v) ∷ es) acc m once trimmed h =
    elim (Bool-cases (is_empty (trim_space k))) [
      | inl e ↦ ground (arith, h, e)
      | inr e ↦
          trimmed_env-Trimmed es (put (trim_space k) v acc) m (put-Once (trim_space k) v acc once)
            (put-All Trimmed (trim_space k) v acc (trim_space_idem k, e) trimmed)
            (subst
              (λ b.
                (if b then err empty_name else trimmed_env es (put (trim_space k) v acc)) ≡ ok m)
              e h)
    ]

put_new :
    (k v : Text) (acc : List (Text × Text)) → get k acc ≡ none → put k v acc ≡ acc ++ ((k, v) ∷ [])
unfolding get put
put_new k v [] h = refl
put_new k v ((j, w) ∷ acc) h = ground (arith, h, put_new k v acc)

abbrev Unused : List (Text × Text) → Text × Text → Type 0
Unused acc e = get e.0 acc ≡ none

put-Unused :
    (k v : Text) (acc m : List (Text × Text))
    → get k m ≡ none
    → All (Unused acc) m
    → All (Unused (put k v acc)) m
unfolding get
put-Unused k v acc [] h u = tt
put-Unused k v acc ((j, w) ∷ m) h u = (
  ground (arith, get-put k j v acc, text_eq_iff k j, text_eq_iff j k, h, u.0),
  put-Unused k v acc m (ground (arith, h)) u.1,
)

trimmed_env_again :
    (m acc : List (Text × Text))
    → Once m
    → All Trimmed m
    → All (Unused acc) m
    → trimmed_env m acc ≡ ok (acc ++ m)
unfolding trimmed_env
trimmed_env_again [] acc once trimmed unused = ap ok (sym (append-nil acc))
trimmed_env_again ((k, v) ∷ m) acc once trimmed unused =
    rw (trimmed.0.0, trimmed.0.1)
      (trimmed_env_again m (put k v acc) once.1 trimmed.1 (put-Unused k v acc m once.0 unused.1)
        ∙ ap ok (ap (λ x. x ++ m) (put_new k v acc unused.0) ∙ append_assoc acc ((k, v) ∷ []) m))

all-Unused : (m : List (Text × Text)) → All (Unused []) m
unfolding get
all-Unused [] = tt
all-Unused (e ∷ m) = (refl, all-Unused m)

pub variables_again :
    (es m : List (Text × Text)) → trimmed_env es [] ≡ ok m → trimmed_env m [] ≡ ok m
variables_again es m h =
    let (once, trimmed) = trimmed_env-Trimmed es [] m tt tt h in
    trimmed_env_again m [] once trimmed (all-Unused m)
