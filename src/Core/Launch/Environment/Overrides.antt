-- ===== src/Core/Launch/Environment/Overrides.antt =====
-- Who has the last word on the environment of the core (core/launch.go).
use mathlib.Core.List.{append-nil, Permᴰ}
use mathlib.Core.List.Permᴰ
use kokorobox_service.Common.{
  sym, contains_byte, subst, ap, text_eq→eq, text_eq, Bool-cases, ◌++◌, map, codes, All, false, inr,
  inl, put, by_test, text_eq_iff, ◌∙◌, get-put, arith, is_none, ◌≡◌, get, List, Bool, Option, Text,
  ◌∷◌, [], true, some, none, refl,
}
use kokorobox_service.Core.Launch.Environment.{
  essential_keys, env_entry, service_env, build_launch_env, launch_env_map, ensure_essential_env,
  or_folded, put_found, lookup_env_map, copy_map, copy_missing, copy_if_missing,
}
use kokorobox_service.Core.Launch.Environment.Reading.{
  get-Mem, Mem-Perm, get-Agrees, copy_map-All, All-Perm, child_value-Mem, put-All, read_entry,
  is_plain, value_of, copy_map-Once, or_value, child_value, put-Once, Once,
}

get-copy_map :
    (k v : Text) (es m n : List (Text × Text))
    → (get k m ≡ some v → get k n ≡ some v)
    → get k (copy_map es m) ≡ some v
    → get k (copy_map es n) ≡ some v
unfolding copy_map
get-copy_map k v [] m n f h = f h
get-copy_map k v ((j, w) ∷ es) m n f h =
    get-copy_map k v es (put j w m) (put j w n)
      (λ e. ground (arith, get-put j k w m, get-put j k w n, f, e)) h

get-copy_map_other :
    (k : Text) (es m n : List (Text × Text))
    → get k (copy_map es m) ≡ none
    → (get k m ≡ none) × (get k (copy_map es n) ≡ get k n)
unfolding copy_map
get-copy_map_other k [] m n h = (h, refl)
get-copy_map_other k ((j, w) ∷ es) m n h =
    let (gone, kept) = get-copy_map_other k es (put j w m) (put j w n) h in
    (
      ground (arith, get-put j k w m, gone),
      kept ∙ ground (arith, get-put j k w m, get-put j k w n, gone),
    )

module _ (lookup_env : Text → Option Text) (windows : Bool) where
  copy_if_missing-keeps :
      (k v key : Text) (m : List (Text × Text))
      → get k m ≡ some v
      → get k (copy_if_missing lookup_env windows key m) ≡ some v
  unfolding copy_if_missing lookup_env_map or_folded put_found
  copy_if_missing-keeps k v key m h =
      by_test (λ n. get k n ≡ some v) (is_none (or_folded windows key m (get key m)))
        (λ missing. put_keeps (lookup_env key) (unset (get key m) missing)) (λ _. h)
    where
      unset : (o : Option Text) → is_none (or_folded windows key m o) ≡ true → o ≡ none
      unset none e = refl
      unset (some x) e = ground (arith, e)

      put_keeps : (o : Option Text) → get key m ≡ none → get k (put_found key o m) ≡ some v
      put_keeps none e = h
      put_keeps (some x) e = ground (arith, get-put key k x m, text_eq_iff key k, e, h)

  copy_missing-keeps :
      (k v : Text) (keys : List Text) (m : List (Text × Text))
      → get k m ≡ some v
      → get k (copy_missing lookup_env windows keys m) ≡ some v
  unfolding copy_missing
  copy_missing-keeps k v [] m h = h
  copy_missing-keeps k v (key ∷ keys) m h =
      copy_missing-keeps k v keys _ (copy_if_missing-keeps k v key m h)

  copy_if_missing-Once :
      (key : Text) (m : List (Text × Text))
      → Once m
      → Once (copy_if_missing lookup_env windows key m)
  unfolding copy_if_missing put_found
  copy_if_missing-Once key m h =
      by_test Once (is_none (lookup_env_map windows m key)) (λ _. found (lookup_env key)) (λ _. h)
    where
      found : (o : Option Text) → Once (put_found key o m)
      found none = h
      found (some v) = put-Once key v m h

  copy_missing-Once :
      (keys : List Text) (m : List (Text × Text))
      → Once m
      → Once (copy_missing lookup_env windows keys m)
  unfolding copy_missing
  copy_missing-Once [] m h = h
  copy_missing-Once (key ∷ keys) m h = copy_missing-Once keys _ (copy_if_missing-Once key m h)

IsPlain-essential :
    (lookup_env : Text → Option Text) (m : List (Text × Text))
    → All (λ e. is_plain e ≡ true) m
    → All (λ e. is_plain e ≡ true) (ensure_essential_env lookup_env false m)
unfolding ensure_essential_env copy_missing copy_if_missing put_found is_plain contains_byte
IsPlain-essential lookup_env m h =
    by_test (All (λ e. is_plain e ≡ true)) (is_none (lookup_env_map false m (codes "PATH")))
      (λ _. found (lookup_env (codes "PATH"))) (λ _. h)
  where
    found : (o : Option Text) → All (λ e. is_plain e ≡ true) (put_found (codes "PATH") o m)
    found none = h
    found (some v) = put-All _ (codes "PATH") v m refl h

service-IsPlain :
    (safe_paths : List Text) → All (λ e. is_plain e ≡ true) (service_env false safe_paths)
unfolding is_plain contains_byte
service-IsPlain safe_paths = (
  refl,
  (refl, (refl, (refl, (refl, (refl, (refl, (refl, (refl, (refl, (refl, (refl, tt))))))))))),
)

launch_env_map-Once :
    (lookup_env : Text → Option Text) (windows : Bool) (env : List (Text × Text))
    (safe_paths : List Text) (managed : List (Text × Text))
    → Once (launch_env_map lookup_env windows env safe_paths managed)
unfolding launch_env_map ensure_essential_env
launch_env_map-Once lookup_env windows env safe_paths managed = copy_map-Once managed _ (
    copy_map-Once (service_env windows safe_paths) _
      (copy_missing-Once lookup_env windows (essential_keys windows) _ (copy_map-Once env [] tt)))

-- On a system other than Windows the core has the values that the service sets, those of the hook before the others, in
-- whatever order Go ranges over the map, if no name in the profile's environment or the hook's is empty or holds a "=".
pub managed_env_holds :
    (lookup_env : Text → Option Text) (env : List (Text × Text)) (safe_paths : List Text)
    (managed ordered : List (Text × Text)) (k v : Text)
    → Permᴰ (launch_env_map lookup_env false env safe_paths managed) ordered
    → All (λ e. is_plain e ≡ true) env
    → All (λ e. is_plain e ≡ true) managed
    → get k (copy_map managed (copy_map (service_env false safe_paths) [])) ≡ some v
    → child_value text_eq k (build_launch_env ordered) ≡ some v
unfolding build_launch_env launch_env_map get
managed_env_holds lookup_env env safe_paths managed ordered k v order plain plain_hook set =
    child_value-Mem k v ordered
      (All-Perm _ order (
        copy_map-All _ managed _ plain_hook (
          copy_map-All _ (service_env false safe_paths) _ (service-IsPlain safe_paths)
            (IsPlain-essential lookup_env _ (copy_map-All _ env [] plain tt)))))
      (All-Perm _ order
        (get-Agrees k v _ (launch_env_map-Once lookup_env false env safe_paths managed) held))
      (Mem-Perm order (get-Mem k v _ held))
  where
    held : get k (launch_env_map lookup_env false env safe_paths managed) ≡ some v
    held =
        get-copy_map k v managed (copy_map (service_env false safe_paths) []) _
          (get-copy_map k v (service_env false safe_paths) [] _ (λ e. ground (arith, e))) set

get-split :
    (k v : Text) (m : List (Text × Text))
    → get k m ≡ some v
    → (before : List (Text × Text)) × (behind : List (Text × Text)) × (m
        ≡ before ++ ((k, v) ∷ behind))
unfolding get
get-split k v [] h = ground (arith, h)
get-split k v ((j, w) ∷ m) h = elim (Bool-cases (text_eq j k)) [
  | inl same ↦
      let key = text_eq→eq j k same in let value : w ≡ v = ground (arith, h, same) in ([], m, cc)
  | inr other ↦
      let (before, behind, e) = get-split k v m (ground (arith, h, other)) in
      ((j, w) ∷ before, behind, ap (λ x. (j, w) ∷ x) e)
]

moved_last :
    {A : Type 0} (a : A) (before behind : List A)
    → Permᴰ (before ++ (a ∷ behind)) ((before ++ behind) ++ (a ∷ []))
moved_last a before behind = Permᴰ.trans (Permᴰ.middle a before behind) (
    subst (λ r. Permᴰ (a ∷ r) ((before ++ behind) ++ (a ∷ []))) (append-nil (before ++ behind))
      (Permᴰ.symm (Permᴰ.middle a (before ++ behind) [])))

child_value-last :
    (same : Text → Text → Bool) (k w : Text) (es : List (Text × Text)) (e : Text × Text)
    → value_of same k (read_entry (env_entry e)) ≡ some w
    → child_value same k (map env_entry (es ++ (e ∷ []))) ≡ some w
unfolding child_value or_value
child_value-last same k w [] e h = h
child_value-last same k w (d ∷ es) e h = rw (child_value-last same k w es e h) refl

-- A name in the profile's environment that is not one that the service sets, and that the core reads as one, gives the
-- core the profile's value for it in some order in which Go may range over the map.
pub rival_name_wins :
    (same : Text → Text → Bool) (lookup_env : Text → Option Text) (windows : Bool)
    (env : List (Text × Text)) (safe_paths : List Text) (managed : List (Text × Text))
    (name u j w k : Text)
    → get name (copy_map env []) ≡ some u
    → get name (copy_map managed (copy_map (service_env windows safe_paths) [])) ≡ none
    → read_entry (env_entry (name, u)) ≡ some (j, w)
    → same j k ≡ true
    → (ordered : List (Text × Text)) × Permᴰ
        (launch_env_map lookup_env windows env safe_paths managed)
        ordered
      × (child_value same k (build_launch_env ordered) ≡ some w)
unfolding build_launch_env launch_env_map ensure_essential_env value_of
rival_name_wins same lookup_env windows env safe_paths managed name u j w k given unset read one =
    let own = copy_map (service_env windows safe_paths) [] in
    let base = copy_missing lookup_env windows (essential_keys windows) (copy_map env []) in
    let (no_service, over_hook) =
      get-copy_map_other name managed own (copy_map (service_env windows safe_paths) base) unset in
    let (_, over_service) =
      get-copy_map_other name (service_env windows safe_paths) [] base no_service in
    let held : get name (launch_env_map lookup_env windows env safe_paths managed) ≡ some u =
      over_hook
      ∙ over_service
      ∙ copy_missing-keeps lookup_env windows name u (essential_keys windows) _ given in
    let (before, behind, e) = get-split name u _ held in
    (
      (before ++ behind) ++ ((name, u) ∷ []),
      subst (λ m. Permᴰ m ((before ++ behind) ++ ((name, u) ∷ []))) (sym e)
          (moved_last (name, u) before behind),
      child_value-last same k w (before ++ behind) (name, u) (rw (read, one) refl),
    )
