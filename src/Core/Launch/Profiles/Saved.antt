-- ===== src/Core/Launch/Profiles/Saved.antt =====
-- What a saved profile is when it is loaded (core/launch.go).
use kokorobox_service.Common.{sym, Bool-cases, Bool, Result, ok, err}
use kokorobox_service.Common.Effects.{
  Post-mono, later_faults, next_fault, attempt_with, Post-bind, ◌>>=◌, ◌>>◌, done,
}
use kokorobox_service.Core.Launch.Profiles.Store.{
  decoded, returned, remove_profile, load_from, write_profile, store_profile, load_launch_profile,
  save_launch_profile, Step,
}
use kokorobox_service.Common.Ints.{ℤ, pos, negsuc, eq_ℤ}
use kokorobox_service.Core.Launch.Profiles.Store.{
  attempt, drawn, ProfileStore, ProfileJson, blank_profile,
}
use kokorobox_service.Common.Effects.{next_fault, attempt_with-Post, Post}
use kokorobox_service.Common.{
  subst, trim_space, to_lower, >>=-eq-ok, ok, and_split, List, text_eq→eq, codes, arith, text_eq,
  ap, is_empty, ◌⊎◌, is_none, ◌≡◌, Text, Option, ◌||◌, if◌then◌else◌, ◌∷◌, [], false, true, inr,
  inl, some, none, refl,
}
use kokorobox_service.Core.Launch.Profiles.{
  ProfileError, absolute_log, trimmed_env, absolute_paths, check_args, check_mode,
  normalize_launch_profile, with_core, profile_not_saved, is_zero_launch_profile, LaunchProfile,
  Files, default_mode, is_nil,
}
use kokorobox_service.Core.Launch.Profiles.Normal.{IsLawful}
use kokorobox_service.Core.Launch.{validate_core_args}
use kokorobox_service.Core.Launch.Profiles.Again.{HasTrimmedPaths, normalize_again, with_core-ok}

empty_text : (s : Text) → is_empty s ≡ true → s ≡ []
empty_text [] h = refl
empty_text (c ∷ s) h = ground (arith, h)

nil_list : {A : Type 0} (xs : List A) → is_nil xs ≡ true → xs ≡ []
unfolding is_nil
nil_list [] h = refl
nil_list (x ∷ xs) h = ground (arith, h)

no_option : {A : Type 0} (o : Option A) → is_none o ≡ true → o ≡ none
no_option none h = refl
no_option (some x) h = ground (arith, h)

zero_int : (n : ℤ) → eq_ℤ n (pos 0) ≡ true → n ≡ pos 0
zero_int (pos n) h = ap pos (ground (arith, h))
zero_int (negsuc n) h = ground (arith, h)

auto_mode :
    (m : Text)
    → is_empty m ≡ false
    → (is_empty m || text_eq m (codes "auto")) ≡ true
    → m ≡ codes "auto"
auto_mode m some_mode h = text_eq→eq m (codes "auto") (ground (arith, h, some_mode))

blank_of_zero :
    (n : LaunchProfile)
    → is_empty n.mode ≡ false
    → is_zero_launch_profile n ≡ true
    → n ≡ blank_profile
unfolding is_zero_launch_profile
blank_of_zero n some_mode h =
    let (core, h1) = and_split _ _ h in
    let (mode, h2) = and_split _ _ h1 in
    let (priority, h3) = and_split _ _ h2 in
    let (log, h4) = and_split _ _ h3 in
    let (save, h5) = and_split _ _ h4 in
    let (size, h6) = and_split _ _ h5 in
    let (args, h7) = and_split _ _ h6 in
    let (safe, env) = and_split _ _ h7 in
    λ i. record {
      core_path = empty_text n.core_path core i;
      mode = auto_mode n.mode some_mode mode i;
      args = nil_list n.args args i;
      safe_paths = nil_list n.safe_paths safe i;
      env = nil_list n.env env i;
      priority = empty_text n.priority priority i;
      log_path = empty_text n.log_path log i;
      save_logs = no_option n.save_logs save i;
      max_log_file_size_mb = zero_int n.max_log_file_size_mb size i;
    }

default_mode-some : (m : Text) → is_empty (default_mode m) ≡ false
unfolding default_mode
default_mode-some [] = refl
default_mode-some (c ∷ m) = refl

module _ (files : Files) (lawful : IsLawful files) where
  with_core-mode : (q n : LaunchProfile) → with_core files false q ≡ ok n → q.mode ≡ n.mode
  with_core-mode q n h = elim (with_core-ok files lawful q n h) [
    | inl (_, same) ↦ ap (λ x. x.mode) same
    | inr (c, found, same) ↦ ap (λ x. x.mode) same
  ]

  normalize-mode :
      (p n : LaunchProfile)
      → normalize_launch_profile files false p ≡ ok n
      → is_empty n.mode ≡ false
  unfolding normalize_launch_profile
  normalize-mode p n h =
      let (_, _, h1) = >>=-eq-ok (check_mode (default_mode (to_lower (trim_space p.mode)))) _ h in
      let (_, _, h2) = >>=-eq-ok (check_args (validate_core_args p.args)) _ h1 in
      let (_, _, h3) = >>=-eq-ok (absolute_paths files false p.safe_paths) _ h2 in
      let (_, _, h4) = >>=-eq-ok (trimmed_env p.env []) _ h3 in
      let (_, _, h5) = >>=-eq-ok (absolute_log files false (trim_space p.log_path)) _ h4 in
      subst (λ m. is_empty m ≡ false) (with_core-mode _ n h5)
        (default_mode-some (to_lower (trim_space p.mode)))

abbrev pub Decodes : ProfileJson → LaunchProfile → Type 0
Decodes json n = json.decode (json.encode n) ≡ some n

-- What the file holds of a normal profile.
abbrev pub kept : ProfileJson → LaunchProfile → Option Text
kept json n = if is_zero_launch_profile n then none else some (json.encode n)

module _ (json : ProfileJson) (before : Option Text) (new : Option Text) where
  abbrev Torn : ProfileStore → Type 0
  Torn t = (t.disk ≡ before) ⊎ (t.disk ≡ new)

  call-Post :
      (s : ProfileStore)
      → s.disk ≡ before
      → Post (λ _ t. t.disk ≡ before) (λ _. Torn) (attempt (λ s. s) profile_not_saved s)
  unfolding attempt
  call-Post s h =
      attempt_with-Post (λ t. t.disk ≡ before) Torn (next_fault s.faults) (λ s. s) profile_not_saved
        (drawn s) h (inl h) (inl h)

  last-Post :
      (s : ProfileStore)
      → s.disk ≡ before
      → Post
          (λ _ t. t.disk ≡ new)
          (λ _. Torn)
          (attempt (λ s. record s { disk = new }) profile_not_saved s)
  unfolding attempt
  last-Post s h =
      attempt_with-Post (λ t. t.disk ≡ new) Torn (next_fault s.faults)
        (λ s. record s { disk = new }) profile_not_saved (drawn s) refl (inl h) (inr refl)

  abbrev Replaces : Step (Unit {0}) → Type 0
  Replaces k = (s : ProfileStore) → s.disk ≡ before → Post (λ _ t. t.disk ≡ new) (λ _. Torn) (k s)

  after_call :
      (k : Step (Unit {0})) → Replaces k → Replaces (attempt (λ s. s) profile_not_saved >> k)
  after_call k rest s h =
      Post-bind _ (λ _. Torn) _ (attempt (λ s. s) profile_not_saved s) (λ _. k) (call-Post s h)
        (λ _ t same. rest t same)

write_profile-Replaces :
    (json : ProfileJson) (before : Option Text) (content : Text)
    → Replaces json before (some content) (write_profile content)
unfolding write_profile
write_profile-Replaces json before content =
    let new = some content in
    after_call json before new _ (
      after_call json before new _ (
        after_call json before new _ (
          after_call json before new _ (
            after_call json before new _
              (after_call json before new _ (last-Post json before new))))))

store_profile-Replaces :
    (files : Files) (json : ProfileJson) (before : Option Text) (n : LaunchProfile)
    → Replaces json before (kept json n) (store_profile files false json n)
unfolding store_profile remove_profile
store_profile-Replaces files json before n s h = by_zero (is_zero_launch_profile n)
  where
    by_zero :
        (b : Bool)
        → Post
            (λ _ t. t.disk ≡ (if b then none else some (json.encode n)))
            (λ _ t. (t.disk ≡ before) ⊎ (t.disk ≡ (if b then none else some (json.encode n))))
            (if b then remove_profile s else write_profile (json.encode n) s)
    by_zero true = last-Post json before none s h
    by_zero false = write_profile-Replaces json before (json.encode n) s h

module _ (files : Files) (json : ProfileJson) where
  abbrev pub Reloads : LaunchProfile → ProfileStore → Type 0
  Reloads n t =
      load_launch_profile files false json (record t { faults = [] })
      ≡ done n (record t { faults = [] })

  kept-Reloads :
      (n : LaunchProfile) (t : ProfileStore)
      → Decodes json n
      → is_empty n.mode ≡ false
      → normalize_launch_profile files false n ≡ ok n
      → t.disk ≡ kept json n
      → Reloads n t
  unfolding load_launch_profile attempt load_from decoded returned next_fault later_faults
      attempt_with
  kept-Reloads n t decodes some_mode normal held = elim (Bool-cases (is_zero_launch_profile n)) [
    | inl e ↦
        rw (held, e)
          (ap (λ x. done x (record { disk = none; faults = [] }))
            (sym (blank_of_zero n some_mode e)))
    | inr e ↦ rw (held, e, decodes, normal) refl
  ]

  -- After a call of SaveLaunchProfile that succeeds, a load gives the normal form of the profile; after one that fails,
  -- whatever failed in it, the file is as it was or as that form leaves it; on a system other than Windows, if
  -- filepath.Abs gives absolute paths, which it keeps, no path of that form has white space at an end, and that form is
  -- decoded from JSON as it was encoded.
  pub saved_profile_loads :
      (p : LaunchProfile) (s : ProfileStore)
      → IsLawful files
      → ((n : LaunchProfile) → normalize_launch_profile files false p ≡ ok n → HasTrimmedPaths n)
      → ((n : LaunchProfile) → normalize_launch_profile files false p ≡ ok n → Decodes json n)
      → Post
          (λ _ t.
            (n : LaunchProfile) × (normalize_launch_profile files false p ≡ ok n) × Reloads n t)
          (λ _ t.
            (t.disk ≡ s.disk)
            ⊎ ((n : LaunchProfile) × (normalize_launch_profile files false p ≡ ok n)
                × (t.disk ≡ kept json n)))
          (save_launch_profile files false json p s)
  unfolding save_launch_profile returned
  saved_profile_loads p s lawful trimmed decodes =
      by_form (normalize_launch_profile files false p) refl
    where
      by_form :
          (r : Result ProfileError LaunchProfile)
          → normalize_launch_profile files false p ≡ r
          → Post
              (λ _ t.
                (n : LaunchProfile) × (normalize_launch_profile files false p ≡ ok n) × Reloads n t)
              (λ _ t.
                (t.disk ≡ s.disk)
                ⊎ ((n : LaunchProfile) × (normalize_launch_profile files false p ≡ ok n)
                    × (t.disk ≡ kept json n)))
              ((returned r >>= store_profile files false json) s)
      by_form (err e) same = inl refl
      by_form (ok n) same =
          Post-mono _ _ _ _ (store_profile files false json n s)
            (λ _ t held. (
              n,
              same,
              kept-Reloads n t (decodes n same) (normalize-mode files lawful p n same)
                  (normalize_again files lawful p n (trimmed n same) same) held,
            ))
            (λ _ t torn. elim torn [ inl old ↦ inl old | inr new ↦ inr (n, same, new) ])
            (store_profile-Replaces files json s.disk n s refl)
