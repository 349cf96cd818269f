-- ===== src/Core/Launch/Profiles/Again.antt =====
-- That the normal form of a profile is its own normal form (core/launch.go).
use kokorobox_service.Common.{
  All, trim_space_idem, sym, ap, ◌∙◌, subst, Bool-cases, ok_inj, arith, Bool, err, is_empty, ◌>>=◌,
  trim_space, Result, to_lower, >>=-eq-ok, ◌⊎◌, ok, ◌≡◌, Text, if◌then◌else◌, [], false, true, inr,
  inl, none, refl,
}
use kokorobox_service.Core.Launch.Profiles.{
  no_core_path, absolute_log, ProfileError, trimmed_env, absolute_paths,
  resolve_core_executable_path, default_mode, check_args, check_mode, LaunchProfile,
  is_zero_launch_profile, normalize_launch_profile, with_core, Files,
}
use kokorobox_service.Core.Launch.Profiles.Normal.{
  Trimmed, log_again, resolve-IsFound, paths_again, mode_again, core_again, IsFound, IsLawful,
}
use kokorobox_service.Core.Launch.{validate_core_args}
use kokorobox_service.Core.Launch.Profiles.Variables.{variables_again}

-- No path of the profile has white space at an end.
abbrev pub HasTrimmedPaths : LaunchProfile → Type 0
HasTrimmedPaths n = All Trimmed n.safe_paths × Trimmed n.log_path × Trimmed n.core_path

module _ (files : Files) (lawful : IsLawful files) where
  normal_again :
      (q : LaunchProfile)
      → check_mode q.mode ≡ ok tt
      → check_args (validate_core_args q.args) ≡ ok tt
      → absolute_paths files false q.safe_paths ≡ ok q.safe_paths
      → trimmed_env q.env [] ≡ ok q.env
      → absolute_log files false (trim_space q.log_path) ≡ ok q.log_path
      → trim_space q.priority ≡ q.priority
      → trim_space q.core_path ≡ q.core_path
      → with_core files false q ≡ ok q
      → normalize_launch_profile files false q ≡ ok q
  unfolding normalize_launch_profile
  normal_again q mode args paths variables log priority core whole =
      rw (mode_again q.mode mode, mode, args, paths, variables, log, priority, core) whole

  pub with_core-ok :
      (q n : LaunchProfile)
      → with_core files false q ≡ ok n
      → ((is_zero_launch_profile q ≡ true) × (q ≡ n))
        ⊎ ((c : Text) × (resolve_core_executable_path files false none q.core_path ≡ ok c)
            × (◌≡◌ {A = LaunchProfile} (record q { core_path = c }) n))
  unfolding with_core
  with_core-ok q n h = elim (Bool-cases (is_zero_launch_profile q)) [
    | inl blank ↦
        inl (blank, ok_inj (subst (λ b. (if b then ok q else with_some q) ≡ ok n) blank h))
    | inr some_profile ↦ inr (
        resolved (is_empty q.core_path)
          (subst (λ b. (if b then ok q else with_some q) ≡ ok n) some_profile h))
  ]
    where
      with_resolved : Result ProfileError LaunchProfile
      with_resolved = resolve_core_executable_path files false none q.core_path >>= λ c.
          ok (record q { core_path = c })

      with_some : LaunchProfile → Result ProfileError LaunchProfile
      with_some _ = if is_empty q.core_path then err no_core_path else with_resolved

      resolved :
          (b : Bool)
          → (if b then err no_core_path else with_resolved) ≡ ok n
          → (c : Text) × (resolve_core_executable_path files false none q.core_path ≡ ok c)
            × (◌≡◌ {A = LaunchProfile} (record q { core_path = c }) n)
      resolved true e = ground (arith, e)
      resolved false e =
          let (c, found, same) =
            >>=-eq-ok (resolve_core_executable_path files false none q.core_path) _ e in
          (c, found, ok_inj same)

  some_core :
      (q : LaunchProfile) (c : Text)
      → IsFound files lawful c
      → with_core files false (record q { core_path = c }) ≡ ok (record q { core_path = c })
  unfolding with_core is_zero_launch_profile
  some_core q c found = rw (found.1, core_again files lawful c found) refl

  -- What completes the core path keeps the other paths.
  with_core-paths :
      (q n : LaunchProfile)
      → with_core files false q ≡ ok n
      → HasTrimmedPaths n
      → All Trimmed q.safe_paths × Trimmed q.log_path
  with_core-paths q n h trimmed = elim (with_core-ok q n h) [
    | inl (_, same) ↦
        subst (λ x. All Trimmed x.safe_paths × Trimmed x.log_path) (sym same) (trimmed.0, trimmed.1)
    | inr (c, found, same) ↦
        let own : HasTrimmedPaths (record q { core_path = c }) =
          subst HasTrimmedPaths (sym same) trimmed in
        (own.0, own.1)
  ]

  settled :
      (q n : LaunchProfile)
      → Trimmed n.core_path
      → check_mode q.mode ≡ ok tt
      → check_args (validate_core_args q.args) ≡ ok tt
      → absolute_paths files false q.safe_paths ≡ ok q.safe_paths
      → trimmed_env q.env [] ≡ ok q.env
      → absolute_log files false (trim_space q.log_path) ≡ ok q.log_path
      → trim_space q.priority ≡ q.priority
      → trim_space q.core_path ≡ q.core_path
      → with_core files false q ≡ ok n
      → normalize_launch_profile files false n ≡ ok n
  settled q n core_trimmed mode args paths variables log priority core whole =
      elim (with_core-ok q n whole) [
        | inl (_, same) ↦
            subst (λ x. normalize_launch_profile files false x ≡ ok x) same
              (normal_again q mode args paths variables log priority core
                (whole ∙ ap ok (sym same)))
        | inr (c, found, same) ↦
            let is_found =
              resolve-IsFound files lawful q.core_path c
                (subst (λ x. Trimmed x.core_path) (sym same) core_trimmed) found in
            subst (λ x. normalize_launch_profile files false x ≡ ok x) same
              (normal_again (record q { core_path = c }) mode args paths variables log priority
                is_found.0 (some_core q c is_found))
      ]

  -- A profile that was accepted is accepted again as it is, on a system other than Windows, if no path of it has
  -- white space at an end.
  pub normalize_again :
      (p n : LaunchProfile)
      → HasTrimmedPaths n
      → normalize_launch_profile files false p ≡ ok n
      → normalize_launch_profile files false n ≡ ok n
  unfolding normalize_launch_profile
  normalize_again p n trimmed h =
      let (_, mode, h1) =
        >>=-eq-ok (check_mode (default_mode (to_lower (trim_space p.mode)))) _ h in
      let (_, args, h2) = >>=-eq-ok (check_args (validate_core_args p.args)) _ h1 in
      let (safe, paths, h3) = >>=-eq-ok (absolute_paths files false p.safe_paths) _ h2 in
      let (variables, env, h4) = >>=-eq-ok (trimmed_env p.env []) _ h3 in
      let (log, logged, h5) = >>=-eq-ok (absolute_log files false (trim_space p.log_path)) _ h4 in
      let (own_paths, own_log) = with_core-paths _ n h5 trimmed in
      settled _ n trimmed.2 mode args (paths_again files lawful p.safe_paths safe own_paths paths)
        (variables_again p.env variables env)
        (log_again files lawful (trim_space p.log_path) log (trim_space_idem p.log_path) own_log
          logged)
        (trim_space_idem p.priority) (trim_space_idem p.core_path) h5
