-- ===== src/Core/Launch/Profiles/Normal.antt =====
-- That the normal form of a profile is its own (core/launch.go).
use kokorobox_service.Common.{All, err, Result, ◌>>=◌}
use kokorobox_service.Common.{
  ap, >>=-eq-ok, ok_inj, Option, if◌then◌else◌, none, arith, codes, text_eq→eq, sym, subst, text_eq,
  is_space, lower_char, trim_left, Bool-cases, is_empty, ok, trim_space, to_lower, ◌≡◌, List, Text,
  ◌∷◌, [], false, true, inr, inl, some, refl,
}
use kokorobox_service.Core.Launch.Profiles.{
  is_missing, is_file, is_directory, unchecked_file, core_missing, at_candidate, FileState,
  candidates, resolve_core_executable_path, absolute_core, chosen_path, first_candidate, is_file,
  ProfileError, absolute_log, found_path, absolute_paths, default_mode, check_mode, Files,
}

-- What filepath.Abs and filepath.IsAbs do.
pub record IsLawful (files : Files) : Type 0 where
  pub abs_again : (p q : Text) → files.abs p ≡ some q → files.abs q ≡ some q
  pub abs_some : (p q : Text) → files.abs p ≡ some q → is_empty q ≡ false
  pub abs_is_abs : (p q : Text) → files.abs p ≡ some q → files.is_abs q ≡ true

-- The path has no white space at an end.
abbrev pub Trimmed : Text → Type 0
Trimmed p = trim_space p ≡ p

pub mode_again : (m : Text) → check_mode m ≡ ok tt → default_mode (to_lower (trim_space m)) ≡ m
unfolding check_mode default_mode to_lower trim_space trim_left lower_char is_space
mode_again m h = elim (Bool-cases (text_eq m (codes "auto"))) [
  | inl e ↦ from (codes "auto") e refl
  | inr a ↦ elim (Bool-cases (text_eq m (codes "sandbox"))) [
    | inl e ↦ from (codes "sandbox") e refl
    | inr b ↦ elim (Bool-cases (text_eq m (codes "direct"))) [
      | inl e ↦ from (codes "direct") e refl
      | inr c ↦ ground (arith, h, a, b, c)
    ]
  ]
]
  where
    from :
        (c : Text)
        → text_eq m c ≡ true
        → default_mode (to_lower (trim_space c)) ≡ c
        → default_mode (to_lower (trim_space m)) ≡ m
    from c e h = subst (λ t. default_mode (to_lower (trim_space t)) ≡ t) (sym (text_eq→eq m c e)) h

found_path-ok : (o : Option Text) (q : Text) → found_path o ≡ ok q → o ≡ some q
unfolding found_path
found_path-ok none q h = ground (arith, h)
found_path-ok (some p) q h = ap some (ok_inj h)

at_candidate-ok :
    (st : FileState) (a c : Text)
    → at_candidate st a (err core_missing) ≡ ok c
    → (a ≡ c) × (st ≡ is_file)
unfolding at_candidate
at_candidate-ok is_missing a c h = ground (arith, h)
at_candidate-ok is_file a c h = (ok_inj h, refl)
at_candidate-ok is_directory a c h = ground (arith, h)
at_candidate-ok unchecked_file a c h = ground (arith, h)

module _ (files : Files) (lawful : IsLawful files) where
  abbrev absolute_rest : Text → List Text → Result ProfileError (List Text)
  absolute_rest p ps = found_path (files.abs (trim_space p)) >>= λ q.
      absolute_paths files false ps >>= λ qs. ok (q ∷ qs)

  pub paths_again :
      (ps qs : List Text)
      → All Trimmed qs
      → absolute_paths files false ps ≡ ok qs
      → absolute_paths files false qs ≡ ok qs
  unfolding absolute_paths found_path
  paths_again [] qs trimmed h = subst (λ x. absolute_paths files false x ≡ ok x) (ok_inj h) refl
  paths_again (p ∷ ps) qs trimmed h = elim (Bool-cases (is_empty (trim_space p))) [
    | inl e ↦
        paths_again ps qs trimmed (
          subst (λ b. (if b then absolute_paths files false ps else absolute_rest p ps) ≡ ok qs) e
            h)
    | inr e ↦
        let bound : absolute_rest p ps ≡ ok qs =
          subst (λ b. (if b then absolute_paths files false ps else absolute_rest p ps) ≡ ok qs) e
            h in
        let (q, first, others) = >>=-eq-ok (found_path (files.abs (trim_space p))) _ bound in
        let (rest, others, whole) = >>=-eq-ok (absolute_paths files false ps) _ others in
        let found = found_path-ok _ q first in
        subst (λ x. absolute_paths files false x ≡ ok x) (ok_inj whole)
          (let own : All Trimmed (q ∷ rest) = subst (All Trimmed) (sym (ok_inj whole)) trimmed in
            kept (trim_space p) q rest found own.0 (paths_again ps rest own.1 others))
  ]
    where
      kept :
          (p q : Text) (rest : List Text)
          → files.abs p ≡ some q
          → Trimmed q
          → absolute_paths files false rest ≡ ok rest
          → absolute_paths files false (q ∷ rest) ≡ ok (q ∷ rest)
      kept p q rest found own h =
          rw (own, lawful.abs_some p q found, lawful.abs_again p q found, h) refl

  pub log_again :
      (p q : Text)
      → Trimmed p
      → Trimmed q
      → absolute_log files false p ≡ ok q
      → absolute_log files false (trim_space q) ≡ ok q
  unfolding absolute_log found_path
  log_again p q trimmed own h = elim (Bool-cases (is_empty p)) [
    | inl e ↦
        let same : p ≡ q =
          ok_inj (subst (λ b. (if b then ok p else found_path (files.abs p)) ≡ ok q) e h) in
        subst (λ x. absolute_log files false (trim_space x) ≡ ok x) same (rw (trimmed, e) refl)
    | inr e ↦
        let found =
          found_path-ok (files.abs p) q
            (subst (λ b. (if b then ok p else found_path (files.abs p)) ≡ ok q) e h) in
        rw (own, lawful.abs_some p q found, lawful.abs_again p q found) refl
  ]

  abbrev pub IsFound : Text → Type 0
  IsFound c =
      (trim_space c ≡ c) × (is_empty c ≡ false) × (files.is_abs c ≡ true) × (files.stat c ≡ is_file)

  absolute-IsFound :
      (p a : Text)
      → is_empty p ≡ false
      → absolute_core files false p ≡ ok a
      → (is_empty a ≡ false) × (files.is_abs a ≡ true)
  unfolding absolute_core
  absolute-IsFound p a some_path h = elim (Bool-cases (files.is_abs p)) [
    | inl e ↦
        let same : p ≡ a =
          ok_inj (subst (λ b. (if b then ok p else found_path (files.abs p)) ≡ ok a) e h) in
        subst (λ x. (is_empty x ≡ false) × (files.is_abs x ≡ true)) same (some_path, e)
    | inr e ↦
        let found =
          found_path-ok (files.abs p) a
            (subst (λ b. (if b then ok p else found_path (files.abs p)) ≡ ok a) e h) in
        (lawful.abs_some p a found, lawful.abs_is_abs p a found)
  ]

  chosen_path-ok :
      (p q : Text) → chosen_path files false p none ≡ ok q → (p ≡ q) × (is_empty p ≡ false)
  unfolding chosen_path
  chosen_path-ok [] q h = ground (arith, h)
  chosen_path-ok (c ∷ p) q h = (ok_inj h, refl)

  first_candidate-ok :
      (a c : Text)
      → first_candidate files false (a ∷ []) ≡ ok c
      → (a ≡ c) × (files.stat a ≡ is_file)
  unfolding first_candidate
  first_candidate-ok a c h = at_candidate-ok (files.stat a) a c h

  pub resolve-IsFound :
      (raw c : Text)
      → Trimmed c
      → resolve_core_executable_path files false none raw ≡ ok c
      → IsFound c
  unfolding resolve_core_executable_path candidates
  resolve-IsFound raw c trimmed h =
      let (p, chosen, others) = >>=-eq-ok (chosen_path files false (trim_space raw) none) _ h in
      let (a, absolute, found) = >>=-eq-ok (absolute_core files false p) _ others in
      let (same, some_path) = chosen_path-ok (trim_space raw) p chosen in
      let (own, stated) = first_candidate-ok a c found in
      let (some_absolute, is_absolute) =
        absolute-IsFound p a (subst (λ x. is_empty x ≡ false) same some_path) absolute in
      subst IsFound own (subst Trimmed (sym own) trimmed, some_absolute, is_absolute, stated)

  pub core_again : (c : Text) → IsFound c → resolve_core_executable_path files false none c ≡ ok c
  unfolding resolve_core_executable_path candidates chosen_path absolute_core first_candidate
      at_candidate
  core_again c (trimmed, some_path, absolute, found) = rw (trimmed, some_path, absolute, found) refl
