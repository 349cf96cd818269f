-- ===== src/Core/Launch/Profiles/Examples.antt =====
-- A concrete profile that is saved and loaded.
use mathlib.Core.Option.{some-injective}
use kokorobox_service.Core.Launch.Profiles.Store.{ProfileStore, ProfileJson, save_launch_profile}
use kokorobox_service.Common.Effects.{Post, works}
use kokorobox_service.Common.{
  Option, subst, put, ◌∙◌, sym, ok_inj, ap, ◌⊎◌, lower_char, to_lower, arith, ok, is_empty,
  Bool-cases, ◌≡◌, is_space, trim_left, has_prefix, trim_space, Bool, text_eq, codes, Text,
  if◌then◌else◌, ◌∷◌, [], false, true, inr, inl, some, none, refl,
}
use kokorobox_service.Core.Launch.Profiles.{
  at_candidate, first_candidate, candidates, absolute_core, chosen_path,
  resolve_core_executable_path, is_zero_launch_profile, with_core, absolute_log, trimmed_env,
  found_path, absolute_paths, check_args, default_mode, check_mode, pos, is_file, LaunchProfile,
  normalize_launch_profile, Files,
}
use kokorobox_service.Core.Launch.Profiles.Normal.{IsLawful}
use kokorobox_service.Core.Launch.{validate_from, validate_core_args}
use kokorobox_service.Core.Launch.Profiles.Saved.{saved_profile_loads, Decodes, kept, Reloads}
use kokorobox_service.Core.Launch.Profiles.Again.{HasTrimmedPaths}

abbrev good_path : Text → Bool
good_path p = has_prefix p (codes "/")

abbrev picked : Bool → Text → Option Text
picked absolute p = if absolute then some p else some (codes "/srv")

abbrev root_files : Files
root_files = record {
  is_abs = λ p. has_prefix p (codes "/");
  abs = λ p. picked (good_path p) p;
  has_ext = λ p. false;
  stat = λ p. is_file;
}

abs-good_path : (p q : Text) → picked (good_path p) p ≡ some q → good_path q ≡ true
unfolding has_prefix
abs-good_path p q h = elim (Bool-cases (good_path p)) [
  | inl e ↦
      subst (λ x. good_path x ≡ true) (some-injective p q (subst (λ b. picked b p ≡ some q) e h)) e
  | inr e ↦
      subst (λ x. good_path x ≡ true)
        (some-injective (codes "/srv") q (subst (λ b. picked b p ≡ some q) e h)) refl
]

root_files-IsLawful : IsLawful root_files
unfolding has_prefix
root_files-IsLawful = record {
  abs_again = λ p q h. rw (abs-good_path p q h) refl;
  abs_some = λ p q h. rooted q (abs-good_path p q h);
  abs_is_abs = λ p q h. abs-good_path p q h;
}
  where
    rooted : (q : Text) → has_prefix q (codes "/") ≡ true → is_empty q ≡ false
    rooted [] h = ground (arith, h)
    rooted (c ∷ q) h = refl

abbrev given_profile : LaunchProfile
given_profile = record {
  core_path = codes " /bin/core";
  mode = codes "DIRECT ";
  args = [];
  safe_paths = codes "data" ∷ [] ∷ [];
  env = (codes " LANG", codes "C") ∷ [];
  priority = [];
  log_path = [];
  save_logs = some false;
  max_log_file_size_mb = pos 5;
}

abbrev normal_profile : LaunchProfile
normal_profile = record {
  core_path = codes "/bin/core";
  mode = codes "direct";
  args = [];
  safe_paths = codes "/srv" ∷ [];
  env = (codes "LANG", codes "C") ∷ [];
  priority = [];
  log_path = [];
  save_logs = some false;
  max_log_file_size_mb = pos 5;
}

abbrev one_json : ProfileJson
one_json = record { encode = λ p. codes "{}"; decode = λ t. some normal_profile }

abbrev empty_store : ProfileStore
empty_store = record { disk = none; faults = works ∷ works ∷ [] }

given_normal : normalize_launch_profile root_files false given_profile ≡ ok normal_profile
unfolding normalize_launch_profile check_mode default_mode to_lower lower_char trim_space trim_left
    is_space text_eq has_prefix check_args validate_core_args validate_from absolute_paths
    found_path trimmed_env put absolute_log with_core is_zero_launch_profile
    resolve_core_executable_path chosen_path absolute_core candidates first_candidate at_candidate
given_normal = refl

normal_trimmed : HasTrimmedPaths normal_profile
unfolding trim_space trim_left is_space
normal_trimmed = ((refl, tt), refl, refl)

saved_profile_loads_example :
    Post
      (λ _ t.
        (n : LaunchProfile) × (normalize_launch_profile root_files false given_profile ≡ ok n)
        × Reloads root_files one_json n t)
      (λ _ t.
        (t.disk ≡ none)
        ⊎ ((n : LaunchProfile) × (normalize_launch_profile root_files false given_profile ≡ ok n)
            × (t.disk ≡ kept one_json n)))
      (save_launch_profile root_files false one_json given_profile empty_store)
saved_profile_loads_example =
    saved_profile_loads root_files one_json given_profile empty_store root_files-IsLawful trimmed
      decodes
  where
    trimmed :
        (n : LaunchProfile)
        → normalize_launch_profile root_files false given_profile ≡ ok n
        → HasTrimmedPaths n
    trimmed n h = subst HasTrimmedPaths (ok_inj (sym given_normal ∙ h)) normal_trimmed

    decodes :
        (n : LaunchProfile)
        → normalize_launch_profile root_files false given_profile ≡ ok n
        → Decodes one_json n
    decodes n h = ap some (ok_inj (sym given_normal ∙ h))
