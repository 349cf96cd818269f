-- ===== src/Core/Launch/Profiles/Store.antt =====
-- The file of the profile (core/launch.go). Each call of the system draws from a list whether it works; the temporary
-- file is not part of the state.
use kokorobox_service.Common.{
  codes, [], Text, Option, none, some, Bool, List, if◌then◌else◌, Result, ok, err,
}
use kokorobox_service.Common.Effects.{
  Outcome, done, failure, Fault, next_fault, later_faults, attempt_with, ◌>>=◌, ◌>>◌,
}
use kokorobox_service.Common.Ints.{pos}
use kokorobox_service.Core.Launch.Profiles.{
  LaunchProfile, LaunchProfilePatch, ProfileError, unreadable_profile, invalid_profile,
  profile_not_saved, Files, is_zero_launch_profile, normalize_launch_profile,
}

pub record ProfileJson : Type 0 where
  pub encode : LaunchProfile → Text
  pub decode : Text → Option LaunchProfile

pub record ProfileStore : Type 0 where
  pub disk : Option Text
  pub faults : List Fault

abbrev pub Step : Type 0 → Type 0
Step A = ProfileStore → Outcome ProfileError ProfileStore A

abbrev pub blank_profile : LaunchProfile
blank_profile = record {
  core_path = [];
  mode = codes "auto";
  args = [];
  safe_paths = [];
  env = [];
  priority = [];
  log_path = [];
  save_logs = none;
  max_log_file_size_mb = pos 0;
}

abbrev pub drawn : ProfileStore → ProfileStore
drawn s = record s { faults = later_faults s.faults }

unfoldable pub attempt : (ProfileStore → ProfileStore) → ProfileError → Step (Unit {0})
unfolding attempt_with
attempt effect e s = attempt_with (next_fault s.faults) effect e (drawn s)

unfoldable pub returned : {A : Type 0} → Result ProfileError A → Step A
returned (err e) s = failure e s
returned (ok a) s = done a s

-- A temporary file is made, protected, written, flushed and closed, and takes the place of the old one.
unfoldable pub write_profile : Text → Step (Unit {0})
unfolding attempt
write_profile content = do
  attempt (λ s. s) profile_not_saved
  attempt (λ s. s) profile_not_saved
  attempt (λ s. s) profile_not_saved
  attempt (λ s. s) profile_not_saved
  attempt (λ s. s) profile_not_saved
  attempt (λ s. s) profile_not_saved
  attempt (λ s. record s { disk = some content }) profile_not_saved

unfoldable pub remove_profile : Step (Unit {0})
unfolding attempt
remove_profile = attempt (λ s. record s { disk = none }) profile_not_saved

unfoldable pub or_new {ℓ} : {A : Type ℓ} → Option A → A → A
or_new none old = old
or_new (some new) old = new

unfoldable pub or_some {ℓ} : {A : Type ℓ} → Option A → Option A → Option A
or_some none old = old
or_some (some new) old = some new

unfoldable pub patched : LaunchProfilePatch → LaunchProfile → LaunchProfile
unfolding or_new or_some
patched patch p = record p {
  mode = or_new patch.new_mode p.mode;
  log_path = or_new patch.new_log_path p.log_path;
  save_logs = or_some patch.new_save_logs p.save_logs;
  max_log_file_size_mb = or_new patch.new_max_log_file_size_mb p.max_log_file_size_mb;
}

module _ (files : Files) (windows : Bool) (json : ProfileJson) where
  unfoldable pub decoded : Option LaunchProfile → Step LaunchProfile
  unfolding returned
  decoded none s = failure invalid_profile s
  decoded (some p) s = returned (normalize_launch_profile files windows p) s

  unfoldable pub load_from : Option Text → Step LaunchProfile
  unfolding decoded
  load_from none s = done blank_profile s
  load_from (some content) s = decoded (json.decode content) s

  unfoldable pub load_launch_profile : Step LaunchProfile
  unfolding attempt load_from
  load_launch_profile = do attempt (λ s. s) unreadable_profile; λ s. load_from s.disk s

  unfoldable pub resolve_launch_profile : Option LaunchProfile → Step LaunchProfile
  unfolding returned load_launch_profile
  resolve_launch_profile none = load_launch_profile
  resolve_launch_profile (some p) = returned (normalize_launch_profile files windows p)

  unfoldable pub store_profile : LaunchProfile → Step (Unit {0})
  store_profile p s =
      if is_zero_launch_profile p then remove_profile s else write_profile (json.encode p) s

  unfoldable pub save_launch_profile : LaunchProfile → Step (Unit {0})
  unfolding returned store_profile
  save_launch_profile p = do
    normalized ← returned (normalize_launch_profile files windows p)
    store_profile normalized

  unfoldable pub patch_launch_profile : LaunchProfilePatch → Step LaunchProfile
  unfolding load_launch_profile save_launch_profile patched
  patch_launch_profile patch = do
    p ← load_launch_profile
    save_launch_profile (patched patch p)
    load_launch_profile
