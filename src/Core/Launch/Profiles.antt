-- ===== src/Core/Launch/Profiles.antt =====
-- The profile of a start of the core (core/launch.go): its normal form and the file that it is kept in. The functions
-- of path/filepath and os.Stat are an interface, as is the encoding as JSON; a map of environment variables is in the
-- order in which Go ranges over it.
pub mod Again
pub mod Examples
pub mod Normal
pub mod Store
pub mod Saved
pub mod Variables
use kokorobox_service.Common.{
  ◌-◌, ltb, ◌^◌, ◌%◌, is_none, to_lower, trim_space, text_eq, codes, ◌>>=◌, ◌++◌, ◌>>◌, ok, not,
  ◌*◌, err, guard, is_empty, Text, List, Result, ℕ, Bool, Option, ◌||◌, ◌&&◌, if◌then◌else◌, ◌∷◌,
  [], false, true, some, none, put,
}
use kokorobox_service.Common.Ints.{negsuc, ℤ, pos, pos_part, leb_ℤ, eq_ℤ}
use kokorobox_service.Core.Launch.{ArgError, validate_core_args}

pub record LaunchProfile : Type 0 where
  pub core_path : Text
  pub mode : Text
  pub args : List Text
  pub safe_paths : List Text
  pub env : List (Text × Text)
  pub priority : Text
  pub log_path : Text
  pub save_logs : Option Bool
  pub max_log_file_size_mb : ℤ

pub record LaunchProfilePatch : Type 0 where
  pub new_mode : Option Text
  pub new_log_path : Option Text
  pub new_save_logs : Option Bool
  pub new_max_log_file_size_mb : Option ℤ

pub data FileState : Type 0 where
  is_missing is_file is_directory unchecked_file : FileState

pub record Files : Type 0 where
  pub is_abs : Text → Bool
  pub abs : Text → Option Text
  pub has_ext : Text → Bool
  pub stat : Text → FileState

pub data ProfileError : Type 0 where
  bad_mode unresolved_path empty_name no_core_path : ProfileError
  core_is_directory core_unchecked core_missing : ProfileError
  unreadable_profile invalid_profile profile_not_saved : ProfileError
  bad_args : ArgError → ProfileError

unfoldable pub default_mode : Text → Text
default_mode mode = if is_empty mode then codes "auto" else mode

unfoldable pub check_mode : Text → Result ProfileError (Unit {0})
check_mode mode =
    guard
      (text_eq mode (codes "auto")
        || (text_eq mode (codes "sandbox") || text_eq mode (codes "direct")))
      bad_mode

unfoldable pub check_args : Result ArgError (Unit {0}) → Result ProfileError (Unit {0})
check_args (err e) = err (bad_args e)
check_args (ok _) = ok tt

unfoldable pub found_path : Option Text → Result ProfileError Text
found_path none = err unresolved_path
found_path (some p) = ok p

unfoldable pub trimmed_env :
    List (Text × Text) → List (Text × Text) → Result ProfileError (List (Text × Text))
trimmed_env [] acc = ok acc
trimmed_env ((k, v) ∷ env) acc =
    let rest = trimmed_env env (put (trim_space k) v acc) in
    if is_empty (trim_space k) then err empty_name else rest

unfoldable pub is_nil {ℓ} : {A : Type ℓ} → List A → Bool
is_nil [] = true
is_nil (x ∷ xs) = false

unfoldable pub is_zero_launch_profile : LaunchProfile → Bool
unfolding is_nil
is_zero_launch_profile p =
    is_empty p.core_path
    && ((is_empty p.mode || text_eq p.mode (codes "auto"))
        && (is_empty p.priority
            && (is_empty p.log_path
                && (is_none p.save_logs
                    && (eq_ℤ p.max_log_file_size_mb (pos 0)
                        && (is_nil p.args && (is_nil p.safe_paths && is_nil p.env)))))))

-- A product of an int64, which wraps around.
unfoldable pub wrap_int64 : ℕ → ℤ
wrap_int64 n = let r = n % 2 ^ 64 in if ltb r (2 ^ 63) then pos r else negsuc (2 ^ 64 - 1 - r)

unfoldable pub max_log_file_size_bytes : ℤ → ℤ
unfolding wrap_int64
max_log_file_size_bytes mb =
    if leb_ℤ mb (pos 0) then pos (20 * 1024 * 1024) else wrap_int64 (pos_part mb * 1024 * 1024)

unfoldable pub at_candidate : FileState → Text → Result ProfileError Text → Result ProfileError Text
at_candidate is_missing c rest = rest
at_candidate is_file c rest = ok c
at_candidate is_directory c rest = err core_is_directory
at_candidate unchecked_file c rest = err core_unchecked

module _ (files : Files) (windows : Bool) where
  unfoldable pub absolute_paths : List Text → Result ProfileError (List Text)
  unfolding found_path
  absolute_paths [] = ok []
  absolute_paths (p ∷ ps) =
      let rest = absolute_paths ps in
      if is_empty (trim_space p)
      then rest
      else (do q ← found_path (files.abs (trim_space p)); qs ← rest; ok (q ∷ qs))

  unfoldable pub absolute_log : Text → Result ProfileError Text
  absolute_log path = if is_empty path then ok path else found_path (files.abs path)

  unfoldable pub absolute_core : Text → Result ProfileError Text
  absolute_core path = if files.is_abs path then ok path else found_path (files.abs path)

  unfoldable pub candidates : Text → List Text
  candidates path =
      if windows && not (files.has_ext path) then (path ++ codes ".exe") ∷ path ∷ [] else path ∷ []

  unfoldable pub first_candidate : List Text → Result ProfileError Text
  unfolding at_candidate
  first_candidate [] = err core_missing
  first_candidate (c ∷ cs) = at_candidate (files.stat c) c (first_candidate cs)

  unfoldable pub chosen_path : Text → Option Text → Result ProfileError Text
  chosen_path path none = if is_empty path then err no_core_path else ok path
  chosen_path path (some other) =
      if is_empty path
      then (if is_empty (trim_space other) then err no_core_path else ok (trim_space other))
      else ok path

  -- `from_env` is the path that the environment of the service gives, where it may be used.
  unfoldable pub resolve_core_executable_path : Option Text → Text → Result ProfileError Text
  unfolding absolute_core candidates first_candidate chosen_path
  resolve_core_executable_path from_env raw = do
    path ← chosen_path (trim_space raw) from_env
    absolute ← absolute_core path
    first_candidate (candidates absolute)

  unfoldable pub with_core : LaunchProfile → Result ProfileError LaunchProfile
  with_core p =
      if is_zero_launch_profile p
      then ok p
      else if is_empty p.core_path
      then err no_core_path
      else (do
        core ← resolve_core_executable_path none p.core_path
        ok (record p { core_path = core }))

  unfoldable pub normalize_launch_profile : LaunchProfile → Result ProfileError LaunchProfile
  unfolding absolute_paths absolute_log with_core check_args
  normalize_launch_profile p = do
    check_mode (default_mode (to_lower (trim_space p.mode)))
    check_args (validate_core_args p.args)
    safe ← absolute_paths p.safe_paths
    variables ← trimmed_env p.env []
    log ← absolute_log (trim_space p.log_path)
    with_core (record {
      core_path = trim_space p.core_path;
      mode = default_mode (to_lower (trim_space p.mode));
      args = p.args;
      safe_paths = safe;
      env = variables;
      priority = trim_space p.priority;
      log_path = log;
      save_logs = p.save_logs;
      max_log_file_size_mb = p.max_log_file_size_mb;
    })
