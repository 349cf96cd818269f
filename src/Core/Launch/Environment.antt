-- ===== src/Core/Launch/Environment.antt =====
-- The environment of the core (core/launch.go). The environment of the service is an argument, and so is the order in
use kokorobox_service.Common.{
  put, equal_fold, is_none, get, join, ℕ, map, ◌++◌, Option, codes, Text, Bool, List, if◌then◌else◌,
  ◌∷◌, [], false, true, some, none,
}
-- which Go ranges over a map: the entries are those of the map in any order.
pub mod Reading
pub mod Overrides

-- maps.Copy.
unfoldable pub copy_map : List (Text × Text) → List (Text × Text) → List (Text × Text)
copy_map [] m = m
copy_map ((k, v) ∷ entries) m = copy_map entries (put k v m)

unfoldable pub find_folded : Text → List (Text × Text) → Option Text
find_folded key [] = none
find_folded key ((k, v) ∷ m) =
    let rest = find_folded key m in if equal_fold k key then some v else rest

unfoldable pub or_folded : Bool → Text → List (Text × Text) → Option Text → Option Text
unfolding find_folded
or_folded windows key m (some v) = some v
or_folded windows key m none = if windows then find_folded key m else none

unfoldable pub lookup_env_map : Bool → List (Text × Text) → Text → Option Text
unfolding or_folded
lookup_env_map windows m key = or_folded windows key m (get key m)

unfoldable pub put_found : Text → Option Text → List (Text × Text) → List (Text × Text)
put_found key none m = m
put_found key (some v) m = put key v m

unfoldable pub copy_if_missing :
    (Text → Option Text) → Bool → Text → List (Text × Text) → List (Text × Text)
unfolding put_found
copy_if_missing lookup_env windows key m =
    if is_none (lookup_env_map windows m key) then put_found key (lookup_env key) m else m

unfoldable pub copy_missing :
    (Text → Option Text) → Bool → List Text → List (Text × Text) → List (Text × Text)
copy_missing lookup_env windows [] m = m
copy_missing lookup_env windows (key ∷ keys) m =
    copy_missing lookup_env windows keys (copy_if_missing lookup_env windows key m)

abbrev pub essential_keys : Bool → List Text
essential_keys true =
    codes "SystemRoot"
    ∷ codes "WINDIR"
    ∷ codes "ComSpec"
    ∷ codes "PATHEXT"
    ∷ codes "ProgramData"
    ∷ codes "ProgramFiles"
    ∷ codes "ProgramFiles(x86)"
    ∷ codes "CommonProgramFiles"
    ∷ codes "OS"
    ∷ codes "PROCESSOR_ARCHITECTURE"
    ∷ codes "NUMBER_OF_PROCESSORS"
    ∷ codes "PATH"
    ∷ codes "Path"
    ∷ []
essential_keys false = codes "PATH" ∷ []

unfoldable pub ensure_essential_env :
    (Text → Option Text) → Bool → List (Text × Text) → List (Text × Text)
unfolding copy_missing
ensure_essential_env lookup_env windows m =
    copy_missing lookup_env windows (essential_keys windows) m

abbrev pub path_list_separator : Bool → ℕ
path_list_separator true = b';'
path_list_separator false = b':'

-- What the service sets itself.
abbrev pub service_env : Bool → List Text → List (Text × Text)
service_env windows safe_paths =
    (codes "SAFE_PATHS", join (path_list_separator windows) safe_paths)
    ∷ (codes "SKIP_SAFE_PATH_CHECK", codes "false")
    ∷ (codes "CLASH_CONFIG_STRING", [])
    ∷ (codes "CLASH_HOME_DIR", [])
    ∷ (codes "CLASH_CONFIG_FILE", [])
    ∷ (codes "CLASH_OVERRIDE_EXTERNAL_UI_DIR", [])
    ∷ (codes "CLASH_OVERRIDE_EXTERNAL_CONTROLLER", [])
    ∷ (codes "CLASH_OVERRIDE_EXTERNAL_CONTROLLER_UNIX", [])
    ∷ (codes "CLASH_OVERRIDE_EXTERNAL_CONTROLLER_PIPE", [])
    ∷ (codes "CLASH_OVERRIDE_SECRET", [])
    ∷ (codes "CLASH_POST_UP", [])
    ∷ (codes "CLASH_POST_DOWN", [])
    ∷ []

module _ (lookup_env : Text → Option Text) (windows : Bool) where
  -- The map that `buildLaunchEnv` makes of the profile's environment, its trusted paths, and that of the hook.
  unfoldable pub launch_env_map :
      List (Text × Text) → List Text → List (Text × Text) → List (Text × Text)
  unfolding copy_map ensure_essential_env
  launch_env_map env safe_paths managed = copy_map managed (
      copy_map (service_env windows safe_paths)
        (ensure_essential_env lookup_env windows (copy_map env [])))

abbrev pub env_entry : Text × Text → Text
env_entry e = e.0 ++ (b'=' ∷ e.1)

-- The entries, for an order of those of the map.
unfoldable pub build_launch_env : List (Text × Text) → List Text
build_launch_env ordered = map env_entry ordered
