-- ===== src/Core/Launch/Examples.antt =====
-- Concrete runs of the preparation of a start of the core.
use mathlib.Core.List.{Permᴰ}
use mathlib.Core.List.Permᴰ
use kokorobox_service.Core.Launch.{
  is_named, is_controller_arg, strip_controller_args, configure_managed_controller, launch_args,
  is_one_of, trim_dashes, before_equals, name_in, core_arg_name, check_name, check_arg,
  validate_from, validate_core_args, unix_network, truncating,
}
use kokorobox_service.Common.{
  lower_char, to_lower, equal_fold, All, join, contains_byte, err, ◌≡◌, text_eq, has_prefix, any,
  Bool, Option, codes, get, Text, List, ◌∷◌, [], false, true, some, none, refl, put,
}
use kokorobox_service.Core.Launch.Environment.{launch_env_map, build_launch_env, copy_map}
use kokorobox_service.Core.Launch.Environment.Reading.{
  entry_parts, read_entry, child_value, is_plain,
}
use kokorobox_service.Core.Launch.Flags.{after_equals, read_flags}
use kokorobox_service.Core.Launch.Environment.Overrides.{managed_env_holds, rival_name_wins}
use kokorobox_service.Core.Launch.Managed.{managed_flags_hold, NotManaged}

abbrev client_args : List Text
client_args =
    codes "-ext-ctl"
    ∷ codes "0.0.0.0:9090"
    ∷ codes "-d"
    ∷ codes "/srv"
    ∷ codes "-m"
    ∷ codes "x"
    ∷ []

abbrev started_args : List Text
started_args =
    codes "-post-up"
    ∷ codes "notify"
    ∷ codes "-post-down"
    ∷ codes "true"
    ∷ codes "-ext-ctl-unix"
    ∷ codes "/run/core.sock"
    ∷ codes "-d"
    ∷ codes "/srv"
    ∷ codes "-m"
    ∷ codes "x"
    ∷ []

abbrev all_valued : Text → Option Bool
all_valued name = some false

managed_flags_hold_example :
    (rest : List (Text × Text)) × (read_flags all_valued started_args
      ≡ (codes "post-up", codes "notify")
        ∷ (codes "post-down", codes "true")
        ∷ (codes "ext-ctl-unix", codes "/run/core.sock")
        ∷ rest)
    × All NotManaged rest
unfolding validate_core_args validate_from check_arg check_name core_arg_name name_in before_equals
    trim_dashes is_one_of any has_prefix text_eq launch_args configure_managed_controller
    strip_controller_args is_controller_arg is_named contains_byte
managed_flags_hold_example =
    managed_flags_hold all_valued (codes "notify") (codes "true") unix_network
      (codes "/run/core.sock") client_args started_args refl refl
      (refl, (refl, (refl, (refl, (refl, tt)))))

double_dash_refused : validate_core_args (codes "-d" ∷ codes "--" ∷ []) ≡ err truncating
unfolding validate_core_args validate_from check_arg check_name core_arg_name name_in before_equals
    trim_dashes is_one_of any has_prefix text_eq
double_dash_refused = refl

abbrev client_env : List (Text × Text)
client_env = (codes "SAFE_PATHS", codes "/") ∷ (codes "LANG", codes "C") ∷ []

abbrev no_lookup : Text → Option Text
no_lookup name = none

abbrev two_paths : List Text
two_paths = codes "/a" ∷ codes "/b" ∷ []

managed_env_holds_example :
    child_value text_eq
      (codes "SAFE_PATHS")
      (build_launch_env (launch_env_map no_lookup false client_env two_paths []))
    ≡ some (codes "/a:/b")
unfolding is_plain contains_byte get copy_map put text_eq join
managed_env_holds_example =
    managed_env_holds no_lookup client_env two_paths []
      (launch_env_map no_lookup false client_env two_paths []) (codes "SAFE_PATHS") (codes "/a:/b")
      (Permᴰ.refl _) (refl, (refl, tt)) tt refl

abbrev rival_env : List (Text × Text)
rival_env = (codes "skip_safe_path_check", codes "true") ∷ []

rival_name_wins_example :
    (ordered : List (Text × Text)) × Permᴰ
      (launch_env_map no_lookup true rival_env two_paths [])
      ordered
    × (child_value equal_fold (codes "SKIP_SAFE_PATH_CHECK") (build_launch_env ordered)
        ≡ some (codes "true"))
unfolding get copy_map put text_eq join read_entry entry_parts after_equals before_equals equal_fold
    to_lower lower_char
rival_name_wins_example =
    rival_name_wins equal_fold no_lookup true rival_env two_paths [] (codes "skip_safe_path_check")
      (codes "true") (codes "skip_safe_path_check") (codes "true") (codes "SKIP_SAFE_PATH_CHECK")
      refl refl refl refl
