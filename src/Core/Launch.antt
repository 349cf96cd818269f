-- ===== src/Core/Launch.antt =====
-- The arguments of the core (core/launch.go): their validation, the removal of those for the controller, and what the
use kokorobox_service.Common.{
  ◌>>◌, text_eq, err, ◌>>=◌, has_prefix, ok, is_empty, any, ◌==◌, Result, contains_byte, codes,
  Bool, not, ℕ, List, Option, Text, ◌||◌, if◌then◌else◌, ◌∷◌, [], false, some, none, suc,
}
-- service puts in front. The endpoint of the controller and the commands of the startup hook are arguments.
pub mod Environment
pub mod Examples
pub mod Flags
pub mod Managed
pub mod Profiles

pub data ArgError : Type 0 where
  empty_argument : ℕ → ArgError
  truncating not_runtime no_endpoint unsupported_network : ArgError
  managed_by_service : Text → ArgError

-- strings.TrimLeft with "-".
unfoldable pub trim_dashes : Text → Text
trim_dashes [] = []
trim_dashes (c ∷ s) = let rest = trim_dashes s in if c == b'-' then rest else c ∷ s

-- The text before the first "=", as strings.Cut gives it.
unfoldable pub before_equals : Text → Text
before_equals [] = []
before_equals (c ∷ s) = let rest = before_equals s in if c == b'=' then [] else c ∷ rest

unfoldable pub name_in : Text → Option Text
name_in [] = none
name_in (c ∷ s) = some (c ∷ s)

-- Where nothing is left after the dashes, the name is empty too, and the two tests are one.
unfoldable pub core_arg_name : Text → Option Text
unfolding name_in
core_arg_name arg =
    if not (has_prefix arg (codes "-")) || text_eq arg (codes "-")
    then none
    else name_in (before_equals (trim_dashes arg))

abbrev pub controller_names : List Text
controller_names = codes "ext-ctl" ∷ codes "ext-ctl-pipe" ∷ codes "ext-ctl-unix" ∷ []

unfoldable pub is_one_of : List Text → Text → Bool
is_one_of names name = any (text_eq name) names

unfoldable pub is_named : List Text → Option Text → Bool
is_named names none = false
is_named names (some name) = is_one_of names name

unfoldable pub is_controller_arg : Text → Bool
is_controller_arg arg = is_named controller_names (core_arg_name arg)

unfoldable pub strip_controller_args : List Text → List Text
strip_controller_args [] = []
strip_controller_args (a ∷ []) = if is_controller_arg a then [] else a ∷ []
strip_controller_args (a ∷ b ∷ rest) =
    let one = strip_controller_args (b ∷ rest) in
    let two = strip_controller_args rest in
    if is_controller_arg a then (if contains_byte a b'=' then one else two) else a ∷ one

abbrev pub hook_names : List Text
hook_names = codes "post-up" ∷ codes "post-down" ∷ []

abbrev pub test_names : List Text
test_names = codes "t" ∷ codes "v" ∷ []

unfoldable pub check_name : Option Text → Result ArgError (Unit {0})
check_name none = ok tt
check_name (some name) =
    if is_one_of hook_names name
    then err (managed_by_service name)
    else if is_one_of test_names name
    then err not_runtime
    else ok tt

unfoldable pub check_arg : ℕ → Text → Result ArgError (Unit {0})
unfolding check_name
check_arg i arg =
    if is_empty arg
    then err (empty_argument i)
    else if text_eq arg (codes "--")
    then err truncating
    else check_name (core_arg_name arg)

unfoldable pub validate_from : ℕ → List Text → Result ArgError (Unit {0})
validate_from i [] = ok tt
validate_from i (arg ∷ args) = do check_arg i arg; validate_from (suc i) args

unfoldable pub validate_core_args : List Text → Result ArgError (Unit {0})
validate_core_args args = validate_from 0 args

-- The network of an endpoint for the controller.
pub data Network : Type 0 where
  pipe_network unix_network other_network : Network

unfoldable pub configure_managed_controller :
    Option (Network × Text) → List Text → Result ArgError (List Text)
configure_managed_controller none args = err no_endpoint
configure_managed_controller (some (pipe_network, address)) args =
    ok (codes "-ext-ctl-pipe" ∷ address ∷ strip_controller_args args)
configure_managed_controller (some (unix_network, address)) args =
    ok (codes "-ext-ctl-unix" ∷ address ∷ strip_controller_args args)
configure_managed_controller (some (other_network, address)) args = err unsupported_network

-- The arguments that `prepareLaunchSession` makes from those of the profile.
unfoldable pub launch_args :
    Text → Text → Option (Network × Text) → List Text → Result ArgError (List Text)
unfolding configure_managed_controller
launch_args post_up post_down endpoint args = do
  configured ← configure_managed_controller endpoint args
  ok (codes "-post-up" ∷ post_up ∷ codes "-post-down" ∷ post_down ∷ configured)
