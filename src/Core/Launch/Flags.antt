-- ===== src/Core/Launch/Flags.antt =====
-- What the core reads from its arguments (core/launch.go), with the flag package of Go that it uses.
use kokorobox_service.Common.{
  ◌≡◌, ◌++◌, codes, ◌==◌, Bool, Option, List, Text, ◌||◌, if◌then◌else◌, ◌∷◌, [], false, true, some,
  none,
}
use kokorobox_service.Core.Launch.{
  controller_names, core_arg_name, before_equals, hook_names, is_named,
}

-- The flag that an argument gives, with its value after "="; none where the reading ends.
unfoldable pub after_equals : Text → Option Text
after_equals [] = none
after_equals (c ∷ s) = let rest = after_equals s in if c == b'=' then some s else rest

unfoldable pub flag_named : Text → Option (Text × Option Text)
flag_named [] = none
flag_named (c ∷ s) =
    if c == b'-' || c == b'=' then none else some (before_equals (c ∷ s), after_equals s)

unfoldable pub flag_dashed : Text → Option (Text × Option Text)
unfolding flag_named
flag_dashed [] = none
flag_dashed (c ∷ s) = if c == b'-' then flag_named s else flag_named (c ∷ s)

unfoldable pub flag_of : Text → Option (Text × Option Text)
unfolding flag_dashed
flag_of [] = none
flag_of (c ∷ s) = if c == b'-' then flag_dashed s else none

-- `kind` says of a name whether it is a flag, and then whether it is a Boolean one; the last two arguments are what is
-- read after one argument and after two.
unfoldable pub setting :
    Option Bool
    → Text
    → Option Text
    → Option Text
    → List (Text × Text)
    → List (Text × Text)
    → List (Text × Text)
setting none name value next one two = []
setting (some _) name (some value) next one two = (name, value) ∷ one
setting (some true) name none next one two = (name, codes "true") ∷ one
setting (some false) name none (some value) one two = (name, value) ∷ two
setting (some false) name none none one two = []

unfoldable pub setting_of :
    (Text → Option Bool)
    → Option (Text × Option Text)
    → Option Text
    → List (Text × Text)
    → List (Text × Text)
    → List (Text × Text)
setting_of kind none next one two = []
setting_of kind (some (name, value)) next one two = setting (kind name) name value next one two

unfoldable pub read_flags : (Text → Option Bool) → List Text → List (Text × Text)
read_flags kind [] = []
read_flags kind (a ∷ []) = setting_of kind (flag_of a) none [] []
read_flags kind (a ∷ b ∷ rest) =
    let one = read_flags kind (b ∷ rest) in
    let two = read_flags kind rest in setting_of kind (flag_of a) (some b) one two

abbrev pub managed_names : List Text
managed_names = hook_names ++ controller_names

-- An argument whose name is not one of those that the service sets.
abbrev pub Unmanaged : Text → Type 0
Unmanaged arg = is_named managed_names (core_arg_name arg) ≡ false
