-- ===== src/Core/Launch/Managed.antt =====
-- That the arguments of a profile cannot take the place of those that the service sets (core/launch.go).
use kokorobox_service.Common.{
  ap, ok_inj, ◌∙◌, codes, >>=-eq-ok, any, suc, contains_byte, by_test, ok, eqb→eq, sym, ◌==◌, subst,
  Bool-cases, All, List, text_eq, arith, has_prefix, Bool, ◌≡◌, Option, ℕ, Text, if◌then◌else◌, ◌∷◌,
  [], false, true, inr, inl, some, none, refl,
}
use kokorobox_service.Core.Launch.Flags.{
  after_equals, Unmanaged, managed_names, setting, flag_of, flag_named, flag_dashed, read_flags,
  setting_of,
}
use kokorobox_service.Core.Launch.{
  pipe_network, unix_network, other_network, launch_args, configure_managed_controller, Network,
  validate_core_args, check_name, controller_names, hook_names, validate_from,
  strip_controller_args, is_controller_arg, check_arg, is_named, name_in, before_equals,
  core_arg_name, is_one_of, trim_dashes,
}

flag_named_name :
    (d : ℕ) (s : Text) (f : Text × Option Text)
    → flag_named (d ∷ s) ≡ some f
    → (trim_dashes (d ∷ s) ≡ d ∷ s) × (name_in (before_equals (d ∷ s)) ≡ some f.0)
unfolding flag_named trim_dashes before_equals name_in
flag_named_name d s (n, v) h = ground (arith, h)

trim_dashes_dashed :
    (c d : ℕ) (s : Text)
    → (c == b'-') ≡ true
    → trim_dashes (d ∷ s) ≡ d ∷ s
    → trim_dashes (c ∷ d ∷ s) ≡ d ∷ s
unfolding trim_dashes
trim_dashes_dashed c d s dash trimmed = rw dash trimmed

twice_dashed :
    (c : ℕ) (s : Text) (n : Text) (v : Option Text)
    → flag_named s ≡ some (n, v)
    → (c == b'-') ≡ true
    → name_in (before_equals (trim_dashes (c ∷ s))) ≡ some n
unfolding flag_named
twice_dashed c [] n v h dash = ground (arith, h)
twice_dashed c (d ∷ s) n v h dash =
    let (trimmed, named) = flag_named_name d s (n, v) h in
    subst (λ t. name_in (before_equals t) ≡ some n) (sym (trim_dashes_dashed c d s dash trimmed))
      named

flag_dashed_name :
    (s : Text) (n : Text) (v : Option Text)
    → flag_dashed s ≡ some (n, v)
    → core_arg_name (b'-' ∷ s) ≡ some n
unfolding flag_dashed core_arg_name has_prefix text_eq trim_dashes
flag_dashed_name [] n v h = ground (arith, h)
flag_dashed_name (c ∷ s) n v h = elim (Bool-cases (c == b'-')) [
  | inl dash ↦
      twice_dashed c s n v
        (subst (λ b. (if b then flag_named s else flag_named (c ∷ s)) ≡ some (n, v)) dash h) dash
  | inr plain ↦
      let (trimmed, named) =
        flag_named_name c s (n, v)
          (subst (λ b. (if b then flag_named s else flag_named (c ∷ s)) ≡ some (n, v)) plain h) in
      subst (λ t. name_in (before_equals t) ≡ some n) (sym trimmed) named
]

flag_of_name :
    (s : Text) (n : Text) (v : Option Text) → flag_of s ≡ some (n, v) → core_arg_name s ≡ some n
unfolding flag_of
flag_of_name [] n v h = ground (arith, h)
flag_of_name (c ∷ s) n v h = elim (Bool-cases (c == b'-')) [
  | inl dash ↦
      subst (λ d. core_arg_name (d ∷ s) ≡ some n) (sym (eqb→eq c b'-' dash))
        (flag_dashed_name s n v
          (subst (λ b. (if b then flag_dashed s else none) ≡ some (n, v)) dash h))
  | inr other ↦
      ground (arith, subst (λ b. (if b then flag_dashed s else none) ≡ some (n, v)) other h)
]

abbrev pub NotManaged : Text × Text → Type 0
NotManaged s = is_one_of managed_names s.0 ≡ false

setting_of-NotManaged :
    (kind : Text → Option Bool) (a : Text) (f : Option (Text × Option Text)) (next : Option Text)
    (one two : List (Text × Text))
    → flag_of a ≡ f
    → Unmanaged a
    → All NotManaged one
    → All NotManaged two
    → All NotManaged (setting_of kind f next one two)
unfolding setting_of setting is_named
setting_of-NotManaged kind a none next one two e u o t = tt
setting_of-NotManaged kind a (some (n, v)) next one two e u o t =
    by_kind (kind n) v next (subst (λ x. is_named managed_names x ≡ false) (flag_of_name a n v e) u)
  where
    by_kind :
        (k : Option Bool) (v next : Option Text)
        → is_named managed_names (some n) ≡ false
        → All NotManaged (setting k n v next one two)
    by_kind none v next h = tt
    by_kind (some b) (some w) next h = (h, o)
    by_kind (some true) none next h = (h, o)
    by_kind (some false) none (some w) h = (h, t)
    by_kind (some false) none none h = tt

read_flags-NotManaged :
    (kind : Text → Option Bool) (args : List Text)
    → All Unmanaged args
    → All NotManaged (read_flags kind args)
unfolding read_flags
read_flags-NotManaged kind [] u = tt
read_flags-NotManaged kind (a ∷ []) u = setting_of-NotManaged kind a _ none [] [] refl u.0 tt tt
read_flags-NotManaged kind (a ∷ b ∷ rest) u =
    setting_of-NotManaged kind a _ (some b) _ _ refl u.0 (read_flags-NotManaged kind (b ∷ rest) u.1)
      (read_flags-NotManaged kind rest u.1.1)

abbrev NoHook : Text → Type 0
NoHook arg = is_named hook_names (core_arg_name arg) ≡ false

check_arg-NoHook : (i : ℕ) (arg : Text) → check_arg i arg ≡ ok tt → NoHook arg
unfolding check_arg check_name is_named
check_arg-NoHook i arg h =
    let named : check_name (core_arg_name arg) ≡ ok tt = ground (arith, h) in
    by_name (core_arg_name arg) named
  where
    by_name : (o : Option Text) → check_name o ≡ ok tt → is_named hook_names o ≡ false
    by_name none h = refl
    by_name (some n) h = ground (arith, h)

validate_from-NoHook : (i : ℕ) (args : List Text) → validate_from i args ≡ ok tt → All NoHook args
unfolding validate_from
validate_from-NoHook i [] h = tt
validate_from-NoHook i (arg ∷ args) h =
    let (_, first, others) = >>=-eq-ok (check_arg i arg) _ h in
    (check_arg-NoHook i arg first, validate_from-NoHook (suc i) args others)

abbrev Kept : Text → Type 0
Kept arg = NoHook arg × (is_controller_arg arg ≡ false)

strip-Kept : (args : List Text) → All NoHook args → All Kept (strip_controller_args args)
unfolding strip_controller_args
strip-Kept [] h = tt
strip-Kept (a ∷ []) h =
    by_test (λ x. All Kept x) (is_controller_arg a) (λ _. tt) (λ plain. ((h.0, plain), tt))
strip-Kept (a ∷ b ∷ rest) h =
    by_test (λ x. All Kept x) (is_controller_arg a)
      (λ _.
        by_test (λ x. All Kept x) (contains_byte a b'=') (λ _. strip-Kept (b ∷ rest) h.1)
          (λ _. strip-Kept rest h.1.1))
      (λ plain. ((h.0, plain), strip-Kept (b ∷ rest) h.1))

Kept-Unmanaged : (args : List Text) → All Kept args → All Unmanaged args
unfolding is_controller_arg is_named is_one_of any
Kept-Unmanaged [] h = tt
Kept-Unmanaged (a ∷ args) h = (both (core_arg_name a) h.0.0 h.0.1, Kept-Unmanaged args h.1)
  where
    both :
        (o : Option Text)
        → is_named hook_names o ≡ false
        → is_named controller_names o ≡ false
        → is_named managed_names o ≡ false
    both none h k = refl
    both (some n) h k = ground (arith, h, k)

read_setting :
    (kind : Text → Option Bool) (a n v : Text) (rest : List Text)
    → flag_of a ≡ some (n, none)
    → kind n ≡ some false
    → read_flags kind (a ∷ v ∷ rest) ≡ (n, v) ∷ read_flags kind rest
unfolding read_flags setting_of setting
read_setting kind a n v rest named valued = rw (named, valued) refl

abbrev pub controller_flag : Network → Text
controller_flag pipe_network = codes "ext-ctl-pipe"
controller_flag unix_network = codes "ext-ctl-unix"
controller_flag other_network = []

configured_flags :
    (kind : Text → Option Bool) (net : Network) (address : Text) (args out : List Text)
    → configure_managed_controller (some (net, address)) args ≡ ok out
    → All (λ name. kind name ≡ some false) managed_names
    → read_flags kind out
      ≡ (controller_flag net, address) ∷ read_flags kind (strip_controller_args args)
unfolding configure_managed_controller flag_of flag_dashed flag_named before_equals after_equals
configured_flags kind pipe_network address args out h valued =
    ap (read_flags kind) (sym (ok_inj h))
    ∙ read_setting kind (codes "-ext-ctl-pipe") _ address _ refl valued.1.1.1.0
configured_flags kind unix_network address args out h valued =
    ap (read_flags kind) (sym (ok_inj h))
    ∙ read_setting kind (codes "-ext-ctl-unix") _ address _ refl valued.1.1.1.1.0
configured_flags kind other_network address args out h valued = ground (arith, h)

-- Where the arguments of a profile are accepted, the core reads from those that it is started with first the two hooks
-- and the controller as the service sets them, and then no flag of these names again; if it takes each of the names as
-- one of a flag with a value.
pub managed_flags_hold :
    (kind : Text → Option Bool) (post_up post_down : Text) (net : Network) (address : Text)
    (args out : List Text)
    → validate_core_args args ≡ ok tt
    → launch_args post_up post_down (some (net, address)) args ≡ ok out
    → All (λ name. kind name ≡ some false) managed_names
    → (rest : List (Text × Text)) × (read_flags kind out
        ≡ (codes "post-up", post_up)
          ∷ (codes "post-down", post_down)
          ∷ (controller_flag net, address)
          ∷ rest)
      × All NotManaged rest
unfolding validate_core_args launch_args flag_of flag_dashed flag_named before_equals after_equals
managed_flags_hold kind post_up post_down net address args out valid made valued =
    let (configured, from, whole) =
      >>=-eq-ok (configure_managed_controller (some (net, address)) args) _ made in
    let hooks : read_flags kind
          (codes "-post-up" ∷ post_up ∷ codes "-post-down" ∷ post_down ∷ configured)
        ≡ (codes "post-up", post_up)
          ∷ (codes "post-down", post_down)
          ∷ (controller_flag net, address)
          ∷ read_flags kind (strip_controller_args args) =
      read_setting kind (codes "-post-up") _ post_up _ refl valued.0
      ∙ ap (λ r. (codes "post-up", post_up) ∷ r)
          (read_setting kind (codes "-post-down") _ post_down _ refl valued.1.0
            ∙ ap (λ r. (codes "post-down", post_down) ∷ r)
                (configured_flags kind net address args configured from valued)) in
    (
      read_flags kind (strip_controller_args args),
      ap (read_flags kind) (sym (ok_inj whole)) ∙ hooks,
      read_flags-NotManaged kind _
          (Kept-Unmanaged _ (strip-Kept args (validate_from-NoHook 0 args valid))),
    )
