-- ===== src/Firewall/Policy.antt =====
-- internal/winfirewall/policy.go. The store of rules (`ruleStore`) is an interface over a state of its own.
pub mod Foreign
pub mod Verified
use kokorobox_service.Common.{
  codes, ℕ, ◌%◌, Bool, true, false, not, ◌&&◌, ◌||◌, List, [], ◌∷◌, Text, text_eq, to_lower,
  equal_fold, length, all, filter, ltb, ◌==◌, if◌then◌else◌, Result, ok, err, ◌>>◌, guard,
}
use kokorobox_service.Common.Ints.{ℤ, pos, negsuc, eq_ℤ}

abbrev pub all_profiles : ℤ
all_profiles = pos 2147483647

pub data Mode : Type 0 where
  ensuring checking removing invalid_mode : Mode

pub record FirewallRule : Type 0 where
  pub name : Text
  pub group : Text
  pub description : Text
  pub application : Text
  pub service : Text
  pub protocol : ℤ
  pub local_ports : Text
  pub remote_ports : Text
  pub local_addresses : Text
  pub remote_addresses : Text
  pub direction : ℤ
  pub action : ℤ
  pub profiles : ℤ
  pub interface_types : Text
  pub edge_traversal : Bool
  pub enabled : Bool

pub data FirewallError : Type 0 where
  bad_operation foreign_rule duplicate_rule : FirewallError
  not_removed missing_rule not_verified : FirewallError
  list_failed not_modifiable add_failed delete_failed : FirewallError

unfoldable pub inbound : Text → Text → Text → ℤ → Text → FirewallRule
inbound name group application protocol ports = record {
  name = name;
  group = group;
  description = [];
  application = application;
  service = [];
  protocol = protocol;
  local_ports = ports;
  remote_ports = codes "*";
  local_addresses = codes "*";
  remote_addresses = codes "*";
  direction = pos 1;
  action = pos 1;
  profiles = all_profiles;
  interface_types = codes "All";
  edge_traversal = false;
  enabled = true;
}

-- The call of a step: the state that it leaves, and what it returns.
abbrev pub Step : Type 0 → Type 0 → Type 0
Step S A = S → S × Result FirewallError A

pub record Store (S : Type 0) : Type 0 where
  pub list : Step S (List FirewallRule)
  pub modifiable : Step S (Unit {0})
  pub add : FirewallRule → Step S (Unit {0})
  pub delete_rule : Text → Step S (Unit {0})

-- `profiles & 7`, in two's complement.
unfoldable pub low_profiles : ℤ → ℕ
low_profiles (pos n) = n % 8
low_profiles (negsuc n) = if n % 8 == 0 then 7 else 0

unfoldable pub supported_profiles : ℤ → ℤ
supported_profiles p = if low_profiles p == 7 then all_profiles else p

unfoldable pub same_flag : Bool → Bool → Bool
same_flag true b = b
same_flag false b = not b

unfoldable pub same_rule : FirewallRule → FirewallRule → Bool
same_rule a b =
    text_eq (to_lower a.name) (to_lower b.name)
    && text_eq (to_lower a.group) (to_lower b.group)
    && text_eq a.description b.description
    && text_eq (to_lower a.application) (to_lower b.application)
    && text_eq a.service b.service
    && eq_ℤ a.protocol b.protocol
    && text_eq a.local_ports b.local_ports
    && text_eq a.remote_ports b.remote_ports
    && text_eq a.local_addresses b.local_addresses
    && text_eq a.remote_addresses b.remote_addresses
    && eq_ℤ a.direction b.direction
    && eq_ℤ a.action b.action
    && eq_ℤ (supported_profiles a.profiles) (supported_profiles b.profiles)
    && text_eq (to_lower a.interface_types) (to_lower b.interface_types)
    && same_flag a.edge_traversal b.edge_traversal
    && same_flag a.enabled b.enabled

unfoldable pub matching : List FirewallRule → Text → List FirewallRule
matching rules name = filter (λ r. equal_fold r.name name) rules

unfoldable pub in_group : Text → FirewallRule → Bool
in_group group rule = equal_fold rule.group group

-- Exactly one rule was found, and it is the one that is wanted.
unfoldable pub is_present : List FirewallRule → FirewallRule → Bool
is_present (r ∷ []) want = same_rule r want
is_present _ want = false

-- The first preflight, of the reserved names.
unfoldable pub check_reserved :
    Text → Bool → List FirewallRule → List FirewallRule → Result FirewallError (Unit {0})
check_reserved group repair_duplicates rules [] = ok tt
check_reserved group repair_duplicates rules (want ∷ desired) = do
  guard (all (in_group group) (matching rules want.name)) foreign_rule
  guard (not (ltb 1 (length (matching rules want.name)) && not repair_duplicates)) duplicate_rule
  check_reserved group repair_duplicates rules desired

-- The second one, of the members of the group that are to be removed.
unfoldable pub check_members :
    Text → List FirewallRule → List FirewallRule → Result FirewallError (Unit {0})
check_members group rules [] = ok tt
check_members group rules (rule ∷ members) = do
  guard (not (in_group group rule) || all (in_group group) (matching rules rule.name)) foreign_rule
  check_members group rules members

abbrev pub is_removing : Mode → Bool
is_removing removing = true
is_removing _ = false

abbrev pub is_checking : Mode → Bool
is_checking checking = true
is_checking _ = false

abbrev pub is_invalid : Mode → Bool
is_invalid invalid_mode = true
is_invalid _ = false

unfoldable pub preflight :
    Mode → Text → Bool → List FirewallRule → List FirewallRule → Result FirewallError (Unit {0})
preflight mode group repair_duplicates rules desired = do
  check_reserved group repair_duplicates rules desired
  if is_removing mode then check_members group rules rules else ok tt

-- `if err != nil { return err }` after a call that may change the state.
abbrev pub and_then :
    {S A B : Type 0} → S × Result FirewallError A → (A → Step S B) → S × Result FirewallError B
and_then (s, err e) next = (s, err e)
and_then (s, ok a) next = next a s

unfoldable pub lift : {S A : Type 0} → Result FirewallError A → Step S A
lift r s = (s, r)

module _ {S : Type 0} (store : Store S) where
  open store use {list, modifiable, add, delete_rule}

  unfoldable pub delete_all : List FirewallRule → Step S (Unit {0})
  delete_all [] s = (s, ok tt)
  delete_all (r ∷ rs) s = and_then (delete_rule r.name s) (λ _. delete_all rs)

  unfoldable pub remove_group : Text → List FirewallRule → Step S (Unit {0})
  unfolding lift
  remove_group group rules s = and_then (delete_all (filter (in_group group) rules) s) (λ _ s.
      and_then (list s)
        (λ remaining. lift (guard (all (λ r. not (in_group group r)) remaining) not_removed)))

  -- The work on one rule that is not as it is wanted.
  unfoldable pub recreate : Mode → List FirewallRule → FirewallRule → Step S (Unit {0})
  recreate mode found want s =
      if is_checking mode
      then (s, err missing_rule)
      else and_then (delete_all found s) (λ _. add want)

  unfoldable pub ensure_all : Mode → List FirewallRule → List FirewallRule → Step S (Unit {0})
  ensure_all mode rules [] s = (s, ok tt)
  ensure_all mode rules (want ∷ desired) s =
      let found = matching rules want.name in
      if is_present found want
      then ensure_all mode rules desired s
      else and_then (recreate mode found want s) (λ _. ensure_all mode rules desired)

  unfoldable pub verify_all : List FirewallRule → Step S (Unit {0})
  unfolding lift
  verify_all desired s = and_then (list s) (λ actual.
      lift (guard (all (λ want. is_present (matching actual want.name) want) desired) not_verified))

  unfoldable pub check_modifiable : Mode → Step S (Unit {0})
  check_modifiable mode s = if is_checking mode then (s, ok tt) else modifiable s

  -- What follows the preflights.
  unfoldable pub apply_mode :
      Mode → Text → List FirewallRule → List FirewallRule → Step S (Unit {0})
  apply_mode mode group rules desired s = and_then (check_modifiable mode s) (λ _ s.
      if is_removing mode
      then remove_group group rules s
      else and_then (ensure_all mode rules desired s) (λ _. verify_all desired))

  unfoldable pub reconcile : Text → List FirewallRule → Mode → Bool → Step S (Unit {0})
  unfolding lift
  reconcile group desired mode repair_duplicates s =
      if is_invalid mode
      then (s, err bad_operation)
      else and_then (list s) (λ rules s.
        and_then (lift (preflight mode group repair_duplicates rules desired) s)
          (λ _. apply_mode mode group rules desired))
