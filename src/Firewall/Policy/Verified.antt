-- ===== src/Firewall/Policy/Verified.antt =====
-- What a call of `reconcile` of internal/winfirewall/policy.go that succeeds has verified.
use kokorobox_service.Common.{
  All, ◌++◌, to_lower, equal_fold, ◌∷◌, ◌≡◌, true, false, not, List, Text, all, Result, ok, err,
}
use kokorobox_service.Firewall.Policy.{
  supported_profiles, FirewallRule, FirewallError, Store, Mode, removing, matching, in_group,
  is_present,
}
use kokorobox_service.Firewall.Policy.Foreign.{IsLawful}

-- The fields agree, those that Windows reads without regard to case without regard to it.
pub record IsSame (a b : FirewallRule) : Type 0 where
  pub name : to_lower a.name ≡ to_lower b.name
  pub group : to_lower a.group ≡ to_lower b.group
  pub description : a.description ≡ b.description
  pub application : to_lower a.application ≡ to_lower b.application
  pub service : a.service ≡ b.service
  pub protocol : a.protocol ≡ b.protocol
  pub local_ports : a.local_ports ≡ b.local_ports
  pub remote_ports : a.remote_ports ≡ b.remote_ports
  pub local_addresses : a.local_addresses ≡ b.local_addresses
  pub remote_addresses : a.remote_addresses ≡ b.remote_addresses
  pub direction : a.direction ≡ b.direction
  pub action : a.action ≡ b.action
  pub profiles : supported_profiles a.profiles ≡ supported_profiles b.profiles
  pub interface_types : to_lower a.interface_types ≡ to_lower b.interface_types
  pub edge_traversal : a.edge_traversal ≡ b.edge_traversal
  pub enabled : a.enabled ≡ b.enabled

-- No rule has the name, without regard to case.
abbrev pub Unnamed : Text → List FirewallRule → Type 0
Unnamed name = All (λ r. equal_fold r.name name ≡ false)

-- One rule alone has the name of the wanted one, and it is the same.
abbrev pub Once : List FirewallRule → FirewallRule → Type 0
Once rules want =
    (before : List FirewallRule) × (r : FirewallRule) × (after : List FirewallRule) × (rules
      ≡ before ++ (r ∷ after))
    × Unnamed want.name before
    × Unnamed want.name after
    × IsSame r want

-- What a mode is to reach: no rule of the group, or each wanted rule exactly once.
abbrev pub Reached : Mode → Text → List FirewallRule → List FirewallRule → Type 0
Reached removing group desired rules = All (λ r. equal_fold r.group group ≡ false) rules
Reached _ group desired rules = All (Once rules) desired

-- What the last listing is tested for.
abbrev Tested : Mode → Text → List FirewallRule → List FirewallRule → Type 0
Tested removing group desired rules = all (λ r. not (in_group group r)) rules ≡ true
Tested _ group desired rules =
    all (λ want. is_present (matching rules want.name) want) desired ≡ true

module _ {S : Type 0} (store : Store S) (rules : S → List FirewallRule)
    (laws : IsLawful store rules) where
  -- If the step succeeds, the property holds of its state.
  abbrev Gives : {A : Type 0} → (S → Type 0) → S × Result FirewallError A → Type 0
  Gives P (s, err e) = Unit {0}
  Gives P (s, ok a) = P s
