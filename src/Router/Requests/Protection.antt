-- ===== src/Router/Requests/Protection.antt =====
-- The protected programs and the rules that `normalizeRulesRequest` of processrouter/types.go accepts.
use kokorobox_service.Common.{◌≡◌, Bool, false, not, List, Text, to_lower, contains_byte, ok, All}
use kokorobox_service.Router.Wildcard.{matches}
use kokorobox_service.Router.Patterns.{protected_names, setup_name}
use kokorobox_service.Router.Requests.{Rule, rule_name}

has_no_star : Text → Bool
has_no_star v = not (contains_byte v b'*')

-- The name, as a pattern, matches none of the texts without regard to case.
abbrev pub Spares : Text → List Text → Type 0
Spares name = All (λ n. matches (to_lower name) (to_lower n) ≡ false)

-- The rule goes by a name that matches no listed program, nor the setup program of version 2.0.0.
abbrev pub Harmless : Text → Rule → Type 0
Harmless platform r =
    (name : Text) × (rule_name r platform ≡ ok name)
    × Spares name protected_names
    × (matches (to_lower name) (to_lower setup_name) ≡ false)
