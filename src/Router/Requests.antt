-- ===== src/Router/Requests.antt =====
-- processrouter/types.go: the rules of a request, their validation and normalisation. `runtime.GOOS` is the
-- argument `goos`. The sets of the loop are lists of what was seen.
pub mod Numbering
pub mod Distinct
pub mod Normal
pub mod Protection
use kokorobox_service.Common.{
  ℕ, suc, ◌+◌, Bool, not, ◌&&◌, ◌||◌, List, [], ◌∷◌, ◌++◌, Text, codes, text_eq, equal_fold,
  is_empty, length, to_lower, any, ltb, leb, if◌then◌else◌, Result, ok, err, ◌>>=◌, ◌>>◌, guard,
}
use kokorobox_service.Common.Ints.{ℤ, pos, leb_ℤ, eq_ℤ}
use kokorobox_service.Router.Patterns.{
  valid_linux_executable_path, valid_linux_process_name, valid_windows_executable_pattern,
  windows_base_name, path_base, is_protected_process_pattern,
}

pub record Rule : Type 0 where
  pub id : Text
  pub match_kind : Text
  pub executable_path : Text
  pub executable_name : Text
  pub protocol : Text
  pub action : Text
  pub enabled : Bool
  pub priority : ℤ

pub record RulesRequest : Type 0 where
  pub version : ℤ
  pub platform : Text
  pub proxy_port : ℤ
  pub fail_closed : Bool
  pub proxy_udp_dns : Bool
  pub diagnostic_logging : Bool
  pub rules : List Rule

pub data RouterError : Type 0 where
  bad_version bad_platform bad_port not_fail_closed too_many_rules : RouterError
  duplicate_id duplicate_path duplicate_priority paths_too_large : RouterError
  bad_id bad_path bad_name bad_match_kind name_mismatch protected_program : RouterError
  bad_protocol bad_action bad_priority : RouterError

abbrev pub windows : Text
windows = codes "windows"

abbrev pub linux : Text
linux = codes "linux"

abbrev pub match_executable_path : Text
match_executable_path = codes "executable_path"

abbrev pub match_process_name : Text
match_process_name = codes "process_name"

abbrev pub max_rules : ℕ
max_rules = 256

unfoldable pub valid_protocol : Text → Bool
valid_protocol p = text_eq p (codes "tcp") || text_eq p (codes "udp") || text_eq p (codes "both")

unfoldable pub valid_action : Text → Bool
valid_action a =
    text_eq a (codes "proxy") || text_eq a (codes "direct") || text_eq a (codes "block")

unfoldable pub linux_process_name : Rule → Result RouterError Text
linux_process_name rule = do
  guard (valid_linux_process_name rule.executable_name) bad_name
  guard (is_empty rule.executable_path || valid_linux_executable_path rule.executable_path) bad_path
  guard
      (is_empty rule.executable_path
        || text_eq (path_base rule.executable_path) rule.executable_name)
      name_mismatch
  ok rule.executable_name

-- The name of the program that `validateRule` goes by on a platform.
unfoldable pub linux_name : Rule → Result RouterError Text
unfolding linux_process_name
linux_name rule =
    if text_eq rule.match_kind match_executable_path
    then (do
      guard (valid_linux_executable_path rule.executable_path) bad_path
      ok (path_base rule.executable_path))
    else if text_eq rule.match_kind match_process_name
    then linux_process_name rule
    else err bad_match_kind

unfoldable pub windows_name : Rule → Result RouterError Text
windows_name rule = do
  guard (text_eq rule.match_kind match_executable_path) bad_match_kind
  guard (valid_windows_executable_pattern rule.executable_path) bad_path
  ok (windows_base_name rule.executable_path)

unfoldable pub rule_name : Rule → Text → Result RouterError Text
rule_name rule platform = if text_eq platform linux then linux_name rule else windows_name rule

unfoldable pub validate_rule : Rule → Text → Result RouterError (Unit {0})
validate_rule rule platform = do
  guard (not (is_empty rule.id || ltb 128 (length rule.id))) bad_id
  name ← rule_name rule platform
  guard
      (not (
        text_eq rule.match_kind match_executable_path
        && (is_empty name || not (equal_fold name rule.executable_name))))
      name_mismatch
  guard (not (is_protected_process_pattern name)) protected_program
  guard (valid_protocol rule.protocol) bad_protocol
  guard (valid_action rule.action) bad_action
  guard (leb_ℤ (pos 1) rule.priority && leb_ℤ rule.priority (pos max_rules)) bad_priority

-- sort.SliceStable by the priority.
unfoldable pub insert_rule : Rule → List Rule → List Rule
insert_rule r [] = r ∷ []
insert_rule r (x ∷ xs) = if leb_ℤ r.priority x.priority then r ∷ x ∷ xs else x ∷ insert_rule r xs

unfoldable pub sort_rules : List Rule → List Rule
sort_rules [] = []
sort_rules (r ∷ rs) = insert_rule r (sort_rules rs)

unfoldable pub identifier : Rule → Text
identifier rule =
    if text_eq rule.match_kind match_process_name
    then rule.executable_name
    else rule.executable_path

unfoldable pub path_key : Text → Rule → Text
path_key platform rule =
    let key = rule.match_kind ++ (0 ∷ identifier rule) in
    if text_eq platform windows then to_lower key else key

unfoldable pub with_match_kind : Rule → Rule
with_match_kind rule = record rule {
  match_kind = if is_empty rule.match_kind then match_executable_path else rule.match_kind;
}

-- What the loop has seen.
pub record Seen : Type 0 where
  pub ids : List Text
  pub paths : List Text
  pub priorities : List ℤ
  pub path_bytes : ℕ

unfoldable pub note_rule : Text → Rule → Seen → Seen
note_rule platform rule seen = record {
  ids = rule.id ∷ seen.ids;
  paths = path_key platform rule ∷ seen.paths;
  priorities = rule.priority ∷ seen.priorities;
  path_bytes = seen.path_bytes + (length (identifier rule) + 1);
}

-- The checks of one turn of the loop.
unfoldable pub check_rule : Text → Rule → Seen → Result RouterError (Unit {0})
check_rule platform rule seen = do
  validate_rule rule platform
  guard (not (any (text_eq rule.id) seen.ids)) duplicate_id
  guard (not (any (text_eq (path_key platform rule)) seen.paths)) duplicate_path
  guard (not (any (eq_ℤ rule.priority) seen.priorities)) duplicate_priority
  guard (leb (seen.path_bytes + (length (identifier rule) + 1)) 30000) paths_too_large

-- The loop from an index on: the rules, numbered in their order.
unfoldable pub number_rules : Text → ℕ → Seen → List Rule → Result RouterError (List Rule)
number_rules platform index seen [] = ok []
number_rules platform index seen (r ∷ rs) = do
  let rule = with_match_kind r
  check_rule platform rule seen
  rest ← number_rules platform (suc index) (note_rule platform rule seen) rs
  ok (record rule { priority = pos (suc index) } ∷ rest)

abbrev pub nothing_seen : Seen
nothing_seen = record { ids = []; paths = []; priorities = []; path_bytes = 0 }

unfoldable pub expected_port : Text → ℤ
expected_port platform = if text_eq platform linux then pos 7894 else pos 7891

unfoldable pub is_platform : Text → Bool
is_platform platform = text_eq platform windows || text_eq platform linux

unfoldable pub platform_or : Text → Text → Text
platform_or goos platform =
    if is_empty platform then (if is_platform goos then goos else windows) else platform

unfoldable pub normalize_rules_request : Text → RulesRequest → Result RouterError RulesRequest
normalize_rules_request goos request = do
  guard (eq_ℤ request.version (pos 1)) bad_version
  let platform = platform_or goos request.platform
  guard (is_platform platform) bad_platform
  guard (eq_ℤ request.proxy_port (expected_port platform)) bad_port
  guard request.fail_closed not_fail_closed
  guard (leb (length request.rules) max_rules) too_many_rules
  rules ← number_rules platform 0 nothing_seen (sort_rules request.rules)
  ok (record request { platform = platform; rules = rules })
