-- ===== src/Router/Diagnostics/Levels.antt =====
-- How processrouter/diagnostics.go classes a message of the native router by its text.
use kokorobox_service.Router.Diagnostics.{Diagnostics, record_diagnostic_at}
use kokorobox_service.Common.{
  length, drop, is_empty, if◌then◌else◌, has_prefix, any, [], codes, to_lower, Bool, ◌∷◌, Text,
  List, Option, some, none,
}

unfoldable pub trim_prefix : Text → Text → Text
trim_prefix s p = if has_prefix s p then drop (length p) s else s

-- What comes after the first place of a text in another, if it is there.
unfoldable pub after_first : Text → Text → Option Text
after_first sep [] = none
after_first sep (c ∷ s) =
    let later = after_first sep s in
    if has_prefix (c ∷ s) sep then some (drop (length sep) (c ∷ s)) else later

unfoldable pub starts_with_any : Text → List Text → Bool
starts_with_any s prefixes = any (has_prefix s) prefixes

abbrev pub error_prefixes : List Text
error_prefixes =
    codes "level=error"
    ∷ codes "[error]"
    ∷ codes "error:"
    ∷ codes "fatal:"
    ∷ codes "[udp relay error]"
    ∷ []

abbrev pub warning_prefixes : List Text
warning_prefixes =
    codes "level=warn" ∷ codes "[warn]" ∷ codes "[warning]" ∷ codes "warning:" ∷ codes "warn:" ∷ []

abbrev pub traffic_prefixes : List Text
traffic_prefixes = codes "[pid]" ∷ codes "[packet]" ∷ codes "level=debug" ∷ []

abbrev pub rule_prefixes : List Text
rule_prefixes =
    codes "added rule id:"
    ∷ codes "deleted rule id:"
    ∷ codes "updated rule id:"
    ∷ codes "enabled rule id:"
    ∷ codes "disabled rule id:"
    ∷ codes "moved rule id "
    ∷ codes "rule: "
    ∷ []

abbrev pub failure_prefixes : List Text
failure_prefixes = codes "failed to " ∷ codes "invalid " ∷ []

abbrev pub status_failures : List Text
status_failures =
    codes "failed to "
    ∷ codes "invalid "
    ∷ codes "connect failed"
    ∷ codes "no-auth negotiation failed"
    ∷ []

abbrev pub setup_failures : List Text
setup_failures =
    codes "wsastartup failed"
    ∷ codes "socket creation failed"
    ∷ codes "bind failed"
    ∷ codes "listen failed"
    ∷ codes "memory allocation failed"
    ∷ codes "ipv6 listen failed"
    ∷ []

unfoldable pub or_text : Option Text → (Text → Text) → Text → Text
or_text none f default = default
or_text (some s) f default = f s

module _ (trim : Text → Text) where
  -- The text after a subsystem's prefix, `[OWNER]` or `HTTP: `.
  unfoldable pub status_of : Text → Text
  unfolding or_text after_first
  status_of text =
      if has_prefix text (codes "[")
      then or_text (after_first (codes "]") text) trim text
      else or_text (after_first (codes ": ") text) (λ s. s) text

  unfoldable pub level_of : Text → Text
  unfolding starts_with_any status_of
  level_of text =
      if starts_with_any text error_prefixes
      then codes "error"
      else if starts_with_any text warning_prefixes
      then codes "warning"
      else if starts_with_any text traffic_prefixes
      then codes "debug"
      else if starts_with_any text rule_prefixes
      then codes "debug"
      else if starts_with_any text failure_prefixes
      then codes "error"
      else if starts_with_any (status_of text) status_failures
      then codes "error"
      else if starts_with_any text setup_failures
      then codes "error"
      else codes "info"

  unfoldable pub native_diagnostic_level : Text → Text
  unfolding level_of trim_prefix
  native_diagnostic_level message =
      let text = to_lower (trim message) in
      if has_prefix text (codes "diagnostic route ")
      then codes "info"
      else level_of (trim_prefix text (codes "diagnostic engine="))

  -- The lines that go to the log of the service are left out.
  unfoldable pub record_native_diagnostic : Text → Text → Diagnostics → Diagnostics
  record_native_diagnostic time message d =
      if is_empty (trim message)
      then d
      else record_diagnostic_at trim time (native_diagnostic_level message) message d
