-- ===== src/Router/Diagnostics.antt =====
-- The log of diagnostics of processrouter/diagnostics.go. `trim` is strings.TrimSpace on texts in UTF-8, the time is
-- an argument, as text.
pub mod History
pub mod Messages
pub mod Levels
pub mod Examples
use kokorobox_service.Common.{
  zero, suc, ℕ, ◌+◌, ◌-◌, ◌%◌, ◌^◌, Text, List, [], ◌∷◌, ◌++◌, Bool, true, false, if◌then◌else◌,
  ltb, length, drop, take, is_empty, valid_string, to_valid_utf8,
}

abbrev pub max_diagnostic_entries : ℕ
max_diagnostic_entries = 1000

pub record DiagnosticEntry : Type 0 where
  pub id : ℕ
  pub time : Text
  pub message : Text
  pub level : Text

pub record Diagnostics : Type 0 where
  pub next_id : ℕ
  pub entries : List DiagnosticEntry

-- `for !utf8.ValidString(message) { message = message[:len(message)-1] }` on the first n bytes.
unfoldable pub cut_invalid : ℕ → Text → Text
cut_invalid zero s = []
cut_invalid (suc n) s = elim (valid_string (take (suc n) s)) [
  | true ↦ take (suc n) s
  | false ↦ cut_invalid n s
]

abbrev pub max_message : ℕ
max_message = 4096

unfoldable pub limit_message : Text → Text
unfolding cut_invalid
limit_message s = if ltb max_message (length s) then cut_invalid max_message s else s

-- An append, and the copy of the last entries where there are more than the limit.
unfoldable pub append_entry : DiagnosticEntry → List DiagnosticEntry → List DiagnosticEntry
append_entry e entries =
    let all = entries ++ (e ∷ []) in
    if ltb max_diagnostic_entries (length all)
    then drop (length all - max_diagnostic_entries) all
    else all

unfoldable pub store_diagnostic : Text → Text → Text → Diagnostics → Diagnostics
store_diagnostic time level message d =
    let id = (d.next_id + 1) % 2 ^ 64 in
    record {
      next_id = id;
      entries =
          append_entry (record { id = id; time = time; message = message; level = level })
            d.entries;
    }

module _ (trim : Text → Text) where
  unfoldable pub clean_message : Text → Text
  clean_message message = to_valid_utf8 (trim message)

  unfoldable pub record_diagnostic_at : Text → Text → Text → Diagnostics → Diagnostics
  record_diagnostic_at time level message d =
      let cleaned = clean_message message in
      if is_empty cleaned then d else store_diagnostic time level (limit_message cleaned) d

unfoldable pub diagnostic_logs : Diagnostics → List DiagnosticEntry
diagnostic_logs d = d.entries

unfoldable pub clear_diagnostic_logs : Diagnostics → Diagnostics
clear_diagnostic_logs d = record d { entries = [] }
