-- ===== src/Router/Diagnostics/Examples.antt =====
-- Concrete runs of the log of diagnostics.
use kokorobox_service.Common.{
  any, has_prefix, ranges_after, is_empty, to_lower, codes, to_valid_utf8, ◌≡◌, List, trim_space,
  Text, ◌∷◌, [], false, refl,
}
use kokorobox_service.Router.Diagnostics.{
  diagnostic_logs, clean_message, record_diagnostic_at, store_diagnostic,
}
use kokorobox_service.Router.Diagnostics.Messages.{Kept, record_diagnostic_at_keeps}
use kokorobox_service.Router.Diagnostics.History.{
  Call, log, clear, run, run_history, last, diagnostic_logs_refine,
}
use kokorobox_service.Router.Diagnostics.Levels.{native_diagnostic_level}

abbrev calls : List Call
calls = log [] (codes "info") (codes " up ") ∷ clear ∷ log [] (codes "error") (codes "down") ∷ []

diagnostic_logs_refine_example :
    diagnostic_logs (run trim_space (record { next_id = 0; entries = [] }) calls)
    ≡ last 1000 (run_history trim_space (record { count = 0; recorded = [] }) calls).recorded
diagnostic_logs_refine_example = diagnostic_logs_refine trim_space calls

-- A byte that is no UTF-8 is replaced.
clean_message_runs :
    clean_message trim_space (32 ∷ b'a' ∷ 0xFF ∷ 0xFE ∷ b'b' ∷ [])
    ≡ b'a' ∷ 0xEF ∷ 0xBF ∷ 0xBD ∷ b'b' ∷ []
unfolding clean_message trim_space to_valid_utf8 ranges_after
clean_message_runs = refl

some_message : is_empty (clean_message trim_space (codes " up ")) ≡ false
unfolding clean_message trim_space to_valid_utf8 ranges_after
some_message = refl

record_diagnostic_at_keeps_example :
    (m : Text) × Kept (clean_message trim_space (codes " up ")) m
    × (record_diagnostic_at trim_space []
          (codes "info")
          (codes " up ")
          (record { next_id = 4; entries = [] })
        ≡ store_diagnostic [] (codes "info") m (record { next_id = 4; entries = [] }))
record_diagnostic_at_keeps_example =
    record_diagnostic_at_keeps trim_space [] (codes "info") (codes " up ")
      (record { next_id = 4; entries = [] }) some_message

level_runs : native_diagnostic_level trim_space (codes "HTTP: Failed to connect") ≡ codes "error"
unfolding native_diagnostic_level trim_space to_lower has_prefix any
level_runs = refl
