-- ===== src/Core/LogWriter/Examples.antt =====
-- Concrete runs of the log writer.
use kokorobox_service.Common.Effects.{catch}
use kokorobox_service.Common.{
  text_eq, ◌⊎◌, ◌≤◌, length, ◌++◌, ◌/◌, ◌≡◌, ◌*◌, codes, arith, ◌∷◌, [], false, true, some, refl, ℕ,
}
use kokorobox_service.Core.LogWriter.{
  write_file, reopen_locked, open_with_access, open_file, from_line_start, after_newline,
  target_bytes, read_log_tail, shrink, shrink_over, later_faults, call, stat_size,
  enforce_limit_locked, enforce_or_close, next_fault, put, append_bytes, write_open,
  ensure_open_locked, LogWriter, works, partly, logged, write, with_file,
}
use kokorobox_service.Core.LogWriter.Tail.{Within}
use kokorobox_service.Core.LogWriter.Writes.{Lowers, write_bounded}
use kokorobox_service.Core.LogWriter.Appends.{write_appends}

abbrev low : ℕ → ℕ
low n = n * 7 / 10

low-Lowers : Lowers low
low-Lowers n = omega arith

abbrev writer : LogWriter
writer = record {
  is_open = true;
  path = codes "core.log";
  save_logs = true;
  max_bytes = 10;
  closed = false;
  last_error = [];
  files = λ p. some (codes "ab" ++ (10 ∷ codes "cd"));
  reports = [];
  faults = [];
}

-- The new content of the file is written only in part.
write_bounded_example :
    let w = record writer { faults = works ∷ works ∷ works ∷ works ∷ works ∷ partly 1 [] ∷ [] } in
    Within (logged (write low (codes "efghij") w).1) (logged w ++ codes "efghij")
    × ((length (logged (write low (codes "efghij") w).1) ≤ 10)
        ⊎ (length (logged (write low (codes "efghij") w).1) ≤ length (logged w))
        ⊎ ((write low (codes "efghij") w).1.is_open ≡ false))
write_bounded_example =
    write_bounded low (codes "efghij")
      (record writer { faults = works ∷ works ∷ works ∷ works ∷ works ∷ partly 1 [] ∷ [] })
      low-Lowers (omega arith)

write_appends_example :
    (logged (write low (codes "efg") writer).1 ≡ logged writer ++ codes "efg")
    × ((write low (codes "efg") writer).1.is_open ≡ true)
write_appends_example =
    write_appends low (codes "efg") writer refl refl refl refl refl (omega arith)

-- Eleven bytes are too many: seven are kept, from the first line that starts in them.
cuts_runs :
    logged (write low (codes "ef" ++ (10 ∷ codes "gh" ++ (10 ∷ []))) writer).1
    ≡ codes "gh" ++ (10 ∷ [])
unfolding write ensure_open_locked write_open append_bytes put next_fault enforce_or_close
    enforce_limit_locked stat_size call later_faults shrink_over with_file shrink read_log_tail
    target_bytes after_newline from_line_start open_file open_with_access reopen_locked write_file
    catch text_eq
cuts_runs = refl
