-- ===== src/Core/LogWriter.antt =====
-- core/log_writer.go: the log of the core, cut when it has grown past its limit. The files of the system are in the
-- state; an open file is the one under the writer's path. What float64 makes of seven tenths of the limit is the
-- argument `low`.
pub mod Tail
pub mod Bound
pub mod Writes
pub mod Appends
pub mod Examples
use Prim.Native.Nat.{max}
use kokorobox_service.Common.{
  ◌-◌, length, not, leb, is_empty, ◌||◌, ◌&&◌, take, drop, ◌==◌, ℕ, Bool, true, false, Option, none,
  some, List, [], ◌∷◌, ◌++◌, Text, codes, text_eq, if◌then◌else◌,
}
use kokorobox_service.Common.Effects.{
  ◌>>=◌, catch, fail, ignore, pure, Outcome, done, failure, ◌>>◌, modify,
}

-- How a call of the system turns out: it fails with a message, or has written only some bytes then.
pub data Fault : Type 0 where
  works : Fault
  fails : Text → Fault
  partly : ℕ → Text → Fault

pub record CoreLogSettings : Type 0 where
  pub path : Text
  pub save_logs : Bool
  -- 0 stands for any number that is not positive.
  pub max_bytes : ℕ

pub record LogWriter : Type 0 where
  pub is_open : Bool
  pub path : Text
  pub save_logs : Bool
  pub max_bytes : ℕ
  pub closed : Bool
  pub last_error : Text
  pub files : Text → Option Text
  -- The lines that were sent to the log of the service.
  pub reports : List Text
  pub faults : List Fault

abbrev pub Step : Type 0 → Type 0
Step A = LogWriter → Outcome Text LogWriter A

abbrev pub new_bounded_log_writer : CoreLogSettings → (Text → Option Text) → List Fault → LogWriter
new_bounded_log_writer settings files faults = record {
  is_open = false;
  path = settings.path;
  save_logs = settings.save_logs;
  max_bytes = settings.max_bytes;
  closed = false;
  last_error = [];
  files = files;
  reports = [];
  faults = faults;
}

unfoldable pub next_fault : List Fault → Fault
next_fault [] = works
next_fault (f ∷ fs) = f

unfoldable pub later_faults : List Fault → List Fault
later_faults [] = []
later_faults (f ∷ fs) = fs

abbrev pub drawn : LogWriter → LogWriter
drawn w = record w { faults = later_faults w.faults }

unfoldable pub with_file : Text → Text → (Text → Option Text) → Text → Option Text
with_file path content files p = if text_eq p path then some content else files p

abbrev pub content_of : Option Text → Text
content_of none = []
content_of (some s) = s

-- What is in the file at the writer's path.
abbrev pub logged : LogWriter → Text
logged w = content_of (w.files w.path)

abbrev pub put_content : Text → LogWriter → LogWriter
put_content s w = record w { files = with_file w.path s w.files }

-- A call that changes nothing of what is modelled, or fails with a message.
unfoldable pub call : Text → Step (Unit {0})
call message w = elim (next_fault w.faults) [
  | works ↦ done tt (drawn w)
  | fails os ↦ failure (message ++ os) (drawn w)
  | partly n os ↦ failure (message ++ os) (drawn w)
]

-- A call that writes: `write n` is its effect when it stops after n bytes.
unfoldable pub put : (LogWriter → LogWriter) → (ℕ → LogWriter → LogWriter) → Text → Step (Unit {0})
put all write message w = elim (next_fault w.faults) [
  | works ↦ done tt (all (drawn w))
  | fails os ↦ failure (message ++ os) (drawn w)
  | partly n os ↦ failure (message ++ os) (write n (drawn w))
]

-- errors.Join of an error and of what `m` gives.
unfoldable pub join_errors : Text → Step (Unit {0}) → LogWriter → Text × LogWriter
join_errors message m w = elim (m w) [
  | done _ t ↦ (message, t)
  | failure second t ↦ (message ++ (10 ∷ second), t)
]

unfoldable pub report_error_locked : Text → LogWriter → LogWriter
report_error_locked message w = if text_eq message w.last_error then w else record w {
  last_error = message;
  reports = w.reports ++ ((codes "Failed to write core log: " ++ message) ∷ []);
}

unfoldable pub close_file_locked : Step (Unit {0})
close_file_locked w = if w.is_open then call [] (record w { is_open = false }) else done tt w

-- O_CREATE: a file that is not there is made.
unfoldable pub open_file : Text → Step (Unit {0})
open_file message = put (λ w. put_content (logged w) w) (λ n w. w) message

unfoldable pub open_with_access : Text → Step (Unit {0})
open_with_access message = do open_file message; call []; modify (λ w. record w { is_open = true })

unfoldable pub reopen_locked : Step (Unit {0})
reopen_locked = open_with_access (codes "Failed to reopen core log file: ")

-- What follows the first line feed, if there is one.
unfoldable pub after_newline : Text → Option Text
after_newline [] = none
after_newline (c ∷ s) = let later = after_newline s in if c == 10 then some s else later

-- A tail is cut to the first line that starts in it, unless nothing would be left.
unfoldable pub from_line_start : Text → Text
from_line_start s = elim (after_newline s) [ none ↦ s | some [] ↦ s | some (c ∷ rest) ↦ c ∷ rest ]

unfoldable pub read_log_tail : ℕ → ℕ → Step Text
read_log_tail size target w =
    if leb size target
    then (do call (codes "Failed to read core log file: "); pure (logged w)) w
    else (do
      call (codes "Failed to open core log file: ")
      call (codes "Failed to read core log file tail: ")
      pure (from_line_start (take target (drop (size - target) (logged w)))))
        w

-- os.WriteFile, which truncates the file before it writes.
unfoldable pub write_file : Text → Step (Unit {0})
write_file content =
    put (put_content content) (λ n. put_content (take n content))
      (codes "Failed to truncate core log file: ")

-- `_ = w.reopenLocked(); return err`.
unfoldable pub reopen_and_fail : {A : Type 0} → Text → Step A
reopen_and_fail message = do ignore reopen_locked; fail message

unfoldable pub shrink : ℕ → ℕ → Step (Unit {0})
shrink size target = do
  modify (λ w. record w { is_open = false })
  call (codes "Failed to close core log file: ")
  content ← catch (read_log_tail size target) reopen_and_fail
  catch (write_file content) reopen_and_fail
  catch (call []) reopen_and_fail
  reopen_locked

-- The file's own write, which appends.
unfoldable pub append_bytes : Text → Step (Unit {0})
append_bytes p =
    put (λ w. put_content (logged w ++ p) w) (λ n w. put_content (logged w ++ take n p) w) []

unfoldable pub report_and_close : Text → LogWriter → LogWriter
report_and_close message w =
    let (joined, t) = join_errors message close_file_locked w in report_error_locked joined t

unfoldable pub stat_size : Step ℕ
stat_size w = (do call (codes "Failed to check core log size: "); pure (length (logged w))) w

module _ (low : ℕ → ℕ) where
  unfoldable pub target_bytes : ℕ → ℕ
  target_bytes max_bytes = max (low max_bytes) 1

  unfoldable pub shrink_over : ℕ → Step (Unit {0})
  shrink_over size w =
      if leb size w.max_bytes then done tt w else shrink size (target_bytes w.max_bytes) w

  unfoldable pub enforce_limit_locked : Step (Unit {0})
  enforce_limit_locked w =
      if w.max_bytes == 0 || not w.is_open
      then done tt w
      else (do size ← stat_size; shrink_over size) w

  unfoldable pub ensure_open_locked : Step (Unit {0})
  ensure_open_locked w =
      if w.is_open
      then done tt w
      else (do
        call (codes "Failed to create core log directory: ")
        open_with_access (codes "Failed to open core log file: ")
        enforce_limit_locked)
          w

  unfoldable pub enforce_or_close : LogWriter → LogWriter
  enforce_or_close w = elim (enforce_limit_locked w) [
    | done _ t ↦ t
    | failure message t ↦ report_and_close message t
  ]

  unfoldable pub write_open : Text → LogWriter → LogWriter
  write_open p w = elim (append_bytes p w) [
    | done _ t ↦ enforce_or_close t
    | failure message t ↦ report_and_close message t
  ]

  -- Every call answers that all bytes were written.
  unfoldable pub write : Text → LogWriter → ℕ × LogWriter
  write p w =
      if w.closed || is_empty p || not w.save_logs || is_empty w.path then (length p, w) else (
        length p,
        elim (ensure_open_locked w) [
          | done _ t ↦ write_open p t
          | failure message t ↦ report_error_locked message t
        ],
      )

  unfoldable pub close_or_report : LogWriter → LogWriter
  close_or_report w = elim (close_file_locked w) [
    | done _ t ↦ t
    | failure message t ↦ report_error_locked message t
  ]

  unfoldable pub adopt_settings : CoreLogSettings → LogWriter → LogWriter
  adopt_settings settings w = record w {
    path = settings.path;
    save_logs = settings.save_logs;
    max_bytes = settings.max_bytes;
    last_error = [];
  }

  unfoldable pub open_updated : LogWriter → LogWriter
  open_updated w =
      if w.save_logs && not (is_empty w.path)
      then elim (ensure_open_locked w) [
        | done _ t ↦ enforce_or_close t
        | failure message t ↦ report_error_locked message t
      ]
      else w

  unfoldable pub update : CoreLogSettings → LogWriter → LogWriter
  update settings w =
      let left =
        if not (text_eq w.path settings.path) || not settings.save_logs
        then close_or_report w
        else w in
      if w.closed then w else open_updated (adopt_settings settings left)

unfoldable pub close : Step (Unit {0})
close w = close_file_locked (record w { closed = true })
