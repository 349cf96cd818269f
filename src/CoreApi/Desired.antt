-- ===== src/CoreApi/Desired.antt =====
-- route/coreapi/desired.go, and the handlers of core.go that use it. The core (cm of core/manager.go) is an interface
-- to this code: whether it runs is in the state, and each call of it can fail. The encoding of the state as JSON is an
-- argument. `windows` tells the platform.
pub mod Persisted
pub mod Following
use kokorobox_service.Common.{
  ◌||◌, ℕ, Bool, true, false, not, ◌&&◌, Option, none, some, List, [], ◌∷◌, ◌++◌, Text,
  if◌then◌else◌, is_none, ◌==◌,
}
use kokorobox_service.Common.Effects.{
  Fault, works, fails, fails_late, next_fault, later_faults, attempt_with, Outcome, done, failure,
  ◌>>=◌, ◌>>◌, pure, fail, modify, after,
}

pub record DesiredCoreState : Type 0 where
  pub version : ℕ
  pub running : Bool
  pub log_group : Option ℕ

-- json.Marshal and json.Unmarshal of the state.
pub record Json : Type 0 where
  pub encode : DesiredCoreState → Text
  pub decode : Text → Option DesiredCoreState

-- The mutex makes each operation one step.
pub record DesiredCoreManager : Type 0 where
  -- m.path != "", m.core != nil and m.stop != nil.
  pub has_path : Bool
  pub has_core : Bool
  pub watching : Bool
  pub running : Bool
  pub log_group : Option ℕ
  -- The file at m.path, and whether the process of the core runs.
  pub disk : Option Text
  pub core_runs : Bool
  -- The log groups that the core was started with, the last one first.
  pub launches : List (Option ℕ)
  pub faults : List Fault

pub data DesiredError : Type 0 where
  not_configured file_failed invalid_state start_failed stop_failed no_process : DesiredError

abbrev pub Step : Type 0 → Type 0
Step A = DesiredCoreManager → Outcome DesiredError DesiredCoreManager A

abbrev pub drawn : DesiredCoreManager → DesiredCoreManager
drawn m = record m { faults = later_faults m.faults }

unfoldable pub attempt : (DesiredCoreManager → DesiredCoreManager) → DesiredError → Step (Unit {0})
unfolding attempt_with next_fault later_faults
attempt effect e m = attempt_with (next_fault m.faults) effect e (drawn m)

-- A call of the file system that changes nothing but a temporary file.
unfoldable pub file_call : Step (Unit {0})
file_call = attempt (λ m. m) file_failed

-- `GetProcessInfo` gives no error.
unfoldable pub process_found : DesiredCoreManager → Bool × DesiredCoreManager
unfolding next_fault later_faults
process_found m = elim (next_fault m.faults) [
  | works ↦ (m.core_runs, drawn m)
  | _ ↦ (false, drawn m)
]

unfoldable pub start_core_with : Option ℕ → Step (Unit {0})
start_core_with group =
    attempt (λ m. record m { core_runs = true; launches = group ∷ m.launches }) start_failed

unfoldable pub log_group_for : Bool → Option ℕ → Option ℕ → Option ℕ
log_group_for running (some g) old = some g
log_group_for running none old = if running then old else none

unfoldable pub adopt : Bool → Option ℕ → Step (Unit {0})
adopt running group = modify (λ m. record m { running = running; log_group = group })

unfoldable pub flush_directory : Bool → Step (Unit {0})
unfolding file_call
flush_directory windows m = if windows then done tt m else (do file_call; file_call) m

unfoldable pub reconcile_found : Bool → DesiredCoreManager → DesiredCoreManager
reconcile_found true m = m
reconcile_found false m = after (start_core_with m.log_group m)

unfoldable pub reconcile : DesiredCoreManager → DesiredCoreManager
unfolding reconcile_found
reconcile m =
    if not m.running || not m.has_core
    then m
    else (let (found, t) = process_found m in reconcile_found found t)

unfoldable pub stop_watching : DesiredCoreManager → DesiredCoreManager
stop_watching m = record m { watching = false }

unfoldable pub start_unless : Option ℕ → Bool → Step (Unit {0})
start_unless group true m = done tt m
start_unless group false m = start_core_with group m

-- StopCore of the core, then what `coreStop` does with it.
unfoldable pub stop_core : Step (Unit {0})
stop_core = attempt (λ m. record m { core_runs = false }) stop_failed

module _ (json : Json) where
  -- The temporary file is made, written, flushed and closed, and takes the place of the old one.
  unfoldable pub write_state : DesiredCoreState → Step (Unit {0})
  unfolding file_call
  write_state state = do
    file_call
    file_call
    file_call
    file_call
    file_call
    attempt (λ m. record m { disk = some (json.encode state) }) file_failed

  unfoldable pub load_from : Option Text → Step (Unit {0})
  load_from none m = done tt m
  load_from (some data_bytes) m = elim (json.decode data_bytes) [
    | none ↦ failure invalid_state m
    | some state ↦
        if state.version == 1
        then done tt (record m { running = state.running; log_group = state.log_group })
        else failure invalid_state m
  ]

  unfoldable pub load : Step (Unit {0})
  unfolding load_from
  load = do adopt false none; file_call; λ m. load_from m.disk m

  -- The first call of `reconcile`, which a goroutine makes, is a later step.
  unfoldable pub configure_desired_core : Step (Unit {0})
  configure_desired_core = do
    modify (λ m. record m { watching = false; has_path = true; has_core = true })
    load
    modify (λ m. record m { watching = true })

module _ (json : Json) (windows : Bool) where
  unfoldable pub store : Bool → Option ℕ → Step (Unit {0})
  store running group = do
    file_call
    write_state json (record { version = 1; running = running; log_group = group })
    flush_directory windows
    adopt running group

  unfoldable pub set : Bool → Option ℕ → Step (Unit {0})
  set running group m =
      if m.has_path
      then store running (log_group_for running group m.log_group) m
      else failure not_configured m

  -- `group` is what WithLogFileGroup gives to the start, if it is among the options.
  unfoldable pub start_desired_core : Option ℕ → Step (Unit {0})
  unfolding start_unless
  start_desired_core group = do
    set true group
    λ m. let (found, t) = process_found m in start_unless group found t

  unfoldable pub core_stop : Step (Unit {0})
  core_stop = do set false none; stop_core

  -- RestartCoreWithProfile of the core, which `coreRestart` calls when the state is set.
  unfoldable pub core_restart : Option ℕ → Step (Unit {0})
  core_restart group = do set true group; start_core_with group
