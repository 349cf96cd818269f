-- ===== src/Sysproxy/Guard.antt =====
-- The guard of the proxy settings (sysproxy_guard.go). A round of its loop is two steps: the check, which reads the
-- settings without the mutex, and the restoring under it. The errors that the loop tells apart by their texts are told
-- apart by their kinds.
pub mod Stopped
use kokorobox_service.Common.{
  [], List, ◌∷◌, ◌==◌, Option, Bool, ◌++◌, if◌then◌else◌, false, true, some, none, ℕ,
}
use kokorobox_service.Common.Effects.{done, failure, ◌>>=◌, ◌>>◌, pure, fail}
use kokorobox_service.Sysproxy.Snapshot.{
  GuardMode, ProxyConfig, Options, GuardSnapshot, new_guard_snapshot, guard_matches,
  fill_apply_options, guard_watch_options,
}
use kokorobox_service.Sysproxy.Lease.{
  ProxySystem, ProxyError, Runner, State, Step, next_generation, runner_query, runner_apply,
  stop_guard, setting_differs,
}

pub record GuardConfig : Type 0 where
  pub mode : GuardMode
  pub opts : Options
  pub watch_opts : Options
  pub expected : GuardSnapshot
  pub runner : Runner

pub data GuardEvent : Type 0 where
  guard_changed guard_restored guard_restore_failed : GuardEvent
  guard_check_failed guard_watch_failed : GuardEvent

-- What a guard's goroutine keeps: the last error that it has told, and the events that it has published.
pub record GuardLoop : Type 0 where
  pub last_err : Option ProxyError
  pub published : List GuardEvent

unfoldable pub error_code : ProxyError → ℕ
error_code ProxyError.query_failed = 0
error_code ProxyError.apply_failed = 1
error_code ProxyError.disable_failed = 2
error_code ProxyError.close_failed = 3
error_code ProxyError.no_session = 4
error_code ProxyError.wrong_user = 5
error_code ProxyError.not_configured = 6
error_code ProxyError.too_large = 7
error_code ProxyError.record_not_written = 8
error_code ProxyError.record_not_removed = 9
error_code ProxyError.record_unreadable = 10
error_code ProxyError.record_invalid = 11
error_code ProxyError.setting_differs = 12

unfoldable pub was_told : Option ProxyError → ProxyError → Bool
unfolding error_code
was_told none e = false
was_told (some d) e = error_code d == error_code e

-- An error is published once, until a round goes well.
unfoldable pub tell : GuardEvent → ProxyError → GuardLoop → GuardLoop
tell event e g =
    if was_told g.last_err e
    then g
    else record { last_err = some e; published = g.published ++ (event ∷ []) }

abbrev pub publish : GuardEvent → GuardLoop → GuardLoop
publish event g = record g { published = g.published ++ (event ∷ []) }

module _ {Os : Type 0} (sys : ProxySystem Os) where
  unfoldable pub start_guard : State Os → ℕ × State Os
  start_guard s =
      let generation = next_generation s.guard_generation in
      (generation, record s { guard_generation = generation; guard_running = true })

  unfoldable pub guard_config : GuardMode → Options → Runner → ProxyConfig → GuardConfig
  guard_config mode opts r current =
      let expected = new_guard_snapshot mode current in
      let filled = fill_apply_options mode opts expected in
      record {
        mode = mode;
        opts = filled;
        watch_opts = guard_watch_options filled;
        expected = expected;
        runner = r;
      }

  -- The guard that is started, with its generation, if there is one.
  unfoldable pub configure_guard :
      Bool → GuardMode → Options → Runner → Step sys (Option (ℕ × GuardConfig))
  configure_guard enabled mode opts r s =
      if enabled
      then (do
        current ← runner_query sys r opts
        λ t.
            let (generation, u) = start_guard t in
            done (some (generation, guard_config mode opts r current)) u)
          s
      else done none (stop_guard s)

  unfoldable pub guard_check : GuardConfig → Step sys Bool
  guard_check c = do
    current ← runner_query sys c.runner c.opts
    pure (guard_matches c.mode c.expected current)

  unfoldable pub verify_restored : GuardConfig → ProxyConfig → Step sys (Unit {0})
  verify_restored c current =
      if guard_matches c.mode c.expected current then pure tt else fail setting_differs

  -- Under the mutex. A guard that is no longer the current one does nothing.
  unfoldable pub guard_restore : ℕ → GuardConfig → Step sys Bool
  guard_restore generation c s =
      if s.guard_generation == generation
      then (do
        runner_apply sys c.runner c.mode c.opts
        current ← runner_query sys c.runner c.opts
        verify_restored c current
        pure true)
          s
      else done false s

  unfoldable pub changed_event : ℕ → State Os → GuardLoop → GuardLoop
  changed_event generation s g =
      if s.guard_generation == generation then publish guard_changed g else g

  -- The rest of a round whose check found other settings, in the state that it meets under the mutex.
  unfoldable pub restore_round : ℕ → GuardConfig → GuardLoop → State Os → GuardLoop × State Os
  unfolding changed_event
  restore_round generation c g s =
      let noted = changed_event generation s g in
      elim (guard_restore generation c s) [
        | done true t ↦ (record (publish guard_restored noted) { last_err = none }, t)
        | done false t ↦ (record noted { last_err = none }, t)
        | failure e t ↦ (tell guard_restore_failed e noted, t)
      ]

  -- What a round does before it may have to restore: whether it has to, and the loop's state.
  unfoldable pub check_round : GuardConfig → GuardLoop → State Os → Bool × GuardLoop × State Os
  check_round c g s = elim (guard_check c s) [
    | done true t ↦ (false, record g { last_err = none }, t)
    | done false t ↦ (true, g, t)
    | failure e t ↦ (false, tell guard_check_failed e g, t)
  ]

  -- The end of a watch, by its error, where the guard has not been cancelled.
  unfoldable pub watch_ended : Option ProxyError → GuardLoop → GuardLoop
  watch_ended none g = g
  watch_ended (some e) g = tell guard_watch_failed e g
