-- ===== src/Sysproxy/Records.antt =====
-- The record of the proxy settings that the service owns (sysproxy_lease_store.go), and the operations that begin and
-- recover them. The record's JSON is an argument.
pub mod Recovery
use kokorobox_service.Common.{
  is_none, length, ◌==◌, Text, ltb, Option, Bool, not, ◌||◌, ◌&&◌, if◌then◌else◌, false, true, some,
  none, ℕ,
}
use kokorobox_service.Common.Effects.{
  Outcome, done, failure, ◌>>=◌, ◌>>◌, pure, fail, modify, after, ignore, catch,
}
use kokorobox_service.Sysproxy.Snapshot.{
  GuardMode, proxy, pac, other_mode, ProxyConfig, Options, GuardSnapshot, guard_matches,
}
use kokorobox_service.Sysproxy.Lease.{
  ProxyError, ProxySystem, Runner, Lease, State, attempt, consult, Step, recovery_options,
  managed_options, recovery_user_matches, stop_managed_proxy_recovery, stop_guard, clear_lease,
  remove_record, runner_disable, capture_lease, replace_lease, no_session, wrong_user,
  not_configured, too_large, record_not_written, record_unreadable, record_invalid, query_failed,
  disable_failed,
}

pub record ManagedProxyRecord : Type 0 where
  pub version : ℕ
  pub mode : GuardMode
  pub options : Options
  pub expected : GuardSnapshot

-- json.Marshal and json.Unmarshal of a record.
pub record RecordJson : Type 0 where
  pub encode : ManagedProxyRecord → Text
  pub decode : Text → Option ManagedProxyRecord

abbrev pub max_record_size : ℕ
max_record_size = 32768

abbrev pub recovery_retry : ℕ
recovery_retry = 30000000000

abbrev pub is_known_mode : GuardMode → Bool
is_known_mode proxy = true
is_known_mode pac = true
is_known_mode other_mode = false

abbrev pub record_of : Lease → Options → ManagedProxyRecord
record_of l options = record {
  version = 1;
  mode = l.mode;
  options = managed_options options;
  expected = l.expected;
}

module _ {Os : Type 0} (sys : ProxySystem Os) (json : RecordJson) where
  -- Making the directory, and writing a temporary file that is flushed, closed and renamed; the flush of the directory
  -- comes after the renaming.
  unfoldable pub write_bytes : Text → Step sys (Unit {0})
  write_bytes content = do
    attempt (λ s. s) record_not_written
    attempt (λ s. s) record_not_written
    attempt (λ s. record s { disk = some content }) record_not_written
    attempt (λ s. s) record_not_written

  unfoldable pub write_record : ManagedProxyRecord → Step sys (Unit {0})
  write_record r =
      if ltb max_record_size (length (json.encode r))
      then fail too_large
      else write_bytes (json.encode r)

  unfoldable pub persist_with : Lease → Option Options → Step sys (Unit {0})
  persist_with l none s = failure no_session s
  persist_with l (some options) s =
      if recovery_user_matches s.authorized_uid (managed_options options)
      then write_record (record_of l options) s
      else failure wrong_user s

  unfoldable pub persist_managed_proxy : Lease → Step sys (Unit {0})
  unfolding persist_with
  persist_managed_proxy l s =
      if s.path_set
      then persist_with l (recovery_options l.opts l.runner) s
      else failure not_configured s

  -- What is done when the lease could not be taken or recorded.
  unfoldable pub abandon : Runner → Options → ProxyError → Step sys (Unit {0})
  abandon r opts e s = elim (runner_disable sys r opts (clear_lease (stop_guard s))) [
    | done _ t ↦ failure e (after (remove_record t))
    | failure _ t ↦ failure e t
  ]

  unfoldable pub capture_and_persist : GuardMode → Options → Runner → Step sys Lease
  capture_and_persist mode opts r = do
    l ← capture_lease sys mode opts r
    persist_managed_proxy l
    pure l

  unfoldable pub begin_managed_proxy : Runner → GuardMode → Options → Step sys (Unit {0})
  begin_managed_proxy r mode opts = do
    l ← catch (capture_and_persist mode opts r) (λ e. abandon r opts e >> fail e)
    modify (replace_lease l)

  unfoldable pub recover_to : ManagedProxyRecord → ProxyConfig → Step sys (Unit {0})
  recover_to r current =
      if guard_matches r.mode r.expected current
      then attempt (λ s. record s { os = sys.disable r.options s.os }) disable_failed
      else pure tt

  unfoldable pub recover_record : ManagedProxyRecord → Step sys (Unit {0})
  recover_record r s =
      if recovery_user_matches s.authorized_uid r.options
      then (do current ← consult (λ t. sys.query r.options t.os) query_failed; recover_to r current)
          s
      else failure wrong_user s

  unfoldable pub recover_decoded : Option ManagedProxyRecord → Step sys (Unit {0})
  recover_decoded none = fail record_invalid
  recover_decoded (some r) =
      if r.version == 1 && is_known_mode r.mode
      then (do recover_record r; remove_record)
      else fail record_invalid

  unfoldable pub recover_from : Option Text → Step sys (Unit {0})
  recover_from none = pure tt
  recover_from (some content) =
      if ltb max_record_size (length content)
      then fail record_invalid
      else recover_decoded (json.decode content)

  unfoldable pub recover_managed_proxy : Step sys (Unit {0})
  recover_managed_proxy = do file ← consult (λ s. s.disk) record_unreadable; recover_from file

  unfoldable pub schedule_recovery : State Os → State Os
  schedule_recovery s =
      let t = stop_managed_proxy_recovery s in
      record t { recovery_timer = some t.recovery_generation }

  unfoldable pub recover_or_schedule : Step sys (Unit {0})
  recover_or_schedule = catch recover_managed_proxy (λ e s. failure e (schedule_recovery s))

  -- The timer that `schedule_recovery` arms, under its generation.
  unfoldable pub retry_recovery : ℕ → State Os → State Os
  retry_recovery generation s =
      if not (generation == s.recovery_generation) || not (is_none s.lease)
      then s
      else after (recover_or_schedule s)

  unfoldable pub configure_recovery : Step sys (Unit {0})
  configure_recovery = do
    modify (λ s. record (stop_managed_proxy_recovery s) { path_set = true })
    attempt (λ s. s) record_unreadable
    recover_or_schedule
