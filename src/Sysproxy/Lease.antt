-- ===== src/Sysproxy/Lease.antt =====
-- The lease of the proxy settings on Linux: sysproxy_lease.go, sysproxy_lease_recovery_linux.go and the runner's options
-- of sysproxy_guard_runner_linux.go. What the package sysproxy does to the system is the argument `sys`; the PAC server
-- of a lease and the log are left out.
pub mod Expiry
pub mod Renewal
use kokorobox_service.Common.{
  ◌^◌, length, text_eq, filter, any, codes, ◌%◌, ◌∷◌, not, Option, ltb, Text, List, Bool, [], ◌+◌,
  ◌==◌, ◌||◌, ◌&&◌, if◌then◌else◌, false, true, some, none, ℕ,
}
use kokorobox_service.Common.Effects.{
  works, Fault, attempt_with, next_fault, later_faults, Outcome, done, failure, ◌>>=◌, pure, after,
}
use kokorobox_service.Sysproxy.Snapshot.{
  GuardMode, ProxyConfig, Options, GuardSnapshot, new_guard_snapshot, guard_matches,
}

-- The package sysproxy, on a system of its own.
pub record ProxySystem (Os : Type 0) : Type 0 where
  pub query : Options → Os → ProxyConfig
  pub apply : GuardMode → Options → Os → Os
  pub disable : Options → Os → Os

-- linuxSysproxyGuardRunner: the session of a user.
pub record Runner : Type 0 where
  pub env : List Text
  pub uid : ℕ
  pub gid : ℕ

pub record Lease : Type 0 where
  pub mode : GuardMode
  pub opts : Options
  pub expected : GuardSnapshot
  pub runner : Runner
  pub deadline : ℕ
  pub generation : ℕ
  -- When the timer fires, if it is armed.
  pub timer : Option ℕ

-- The package's variables, which a mutex guards, the guard's generation, the record on disk, the user that the key
-- manager allows, the clock, and how the calls of the system will turn out.
pub record State (Os : Type 0) : Type 0 where
  pub os : Os
  pub lease : Option Lease
  pub lease_generation : ℕ
  pub path_set : Bool
  pub disk : Option Text
  pub recovery_generation : ℕ
  pub recovery_timer : Option ℕ
  pub guard_generation : ℕ
  pub guard_running : Bool
  pub authorized_uid : Option ℕ
  pub now : ℕ
  pub faults : List Fault

pub data ProxyError : Type 0 where
  query_failed apply_failed disable_failed close_failed : ProxyError
  no_session wrong_user not_configured too_large : ProxyError
  record_not_written record_not_removed record_unreadable record_invalid : ProxyError
  setting_differs : ProxyError

abbrev pub lease_duration : ℕ
lease_duration = 60000000000

abbrev pub lease_retry : ℕ
lease_retry = 15000000000

-- uint64 addition.
abbrev pub next_generation : ℕ → ℕ
next_generation n = (n + 1) % 2 ^ 64

unfoldable pub session_options : Runner → Options → Options
session_options r opts = record opts { environment = r.env; peer_uid = r.uid; peer_gid = r.gid }

abbrev pub recovery_keys : List Text
recovery_keys =
    codes "HOME"
    ∷ codes "PATH"
    ∷ codes "XDG_CURRENT_DESKTOP"
    ∷ codes "XDG_RUNTIME_DIR"
    ∷ codes "XDG_CONFIG_HOME"
    ∷ codes "XDG_DATA_HOME"
    ∷ codes "DBUS_SESSION_BUS_ADDRESS"
    ∷ codes "KDE_SESSION_VERSION"
    ∷ []

-- strings.Cut at the first "=".
unfoldable pub key_of : Text → Option Text
key_of [] = none
key_of (c ∷ s) =
    let rest = key_of s in
    if c == 61 then some [] else elim rest [ none ↦ none | some k ↦ some (c ∷ k) ]

unfoldable pub is_recovery_item : Text → Bool
unfolding key_of
is_recovery_item item = elim (key_of item) [ none ↦ false | some k ↦ any (text_eq k) recovery_keys ]

unfoldable pub recovery_options : Options → Runner → Option Options
unfolding is_recovery_item
recovery_options opts r =
    let environment = filter is_recovery_item r.env in
    if length environment == 0 || r.uid == 0
    then none
    else some (record opts {
      peer_pid = 0;
      peer_uid = r.uid;
      peer_gid = r.gid;
      environment = environment;
    })

-- The options that the record holds.
unfoldable pub managed_options : Options → Options
managed_options o = record o { proxy_server = []; bypass = []; pac_url = []; peer_pid = 0 }

unfoldable pub recovery_user_matches : Option ℕ → Options → Bool
recovery_user_matches none opts = false
recovery_user_matches (some uid) opts =
    not (uid == 0) && (uid == opts.peer_uid && not (length opts.environment == 0))

abbrev pub armed : Lease → ℕ → Lease
armed l now = record l { deadline = now + lease_duration; timer = some (now + lease_duration) }

module _ {Os : Type 0} where
  abbrev pub drawn : State Os → State Os
  drawn s = record s { faults = later_faults s.faults }

  unfoldable pub attempt :
      (State Os → State Os) → ProxyError → State Os → Outcome ProxyError (State Os) (Unit {0})
  unfolding attempt_with next_fault later_faults
  attempt effect e s = attempt_with (next_fault s.faults) effect e (drawn s)

  -- A call that reads.
  unfoldable pub consult :
      {A : Type 0} → (State Os → A) → ProxyError → State Os → Outcome ProxyError (State Os) A
  unfolding next_fault later_faults
  consult read e s = elim (next_fault s.faults) [
    | works ↦ done (read s) (drawn s)
    | _ ↦ failure e (drawn s)
  ]

  unfoldable pub stop_managed_proxy_recovery : State Os → State Os
  stop_managed_proxy_recovery s = record s {
    recovery_generation = next_generation s.recovery_generation;
    recovery_timer = none;
  }

  unfoldable pub stop_guard : State Os → State Os
  stop_guard s = record s {
    guard_generation = next_generation s.guard_generation;
    guard_running = false;
  }

  -- The error of closing a runner is only logged.
  unfoldable pub clear_lease : State Os → State Os
  clear_lease s = record s { lease = none }

  unfoldable pub remove_record : State Os → Outcome ProxyError (State Os) (Unit {0})
  remove_record s =
      if s.path_set then attempt (λ t. record t { disk = none }) record_not_removed s else done tt s

  unfoldable pub forget_lease : State Os → State Os
  forget_lease s = after (remove_record (clear_lease s))

  unfoldable pub renew_lease : State Os → Bool × State Os
  renew_lease s = elim s.lease [
    | none ↦ (false, s)
    | some l ↦ (true, record s { lease = some (armed l s.now) })
  ]

  unfoldable pub replace_lease : Lease → State Os → State Os
  unfolding renew_lease
  replace_lease l s =
      let t = clear_lease (stop_managed_proxy_recovery s) in
      let generation = next_generation t.lease_generation in
      (renew_lease (record t {
        lease_generation = generation;
        lease = some (record l { generation = generation });
      })).1

module _ {Os : Type 0} (sys : ProxySystem Os) where
  abbrev pub Step : Type 0 → Type 0
  Step A = State Os → Outcome ProxyError (State Os) A

  unfoldable pub runner_query : Runner → Options → Step ProxyConfig
  runner_query r opts = consult (λ s. sys.query (session_options r opts) s.os) query_failed

  unfoldable pub runner_apply : Runner → GuardMode → Options → Step (Unit {0})
  runner_apply r mode opts =
      attempt (λ s. record s { os = sys.apply mode (session_options r opts) s.os }) apply_failed

  unfoldable pub runner_disable : Runner → Options → Step (Unit {0})
  runner_disable r opts =
      attempt (λ s. record s { os = sys.disable (session_options r opts) s.os }) disable_failed

  unfoldable pub capture_lease : GuardMode → Options → Runner → Step Lease
  capture_lease mode opts r = do
    current ← runner_query r opts
    pure (record {
      mode = mode;
      opts = opts;
      expected = new_guard_snapshot mode current;
      runner = r;
      deadline = 0;
      generation = 0;
      timer = none;
    })

  -- A setting that was changed by others is left alone.
  unfoldable pub release_to : Lease → ProxyConfig → Step (Unit {0})
  release_to l current =
      if guard_matches l.mode l.expected current then runner_disable l.runner l.opts else pure tt

  unfoldable pub release_of : Option Lease → Step (Unit {0})
  release_of none = pure tt
  release_of (some l) = do current ← runner_query l.runner l.opts; release_to l current

  unfoldable pub release_lease : Step (Unit {0})
  release_lease s = release_of s.lease s

  unfoldable pub set_timer : Lease → ℕ → State Os → State Os
  set_timer l deadline s = record s { lease = some (record l { timer = some deadline }) }

  unfoldable pub expire_lease_of : Lease → State Os → State Os
  expire_lease_of l s =
      if ltb s.now l.deadline
      then set_timer l l.deadline s
      else elim (release_lease (stop_guard s)) [
        | done _ t ↦ forget_lease t
        | failure e t ↦ set_timer l (t.now + lease_retry) t
      ]

  unfoldable pub expire_of : ℕ → Option Lease → State Os → State Os
  expire_of generation none s = s
  expire_of generation (some l) s = if l.generation == generation then expire_lease_of l s else s

  -- The timer that was armed for the lease of a generation.
  unfoldable pub expire_lease : ℕ → State Os → State Os
  expire_lease generation s = expire_of generation s.lease s

  unfoldable pub stop_of : Option Lease → Step (Unit {0})
  stop_of none s = done tt s
  stop_of (some l) s = elim (release_lease s) [
    | done _ t ↦ done tt (forget_lease t)
    | failure e t ↦ failure e (clear_lease t)
  ]

  unfoldable pub stop_managed_proxy : Step (Unit {0})
  stop_managed_proxy s = let t = stop_guard (stop_managed_proxy_recovery s) in stop_of t.lease t
