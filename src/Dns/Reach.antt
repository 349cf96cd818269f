-- ===== src/Dns/Reach.antt =====
-- The states that route/dnsapi/lease.go reaches: the requests of route/dnsapi/http.go, the timer, the watch of the
-- network, restarts of the service, and what the system does in between.
use kokorobox_service.Common.{false, ℕ, ◌≡◌, ◌≢◌, Bool, Option, none, List, Text}
use kokorobox_service.Dns.Lease.{
  DnsService, Servers, Fault, State, panicked, Outcome, done, failure, M, after,
}
use kokorobox_service.Dns.Operations.{release, renew, set, expire, stop, configure}
use kokorobox_service.Dns.Reconcile.{watch_tick}
use kokorobox_service.Dns.Bounds.{Bounded, Good, release-Good, renew-Good, Good-after}
use kokorobox_service.Dns.Safety.{set-Good, expire-Good, stop-Good, configure-Good}
use kokorobox_service.Dns.Following.Loop.{watch_tick-Good}

-- What the user, the clock and the system may change.
pub record Surroundings : Type 0 where
  pub settings : Text → Servers
  pub active : Option DnsService
  pub now : ℕ
  pub faults : List Fault

unfoldable pub in_surroundings : Surroundings → State → State
in_surroundings x s = record s {
  settings = x.settings;
  active = x.active;
  now = x.now;
  faults = x.faults;
}

-- The process ends and starts again: memory is lost, the record stays.
unfoldable pub restart : State → State
restart s = record s { configured = false; lease = none; timer = none; watching = false }

pub data Operation : Type 0 where
  setting : Servers → Operation
  renewing releasing expiring stopping configuring ticking : Operation

unfoldable pub operate : (Text → Bool) → Operation → M (Unit {0})
operate is_ip (setting servers) = set servers
operate is_ip renewing = renew
operate is_ip releasing = release
operate is_ip expiring = expire
operate is_ip stopping = stop
operate is_ip configuring = configure is_ip
operate is_ip ticking = watch_tick

pub data Reachable (is_ip : Text → Bool) : State → Type 0 where
  started : {s : State} → s.lease ≡ none → Reachable is_ip s
  operated :
      {s : State} (o : Operation) → Reachable is_ip s → Reachable is_ip (after (operate is_ip o s))
  surrounded :
      {s : State} (x : Surroundings) → Reachable is_ip s → Reachable is_ip (in_surroundings x s)
  restarted : {s : State} → Reachable is_ip s → Reachable is_ip (restart s)

operate-Good :
    (is_ip : Text → Bool) (o : Operation) (s : State) → Bounded s.lease → Good (operate is_ip o s)
unfolding operate
operate-Good is_ip (setting servers) s b = set-Good servers s b
operate-Good is_ip renewing s b = renew-Good s b
operate-Good is_ip releasing s b = release-Good s b
operate-Good is_ip expiring s b = expire-Good s b
operate-Good is_ip stopping s b = stop-Good s b
operate-Good is_ip configuring s b = configure-Good is_ip s b
operate-Good is_ip ticking s b = watch_tick-Good s b

pub Reachable-Bounded : (is_ip : Text → Bool) {s : State} → Reachable is_ip s → Bounded s.lease
unfolding in_surroundings restart
Reachable-Bounded is_ip (started {s} e) = rw e tt
Reachable-Bounded is_ip (operated {s} o r) =
    Good-after (operate is_ip o s) (operate-Good is_ip o s (Reachable-Bounded is_ip r))
Reachable-Bounded is_ip (surrounded x r) = Reachable-Bounded is_ip r
Reachable-Bounded is_ip (restarted r) = tt

-- The result is no failure by a panic.
abbrev pub NeverPanics : Outcome (Unit {0}) → Type 0
NeverPanics (done _ _) = Unit {0}
NeverPanics (failure e _) = e ≢ panicked

Good-NeverPanics : (o : Outcome (Unit {0})) → Good o → NeverPanics o
Good-NeverPanics (done _ _) h = tt
Good-NeverPanics (failure _ _) h = h.1

-- In every reachable state no operation panics, a tick of the watch included, whatever calls of the system fail, and
-- the lease that it leaves, if any, has between one and eight entries.
pub operations_safe :
    (is_ip : Text → Bool) (s : State) (o : Operation)
    → Reachable is_ip s
    → NeverPanics (operate is_ip o s) × Bounded (after (operate is_ip o s)).lease
operations_safe is_ip s o r =
    let good = operate-Good is_ip o s (Reachable-Bounded is_ip r) in
    (Good-NeverPanics (operate is_ip o s) good, Good-after (operate is_ip o s) good)
