-- ===== src/Sysproxy/Examples.antt =====
-- Concrete runs of the lease and the guard of the proxy settings.
use kokorobox_service.Common.{
  get, text_eq, any, filter, arith, codes, Text, ◌≡◌, ◌∷◌, [], false, true, some, none, refl,
}
use kokorobox_service.Common.Effects.{Post, after, works, fails_late}
use kokorobox_service.Sysproxy.Snapshot.{
  proxy, ProxyConfig, Options, no_options, new_guard_snapshot, snapshots_eq, modes_eq, bools_eq,
  maps_eq, has_all, copy_string_map, guard_matches,
}
use kokorobox_service.Sysproxy.Lease.{
  ProxySystem, Runner, Lease, State, session_options, managed_options, expire_lease,
  stop_managed_proxy, renew_lease, recovery_options,
}
use kokorobox_service.Sysproxy.Lease.Expiry.{Changed, given_up, changed_settings_stay}
use kokorobox_service.Sysproxy.Lease.Renewal.{expired_lease_ends, renewed_lease_holds}
use kokorobox_service.Sysproxy.Records.{RecordJson, begin_managed_proxy, configure_recovery}
use kokorobox_service.Sysproxy.Records.Recovery.{restarted, taken, owned_proxy_recovered}
use kokorobox_service.Sysproxy.Guard.Stopped.{
  start, stop, restore, outside, act, act_all, new_world, stopped_guard_writes_nothing,
}

abbrev no_proxy : ProxyConfig
no_proxy = record {
  enable = false;
  same_for_all = false;
  servers = none;
  bypass = [];
  pac_enable = false;
  pac_url = [];
}

abbrev with_proxy : Text → ProxyConfig
with_proxy server = record no_proxy {
  enable = true;
  servers = some ((codes "http_server", server) ∷ []);
}

-- A system with one set of settings, for every session.
abbrev one_setting : ProxySystem ProxyConfig
one_setting = record {
  query = λ opts os. os;
  apply = λ mode opts os. with_proxy opts.proxy_server;
  disable = λ opts os. no_proxy;
}

abbrev alice : Runner
alice = record { env = codes "HOME=/home/a" ∷ codes "LANG=C" ∷ []; uid = 1000; gid = 1000 }

abbrev opts : Options
opts = record no_options { proxy_server = codes "127.0.0.1:7890" }

abbrev session : Options
session = record opts { peer_uid = 1000; peer_gid = 1000; environment = codes "HOME=/home/a" ∷ [] }

abbrev ours : ProxyConfig
ours = with_proxy (codes "127.0.0.1:7890")

abbrev lease : Lease
lease = record {
  mode = proxy;
  opts = opts;
  expected = new_guard_snapshot proxy ours;
  runner = alice;
  deadline = 60000000000;
  generation = 1;
  timer = some 60000000000;
}

abbrev leased : State ProxyConfig
leased = record {
  os = ours;
  lease = some lease;
  lease_generation = 1;
  path_set = true;
  disk = some (7 ∷ []);
  recovery_generation = 2;
  recovery_timer = none;
  guard_generation = 0;
  guard_running = false;
  authorized_uid = some 1000;
  now = 61000000000;
  faults = [];
}

-- One record and its text.
abbrev one_record : RecordJson
one_record = record {
  encode = λ r. codes "managed";
  decode = λ s. some (taken one_setting alice proxy opts session ours);
}

recovery_options_runs : recovery_options opts alice ≡ some session
unfolding recovery_options filter any text_eq
recovery_options_runs = refl

owned_proxy_recovered_example :
    Post
      (λ _ t.
        let u = after (configure_recovery one_setting one_record (restarted ours t)) in
        (u.disk ≡ none)
        × (u.os
            ≡ given_up one_setting proxy
                (new_guard_snapshot proxy ours)
                (managed_options session)
                ours))
      (λ _ _. Unit {0})
      (begin_managed_proxy one_setting one_record alice proxy opts leased)
owned_proxy_recovered_example =
    owned_proxy_recovered one_setting one_record alice proxy opts session leased ours refl refl
      recovery_options_runs

-- The user has chosen another proxy, and the first call fails.
abbrev changed : State ProxyConfig
changed = record leased { os = with_proxy (codes "10.0.0.1:80"); faults = works ∷ fails_late ∷ [] }

changed_lem : Changed one_setting lease changed.os
unfolding guard_matches snapshots_eq new_guard_snapshot modes_eq bools_eq maps_eq has_all
    copy_string_map get text_eq
changed_lem = refl

changed_settings_stay_example :
    ((expire_lease one_setting 1 changed).os ≡ with_proxy (codes "10.0.0.1:80"))
    × ((after (stop_managed_proxy one_setting changed)).os ≡ with_proxy (codes "10.0.0.1:80"))
changed_settings_stay_example = changed_settings_stay one_setting lease 1 changed refl changed_lem

expired_lease_ends_example :
    let t = expire_lease one_setting 1 leased in
    (t.os ≡ given_up one_setting proxy lease.expected (session_options alice opts) ours)
    × (t.lease ≡ none)
    × (t.disk ≡ none)
    × (t.guard_running ≡ false)
expired_lease_ends_example =
    expired_lease_ends one_setting lease leased refl refl refl (omega arith)

renewed_lease_holds_example :
    let t = record (renew_lease leased).1 { now = 120000000000 } in expire_lease one_setting 1 t ≡ t
renewed_lease_holds_example =
    renewed_lease_holds one_setting lease leased 1 120000000000 refl (omega arith)

-- A guard is started and stopped, and comes to its restoring after that.
stopped_guard_writes_nothing_example :
    (act_all one_setting
      (act one_setting
        (act_all one_setting
          (new_world one_setting leased)
          (start proxy opts alice ∷ outside no_proxy ∷ []))
        stop)
      (restore 0 ∷ stop ∷ restore 0 ∷ [])).state.os
    ≡ (act_all one_setting
        (new_world one_setting leased)
        (start proxy opts alice ∷ outside no_proxy ∷ [])).state.os
stopped_guard_writes_nothing_example =
    stopped_guard_writes_nothing one_setting leased (start proxy opts alice ∷ outside no_proxy ∷ [])
      (restore 0 ∷ stop ∷ restore 0 ∷ []) (omega arith) (tt, (tt, (tt, tt)))
