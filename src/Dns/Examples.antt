-- ===== src/Dns/Examples.antt =====
-- Concrete runs of route/dnsapi.
use kokorobox_service.Common.{◌≡◌, all, false, true, refl, none, some, [], ◌∷◌, codes}
use kokorobox_service.Dns.Lease.{fails, works, State, after, fails_late}
use kokorobox_service.Dns.Bounds.{Bounded}
use kokorobox_service.Dns.Reach.{
  operated, ticking, restart, operate, setting, started, NeverPanics, operations_safe,
}
use kokorobox_service.Dns.Operations.{set, recover, original_valid, validate_servers}
use kokorobox_service.Dns.Recovery.Survival.{set_survives_crash}

abbrev idle : State
idle = record {
  configured = true;
  lease = none;
  timer = none;
  watching = false;
  settings = λ name. some (codes "9.9.9.9" ∷ []);
  active = some (record { id = codes "1"; name = codes "Wi-Fi" });
  disk = none;
  now = 100;
  faults = [];
}

abbrev held : State
held = after (operate (λ s. true) (setting (some (codes "1.1.1.1" ∷ []))) idle)

operations_safe_example :
    NeverPanics (operate (λ s. true) ticking held)
    × Bounded (after (operate (λ s. true) ticking held)).lease
operations_safe_example =
    operations_safe (λ s. true) held ticking
      (operated (setting (some (codes "1.1.1.1" ∷ []))) (started refl))

set_survives_crash_example :
    (after (
        recover
          (λ s. true)
          (record (restart (
            after (
              set
                (some (codes "1.1.1.1" ∷ []))
                (record idle { faults = works ∷ works ∷ works ∷ fails_late ∷ fails ∷ [] })))) {
                  faults = [];
                }))).settings
      (codes "Wi-Fi")
    ≡ some (codes "9.9.9.9" ∷ [])
unfolding validate_servers original_valid all
set_survives_crash_example =
    set_survives_crash (λ s. true) (record { id = codes "1"; name = codes "Wi-Fi" })
      (some (codes "1.1.1.1" ∷ []))
      (record idle { faults = works ∷ works ∷ works ∷ fails_late ∷ fails ∷ [] }) (codes "Wi-Fi")
      refl refl refl refl refl refl refl refl
