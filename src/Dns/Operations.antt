-- ===== src/Dns/Operations.antt =====
-- The operations of route/dnsapi/lease.go on the lease: setting, renewal, release, expiry and recovery.
-- `net.ParseIP(s) != nil` is the argument `is_ip`.
use kokorobox_service.Common.{
  ℕ, ◌+◌, Bool, true, false, not, ◌&&◌, Option, none, some, List, [], ◌∷◌, Text, is_empty, length,
  leb, ltb, ◌==◌, if◌then◌else◌, all,
}
use kokorobox_service.Dns.Lease.{
  DnsService, Servers, servers_eq, Entry, Lease, not_configured, not_restored, nothing_to_renew,
  record_unreadable, record_invalid, panicked, done, failure, M, ◌>>=◌, ◌>>◌, pure, fail, after,
  attempt, no_directory, consult, active_dns_service, get_dns, set_dns, persist, remove_record,
  put_lease, stop_timers, lease_duration, retry_interval, max_entries, schedule, ignore,
  restore_all,
}

-- The end of `release`, by the entries that are left.
unfoldable pub settle : Lease → List Entry → M (Unit {0})
settle l [] = do put_lease none; stop_timers; remove_record
settle l (item ∷ items) = do
  put_lease (some (record l { entries = item ∷ items }))
  ignore persist
  fail not_restored

unfoldable pub release_lease : Option Lease → M (Unit {0})
release_lease none = pure tt
release_lease (some l) = do remaining ← restore_all l.entries; settle l remaining

unfoldable pub release : M (Unit {0})
release s = release_lease s.lease s

unfoldable pub renew_lease : Option Lease → M (Unit {0})
renew_lease none s = failure nothing_to_renew s
renew_lease (some l) s =
    let deadline = s.now + lease_duration in
    (do put_lease (some (record l { deadline = deadline })); persist; schedule deadline) s

unfoldable pub renew : M (Unit {0})
renew s = renew_lease s.lease s

-- `if err := m(); err != nil { handler; return err }`.
unfoldable pub or_else : M (Unit {0}) → M (Unit {0}) → M (Unit {0})
or_else m handler s = elim (m s) [
  | done _ t ↦ done tt t
  | failure e t ↦ failure e (after (handler t))
]

-- `append([]string(nil), servers...)`.
unfoldable pub copy_servers : Servers → Servers
copy_servers none = none
copy_servers (some []) = none
copy_servers (some (s ∷ ss)) = some (s ∷ ss)

unfoldable pub apply_first : Lease → List Entry → M (Unit {0})
apply_first l [] s = failure panicked s
apply_first l (e ∷ es) s =
    done tt (record s { lease = some (record l { entries = record e { applied = true } ∷ es }) })

unfoldable pub mark_first_applied : M (Unit {0})
mark_first_applied s = elim s.lease [
  | none ↦ failure panicked s
  | some l ↦ apply_first l l.entries s
]

unfoldable pub new_lease : ℕ → DnsService → Servers → Servers → Lease
new_lease now service original servers = record {
  version = 1;
  deadline = now + lease_duration;
  entries =
      record {
        service = service;
        original = original;
        desired = copy_servers servers;
        applied = false;
      }
      ∷ [];
}

unfoldable pub install_lease : DnsService → Servers → Servers → M (Unit {0})
install_lease service original servers s =
    let l = new_lease s.now service original servers in
    (do
      put_lease (some l)
      or_else persist (put_lease none)
      or_else (set_dns service.name servers) release
      mark_first_applied
      schedule l.deadline
      persist)
      s

unfoldable pub acquire : Servers → M (Unit {0})
acquire servers = do
  service ← active_dns_service
  original ← get_dns service.name
  install_lease service original servers

unfoldable pub set_over : Option Lease → Servers → M (Unit {0})
set_over none servers = acquire servers
set_over (some l) servers = elim l.entries [
  | [] ↦ fail panicked
  | first ∷ _ ↦ if servers_eq first.desired servers then renew else (do release; acquire servers)
]

unfoldable pub set : Servers → M (Unit {0})
set servers s = if s.configured then set_over s.lease servers s else failure not_configured s

-- `expire` on a lease: before the deadline the timer is armed again.
unfoldable pub expire_lease : Option Lease → M (Unit {0})
expire_lease none s = done tt s
expire_lease (some l) s =
    if ltb s.now l.deadline
    then done tt (record s { timer = some l.deadline })
    else elim (release s) [
      | done _ t ↦ done tt t
      | failure e t ↦ done tt (record t { timer = some (t.now + retry_interval) })
    ]

unfoldable pub expire : M (Unit {0})
expire s = expire_lease s.lease s

unfoldable pub stop : M (Unit {0})
stop = do stop_timers; release

module _ (is_ip : Text → Bool) where
  unfoldable pub validate_servers : Servers → Bool
  validate_servers none = false
  validate_servers (some servers) =
      leb 1 (length servers) && leb (length servers) 4 && all is_ip servers

  unfoldable pub original_valid : Servers → Bool
  original_valid none = true
  original_valid (some servers) = all is_ip servers

  unfoldable pub entry_valid : Entry → Bool
  entry_valid item =
      not (is_empty item.service.id)
      && not (is_empty item.service.name)
      && validate_servers item.desired
      && original_valid item.original

  unfoldable pub record_valid : Lease → Bool
  record_valid l =
      l.version == 1
      && leb 1 (length l.entries)
      && leb (length l.entries) max_entries
      && all entry_valid l.entries

  unfoldable pub adopt : Lease → M (Unit {0})
  adopt saved s = elim (release (record s { lease = some saved })) [
    | done _ t ↦ done tt t
    | failure e t ↦ failure e (record t { timer = some (t.now + retry_interval) })
  ]

  unfoldable pub recover_from : Option Lease → M (Unit {0})
  recover_from none = pure tt
  recover_from (some saved) = if record_valid saved then adopt saved else fail record_invalid

  unfoldable pub recover : M (Unit {0})
  recover = do saved ← consult (λ s. s.disk) record_unreadable; recover_from saved

  unfoldable pub configure : M (Unit {0})
  configure s =
      (do attempt (λ s. s) no_directory; attempt (λ s. s) no_directory; recover)
        (record s { configured = true })
