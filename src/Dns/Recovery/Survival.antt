-- ===== src/Dns/Recovery/Survival.antt =====
-- `set` of route/dnsapi/lease.go, then a crash, then `recover`. A crash in the midst of `set` is a run in which every
-- call from there on fails, since a call that fails changes nothing outside the process.
use kokorobox_service.Common.{
  ◌≡◌, refl, sym, ap, subst, Bool, true, false, Option, none, some, [], ◌∷◌, Text, text_eq,
  text_eq→eq, is_empty, inl, inr, Bool-cases, if◌then◌else◌,
}
use kokorobox_service.Dns.Lease.{
  ◌>>=◌, not_configured, DnsService, Servers, Lease, State, Outcome, failure, after, consult, drawn,
  get_dns, active_dns_service, found, no_active_service,
}
use kokorobox_service.Dns.Operations.{
  install_lease, copy_servers, acquire, set_over, set, validate_servers, original_valid, recover,
}
use kokorobox_service.Dns.Bounds.{Post, Post-bind, consult-Post}
use kokorobox_service.Dns.Crash.{
  Recoverable, Throughout, install_lease-Recoverable, Throughout-after,
}
use kokorobox_service.Dns.Reach.{restart}
use kokorobox_service.Dns.Recovery.{recover-Undone}

copies_lem :
    (is_ip : Text → Bool) (servers : Servers)
    → validate_servers is_ip servers ≡ true
    → copy_servers servers ≡ servers
unfolding copy_servers validate_servers
copies_lem is_ip none h = refl
copies_lem is_ip (some []) h = cc
copies_lem is_ip (some (x ∷ xs)) h = refl

module _ (service : DnsService) (servers : Servers) (s : State)
    (copies : copy_servers servers ≡ servers) where
  -- Nothing has been changed yet.
  abbrev Unchanged : State → Type 0
  Unchanged t = (t.settings ≡ s.settings) × (t.disk ≡ none)

  abbrev Back : State → Type 0
  Back = Recoverable s.settings service (s.settings service.name) servers

  abbrev Always : Outcome (Unit {0}) → Type 0
  Always = Throughout s.settings service (s.settings service.name) servers

  Unchanged-Recoverable : (t : State) → Unchanged t → Back t
  Unchanged-Recoverable t u =
      (λ n other. ap (λ f. f n) u.0, inl (ap (λ f. f service.name) u.0, inl u.1))

  active-Unchanged :
      s.disk ≡ none
      → s.active ≡ some service
      → Post (λ a t. (a ≡ service) × Unchanged t) (λ _ t. Back t) (active_dns_service s)
  unfolding active_dns_service found
  active-Unchanged nothing active =
      Post-bind (λ o t. (o ≡ some service) × Unchanged t) (λ _ t. Back t)
        (λ a t. (a ≡ service) × Unchanged t) (consult (λ s. s.active) no_active_service s) _
        (consult-Post _ _ _ _ s (active, (refl, nothing))
          (Unchanged-Recoverable (drawn s) (refl, nothing)))
        (λ o t k. go o t k.0 k.1)
    where
      go :
          (o : Option DnsService) (t : State)
          → o ≡ some service
          → Unchanged t
          → Post (λ a t. (a ≡ service) × Unchanged t) (λ _ t. Back t) (found o no_active_service t)
      go none t e u = cc
      go (some a) t e u = (cc e, u)

  installed :
      (t : State)
      → Unchanged t
      → Always ((get_dns service.name >>= (λ original. install_lease service original servers)) t)
  unfolding get_dns
  installed t u =
      Post-bind (λ o t. (o ≡ s.settings service.name) × Unchanged t) (λ _ t. Back t) (λ _ t. Back t)
        (get_dns service.name t) _
        (consult-Post _ _ _ _ t (ap (λ f. f service.name) u.0, u) (Unchanged-Recoverable t u))
        (λ o t k.
          subst (λ o. Always (install_lease service o servers t)) (sym k.0)
            (install_lease-Recoverable s.settings service (s.settings service.name) servers t copies
              (ap (λ f. f service.name) k.1.0) k.1.1 (λ n other. ap (λ f. f n) k.1.0)))

  acquire-Recoverable : s.disk ≡ none → s.active ≡ some service → Always (acquire servers s)
  unfolding acquire
  acquire-Recoverable nothing active =
      Post-bind (λ a t. (a ≡ service) × Unchanged t) (λ _ t. Back t) (λ _ t. Back t)
        (active_dns_service s) _ (active-Unchanged nothing active)
        (λ a t k.
          subst
            (λ a. Always ((get_dns a.name >>= (λ original. install_lease a original servers)) t))
            (sym k.0) (installed t k.1))

  set-Recoverable :
      s.configured ≡ true
      → s.lease ≡ none
      → s.disk ≡ none
      → s.active ≡ some service
      → Always (set servers s)
  unfolding set set_over
  set-Recoverable ready no_lease nothing active = go s.configured ready s.lease no_lease
    where
      go :
          (b : Bool)
          → b ≡ true
          → (l : Option Lease) → l ≡ none
          → Always (if b then set_over l servers s else failure not_configured s)
      go false h l k = cc
      go true h (some l) k = cc
      go true h none k = acquire-Recoverable nothing active

-- After `set` on a valid list of servers, whatever fails in it, a crash, and a start without further faults, every
-- setting is as it was before, if there was no lease and no record, and the active service and its setting are valid.
pub set_survives_crash :
    (is_ip : Text → Bool) (service : DnsService) (servers : Servers) (s : State) (n : Text)
    → s.configured ≡ true
    → s.lease ≡ none
    → s.disk ≡ none
    → s.active ≡ some service
    → is_empty service.id ≡ false
    → is_empty service.name ≡ false
    → validate_servers is_ip servers ≡ true
    → original_valid is_ip (s.settings service.name) ≡ true
    → (after (recover is_ip (record (restart (after (set servers s))) { faults = [] }))).settings n
      ≡ s.settings n
unfolding restart
set_survives_crash is_ip service servers s n ready no_lease no_record active id name good good' =
    let original = s.settings service.name in
    let safe = Throughout-after s.settings service original servers (set servers s) (
      set-Recoverable service servers s (copies_lem is_ip servers good) ready no_lease no_record
        active) in
    let (away, here) =
      recover-Undone s.settings service original servers is_ip id name good good'
        (record (restart (after (set servers s))) { faults = [] }) safe refl in
    elim (Bool-cases (text_eq n service.name)) [
      | inr other ↦ away n other
      | inl same ↦ let e : n ≡ service.name = text_eq→eq n service.name same in rw e here
    ]
