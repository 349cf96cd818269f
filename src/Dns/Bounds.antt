-- ===== src/Dns/Bounds.antt =====
-- The entries of a lease of route/dnsapi/lease.go: there is one at least, as the code that reads
-- `Entries[0]` supposes, and there are eight at most, as `recover` demands of a record.
use kokorobox_service.Common.{
  ◌+◌, ◌∙◌, suc, ◌||◌, not, ℕ, ◌≤◌, ◌≡◌, ◌≢◌, refl, true, false, Option, none, some, List, [], ◌∷◌,
  length, arith, inl, inr, Text, Bool-cases,
}
use kokorobox_service.Dns.Lease.{
  ◌>>◌, lease_duration, keep_failed, next_fault, Fault, servers_eq, no_active_service, drawn,
  DnsService, Servers, Entry, Lease, State, DnsError, panicked, Outcome, done, failure, M, after,
  attempt, consult, found, active_dns_service, get_dns, set_dns, persist, remove_record, put_lease,
  stop_timers, schedule, ignore, restore_to, restore, restore_all, max_entries,
}
use kokorobox_service.Dns.Operations.{
  new_lease, settle, release_lease, release, renew_lease, renew, or_else, apply_first,
  mark_first_applied, install_lease,
}

-- What holds after a step: `Q` where it succeeds and `R` where it fails.
abbrev pub Post :
    {A : Type 0} → (A → State → Type 0) → (DnsError → State → Type 0) → Outcome A → Type 0
Post Q R (done a t) = Q a t
Post Q R (failure e t) = R e t

pub Post-bind :
    {A B : Type 0} (Q : A → State → Type 0) (R : DnsError → State → Type 0)
    (Q' : B → State → Type 0) (o : Outcome A) (f : A → M B)
    → Post Q R o
    → ((a : A) (t : State) → Q a t → Post Q' R (f a t))
    → Post Q' R (elim o [ done a t ↦ f a t | failure e t ↦ failure e t ])
Post-bind Q R Q' (done a t) f h k = k a t h
Post-bind Q R Q' (failure e t) f h k = h

pub Post-mono :
    {A : Type 0} (Q Q' : A → State → Type 0) (R R' : DnsError → State → Type 0) (o : Outcome A)
    → Post Q R o
    → ((a : A) (t : State) → Q a t → Q' a t)
    → ((e : DnsError) (t : State) → R e t → R' e t)
    → Post Q' R' o
Post-mono Q Q' R R' (done a t) h k k' = k a t h
Post-mono Q Q' R R' (failure e t) h k k' = k' e t h

-- A step that leaves the lease as it is, and does not panic.
abbrev pub Quiet : {A : Type 0} → Option Lease → Outcome A → Type 0
Quiet l = Post (λ _ t. t.lease ≡ l) (λ e t. (t.lease ≡ l) × (e ≢ panicked))

pub Quiet-bind :
    {A B : Type 0} (l : Option Lease) (o : Outcome A) (f : A → M B)
    → Quiet l o
    → ((a : A) (t : State) → t.lease ≡ l → Quiet l (f a t))
    → Quiet l (elim o [ done a t ↦ f a t | failure e t ↦ failure e t ])
Quiet-bind l o f =
    Post-bind (λ _ t. t.lease ≡ l) (λ e t. (t.lease ≡ l) × (e ≢ panicked)) (λ _ t. t.lease ≡ l) o f

-- A call of the operating system turns out in one of three ways.
pub attempt-Post :
    (Q : Unit {0} → State → Type 0) (R : DnsError → State → Type 0) (effect : State → State)
    (e : DnsError) (s : State)
    → Q tt (effect (drawn s))
    → R e (drawn s)
    → R e (effect (drawn s))
    → Post Q R (attempt effect e s)
unfolding attempt
attempt-Post Q R effect e s q r late = go (next_fault s.faults) refl
  where
    go : (f : Fault) → next_fault s.faults ≡ f → Post Q R (attempt effect e s)
    go Fault.works p = rw (p, attempt) q
    go Fault.fails p = rw (p, attempt) r
    go Fault.fails_late p = rw (p, attempt) late

pub consult-Post :
    {A : Type 0} (Q : A → State → Type 0) (R : DnsError → State → Type 0) (read : State → A)
    (e : DnsError) (s : State)
    → Q (read s) (drawn s)
    → R e (drawn s)
    → Post Q R (consult read e s)
unfolding consult
consult-Post Q R read e s q r = go (next_fault s.faults) refl
  where
    go : (f : Fault) → next_fault s.faults ≡ f → Post Q R (consult read e s)
    go Fault.works p = rw (p, consult) q
    go Fault.fails p = rw (p, consult) r
    go Fault.fails_late p = rw (p, consult) r

found-Quiet : {A : Type 0} (o : Option A) (s : State) → Quiet s.lease (found o no_active_service s)
unfolding found
found-Quiet none s = (refl, λ e. cc)
found-Quiet (some a) s = refl

pub active_dns_service-Quiet : (s : State) → Quiet s.lease (active_dns_service s)
unfolding active_dns_service
active_dns_service-Quiet s =
    Quiet-bind s.lease (consult (λ s. s.active) no_active_service s)
      (λ active. found active no_active_service) (consult-Post _ _ _ _ s refl (refl, λ e. cc))
      (λ a t e. rw (← e) (found-Quiet a t))

pub get_dns-Quiet : (name : Text) (s : State) → Quiet s.lease (get_dns name s)
unfolding get_dns
get_dns-Quiet name s = consult-Post _ _ _ _ s refl (refl, λ e. cc)

pub set_dns-Quiet :
    (name : Text) (servers : Servers) (s : State) → Quiet s.lease (set_dns name servers s)
unfolding set_dns
set_dns-Quiet name servers s = attempt-Post _ _ _ _ s refl (refl, λ e. cc) (refl, λ e. cc)

pub persist-Quiet : (s : State) → Quiet s.lease (persist s)
unfolding persist
persist-Quiet s = attempt-Post _ _ _ _ s refl (refl, λ e. cc) (refl, λ e. cc)

pub remove_record-Quiet : (s : State) → Quiet s.lease (remove_record s)
unfolding remove_record
remove_record-Quiet s = attempt-Post _ _ _ _ s refl (refl, λ e. cc) (refl, λ e. cc)

restore_to-Quiet :
    (item : Entry) (current : Servers) (s : State) → Quiet s.lease (restore_to item current s)
unfolding restore_to
restore_to-Quiet item current s =
    elim (Bool-cases (not (servers_eq current item.desired) || servers_eq current item.original)) [
      | inl keep ↦ rw keep refl
      | inr put ↦ rw put (set_dns-Quiet item.service.name item.original s)
    ]

pub restore-Quiet : (item : Entry) (s : State) → Quiet s.lease (restore item s)
unfolding restore
restore-Quiet item s =
    Quiet-bind s.lease (get_dns item.service.name s) (restore_to item)
      (get_dns-Quiet item.service.name s) (λ a t e. rw (← e) (restore_to-Quiet item a t))

pub Quiet-after : {A : Type 0} (l : Option Lease) (o : Outcome A) → Quiet l o → (after o).lease ≡ l
Quiet-after l (done a t) h = h
Quiet-after l (failure e t) h = h.0

keep_failed-Post :
    (l : Option Lease) (n : ℕ) (item : Entry) (restored : Outcome (Unit {0}))
    (o : Outcome (List Entry))
    → Post (λ remaining t. (t.lease ≡ l) × (length remaining ≤ n)) (λ e t. ⊥) o
    → Post
        (λ remaining t. (t.lease ≡ l) × (length remaining ≤ suc n))
        (λ e t. ⊥)
        (keep_failed item restored o)
unfolding keep_failed
keep_failed-Post l n item restored (failure e t) h = h
keep_failed-Post l n item (done _ _) (done remaining t) h = (h.0, omega arith)
keep_failed-Post l n item (failure _ _) (done remaining t) h = (h.0, omega arith)

-- `restore_all` fails at no entry, and keeps no more entries than there were.
pub restore_all-Quiet :
    (l : Option Lease) (items : List Entry) (s : State)
    → s.lease ≡ l
    → Post
        (λ remaining t. (t.lease ≡ l) × (length remaining ≤ length items))
        (λ e t. ⊥)
        (restore_all items s)
unfolding restore_all
restore_all-Quiet l [] s e = (e, omega arith)
restore_all-Quiet l (item ∷ items) s e =
    keep_failed-Post l (length items) item (restore item s)
      (restore_all items (after (restore item s)))
      (restore_all-Quiet l items (after (restore item s))
        (Quiet-after s.lease (restore item s) (restore-Quiet item s) ∙ e))

abbrev pub Bounded : Option Lease → Type 0
Bounded none = Unit {0}
Bounded (some l) = (1 ≤ length l.entries) × (length l.entries ≤ max_entries)

-- A step that leaves a bounded lease, and does not panic.
abbrev pub Good : {A : Type 0} → Outcome A → Type 0
Good = Post (λ _ t. Bounded t.lease) (λ e t. Bounded t.lease × (e ≢ panicked))

pub Quiet-Good : {A : Type 0} (l : Option Lease) (o : Outcome A) → Bounded l → Quiet l o → Good o
Quiet-Good l (done a t) b h = rw h b
Quiet-Good l (failure e t) b h = (rw h.0 b, h.1)

settle-Good :
    (l : Lease) (remaining : List Entry) (s : State)
    → length remaining ≤ max_entries
    → Good (settle l remaining s)
unfolding settle put_lease stop_timers ignore
settle-Good l [] s h =
    Quiet-Good none _ tt
      (remove_record-Quiet (record s { lease = none; timer = none; watching = false }))
settle-Good l (item ∷ items) s h =
    let t : State = record s { lease = some (record l { entries = item ∷ items }) } in
    (rw (Quiet-after t.lease (persist t) (persist-Quiet t)) (omega arith, h), λ e. cc)

release_lease-Good :
    (l : Option Lease) (s : State) → s.lease ≡ l → Bounded l → Good (release_lease l s)
unfolding release_lease
release_lease-Good none s e b = rw e tt
release_lease-Good (some l) s e b =
    Post-bind (λ remaining t. (t.lease ≡ s.lease) × (length remaining ≤ length l.entries))
      (λ e t. Bounded t.lease × (e ≢ panicked)) (λ _ t. Bounded t.lease) (restore_all l.entries s)
      (settle l)
      (Post-mono _ _ _ _ (restore_all l.entries s) (restore_all-Quiet s.lease l.entries s refl)
        (λ a t h. h) (λ e t h. absurd h))
      (λ remaining t h. settle-Good l remaining t (omega arith))

pub release-Good : (s : State) → Bounded s.lease → Good (release s)
unfolding release
release-Good s b = release_lease-Good s.lease s refl b

renew_lease-Good : (l : Option Lease) (s : State) → s.lease ≡ l → Bounded l → Good (renew_lease l s)
unfolding renew_lease put_lease schedule
renew_lease-Good none s e b = (rw e tt, λ e. cc)
renew_lease-Good (some l) s e b =
    let t : State = record s { lease = some (record l { deadline = s.now + lease_duration }) } in
    Quiet-Good t.lease _ b (
      Quiet-bind t.lease (persist t) (λ _. schedule (s.now + lease_duration)) (persist-Quiet t)
        (λ a t e. e))

pub renew-Good : (s : State) → Bounded s.lease → Good (renew s)
unfolding renew
renew-Good s b = renew_lease-Good s.lease s refl b

-- A handler runs after a failure, and the failure is what is returned.
pub or_else-Post :
    (Q : Unit {0} → State → Type 0) (R R' : DnsError → State → Type 0) (m handler : M (Unit {0}))
    (s : State)
    → Post Q R (m s)
    → ((e : DnsError) (t : State) → R e t → R' e (after (handler t)))
    → Post Q R' (or_else m handler s)
unfolding or_else
or_else-Post Q R R' m handler s h k = go (m s) refl h
  where
    go : (o : Outcome (Unit {0})) → m s ≡ o → Post Q R o → Post Q R' (or_else m handler s)
    go (done tt t) p q = rw (p, or_else) q
    go (failure e t) p r = rw (p, or_else) (k e t r)

pub Good-after : {A : Type 0} (o : Outcome A) → Good o → Bounded (after o).lease
Good-after (done a t) h = h
Good-after (failure e t) h = h.0

mark_first_applied-Good :
    (l : Lease) (s : State) → s.lease ≡ some l → Bounded (some l) → Good (mark_first_applied s)
unfolding mark_first_applied apply_first
mark_first_applied-Good l s e b = rw (e, mark_first_applied) (go l.entries b)
  where
    go : (es : List Entry) → (1 ≤ length es) × (length es ≤ max_entries) → Good (apply_first l es s)
    go [] b = absurd (omega arith)
    go (x ∷ es) b = b

-- The end of `set`, once the setting is made.
finish-Good :
    (l : Lease) (deadline : ℕ) (s : State)
    → s.lease ≡ some l
    → Bounded (some l)
    → Good ((mark_first_applied >> (schedule deadline >> persist)) s)
unfolding schedule
finish-Good l deadline s e b =
    Post-bind (λ _ t. Bounded t.lease) (λ e t. Bounded t.lease × (e ≢ panicked))
      (λ _ t. Bounded t.lease) (mark_first_applied s) _ (mark_first_applied-Good l s e b)
      (λ _ t b'.
        Quiet-Good t.lease _ b'
          (persist-Quiet (record t { timer = some deadline; watching = true })))

pub install_lease-Good :
    (service : DnsService) (original servers : Servers) (s : State)
    → Good (install_lease service original servers s)
unfolding install_lease put_lease
install_lease-Good service original servers s =
    let l = new_lease s.now service original servers in
    let b : Bounded (some l) = unfold new_lease in (omega arith, omega arith) in
    let s0 : State = record s { lease = some l } in
    Post-bind (λ _ t. t.lease ≡ some l) (λ e t. Bounded t.lease × (e ≢ panicked))
      (λ _ t. Bounded t.lease) (or_else persist (put_lease none) s0) _
      (or_else-Post _ (λ e t. (t.lease ≡ some l) × (e ≢ panicked)) _ persist (put_lease none) s0
        (persist-Quiet s0) (λ e t h. (tt, h.1)))
      (λ _ t e.
        Post-bind (λ _ t. t.lease ≡ some l) (λ e t. Bounded t.lease × (e ≢ panicked))
          (λ _ t. Bounded t.lease) (or_else (set_dns service.name servers) release t) _
          (or_else-Post _ (λ e t. (t.lease ≡ some l) × (e ≢ panicked)) _
            (set_dns service.name servers) release t
            (rw (← e) (set_dns-Quiet service.name servers t))
            (λ e t h. (Good-after (release t) (release-Good t (rw h.0 b)), h.1)))
          (λ _ t e. finish-Good l l.deadline t e b))
