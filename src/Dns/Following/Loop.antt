-- ===== src/Dns/Following/Loop.antt =====
-- The parts of `reconcile` of route/dnsapi/lease.go, and the watch of the network.
use kokorobox_service.Common.{
  sym, subst, ◌||◌, ◌∙◌, ◌&&◌, not, ap, ◌≤◌, ◌≡◌, ◌≢◌, refl, Bool, true, false, Option, none, some,
  List, [], ◌∷◌, ◌++◌, length, length-append, arith, inl, inr, Text, text_eq, if◌then◌else◌, leb,
}
use kokorobox_service.Dns.Lease.{
  pure, DnsService, servers_eq, Entry, Lease, State, panicked, Outcome, done, failure, M, ◌>>◌,
  after, active_dns_service, get_dns, set_dns, persist, put_lease, max_entries, restore,
}
use kokorobox_service.Dns.Operations.{copy_servers, or_else}
use kokorobox_service.Dns.Reconcile.{
  find_entry, add_entry, current_entry, note_applied, apply_over, apply_entry, keep_unrestored,
  keep_entry, restore_others, leave_others, reconcile_lease, reconcile, watch_tick, with_entries,
}
use kokorobox_service.Dns.Bounds.{
  Post, Post-bind, Post-mono, Bounded, Good, Quiet-Good, active_dns_service-Quiet, get_dns-Quiet,
  set_dns-Quiet, persist-Quiet, or_else-Post,
}
use kokorobox_service.Dns.Following.{
  Has, Has-append_last, find_entry-Has, mark_applied-Has, length-mark_applied, Follows,
  Follows-Bounded, Leads, Quiet-Leads, Leads-bind, if-Leads,
}

-- The entry that `add_entry` puts at the end, with what it was found with.
append_entry-Leads :
    (l : Lease) (item : Entry) (s : State)
    → Bounded (some l)
    → leb max_entries (length l.entries) ≡ false
    → Leads item.service.id (
        (put_lease (with_entries l (l.entries ++ item ∷ []))
            >> (or_else persist (put_lease (some l)) >> (λ t. done item t)))
          s)
unfolding put_lease with_entries
append_entry-Leads l item s b room =
    let l' : Lease = record l { entries = l.entries ++ item ∷ [] } in
    let s' : State = record s { lease = some l' } in
    Leads-bind item.service.id (or_else persist (put_lease (some l)) s') _
      (or_else-Post (λ _ t. Follows item.service.id t.lease)
        (λ e t. (t.lease ≡ some l') × (e ≢ panicked)) _ persist (put_lease (some l)) s'
        (Post-mono _ _ _ _ (persist s') (persist-Quiet s')
          (λ a t h.
            rw h
              (ground (arith, length-append l.entries (item ∷ [])), Has-append_last item l.entries))
          (λ e t h. h))
        (λ e t h. (b, h.1)))
      (λ _ t f. f)

add_entry-Leads :
    (l : Lease) (active : DnsService) (s : State)
    → s.lease ≡ some l
    → Bounded (some l)
    → Leads active.id (add_entry l active s)
unfolding add_entry
add_entry-Leads l active s e b = go l.entries refl
  where
    go : (es : List Entry) → l.entries ≡ es → Leads active.id (add_entry l active s)
    go [] p = absurd (omega (arith, ap length p))
    go (first ∷ rest) p =
        rw (p, add_entry)
          (if-Leads active.id (leb max_entries (length l.entries)) _ _ s (λ full. (rw e b, λ e. cc))
            (λ room.
              Post-bind (λ _ t. Unit {0}) (λ e t. Bounded t.lease × (e ≢ panicked))
                (λ _ t. Follows active.id t.lease) (get_dns active.name s) _
                (Post-mono _ _ _ _ (get_dns active.name s) (get_dns-Quiet active.name s)
                  (λ a t h. tt) (λ x t h. (rw (h.0, e) b, h.1)))
                (λ original t _.
                  append_entry-Leads l
                    (record {
                      service = active;
                      original = original;
                      desired = copy_servers first.desired;
                      applied = false;
                    })
                    t b room)))

note_applied-Leads : (j id : Text) (s : State) → Follows id s.lease → Leads id (note_applied j s)
unfolding note_applied with_entries
note_applied-Leads j id s f = go s.lease refl f
  where
    go : (l : Option Lease) → s.lease ≡ l → Follows id l → Leads id (note_applied j s)
    go none p f = absurd f
    go (some l) p f =
        rw (p, note_applied)
          (omega (arith, length-mark_applied j l.entries), mark_applied-Has j id l.entries f.1)

-- What the loop keeps, of so many entries.
abbrev pub Kept : Text → List Entry → Outcome (List Entry × Bool) → Type 0
Kept id items =
    Post (λ kept t. (length kept.0 ≤ length items) × (Has id items → Has id kept.0)) (λ e t. ⊥)

keep_entry-Kept :
    (id : Text) (item : Entry) (items : List Entry) (o : Outcome (List Entry × Bool))
    → text_eq item.service.id id ≡ true
    → Kept id items o
    → Kept id (item ∷ items) (keep_entry item o)
unfolding keep_entry
keep_entry-Kept id item items (failure e t) here h = h
keep_entry-Kept id item items (done kept t) here h = (omega arith, λ _. inl here)

Has-other :
    (id : Text) (item : Entry) (items : List Entry)
    → text_eq item.service.id id ≡ false
    → Has id (item ∷ items)
    → Has id items
Has-other id item items other (inl here) = cc
Has-other id item items other (inr there) = there

keep_unrestored-Kept :
    (id : Text) (item : Entry) (items : List Entry) (restored : Outcome (Unit {0}))
    (o : Outcome (List Entry × Bool))
    → text_eq item.service.id id ≡ false
    → Kept id items o
    → Kept id (item ∷ items) (keep_unrestored item restored o)
unfolding keep_unrestored
keep_unrestored-Kept id item items restored (failure e t) other h = h
keep_unrestored-Kept id item items (done _ _) (done kept t) other h =
    (omega arith, λ x. h.1 (Has-other id item items other x))
keep_unrestored-Kept id item items (failure _ _) (done kept t) other h =
    (omega arith, λ x. inr (h.1 (Has-other id item items other x)))

if-Kept :
    (id : Text) (items : List Entry) (b : Bool) (x y : Outcome (List Entry × Bool))
    → (b ≡ true → Kept id items x)
    → (b ≡ false → Kept id items y)
    → Kept id items (if b then x else y)
if-Kept id items true x y h k = h refl
if-Kept id items false x y h k = k refl

restore_others-Kept :
    (id : Text) (items : List Entry) (s : State) → Kept id items (restore_others id items s)
unfolding restore_others
restore_others-Kept id [] s = (omega arith, λ h. h)
restore_others-Kept id (item ∷ items) s =
    if-Kept id (item ∷ items) (text_eq item.service.id id) _ _
      (λ here.
        keep_entry-Kept id item items (restore_others id items s) here
          (restore_others-Kept id items s))
      (λ other.
        keep_unrestored-Kept id item items (restore item s)
          (restore_others id items (after (restore item s))) other
          (restore_others-Kept id items (after (restore item s))))

leave_others-Leads :
    (id : Text) (l : Option Lease) (s : State) → Follows id l → Leads id (leave_others id l s)
unfolding leave_others put_lease with_entries
leave_others-Leads id none s f = absurd f
leave_others-Leads id (some l) s f =
    Post-bind (λ kept t. (length kept.0 ≤ length l.entries) × (Has id l.entries → Has id kept.0))
      (λ e t. Bounded t.lease × (e ≢ panicked)) (λ _ t. Follows id t.lease)
      (restore_others id l.entries s) _
      (Post-mono _ _ _ _ (restore_others id l.entries s) (restore_others-Kept id l.entries s)
        (λ a t h. h) (λ e t h. absurd h))
      (λ kept t h. (omega arith, h.1 f.1))

current_entry-Leads :
    (l : Lease) (active : DnsService) (s : State)
    → s.lease ≡ some l
    → Bounded (some l)
    → Leads active.id (current_entry l active s)
unfolding current_entry
current_entry-Leads l active s e b = go (find_entry active.id l.entries) refl
  where
    go :
        (o : Option Entry)
        → find_entry active.id l.entries ≡ o
        → Leads active.id (current_entry l active s)
    go none p =
        rw (p, current_entry)
          (Leads-bind active.id (add_entry l active s) _ (add_entry-Leads l active s e b)
            (λ item t f. f))
    go (some x) p = rw (p, current_entry) (rw e (b.1, find_entry-Has active.id l.entries p))

apply_entry-Leads :
    (id : Text) (x : Entry) (s : State) → Follows id s.lease → Leads id (apply_entry x s)
unfolding apply_entry apply_over
apply_entry-Leads id x s f =
    Leads-bind id (get_dns x.service.name s) _
      (Quiet-Leads id s.lease _ f (get_dns-Quiet x.service.name s))
      (λ current t f'.
        if-Leads id
          (not x.applied && servers_eq current x.original && not (servers_eq current x.desired)) _ _
          t
          (λ _.
            Leads-bind id (set_dns x.service.name x.desired t) _
              (Quiet-Leads id t.lease _ f' (set_dns-Quiet x.service.name x.desired t))
              (λ _ t'' f''.
                Leads-bind id (note_applied x.service.id t'') _
                  (note_applied-Leads x.service.id id t'' f'') (λ _ t f. f)))
          (λ _. f'))

Leads-then :
    {A B : Type 0} (id : Text) (o : Outcome A) (f : A → M B)
    → Leads id o
    → ((a : A) (t : State) → Follows id t.lease → Good (f a t))
    → Good (elim o [ done a t ↦ f a t | failure e t ↦ failure e t ])
Leads-then id o f =
    Post-bind (λ _ t. Follows id t.lease) (λ e t. Bounded t.lease × (e ≢ panicked))
      (λ _ t. Bounded t.lease) o f

finish-Good :
    (id : Text) (b : Bool) (s : State)
    → Follows id s.lease
    → Good ((if b then persist else pure tt) s)
finish-Good id true s f =
    Quiet-Good s.lease (persist s) (Follows-Bounded id s.lease f) (persist-Quiet s)
finish-Good id false s f = Follows-Bounded id s.lease f

reconcile_lease-Good :
    (l : Lease) (s : State)
    → s.lease ≡ some l
    → Bounded (some l)
    → Good (reconcile_lease (some l) s)
unfolding reconcile_lease
reconcile_lease-Good l s e b =
    Post-bind (λ _ t. t.lease ≡ some l) (λ e t. Bounded t.lease × (e ≢ panicked))
      (λ _ t. Bounded t.lease) (active_dns_service s) _
      (Post-mono _ _ _ _ (active_dns_service s) (active_dns_service-Quiet s) (λ a t h. h ∙ e)
        (λ x t h. (rw (h.0, e) b, h.1)))
      (λ active t e'.
        Leads-then active.id (current_entry l active t) _ (current_entry-Leads l active t e' b)
          (λ entry t f.
            Leads-then active.id (apply_entry entry.0 t) _ (apply_entry-Leads active.id entry.0 t f)
              (λ applied t f.
                Leads-then active.id (leave_others active.id t.lease t) _
                  (leave_others-Leads active.id t.lease t f)
                  (λ changed t f. finish-Good active.id (entry.1 || applied || changed) t f))))

pub reconcile-Good :
    (l : Lease) (s : State) → s.lease ≡ some l → Bounded (some l) → Good (reconcile s)
unfolding reconcile
reconcile-Good l s e b =
    subst (λ o. Good (reconcile_lease o s)) (sym e) (reconcile_lease-Good l s e b)

-- A tick of the watch keeps the bounds of the lease and does not panic.
pub watch_tick-Good : (s : State) → Bounded s.lease → Good (watch_tick s)
unfolding watch_tick
watch_tick-Good s b = go s.lease refl b
  where
    go : (l : Option Lease) → s.lease ≡ l → Bounded l → Good (watch_tick s)
    go none p b = rw (p, watch_tick) (rw p b)
    go (some l) p b = rw (p, watch_tick) (reconcile-Good l s p b)
