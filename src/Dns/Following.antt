-- ===== src/Dns/Following.antt =====
-- Lemmas on a lease of route/dnsapi/lease.go that follows the active service, for `reconcile`.
pub mod Loop
use kokorobox_service.Common.{
  sym, subst, ◌||◌, ◌∙◌, ◌&&◌, not, ap, ◌≤◌, ◌≡◌, ◌≢◌, refl, Bool, true, false, Option, none, some,
  List, [], ◌∷◌, ◌++◌, length, length-append, arith, inl, inr, ◌⊎◌, Text, text_eq, Bool-cases,
  if◌then◌else◌, leb, text_eq_refl,
}
use kokorobox_service.Dns.Lease.{
  pure, DnsService, servers_eq, Entry, Lease, State, panicked, Outcome, done, failure, M, ◌>>◌,
  after, active_dns_service, get_dns, set_dns, persist, put_lease, max_entries, restore,
}
use kokorobox_service.Dns.Operations.{copy_servers, or_else}
use kokorobox_service.Dns.Reconcile.{
  find_entry, mark_applied, add_entry, current_entry, note_applied, apply_over, apply_entry,
  keep_unrestored, keep_entry, restore_others, leave_others, reconcile_lease, reconcile, watch_tick,
  with_entries,
}
use kokorobox_service.Dns.Bounds.{
  Post, Post-bind, Post-mono, Quiet, Bounded, Good, Quiet-Good, active_dns_service-Quiet,
  get_dns-Quiet, set_dns-Quiet, persist-Quiet, Good-after, or_else-Post,
}

-- The service has an entry.
abbrev pub Has : Text → List Entry → Type 0
Has id [] = ⊥
Has id (e ∷ es) = (text_eq e.service.id id ≡ true) ⊎ Has id es

pub Has-append_last : (e : Entry) (es : List Entry) → Has e.service.id (es ++ e ∷ [])
Has-append_last e [] = inl (text_eq_refl e.service.id)
Has-append_last e (d ∷ es) = inr (Has-append_last e es)

pub find_entry-Has :
    (id : Text) (es : List Entry) {e : Entry} → find_entry id es ≡ some e → Has id es
unfolding find_entry
find_entry-Has id [] h = cc
find_entry-Has id (d ∷ es) {e} h = elim (Bool-cases (text_eq d.service.id id)) [
  | inl here ↦ inl here
  | inr other ↦ inr (find_entry-Has id es {e = e} (ground (arith, other)))
]

pub mark_applied-Has : (j id : Text) (es : List Entry) → Has id es → Has id (mark_applied j es)
unfolding mark_applied
mark_applied-Has j id [] h = h
mark_applied-Has j id (e ∷ es) h = elim (Bool-cases (text_eq e.service.id j)) [
  | inl here ↦ simp here h
  | inr other ↦ simp other (go (mark_applied-Has j id es) h)
]
  where
    go : (Has id es → Has id (mark_applied j es)) → Has id (e ∷ es) → Has id (e ∷ mark_applied j es)
    go rest (inl x) = inl x
    go rest (inr x) = inr (rest x)

pub length-mark_applied : (id : Text) (es : List Entry) → length (mark_applied id es) ≡ length es
unfolding mark_applied
length-mark_applied id [] = refl
length-mark_applied id (e ∷ es) = ground (arith, length-mark_applied id es)

-- The lease is there, within its bounds, and has an entry for the service.
abbrev pub Follows : Text → Option Lease → Type 0
Follows id none = ⊥
Follows id (some l) = (length l.entries ≤ max_entries) × Has id l.entries

Has-length : (id : Text) (es : List Entry) → Has id es → 1 ≤ length es
Has-length id [] h = absurd h
Has-length id (e ∷ es) h = omega arith

pub Follows-Bounded : (id : Text) (l : Option Lease) → Follows id l → Bounded l
Follows-Bounded id none h = absurd h
Follows-Bounded id (some l) h = (Has-length id l.entries h.1, h.0)

-- After a step that succeeds the lease follows the service; after any other it is within its bounds.
abbrev pub Leads : {A : Type 0} → Text → Outcome A → Type 0
Leads id = Post (λ _ t. Follows id t.lease) (λ e t. Bounded t.lease × (e ≢ panicked))

pub Quiet-Leads :
    {A : Type 0} (id : Text) (l : Option Lease) (o : Outcome A)
    → Follows id l
    → Quiet l o
    → Leads id o
Quiet-Leads id l (done a t) f h = rw h f
Quiet-Leads id l (failure e t) f h = (rw h.0 (Follows-Bounded id l f), h.1)

pub Leads-bind :
    {A B : Type 0} (id : Text) (o : Outcome A) (f : A → M B)
    → Leads id o
    → ((a : A) (t : State) → Follows id t.lease → Leads id (f a t))
    → Leads id (elim o [ done a t ↦ f a t | failure e t ↦ failure e t ])
Leads-bind id o f =
    Post-bind (λ _ t. Follows id t.lease) (λ e t. Bounded t.lease × (e ≢ panicked))
      (λ _ t. Follows id t.lease) o f

pub if-Leads :
    {A : Type 0} (id : Text) (b : Bool) (m m' : M A) (s : State)
    → (b ≡ true → Leads id (m s))
    → (b ≡ false → Leads id (m' s))
    → Leads id ((if b then m else m') s)
if-Leads id true m m' s h k = h refl
if-Leads id false m m' s h k = k refl
