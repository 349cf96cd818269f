-- ===== src/Dns/Reconcile.antt =====
-- `reconcile` of route/dnsapi/lease.go and the loop that calls it: the lease follows the active service.
use kokorobox_service.Common.{
  Bool, true, false, not, ◌&&◌, ◌||◌, Option, none, some, List, [], ◌∷◌, ◌++◌, Text, text_eq,
  length, leb, if◌then◌else◌,
}
use kokorobox_service.Dns.Lease.{
  DnsService, Servers, servers_eq, Entry, Lease, panicked, too_many_services, Outcome, done,
  failure, M, ◌>>=◌, ◌>>◌, pure, fail, after, active_dns_service, get_dns, set_dns, persist,
  put_lease, max_entries, restore,
}
use kokorobox_service.Dns.Operations.{or_else, copy_servers}

unfoldable pub find_entry : Text → List Entry → Option Entry
find_entry id [] = none
find_entry id (e ∷ es) = if text_eq e.service.id id then some e else find_entry id es

unfoldable pub mark_applied : Text → List Entry → List Entry
mark_applied id [] = []
mark_applied id (e ∷ es) =
    if text_eq e.service.id id then record e { applied = true } ∷ es else e ∷ mark_applied id es

unfoldable pub with_entries : Lease → List Entry → Option Lease
with_entries l entries = some (record l { entries = entries })

-- The entry of the active service that is added where there is none.
unfoldable pub add_entry : Lease → DnsService → M Entry
add_entry l active = elim l.entries [
  | [] ↦ fail panicked
  | first ∷ _ ↦ if leb max_entries (length l.entries) then fail too_many_services else (do
    original ← get_dns active.name
    let item : Entry = record {
      service = active;
      original = original;
      desired = copy_servers first.desired;
      applied = false;
    }
    put_lease (with_entries l (l.entries ++ item ∷ []))
    or_else persist (put_lease (some l))
    pure item)
]

-- The entry of the active service, and whether it is new.
unfoldable pub current_entry : Lease → DnsService → M (Entry × Bool)
current_entry l active = elim (find_entry active.id l.entries) [
  | some e ↦ pure (e, false)
  | none ↦ (do item ← add_entry l active; pure (item, true))
]

unfoldable pub note_applied : Text → M (Unit {0})
note_applied id s = elim s.lease [
  | none ↦ failure panicked s
  | some l ↦ done tt (record s { lease = with_entries l (mark_applied id l.entries) })
]

unfoldable pub apply_over : Entry → Servers → M Bool
apply_over e current =
    if not e.applied && servers_eq current e.original && not (servers_eq current e.desired)
    then (do set_dns e.service.name e.desired; note_applied e.service.id; pure true)
    else pure false

-- The setting is made where it is still the original one and was not made before.
unfoldable pub apply_entry : Entry → M Bool
apply_entry e = do current ← get_dns e.service.name; apply_over e current

-- An entry stays where its restoring failed; a restoring that succeeds is a change.
unfoldable pub keep_unrestored :
    Entry → Outcome (Unit {0}) → Outcome (List Entry × Bool) → Outcome (List Entry × Bool)
keep_unrestored item restored (failure e t) = failure e t
keep_unrestored item (done _ _) (done rest t) = done (rest.0, true) t
keep_unrestored item (failure _ _) (done rest t) = done (item ∷ rest.0, rest.1) t

unfoldable pub keep_entry : Entry → Outcome (List Entry × Bool) → Outcome (List Entry × Bool)
keep_entry item (failure e t) = failure e t
keep_entry item (done rest t) = done (item ∷ rest.0, rest.1) t

-- The loop that restores the other services: the entries that are kept, and whether one was restored.
unfoldable pub restore_others : Text → List Entry → M (List Entry × Bool)
unfolding keep_unrestored keep_entry
restore_others id [] s = done ([], false) s
restore_others id (item ∷ items) s =
    let restored = restore item s in
    let others = keep_unrestored item restored (restore_others id items (after restored)) in
    let kept = keep_entry item (restore_others id items s) in
    if text_eq item.service.id id then kept else others

unfoldable pub leave_others : Text → Option Lease → M Bool
leave_others id none = fail panicked
leave_others id (some l) = do
  kept ← restore_others id l.entries
  put_lease (with_entries l kept.0)
  pure kept.1

unfoldable pub reconcile_lease : Option Lease → M (Unit {0})
reconcile_lease none = fail panicked
reconcile_lease (some l) = do
  active ← active_dns_service
  entry ← current_entry l active
  applied ← apply_entry entry.0
  changed ← (λ s. leave_others active.id s.lease s)
  if entry.1 || applied || changed then persist else pure tt

unfoldable pub reconcile : M (Unit {0})
reconcile s = reconcile_lease s.lease s

-- A tick of `watchNetwork`, whose errors are logged.
unfoldable pub watch_tick : M (Unit {0})
watch_tick s = elim s.lease [ none ↦ done tt s | some l ↦ reconcile s ]
