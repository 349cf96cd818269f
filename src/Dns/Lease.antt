-- ===== src/Dns/Lease.antt =====
-- The data and the operations of route/dnsapi/lease.go, but for `reconcile`.
use kokorobox_service.Common.{
  ℕ, Bool, true, false, not, ◌&&◌, ◌||◌, Option, none, some, List, [], ◌∷◌, Text, text_eq,
  if◌then◌else◌,
}

pub record DnsService : Type 0 where
  pub id : Text
  pub name : Text

abbrev pub Servers : Type 0
Servers = Option (List Text)

unfoldable pub texts_eq : List Text → List Text → Bool
texts_eq [] [] = true
texts_eq (s ∷ ss) (t ∷ ts) = text_eq s t && texts_eq ss ts
texts_eq _ _ = false

-- reflect.DeepEqual.
unfoldable pub servers_eq : Servers → Servers → Bool
servers_eq none none = true
servers_eq (some s) (some t) = texts_eq s t
servers_eq _ _ = false

pub record Entry : Type 0 where
  pub service : DnsService
  pub original : Servers
  pub desired : Servers
  pub applied : Bool

pub record Lease : Type 0 where
  pub version : ℕ
  pub deadline : ℕ
  pub entries : List Entry

-- How a call of the operating system turns out. One that fails late has taken effect.
pub data Fault : Type 0 where
  works fails fails_late : Fault

pub record State : Type 0 where
  pub configured : Bool
  pub lease : Option Lease
  -- When the expiry timer fires, if it is armed.
  pub timer : Option ℕ
  pub watching : Bool
  pub settings : Text → Servers
  pub active : Option DnsService
  pub disk : Option Lease
  pub now : ℕ
  pub faults : List Fault

pub data DnsError : Type 0 where
  not_configured no_active_service query_failed change_failed : DnsError
  record_not_written record_not_removed not_restored : DnsError
  nothing_to_renew too_many_services : DnsError
  record_unreadable record_invalid no_directory : DnsError
  panicked : DnsError

pub data Outcome (A : Type 0) : Type 0 where
  done : A → State → Outcome A
  failure : DnsError → State → Outcome A

-- A step that may fail, with the state that it leaves either way.
abbrev pub M : Type 0 → Type 0
M A = State → Outcome A

infixl 5 ◌>>=◌ ◌>>◌
abbrev pub ◌>>=◌ : {A B : Type 0} → M A → (A → M B) → M B
◌>>=◌ m f s = elim (m s) [ done a t ↦ f a t | failure e t ↦ failure e t ]

abbrev pub ◌>>◌ : {B : Type 0} → M (Unit {0}) → M B → M B
m >> k = m >>= λ _. k

abbrev pub pure : {A : Type 0} → A → M A
pure a s = done a s

abbrev pub fail : {A : Type 0} → DnsError → M A
fail e s = failure e s

-- The state after a step, whether or not it failed.
abbrev pub after : {A : Type 0} → Outcome A → State
after (done a t) = t
after (failure e t) = t

unfoldable pub next_fault : List Fault → Fault
next_fault [] = Fault.works
next_fault (f ∷ fs) = f

unfoldable pub later_faults : List Fault → List Fault
later_faults [] = []
later_faults (f ∷ fs) = fs

abbrev pub drawn : State → State
drawn s = record s { faults = later_faults s.faults }

-- A call that changes the state by `effect`, or fails with `e`.
unfoldable pub attempt : (State → State) → DnsError → M (Unit {0})
attempt effect e s = elim (next_fault s.faults) [
  | Fault.works ↦ done tt (effect (drawn s))
  | Fault.fails ↦ failure e (drawn s)
  | Fault.fails_late ↦ failure e (effect (drawn s))
]

-- A call that reads.
unfoldable pub consult : {A : Type 0} → (State → A) → DnsError → M A
consult read e s = elim (next_fault s.faults) [
  | Fault.works ↦ done (read s) (drawn s)
  | _ ↦ failure e (drawn s)
]

unfoldable pub found : {A : Type 0} → Option A → DnsError → M A
found none e = fail e
found (some a) e = pure a

unfoldable pub active_dns_service : M DnsService
active_dns_service = do
  active ← consult (λ s. s.active) no_active_service
  found active no_active_service

unfoldable pub get_dns : Text → M Servers
get_dns name = consult (λ s. s.settings name) query_failed

unfoldable pub with_setting : Text → Servers → (Text → Servers) → Text → Servers
with_setting name servers settings n = if text_eq n name then servers else settings n

unfoldable pub set_dns : Text → Servers → M (Unit {0})
set_dns name servers =
    attempt (λ s. record s { settings = with_setting name servers s.settings }) change_failed

-- The write of a temporary file, its renaming, and the flush of the directory, which may fail late.
unfoldable pub persist : M (Unit {0})
persist = attempt (λ s. record s { disk = s.lease }) record_not_written

unfoldable pub remove_record : M (Unit {0})
remove_record = attempt (λ s. record s { disk = none }) record_not_removed

unfoldable pub put_lease : Option Lease → M (Unit {0})
put_lease l s = done tt (record s { lease = l })

unfoldable pub stop_timers : M (Unit {0})
stop_timers s = done tt (record s { timer = none; watching = false })

abbrev pub lease_duration : ℕ
lease_duration = 60000000000

abbrev pub retry_interval : ℕ
retry_interval = 15000000000

abbrev pub max_entries : ℕ
max_entries = 8

unfoldable pub schedule : ℕ → M (Unit {0})
schedule deadline s = done tt (record s { timer = some deadline; watching = true })

-- An error that is dropped: `_ = m()`.
unfoldable pub ignore : M (Unit {0}) → M (Unit {0})
ignore m s = done tt (after (m s))

unfoldable pub restore_to : Entry → Servers → M (Unit {0})
restore_to item current =
    if not (servers_eq current item.desired) || servers_eq current item.original
    then pure tt
    else set_dns item.service.name item.original

unfoldable pub restore : Entry → M (Unit {0})
restore item = do current ← get_dns item.service.name; restore_to item current

-- An entry stays where its restoring failed.
unfoldable pub keep_failed :
    Entry → Outcome (Unit {0}) → Outcome (List Entry) → Outcome (List Entry)
keep_failed item restored (failure e t) = failure e t
keep_failed item (done _ _) (done remaining t) = done remaining t
keep_failed item (failure _ _) (done remaining t) = done (item ∷ remaining) t

-- The entries that could not be restored.
unfoldable pub restore_all : List Entry → M (List Entry)
unfolding keep_failed
restore_all [] s = done [] s
restore_all (item ∷ items) s =
    let restored = restore item s in keep_failed item restored (restore_all items (after restored))
