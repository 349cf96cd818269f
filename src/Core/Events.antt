-- ===== src/Core/Events.antt =====
-- core/events.go: the hub of core events. A channel is a queue with a capacity, under a number. `SubscribeEvents` is
-- two steps, since it sends the first event after it has released the lock; the mutex makes each other call one.
pub mod Delivery
use kokorobox_service.Common.{
  ℕ, suc, ◌+◌, ◌%◌, ◌^◌, Bool, true, false, not, ◌&&◌, Option, none, some, List, [], ◌∷◌, ◌++◌,
  Text, codes, text_eq, is_empty, length, map, filter, ltb, ◌==◌, if◌then◌else◌,
}
use kokorobox_service.Common.Ints.{ℤ, pos, leb_ℤ, eq_ℤ}

abbrev pub event_stopped : Text
event_stopped = codes "stopped"

abbrev pub event_log : Text
event_log = codes "log"

-- A time of 0 is the zero time.
pub record CoreEvent : Type 0 where
  pub seq : ℕ
  pub kind : Text
  pub time : ℕ
  pub running : Bool
  pub pid : ℤ
  pub old_pid : ℤ
  pub message : Text
  pub error : Text
  pub data_values : List (Text × Text)

pub record Subscriber : Type 0 where
  pub channel : ℕ
  pub capacity : ℕ
  pub queue : List CoreEvent

-- The hub, with what it reads of the manager.
pub record Hub : Type 0 where
  pub is_running : Bool
  pub pid : ℤ
  pub subscribers : List Subscriber
  pub last : CoreEvent
  pub next_seq : ℕ
  pub next_channel : ℕ

unfoldable pub new_core_event : Hub → ℕ → Text → Text → Text → ℤ → ℤ → CoreEvent
new_core_event hub now kind message error pid old_pid =
    let pid' = if eq_ℤ pid (pos 0) then hub.pid else pid in
    record {
      seq = 0;
      kind = kind;
      time = now;
      running = hub.is_running && leb_ℤ (pos 1) pid';
      pid = pid';
      old_pid = old_pid;
      message = message;
      error = error;
      data_values = [];
    }

-- `select { case ch <- event: default: }`.
unfoldable pub offer : CoreEvent → Subscriber → Subscriber
offer event s =
    if ltb (length s.queue) s.capacity then record s { queue = s.queue ++ event ∷ [] } else s

-- The event as it is published.
unfoldable pub stamp : Hub → ℕ → CoreEvent → CoreEvent
stamp hub now event =
    let pid = if eq_ℤ event.pid (pos 0) then hub.pid else event.pid in
    record event {
      seq = (hub.next_seq + 1) % 2 ^ 64;
      time = if event.time == 0 then now else event.time;
      pid = pid;
      running = hub.is_running && leb_ℤ (pos 1) pid;
    }

unfoldable pub publish_core_event : Hub → ℕ → CoreEvent → Hub
publish_core_event hub now event =
    let e = stamp hub now event in
    record hub {
      next_seq = (hub.next_seq + 1) % 2 ^ 64;
      last = if text_eq event.kind event_log then hub.last else e;
      subscribers = map (offer e) hub.subscribers;
    }

unfoldable pub emit_core_event : Hub → ℕ → Text → Text → Text → Hub
emit_core_event hub now kind message error =
    publish_core_event hub now (new_core_event hub now kind message error (pos 0) (pos 0))

unfoldable pub buffer_size : ℤ → ℕ
buffer_size (pos n) = if n == 0 then 1 else n
buffer_size _ = 1

-- The part of `SubscribeEvents` under the lock: the hub and the number of the channel.
unfoldable pub open_subscription : Hub → ℤ → Hub × ℕ
open_subscription hub buffer = (
  record hub {
    subscribers =
        record { channel = hub.next_channel; capacity = buffer_size buffer; queue = [] }
        ∷ hub.subscribers;
    next_channel = suc hub.next_channel;
  },
  hub.next_channel,
)

-- The event that it then sends, by what the hub had when it was locked.
unfoldable pub first_event : Hub → ℕ → CoreEvent → CoreEvent
first_event hub now last =
    if is_empty last.kind
    then new_core_event hub now event_stopped (codes "Core is not running") [] (pos 0) (pos 0)
    else last

unfoldable pub find_subscriber : ℕ → List Subscriber → Option Subscriber
find_subscriber channel [] = none
find_subscriber channel (s ∷ ss) =
    if s.channel == channel then some s else find_subscriber channel ss

unfoldable pub put_first : ℕ → CoreEvent → List Subscriber → List Subscriber
put_first channel event [] = []
put_first channel event (s ∷ ss) =
    let rest = put_first channel event ss in
    if s.channel == channel then record s { queue = s.queue ++ event ∷ [] } ∷ ss else s ∷ rest

-- `ch <- last`: none where the send has to wait.
unfoldable pub send_first : Hub → ℕ → CoreEvent → Option Hub
send_first hub channel event = elim (find_subscriber channel hub.subscribers) [
  | none ↦ none
  | some s ↦
      if ltb (length s.queue) s.capacity
      then some (record hub { subscribers = put_first channel event hub.subscribers })
      else none
]

unfoldable pub unsubscribe : Hub → ℕ → Hub
unsubscribe hub channel = record hub {
  subscribers = filter (λ s. not (s.channel == channel)) hub.subscribers;
}
