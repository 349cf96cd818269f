-- ===== src/Core/Events/Delivery.antt =====
-- What the hub of core/events.go delivers, and when SubscribeEvents has to wait.
use kokorobox_service.Common.{
  ℕ, suc, zero, ◌+◌, ◌≤◌, ◌≡◌, refl, subst, none, some, List, [], ◌∷◌, length, length-append, map,
  ltb, if◌then◌else◌, arith,
}
use kokorobox_service.Common.Ints.{ℤ}
use kokorobox_service.Core.Events.{
  CoreEvent, Subscriber, Hub, offer, stamp, publish_core_event, buffer_size, open_subscription,
  find_subscriber, send_first,
}

-- Events that are published one after the other.
unfoldable pub publish_all : Hub → List (ℕ × CoreEvent) → Hub
publish_all hub [] = hub
publish_all hub ((now, e) ∷ es) = publish_all (publish_core_event hub now e) es

-- The channel that stands first, with so many events waiting.
abbrev First : ℕ → ℕ → ℕ → List Subscriber → Type 0
First channel capacity waiting [] = ⊥
First channel capacity waiting (s ∷ ss) =
    (s.channel ≡ channel) × (s.capacity ≡ capacity) × (length s.queue ≡ waiting)

-- A channel takes an event while it has room.
filled : ℕ → ℕ → ℕ
filled capacity waiting = if ltb waiting capacity then suc waiting else waiting

map-First :
    (channel capacity waiting : ℕ) (e : CoreEvent) (ss : List Subscriber)
    → First channel capacity waiting ss
    → First channel capacity (filled capacity waiting) (map (offer e) ss)
unfolding offer filled
map-First channel capacity waiting e [] f = absurd f
map-First channel capacity waiting e (s ∷ ss) (c, k, w) =
    ground (arith, length-append s.queue (e ∷ []))

-- What waits after so many events.
all_filled : ℕ → ℕ → ℕ → ℕ
all_filled capacity waiting zero = waiting
all_filled capacity waiting (suc n) = all_filled capacity (filled capacity waiting) n

all_filled_full :
    (capacity waiting n : ℕ)
    → waiting ≤ capacity
    → capacity ≤ waiting + n
    → all_filled capacity waiting n ≡ capacity
unfolding all_filled filled
all_filled_full capacity waiting zero h k = omega arith
all_filled_full capacity waiting (suc n) h k =
    all_filled_full capacity (filled capacity waiting) n (ground arith) (ground arith)

publish_all-First :
    (channel capacity waiting : ℕ) (hub : Hub) (es : List (ℕ × CoreEvent))
    → First channel capacity waiting hub.subscribers
    → First channel capacity
        (all_filled capacity waiting (length es))
        (publish_all hub es).subscribers
unfolding publish_all publish_core_event all_filled
publish_all-First channel capacity waiting hub [] f = f
publish_all-First channel capacity waiting hub ((now, e) ∷ es) f =
    publish_all-First channel capacity (filled capacity waiting) (publish_core_event hub now e) es
      (map-First channel capacity waiting (stamp hub now e) hub.subscribers f)

opened-First :
    (hub : Hub) (buffer : ℤ) (es : List (ℕ × CoreEvent))
    → First hub.next_channel
        (buffer_size buffer)
        (all_filled (buffer_size buffer) 0 (length es))
        (publish_all (open_subscription hub buffer).0 es).subscribers
unfolding open_subscription
opened-First hub buffer es =
    publish_all-First hub.next_channel (buffer_size buffer) 0 (open_subscription hub buffer).0 es
      (refl, refl, refl)

find-First :
    (channel capacity waiting : ℕ) (ss : List Subscriber)
    → First channel capacity waiting ss
    → (s : Subscriber) × (find_subscriber channel ss ≡ some s)
      × (s.capacity ≡ capacity)
      × (length s.queue ≡ waiting)
unfolding find_subscriber
find-First channel capacity waiting [] f = absurd f
find-First channel capacity waiting (s ∷ ss) (c, k, w) = (s, ground (arith, c), k, w)

full_waits :
    (hub : Hub) (channel capacity : ℕ) (first : CoreEvent)
    → First channel capacity capacity hub.subscribers
    → send_first hub channel first ≡ none
unfolding send_first
full_waits hub channel capacity first f =
    let (s, found, k, w) = find-First channel capacity capacity hub.subscribers f in
    rw (found, send_first) (ground (arith, k, w))

-- The first event cannot be sent to a new subscriber for whose channel as many events as it has room for are
-- published before: the send has to wait.
pub subscription_waits :
    (hub : Hub) (buffer : ℤ) (es : List (ℕ × CoreEvent)) (first : CoreEvent)
    → buffer_size buffer ≤ length es
    → send_first
        (publish_all (open_subscription hub buffer).0 es)
        (open_subscription hub buffer).1
        first
      ≡ none
unfolding open_subscription
subscription_waits hub buffer es first h =
    full_waits (publish_all (open_subscription hub buffer).0 es) hub.next_channel
      (buffer_size buffer) first
      (subst
        (λ w.
          First hub.next_channel (buffer_size buffer) w
            (publish_all (open_subscription hub buffer).0 es).subscribers)
        (all_filled_full (buffer_size buffer) 0 (length es) (omega arith) (omega arith))
        (opened-First hub buffer es))
