-- ===== src/Core/Examples.antt =====
-- Concrete runs of the hub of core events.
use kokorobox_service.Common.{◌≡◌, false, none, [], ◌∷◌, codes, arith}
use kokorobox_service.Common.Ints.{pos}
use kokorobox_service.Core.Events.{CoreEvent, Hub, open_subscription, send_first, buffer_size}
use kokorobox_service.Core.Events.Delivery.{publish_all, subscription_waits}

abbrev exited : CoreEvent
exited = record {
  seq = 0;
  kind = codes "exited";
  time = 4;
  running = false;
  pid = pos 0;
  old_pid = pos 0;
  message = [];
  error = [];
  data_values = [];
}

abbrev quiet_hub : Hub
quiet_hub = record {
  is_running = false;
  pid = pos 0;
  subscribers = [];
  last = exited;
  next_seq = 0;
  next_channel = 0;
}

subscription_waits_example :
    send_first
      (publish_all (open_subscription quiet_hub (pos 1)).0 ((5, exited) ∷ []))
      (open_subscription quiet_hub (pos 1)).1
      exited
    ≡ none
unfolding buffer_size
subscription_waits_example =
    subscription_waits quiet_hub (pos 1) ((5, exited) ∷ []) exited (omega arith)
