-- ===== src/Tests/Recorder.antt =====
-- The theorems on the recorder at concrete runs.
use phasic_j.Base.{◌≡◌, refl, true, false, some, [], ◌∷◌}
use phasic_j.Recorder.{
  Recorder, receiving, initial, start_forwarding_worker_thread, send, send_to, monitor_enter,
  get_channel,
}
use phasic_j.Recorder.Delivery.{delivery_after_start}
use phasic_j.Recorder.Steps.{left_by, Reach, here, next, enter, deliver}

-- The recorder with one event, delivered.
abbrev delivered : Recorder
delivered = record {
  sender = some 0;
  poisoned = false;
  channels = record { queued = 0; received = 1; worker = receiving } ∷ [];
}

delivered-Reach : Reach (left_by (start_forwarding_worker_thread true initial) initial) delivered 1
unfolding start_forwarding_worker_thread monitor_enter send_to send
delivered-Reach = next (next (here refl) (enter refl) refl) (deliver 0 0 0 refl refl) refl

-- The recorder with one event that is still queued.
abbrev queued_once : Recorder
queued_once = record {
  sender = some 0;
  poisoned = false;
  channels = record { queued = 1; received = 0; worker = receiving } ∷ [];
}

queued-Reach : Reach (left_by (start_forwarding_worker_thread true initial) initial) queued_once 1
unfolding start_forwarding_worker_thread monitor_enter send_to send
queued-Reach = next (here refl) (enter refl) refl

delivery_after_start_example :
    (t' : Recorder) × Reach queued_once t' 0
    × (get_channel t'.channels 0 ≡ some (record { queued = 0; received = 1; worker = receiving }))
delivery_after_start_example = delivery_after_start initial refl queued-Reach
