-- ===== src/Tests/Body.antt =====
-- The runs of a body with a synchronized block.
use phasic_j.Base.{◌≡◌, ◌^◌, ◌-◌, refl, true, false, codes, text_eq, List, [], ◌∷◌, ◌++◌}
use phasic_j.Java.Classes.{method_insn, Insn, insn, other, monitorenter, monitorexit}
use phasic_j.Java.Instrument.{handler_call, enter_name, instrument_body, object_class, visit_insn}
use phasic_j.Java.Instrument.Trace.{
  notifies_enter, notifies_exit, announced, erase, erase-instrument_body, Event, locks, unlocks,
}
use phasic_j.Java.Runtime.{AgentRt}
use phasic_j.Java.Instrument.Flow.{
  IsPending, stops, Runs, passes, leaves, jumps, instrument_body-Runs,
}
use phasic_j.Java.Instrument.Flow.Announced.{Runs_of-instrument_body}
use phasic_j.Recorder.{initial, start_forwarding_worker_thread}
use phasic_j.Recorder.Steps.{left_by}

-- synchronized (x) { … }
abbrev pub body : List Insn
body =
    other (codes "aload_0")
    ∷ insn monitorenter
    ∷ other (codes "L0")
    ∷ insn monitorexit
    ∷ insn 177
    ∷ []

-- A run of it that ends.
pub body-Runs : Runs object_class body true body (locks ∷ unlocks ∷ [])
unfolding codes
body-Runs = passes _ _ _ refl refl (
    passes _ _ _ refl refl
      (passes _ _ _ refl refl (passes _ _ _ refl refl (leaves _ _ refl refl refl))))

instrument_body-Runs_example :
    Runs object_class
      (instrument_body object_class body)
      true
      (instrument_body object_class body)
      (announced (locks ∷ unlocks ∷ []))
instrument_body-Runs_example = instrument_body-Runs object_class body true body-Runs

erase-instrument_body_example :
    erase object_class (instrument_body object_class body) ≡ erase object_class body
erase-instrument_body_example = erase-instrument_body object_class body

-- A runtime whose counter is about to wrap.
abbrev pub rt : AgentRt
rt = record {
  instrumentation_is_enabled = false;
  monitor_enter_counter = 2 ^ 32 - 1;
  monitor_exit_counter = 0;
  recorder = left_by (start_forwarding_worker_thread true initial) initial;
}

-- A run of the instrumented body that goes through the block, back to its first label, and stops
-- behind the second call.
abbrev pub looped : List Event
looped = notifies_enter ∷ locks ∷ notifies_exit ∷ unlocks ∷ notifies_exit ∷ []

pub looped-Runs :
    Runs object_class
      (instrument_body object_class body)
      false
      (instrument_body object_class body)
      looped
unfolding instrument_body visit_insn codes text_eq
looped-Runs = passes _ _ _ refl refl (
    passes _ _ _ refl refl (
      passes _ _ _ refl refl (
        passes _ _ _ refl refl (
          passes _ _ _ refl refl (
            jumps _ _
              (other (codes "aload_0")
                ∷ method_insn (handler_call object_class enter_name)
                ∷ insn monitorenter
                ∷ [])
              _ _ _ refl refl refl refl
              (passes _ _ _ refl refl (passes _ _ _ refl refl (stops refl refl))))))))

Runs_of-instrument_body_example :
    (es : List Event) × (pending : List Event) × Runs object_class body false body es
    × IsPending false pending
    × (announced es ++ pending ≡ looped)
Runs_of-instrument_body_example = Runs_of-instrument_body object_class body false looped-Runs
