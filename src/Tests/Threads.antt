-- ===== src/Tests/Threads.antt =====
-- Two threads that are in the runtime at the same time.
use phasic_j.Base.{ℕ, ◌≡◌, ◌+◌, ◌%◌, ◌^◌, refl, true, false, List, [], ◌∷◌}
use phasic_j.Java.Instrument.{object_class}
use phasic_j.Java.Instrument.Flow.{instrument_body-Runs}
use phasic_j.Java.Instrument.Trace.{locks, unlocks, notifies_exit, announced}
use phasic_j.Java.Runtime.{AgentRt, increment_and_get, enable_object_instrumentation}
use phasic_j.Java.Runtime.Threads.{
  Point, between, entered, this, another, acts, call_enter, count_enter, native_enter, Interleaved,
  start, onward,
}
use phasic_j.Java.Runtime.Threads.Left.{left, all_run_on}
use phasic_j.Java.Runtime.Threads.Programs.{
  Thread, Originals, starts, locks_of, unlocks_of, Interleaved-counts,
}
use phasic_j.Recorder.{initial, monitor_enter, start_forwarding_worker_thread, send_to, send}
use phasic_j.Recorder.Steps.{IsStarted, left_by, start-IsStarted}
use phasic_j.Tests.Body.{body, body-Runs, looped, looped-Runs, rt}

-- One that stays in its body, and one that goes through it.
abbrev threads : List Thread
threads =
    record {
      body = body;
      has_left = false;
      events = looped;
      quiet = (refl, (refl, (refl, (refl, (refl, tt)))));
      runs = looped-Runs;
    }
    ∷ record {
      body = body;
      has_left = true;
      events = announced (locks ∷ unlocks ∷ []);
      quiet = (refl, (refl, (refl, (refl, (refl, tt)))));
      runs = instrument_body-Runs object_class body true body-Runs;
    }
    ∷ []

-- Both have counted their event, and the second has sent it.
abbrev met : AgentRt
met = record (enable_object_instrumentation rt) {
  monitor_enter_counter = increment_and_get (increment_and_get rt.monitor_enter_counter);
  recorder = left_by (monitor_enter rt.recorder) rt.recorder;
}

abbrev points : List Point
points =
    entered (locks ∷ notifies_exit ∷ unlocks ∷ notifies_exit ∷ [])
    ∷ between (locks ∷ notifies_exit ∷ unlocks ∷ [])
    ∷ []

met-Interleaved : Interleaved (enable_object_instrumentation rt) (starts threads) met points
unfolding announced enable_object_instrumentation monitor_enter start_forwarding_worker_thread
    send_to send
met-Interleaved =
    onward
      (onward
        (onward
          (onward (onward start (acts (this (call_enter refl))))
            (acts (another (this (call_enter refl)))))
          (acts (this count_enter)))
        (acts (another (this count_enter))))
      (acts (another (this (native_enter refl))))

Interleaved-counts_example :
    (os : Originals threads) × (sent : ℕ) × IsStarted met.recorder 0 sent
    × (all_run_on points ≡ true)
    × (sent + (left points).unsent ≡ 0 + locks_of threads os)
    × ((met.monitor_enter_counter + (left points).enters) % 2 ^ 32
        ≡ (rt.monitor_enter_counter + locks_of threads os) % 2 ^ 32)
    × ((met.monitor_exit_counter + (left points).exits) % 2 ^ 32
        ≡ (rt.monitor_exit_counter + unlocks_of threads os) % 2 ^ 32)
Interleaved-counts_example =
    Interleaved-counts rt threads (start-IsStarted initial refl) met-Interleaved
