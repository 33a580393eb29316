-- ===== src/Java/Runtime/Threads.antt =====
-- The threads of an instrumented program, in agent/rt: each step is one access to the flag, to a
-- counter, or, by a native method, to the recorder.
pub mod Alone
pub mod Counts
pub mod Left
pub mod Programs
use phasic_j.Base.{ℕ, ◌≡◌, true, false, List, [], ◌∷◌}
use phasic_j.Java.Instrument.Trace.{Event, locks, unlocks, notifies_enter, notifies_exit}
use phasic_j.Java.Runtime.{AgentRt, increment_and_get, enable_object_instrumentation}
use phasic_j.Panic.{Panic, done, panicked}
use phasic_j.Recorder.{Recorder, monitor_enter, monitor_exit}
use phasic_j.Recorder.Steps as Recording

-- Where a thread stands, with the events that are still to come.
pub data Point : Type 0 where
  between : List Event → Point  -- outside of the runtime
  entering : List Event → Point  -- in `ApplicationEvents`, before `incrementAndGet()`
  entered : List Event → Point  -- before the native `monitorEnter()`
  exiting : List Event → Point  -- before `incrementAndGet()`
  exited : List Event → Point  -- before the native `monitorExit()`
  crashed : Point  -- a native method has panicked

-- One step of one thread. That a monitor keeps other threads out is not in it: `lock` may step while
-- another thread is in the monitor, which allows more interleavings than Java does.
pub data Act (s : AgentRt) : Point → AgentRt → Point → Type 0 where
  lock : {es : List Event} → Act s (between (locks ∷ es)) s (between es)
  unlock : {es : List Event} → Act s (between (unlocks ∷ es)) s (between es)
  pass_enter :
      {es : List Event}
      → s.instrumentation_is_enabled ≡ false
      → Act s (between (notifies_enter ∷ es)) s (between es)
  pass_exit :
      {es : List Event}
      → s.instrumentation_is_enabled ≡ false
      → Act s (between (notifies_exit ∷ es)) s (between es)
  call_enter :
      {es : List Event}
      → s.instrumentation_is_enabled ≡ true
      → Act s (between (notifies_enter ∷ es)) s (entering es)
  call_exit :
      {es : List Event}
      → s.instrumentation_is_enabled ≡ true
      → Act s (between (notifies_exit ∷ es)) s (exiting es)
  count_enter :
      {es : List Event}
      → Act s
          (entering es)
          (record s { monitor_enter_counter = increment_and_get s.monitor_enter_counter })
          (entered es)
  count_exit :
      {es : List Event}
      → Act s
          (exiting es)
          (record s { monitor_exit_counter = increment_and_get s.monitor_exit_counter })
          (exited es)
  native_enter :
      {es : List Event} {r : Recorder}
      → monitor_enter s.recorder ≡ done tt r
      → Act s (entered es) (record s { recorder = r }) (between es)
  native_exit :
      {es : List Event} {r : Recorder}
      → monitor_exit s.recorder ≡ done tt r
      → Act s (exited es) (record s { recorder = r }) (between es)
  crash_enter :
      {es : List Event} {p : Panic} {r : Recorder}
      → monitor_enter s.recorder ≡ panicked p r
      → Act s (entered es) (record s { recorder = r }) crashed
  crash_exit :
      {es : List Event} {p : Panic} {r : Recorder}
      → monitor_exit s.recorder ≡ panicked p r
      → Act s (exited es) (record s { recorder = r }) crashed

-- A step of one of the threads.
pub data Pick (s : AgentRt) : List Point → AgentRt → List Point → Type 0 where
  this : {p q : Point} {ps : List Point} {t : AgentRt} → Act s p t q → Pick s (p ∷ ps) t (q ∷ ps)
  another :
      {p : Point} {ps qs : List Point} {t : AgentRt} → Pick s ps t qs → Pick s (p ∷ ps) t (p ∷ qs)

-- A step of the program: of a thread, of the one that enables the instrumentation, or of the threads
-- that forward the events.
pub data Turn (s : AgentRt) (ps : List Point) : AgentRt → List Point → Type 0 where
  acts : {t : AgentRt} {qs : List Point} → Pick s ps t qs → Turn s ps t qs
  enables : Turn s ps (enable_object_instrumentation s) ps
  forwards :
      {r : Recorder} → Recording.Reach s.recorder r 0 → Turn s ps (record s { recorder = r }) ps

pub data Interleaved (s : AgentRt) (ps : List Point) : AgentRt → List Point → Type 0 where
  start : Interleaved s ps s ps
  onward :
      {t u : AgentRt} {qs rs : List Point}
      → Interleaved s ps t qs
      → Turn t qs u rs
      → Interleaved s ps u rs
