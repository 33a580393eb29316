-- ===== src/Java/Runtime/Threads/Programs.antt =====
-- Threads that run instrumented bodies.
use phasic_j.Base.{
  ℕ, ◌+◌, ◌%◌, ◌^◌, ◌≡◌, refl, sym, ap, ◌∙◌, arith, Bool, true, List, [], ◌∷◌, ◌++◌,
}
use phasic_j.Java.Classes.{Insn}
use phasic_j.Java.Instrument.{object_class, instrument_body}
use phasic_j.Java.Instrument.Flow.{Runs, IsPending}
use phasic_j.Java.Instrument.Flow.Announced.{Runs_of-instrument_body}
use phasic_j.Java.Instrument.Flow.Quiet.{HasNoCalls, IsQuiet, Runs-IsQuiet}
use phasic_j.Java.Instrument.Trace.{Event, locks, unlocks, notifies_enter, notifies_exit, announced}
use phasic_j.Java.Runtime.{AgentRt, enable_object_instrumentation}
use phasic_j.Java.Runtime.Sends.{locks_in, unlocks_in, enters_in, exits_in}
use phasic_j.Java.Runtime.Threads.{Point, between, Interleaved}
use phasic_j.Java.Runtime.Threads.Counts.{Interleaved-Kept}
use phasic_j.Java.Runtime.Threads.Left.{left, all_run_on}
use phasic_j.Recorder.Steps.{IsStarted}

-- A thread that runs an instrumented body: the body as it was loaded, and the events of the run.
pub record Thread : Type 0 where
  pub body : List Insn
  pub has_left : Bool
  pub events : List Event
  pub quiet : HasNoCalls object_class body
  pub runs :
      Runs object_class
        (instrument_body object_class body)
        has_left
        (instrument_body object_class body)
        events

-- The run of the body as it was loaded, which may be one call short.
pub record Original (t : Thread) : Type 0 where
  pub events : List Event
  pub pending : List Event
  pub runs : Runs object_class t.body t.has_left t.body events
  pub is_pending : IsPending t.has_left pending
  pub enters : enters_in t.events ≡ locks_in events + enters_in pending
  pub exits : exits_in t.events ≡ unlocks_in events + exits_in pending

enters_in-announced :
    (es more : List Event)
    → IsQuiet es
    → (enters_in (announced es ++ more) ≡ locks_in es + enters_in more)
      × (exits_in (announced es ++ more) ≡ unlocks_in es + exits_in more)
unfolding announced
enters_in-announced [] more quiet = (omega arith, omega arith)
enters_in-announced (locks ∷ es) more quiet =
    let (a, b) = enters_in-announced es more quiet in (omega (arith, a), b)
enters_in-announced (unlocks ∷ es) more quiet =
    let (a, b) = enters_in-announced es more quiet in (a, omega (arith, b))
enters_in-announced (notifies_enter ∷ es) more quiet = absurd quiet
enters_in-announced (notifies_exit ∷ es) more quiet = absurd quiet

original : (t : Thread) → Original t
original t =
    let (es, more, runs, pending, e) =
      Runs_of-instrument_body object_class t.body t.has_left t.runs in
    let (enters, exits) = enters_in-announced es more (Runs-IsQuiet t.quiet runs t.quiet) in
    record {
      events = es;
      pending = more;
      runs = runs;
      is_pending = pending;
      enters = ap enters_in (sym e) ∙ enters;
      exits = ap exits_in (sym e) ∙ exits;
    }

abbrev pub Originals : List Thread → Type 0
Originals [] = Unit
Originals (t ∷ ts) = Original t × Originals ts

abbrev pub starts : List Thread → List Point
starts [] = []
starts (t ∷ ts) = between t.events ∷ starts ts

-- The monitor instructions on the way of all threads, with the calls that may be ahead of them.
abbrev pub locks_of : (ts : List Thread) → Originals ts → ℕ
locks_of [] os = 0
locks_of (t ∷ ts) (o, os) = locks_in o.events + enters_in o.pending + locks_of ts os

abbrev pub unlocks_of : (ts : List Thread) → Originals ts → ℕ
unlocks_of [] os = 0
unlocks_of (t ∷ ts) (o, os) = unlocks_in o.events + exits_in o.pending + unlocks_of ts os

originals : (ts : List Thread) → Originals ts
originals [] = tt
originals (t ∷ ts) = (original t, originals ts)

left-starts :
    (ts : List Thread) (os : Originals ts)
    → ((left (starts ts)).unsent ≡ locks_of ts os)
      × ((left (starts ts)).enters ≡ locks_of ts os)
      × ((left (starts ts)).exits ≡ unlocks_of ts os)
left-starts [] os = (refl, refl, refl)
left-starts (t ∷ ts) (o, os) =
    let (a, b, c) = left-starts ts os in
    (omega (arith, a, o.enters), omega (arith, b, o.enters), omega (arith, c, o.exits))

starts-all_run_on : (ts : List Thread) → all_run_on (starts ts) ≡ true
starts-all_run_on [] = refl
starts-all_run_on (t ∷ ts) = starts-all_run_on ts

-- With a started recorder, once the instrumentation of Object is enabled, at every moment of any
-- interleaving of threads that run instrumented bodies, each to its end or up to some moment, of
-- which none had a call of the handler: no thread has crashed, the events that have been sent and
-- those that the threads have still to send make up the monitorenter instructions on the ways of
-- all threads through the bodies as they were loaded, and each counter together with the calls that
-- are still to be counted makes up the number of its instructions, modulo 2^32; a run that has not
-- left its body can have one call more. Threads interleave freely: runs in which a monitor would
-- have kept a thread out are included.
pub Interleaved-counts :
    (s : AgentRt) {i total : ℕ} (ts : List Thread) {t : AgentRt} {qs : List Point}
    → IsStarted s.recorder i total
    → Interleaved (enable_object_instrumentation s) (starts ts) t qs
    → (os : Originals ts) × (sent : ℕ) × IsStarted t.recorder i sent
      × (all_run_on qs ≡ true)
      × (sent + (left qs).unsent ≡ total + locks_of ts os)
      × ((t.monitor_enter_counter + (left qs).enters) % 2 ^ 32
          ≡ (s.monitor_enter_counter + locks_of ts os) % 2 ^ 32)
      × ((t.monitor_exit_counter + (left qs).exits) % 2 ^ 32
          ≡ (s.monitor_exit_counter + unlocks_of ts os) % 2 ^ 32)
unfolding enable_object_instrumentation
Interleaved-counts s ts h run =
    let (kept, all) = Interleaved-Kept refl h run (starts-all_run_on ts) in
    let os = originals ts in
    let (a, b, c) = left-starts ts os in
    (
      os,
      kept.sent,
      kept.started,
      all,
      rw a at kept.sends,
      rw b at kept.enter_counter,
      rw c at kept.exit_counter,
    )
