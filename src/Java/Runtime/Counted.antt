-- ===== src/Java/Runtime/Counted.antt =====
-- How many events an instrumented body sends.
use phasic_j.Base.{ℕ, ◌+◌, refl, sym, Bool, true, false, Text, List, [], ◌∷◌}
use phasic_j.Java.Classes.{Insn}
use phasic_j.Java.Instrument.{instrument_body}
use phasic_j.Java.Instrument.Flow.{Runs, IsPending}
use phasic_j.Java.Instrument.Flow.Announced.{Runs_of-instrument_body}
use phasic_j.Java.Instrument.Flow.Quiet.{HasNoCalls, Runs-IsQuiet}
use phasic_j.Java.Instrument.Trace.{Event}
use phasic_j.Java.Runtime.{AgentRt, enable_object_instrumentation}
use phasic_j.Recorder.Steps.{IsStarted}
use phasic_j.Java.Runtime.Sends.{locks_in, unlocks_in, enters_in, exits_in, Sends, announced-Sends}

IsPending-any : (has_left : Bool) (es : List Event) → IsPending has_left es → IsPending false es
IsPending-any false es h = h
IsPending-any true [] h = tt
IsPending-any true (e ∷ es) h = absurd h

-- With a started recorder, and a body that has no call of the handler: once the instrumentation of
-- Object is enabled, every run of the instrumented body, along any control flow, until it is left
-- or up to some moment, returns from each call of the handler, and is a run of the body itself,
-- with one event sent to the recorder for each monitorenter on the way, and the numbers of
-- monitorenter and monitorexit instructions on the way added to the two counters, modulo 2^32; a
-- run that has not left the body can have one call more.
pub execute-instrument_body :
    (handler : Text) (body : List Insn) (has_left : Bool) (s : AgentRt) (i total : ℕ)
    {es' : List Event}
    → HasNoCalls handler body
    → IsStarted s.recorder i total
    → Runs handler (instrument_body handler body) has_left (instrument_body handler body) es'
    → (es : List Event) × (pending : List Event) × Runs handler body has_left body es
      × IsPending has_left pending
      × Sends es'
          (enable_object_instrumentation s)
          i
          total
          (locks_in es + enters_in pending)
          (unlocks_in es + exits_in pending)
unfolding enable_object_instrumentation
execute-instrument_body handler body has_left s i total quiet h run =
    let (es, more, original, pending, e) = Runs_of-instrument_body handler body has_left run in
    (
      es,
      more,
      original,
      pending,
      rw (sym e) (
          announced-Sends es more (enable_object_instrumentation s) i total
            (Runs-IsQuiet quiet original quiet) (IsPending-any has_left more pending) refl h),
    )
