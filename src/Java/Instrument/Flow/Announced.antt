-- ===== src/Java/Instrument/Flow/Announced.antt =====
-- Each run of an instrumented body is a run of the body itself, with its announcements.
use mathlib.Core.List.{append-nil, append_assoc}
use phasic_j.Base.{Bool, ◌≡◌, ◌∙◌, refl, sym, ap, Text, List, [], ◌∷◌, ◌++◌, inl, inr}
use phasic_j.Java.Classes.{Insn, insn, method_insn, other}
use phasic_j.Java.Instrument.{instrument_body}
use phasic_j.Java.Instrument.Trace.{Event, announced}
use phasic_j.Java.Instrument.Flow.{
  IsPending, events_of, Runs, stops, ends, leaves, passes, jumps, announced-events_of, visited,
  plain, called,
}
use phasic_j.Java.Instrument.Flow.Place.{At, start, behind_call, next-At, instrument_body-Label}

module _ (handler : Text) where
  -- The run of the body that a run of the instrumented body is.
  record Announced (body : List Insn) (has_left : Bool) (place : List Insn) (pre es' : List Event)
      : Type 0 where
    events : List Event
    pending : List Event
    run : Runs handler body has_left place events
    is_pending : IsPending has_left pending
    announces : announced events ++ pending ≡ pre ++ es'

  At-nil : (place : List Insn) → instrument_body handler place ≡ [] → place ≡ []
  unfolding instrument_body
  At-nil [] e = refl
  At-nil (insn opcode ∷ is) e = elim (visited handler opcode) [
    | plain v quiet ↦ cc (rw v at e)
    | called c v call announces ↦ cc (rw v at e)
  ]
  At-nil (method_insn c ∷ is) e = cc
  At-nil (other v ∷ is) e = cc

  joined :
      (i : Insn) (pre gs pending : List Event) {es fs : List Event}
      → announced (events_of handler i) ≡ pre ++ events_of handler i
      → announced gs ++ pending ≡ fs
      → es ≡ events_of handler i ++ fs
      → announced (events_of handler i ++ gs) ++ pending ≡ pre ++ es
  joined i pre gs pending {fs} event more split =
      ap (λ es. es ++ pending) (announced-events_of handler i gs)
      ∙ append_assoc (announced (events_of handler i)) (announced gs) pending
      ∙ rw (event, more, split) (append_assoc pre (events_of handler i) fs)

  behind_nothing : {pre es fs : List Event} → pre ≡ [] → es ≡ fs → fs ≡ pre ++ es
  behind_nothing e f = rw (e, f) refl

  Runs-At :
      {has_left : Bool} {body place' : List Insn} {es' : List Event}
      → Runs handler (instrument_body handler body) has_left place' es'
      → {place : List Insn} {pre : List Event} → At handler place place' pre
      → Announced body has_left place pre es'
  unfolding announced instrument_body
  Runs-At (stops still none_left) (start aligned none_yet) = record {
    events = [];
    pending = [];
    run = stops still refl;
    is_pending = tt;
    announces = rw (none_yet, none_left) refl;
  }
  Runs-At (stops still none_left) {pre} (behind_call opcode js same aligned before pending) =
      record {
        events = [];
        pending = pre;
        run = stops still refl;
        is_pending = rw still pending;
        announces = rw (none_left, append-nil pre) refl;
      }
  Runs-At (ends finished none_left) {place} (start aligned none_yet) = record {
    events = [];
    pending = [];
    is_pending = tt;
    run = ends (At-nil place (sym aligned ∙ finished)) refl;
    announces = rw (none_yet, none_left) refl;
  }
  Runs-At (ends finished none_left) (behind_call opcode js same aligned before pending) = cc
  Runs-At (leaves i is here free last) at = elim (next-At handler i is here at) [
    | inl a ↦ let call = a.is_call in cc
    | inr r ↦ record {
      events = events_of handler i;
      pending = [];
      is_pending = tt;
      run = leaves i r.rest r.same free refl;
      announces = rw (last, append-nil (announced (events_of handler i))) r.event;
    }
  ]
  Runs-At {has_left} {body} (passes i is fs here split more) {place} {pre} at =
      elim (next-At handler i is here at) [
        | inl a ↦
            let rest : Announced body has_left place (events_of handler i) fs =
              Runs-At more a.behind in
            record {
              events = rest.events;
              pending = rest.pending;
              run = rest.run;
              is_pending = rest.is_pending;
              announces = rest.announces ∙ behind_nothing a.nothing split;
            }
        | inr r ↦
            let rest : Announced body has_left r.rest [] fs = Runs-At more (start r.aligned refl) in
            record {
              events = events_of handler i ++ rest.events;
              pending = rest.pending;
              is_pending = rest.is_pending;
              run = passes i r.rest rest.events r.same refl rest.run;
              announces = joined i pre rest.events rest.pending r.event rest.announces split;
            }
      ]
  Runs-At {has_left} {body} (jumps i is before label target fs here free found split more) {place}
        {pre} at =
      elim (next-At handler i is here at) [
        | inl a ↦ let call = a.is_call in cc
        | inr r ↦
            let l = instrument_body-Label handler _ before label target found in
            let rest : Announced body has_left (other label ∷ l.rest) [] fs =
              Runs-At more (start (ap (λ js. other label ∷ js) l.aligned) refl) in
            record {
              events = events_of handler i ++ rest.events;
              pending = rest.pending;
              is_pending = rest.is_pending;
              run =
                  jumps i r.rest l.before label l.rest rest.events r.same free l.found refl
                    rest.run;
              announces = joined i pre rest.events rest.pending r.event rest.announces split;
            }
      ]

  -- Along any control flow, every run of an instrumented body, until it is left or up to some
  -- moment, is such a run of the body itself, with the fitting call of the handler just before each
  -- monitor instruction, and with no other event added, dropped or moved; only a run that has not
  -- left the body can have one call more at its end.
  pub Runs_of-instrument_body :
      (body : List Insn) (has_left : Bool) {es' : List Event}
      → Runs handler (instrument_body handler body) has_left (instrument_body handler body) es'
      → (es : List Event) × (pending : List Event) × Runs handler body has_left body es
        × IsPending has_left pending
        × (announced es ++ pending ≡ es')
  Runs_of-instrument_body body has_left run =
      let a = Runs-At run (start refl refl) in
      (a.events, a.pending, a.run, a.is_pending, a.announces)
