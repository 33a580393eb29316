-- ===== src/Java/Instrument/Flow.antt =====
-- The runs of a body along any control flow, and that each is one of the instrumented body, with its
-- announcements.
pub mod Announced
pub mod Place
pub mod Quiet
use mathlib.Core.List.{append-nil, append_assoc, head-eq_of_cons-eq, tail-eq_of_cons-eq}
use phasic_j.Base.{
  Bool, true, ℕ, ◌≡◌, ◌⊎◌, ◌∙◌, refl, sym, ap, arith, Bool, true, false, ◌&&◌, ◌||◌, Text, List, [],
  ◌∷◌, ◌++◌, ◌==◌, if◌then◌else◌, Bool-cases, inl, inr, text_eq,
}
use phasic_j.Java.Classes.{
  monitorenter, monitorexit, invokestatic, Call, Insn, insn, method_insn, other,
}
use phasic_j.Java.Instrument.{enter_name, exit_name, handler_call, visit_insn, instrument_body}
use phasic_j.Java.Instrument.Trace.{
  Event, locks, unlocks, notifies_enter, notifies_exit, calls, call_events, insn_events, announced,
  handler_descriptor, text_eq_self, exit_ne_enter, announced-insn_events, announced-call_events,
}

-- Calls are not announced.
pub announced-call :
    (handler : Text) (c : Call)
    → let es = call_events (calls handler enter_name c) (calls handler exit_name c) in
      announced es ≡ es
unfolding announced
announced-call handler c = elim (Bool-cases (calls handler enter_name c)) [
  | inl e ↦ rw e refl
  | inr e ↦ elim (Bool-cases (calls handler exit_name c)) [
    | inl k ↦ rw (e, k) refl
    | inr k ↦ rw (e, k) refl
  ]
]

-- The call of the handler behind which a run may be, if it has not left the body.
abbrev pub IsPending : Bool → List Event → Type 0
IsPending has_left [] = Unit
IsPending true (e ∷ es) = ⊥
IsPending false (notifies_enter ∷ []) = Unit
IsPending false (notifies_exit ∷ []) = Unit
IsPending false (notifies_enter ∷ e ∷ es) = ⊥
IsPending false (notifies_exit ∷ e ∷ es) = ⊥
IsPending false (locks ∷ es) = ⊥
IsPending false (unlocks ∷ es) = ⊥

pub call_events-IsPending : (enters exits : Bool) → IsPending false (call_events enters exits)
call_events-IsPending true exits = tt
call_events-IsPending false true = tt
call_events-IsPending false false = tt

module _ (handler : Text) where
  abbrev pub events_of : Insn → List Event
  events_of (insn opcode) = insn_events opcode
  events_of (method_insn c) = call_events (calls handler enter_name c) (calls handler exit_name c)
  events_of (other v) = []

  -- A call of the handler; it returns.
  abbrev pub is_announcement : Insn → Bool
  is_announcement (insn opcode) = false
  is_announcement (method_insn c) = calls handler enter_name c || calls handler exit_name c
  is_announcement (other v) = false

  -- A run of a body from a place in it, with the events on the way: until it is left, or, if
  -- `has_left` is false, up to some moment. Any instruction but a call of the handler can go on at
  -- any label of the body, as jumps, switches and exceptions do, or leave the body, as returns and
  -- exceptions do.
  pub data Runs (body : List Insn) (has_left : Bool) : List Insn → List Event → Type 0 where
    stops :
        {place : List Insn} {es : List Event}
        → has_left ≡ false
        → es ≡ []
        → Runs body has_left place es
    ends :
        {place : List Insn} {es : List Event} → place ≡ [] → es ≡ [] → Runs body has_left place es
    leaves :
        {place : List Insn} {es : List Event} (i : Insn) (is : List Insn)
        → place ≡ i ∷ is
        → is_announcement i ≡ false
        → es ≡ events_of i
        → Runs body has_left place es
    passes :
        {place : List Insn} {es : List Event} (i : Insn) (is : List Insn) (fs : List Event)
        → place ≡ i ∷ is
        → es ≡ events_of i ++ fs
        → Runs body has_left is fs
        → Runs body has_left place es
    jumps :
        {place : List Insn} {es : List Event} (i : Insn) (is before : List Insn) (label : Text)
        (target : List Insn) (fs : List Event)
        → place ≡ i ∷ is
        → is_announcement i ≡ false
        → body ≡ before ++ (other label ∷ target)
        → es ≡ events_of i ++ fs
        → Runs body has_left (other label ∷ target) fs
        → Runs body has_left place es

  pub announced-events_of :
      (i : Insn) (fs : List Event)
      → announced (events_of i ++ fs) ≡ announced (events_of i) ++ announced fs
  unfolding announced
  announced-events_of (insn opcode) fs = announced-insn_events handler opcode fs
  announced-events_of (method_insn c) fs =
      let enters = calls handler enter_name c in
      let exits = calls handler exit_name c in
      announced-call_events handler enters exits fs
      ∙ ap (λ es. es ++ announced fs) (sym (announced-call handler c))
  announced-events_of (other v) fs = refl

  -- What `visitInsn` emits: the instruction, behind the call that announces it if it is one of a
  -- monitor.
  pub data Visited (opcode : ℕ) : Type 0 where
    plain :
        visit_insn handler opcode ≡ insn opcode ∷ []
        → announced (insn_events opcode) ≡ insn_events opcode
        → Visited opcode
    called :
        (c : Call)
        → visit_insn handler opcode ≡ method_insn c ∷ insn opcode ∷ []
        → is_announcement (method_insn c) ≡ true
        → announced (insn_events opcode) ≡ events_of (method_insn c) ++ insn_events opcode
        → Visited opcode

  pub visited : (opcode : ℕ) → Visited opcode
  unfolding visit_insn announced
  visited opcode = elim (Bool-cases (opcode == monitorenter)) [
    | inl e ↦
        let other_one : (opcode == monitorexit) ≡ false = ground arith in
        called (handler_call handler enter_name) (rw (e, other_one) refl)
          (rw (text_eq_self handler, text_eq_self enter_name, text_eq_self handler_descriptor) refl)
          (rw (e, text_eq_self handler, text_eq_self enter_name, text_eq_self handler_descriptor)
            refl)
    | inr e ↦ elim (Bool-cases (opcode == monitorexit)) [
      | inl k ↦
          called (handler_call handler exit_name) (rw (e, k) refl)
            (rw
              (
                text_eq_self handler,
                exit_ne_enter,
                text_eq_self exit_name,
                text_eq_self handler_descriptor,
              )
              refl)
            (rw
              (
                e,
                k,
                text_eq_self handler,
                exit_ne_enter,
                text_eq_self exit_name,
                text_eq_self handler_descriptor,
              )
              refl)
      | inr k ↦ plain (rw (e, k) refl) (rw (e, k) refl)
    ]
  ]

  instrument_body-append :
      (is js : List Insn)
      → instrument_body handler (is ++ js)
        ≡ instrument_body handler is ++ instrument_body handler js
  unfolding instrument_body
  instrument_body-append [] js = refl
  instrument_body-append (insn opcode ∷ is) js = rw (instrument_body-append is js) (
      sym (
        append_assoc (visit_insn handler opcode) (instrument_body handler is)
          (instrument_body handler js)))
  instrument_body-append (method_insn c ∷ is) js =
      ap (λ is'. method_insn c ∷ is') (instrument_body-append is js)
  instrument_body-append (other v ∷ is) js =
      ap (λ is'. other v ∷ is') (instrument_body-append is js)

  -- A run from an instruction on is one from its call on, if there is one.
  instrumented :
      {body : List Insn} {has_left : Bool} (i : Insn) (is : List Insn) (fs : List Event)
      → Runs body has_left (i ∷ instrument_body handler is) (events_of i ++ fs)
      → Runs body has_left (instrument_body handler (i ∷ is)) (announced (events_of i) ++ fs)
  unfolding instrument_body announced
  instrumented (insn opcode) is fs run = elim (visited opcode) [
    | plain v quiet ↦ rw (v, quiet) run
    | called c v call announces ↦
        rw (v, announces)
          (passes (method_insn c) (insn opcode ∷ instrument_body handler is)
            (insn_events opcode ++ fs) refl
            (append_assoc (events_of (method_insn c)) (insn_events opcode) fs) run)
  ]
  instrumented (method_insn c) is fs run = rw (announced-call handler c) run
  instrumented (other v) is fs run = run

  Runs-announced :
      {has_left : Bool} {body place : List Insn} {es : List Event}
      → Runs body has_left place es
      → Runs (instrument_body handler body) has_left (instrument_body handler place) (announced es)
  unfolding announced instrument_body
  Runs-announced (stops still none_yet) = rw none_yet (stops still refl)
  Runs-announced (ends finished none_left) = rw (finished, none_left) (ends refl refl)
  Runs-announced {has_left} {body} (leaves i is here free last) =
      let body' = instrument_body handler body in
      let run : Runs body' has_left (i ∷ instrument_body handler is) (events_of i ++ []) =
        leaves i (instrument_body handler is) refl free (append-nil (events_of i)) in
      let whole : Runs body' has_left (instrument_body handler (i ∷ is))
          (announced (events_of i) ++ []) =
        instrumented i is [] run in
      rw (here, last) (rw (append-nil (announced (events_of i))) at whole)
  Runs-announced (passes i is fs here split more) =
      rw (here, split, announced-events_of i fs)
        (instrumented i is (announced fs)
          (passes i (instrument_body handler is) (announced fs) refl refl (Runs-announced more)))
  Runs-announced {body} (jumps i is before label target fs here free found split more) =
      rw (here, split, announced-events_of i fs)
        (instrumented i is (announced fs) (
          jumps i (instrument_body handler is) (instrument_body handler before) label
            (instrument_body handler target) (announced fs) refl free
            (ap (instrument_body handler) found
              ∙ instrument_body-append before (other label ∷ target))
            refl (Runs-announced more)))

  -- Every run of a body, along any control flow, until it is left or up to some moment, is still a
  -- run of the instrumented body, with the fitting call of the handler just before each monitor
  -- instruction.
  pub instrument_body-Runs :
      (body : List Insn) (has_left : Bool) {es : List Event}
      → Runs body has_left body es
      → Runs (instrument_body handler body) has_left (instrument_body handler body) (announced es)
  instrument_body-Runs body has_left run = Runs-announced run
