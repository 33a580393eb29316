-- ===== src/Java/Instrument/Trace.antt =====
-- The events of the instructions of a body; and that an instrumented body without the calls of the
-- handler is the body without them.
use phasic_j.Base.{
  ℕ, ◌≡◌, ◌∙◌, refl, ap, arith, text_eq_iff, Bool, true, false, ◌&&◌, ◌||◌, Text, codes, text_eq,
  List, [], ◌∷◌, ◌++◌, ◌==◌, if◌then◌else◌, Bool-cases, inl, inr,
}
use phasic_j.Java.Classes.{
  monitorenter, monitorexit, invokestatic, Call, Insn, insn, method_insn, other,
}
use phasic_j.Java.Instrument.{enter_name, exit_name, visit_insn, instrument_body}

-- What an observer sees of a body's code: the monitor instructions, and the calls of the handler.
pub data Event : Type 0 where
  locks unlocks : Event
  notifies_enter notifies_exit : Event

-- The descriptor of the handler's methods, which take nothing and return nothing.
abbrev pub handler_descriptor : Text
handler_descriptor = codes "()V"

-- A call that the JVM resolves to a static method of the handler, which is a class: by its owner, its
-- name and its descriptor.
abbrev pub calls : Text → Text → Call → Bool
calls handler name c =
    if c.is_interface
    then false
    else (c.opcode == invokestatic
        && text_eq c.owner handler
        && text_eq c.name name
        && text_eq c.descriptor handler_descriptor)

abbrev pub call_events : Bool → Bool → List Event
call_events true exits = notifies_enter ∷ []
call_events false true = notifies_exit ∷ []
call_events false false = []

abbrev pub insn_events : ℕ → List Event
insn_events opcode =
    if opcode == monitorenter
    then locks ∷ []
    else if opcode == monitorexit
    then unlocks ∷ []
    else []

-- Each monitor instruction is announced just before it.
unfoldable pub announced : List Event → List Event
announced [] = []
announced (locks ∷ es) = notifies_enter ∷ locks ∷ announced es
announced (unlocks ∷ es) = notifies_exit ∷ unlocks ∷ announced es
announced (e ∷ es) = e ∷ announced es

-- A body without the handler's calls.
unfoldable pub erase : Text → List Insn → List Insn
erase handler [] = []
erase handler (method_insn c ∷ is) =
    let rest = erase handler is in
    if calls handler enter_name c || calls handler exit_name c then rest else method_insn c ∷ rest
erase handler (insn opcode ∷ is) = insn opcode ∷ erase handler is
erase handler (other v ∷ is) = other v ∷ erase handler is

pub text_eq_self : (s : Text) → text_eq s s ≡ true
text_eq_self s = (text_eq_iff s s).1 refl

enter_ne_exit : text_eq enter_name exit_name ≡ false
unfolding codes text_eq
enter_ne_exit = refl

pub exit_ne_enter : text_eq exit_name enter_name ≡ false
unfolding codes text_eq
exit_ne_enter = refl

module _ (handler : Text) where
  pub announced-insn_events :
      (opcode : ℕ) (es : List Event)
      → announced (insn_events opcode ++ es) ≡ announced (insn_events opcode) ++ announced es
  unfolding announced
  announced-insn_events opcode es = elim (Bool-cases (opcode == monitorenter)) [
    | inl e ↦ rw e refl
    | inr e ↦ elim (Bool-cases (opcode == monitorexit)) [
      | inl k ↦ rw (e, k) refl
      | inr k ↦ rw (e, k) refl
    ]
  ]

  pub announced-call_events :
      (b c : Bool) (es : List Event)
      → announced (call_events b c ++ es) ≡ call_events b c ++ announced es
  unfolding announced
  announced-call_events true c es = refl
  announced-call_events false true es = refl
  announced-call_events false false es = refl

  erase-visit_insn :
      (opcode : ℕ) (is : List Insn)
      → erase handler (visit_insn handler opcode ++ is) ≡ insn opcode ∷ erase handler is
  unfolding erase visit_insn
  erase-visit_insn opcode is = elim (Bool-cases (opcode == monitorenter)) [
    | inl e ↦
        let other_one : (opcode == monitorexit) ≡ false = ground arith in
        rw
          (
            e,
            other_one,
            text_eq_self handler,
            text_eq_self enter_name,
            text_eq_self handler_descriptor,
          )
          refl
    | inr e ↦ elim (Bool-cases (opcode == monitorexit)) [
      | inl k ↦
          rw
            (
              e,
              k,
              text_eq_self handler,
              exit_ne_enter,
              text_eq_self exit_name,
              text_eq_self handler_descriptor,
            )
            refl
      | inr k ↦ rw (e, k) refl
    ]
  ]

  -- If the calls of the handler are taken out of an instrumented body, what is left is the body
  -- itself, less the calls of the handler that it had.
  pub erase-instrument_body :
      (body : List Insn) → erase handler (instrument_body handler body) ≡ erase handler body
  unfolding erase instrument_body
  erase-instrument_body [] = refl
  erase-instrument_body (insn opcode ∷ is) =
      erase-visit_insn opcode (instrument_body handler is)
      ∙ ap (λ is'. insn opcode ∷ is') (erase-instrument_body is)
  erase-instrument_body (method_insn c ∷ is) = rw (erase-instrument_body is) refl
  erase-instrument_body (other v ∷ is) = ap (λ is'. other v ∷ is') (erase-instrument_body is)
