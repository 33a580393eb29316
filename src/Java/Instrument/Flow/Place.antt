-- ===== src/Java/Instrument/Flow/Place.antt =====
-- The places of a body, and those of the instrumented body that fit them.
use mathlib.Core.List.{head-eq_of_cons-eq, tail-eq_of_cons-eq}
use phasic_j.Base.{
  ℕ, ◌≡◌, ◌⊎◌, ◌∙◌, refl, sym, ap, Bool, true, false, Text, List, [], ◌∷◌, ◌++◌, inl, inr,
}
use phasic_j.Java.Classes.{Insn, insn, method_insn, other}
use phasic_j.Java.Instrument.{enter_name, exit_name, instrument_body}
use phasic_j.Java.Instrument.Trace.{calls, Event, insn_events, announced}
use phasic_j.Java.Instrument.Flow.{
  IsPending, call_events-IsPending, events_of, is_announcement, announced-call, visited, plain,
  called,
}

module _ (handler : Text) where
  -- A place in a body and the place in the instrumented body that fits it; `pre` is what has been
  -- announced of the next instruction.
  pub data At : List Insn → List Insn → List Event → Type 0 where
    start :
        {place place' : List Insn} {pre : List Event}
        → place' ≡ instrument_body handler place
        → pre ≡ []
        → At place place' pre
    behind_call :
        {place place' : List Insn} {pre : List Event} (opcode : ℕ) (is : List Insn)
        → place ≡ insn opcode ∷ is
        → place' ≡ insn opcode ∷ instrument_body handler is
        → announced (insn_events opcode) ≡ pre ++ insn_events opcode
        → IsPending false pre
        → At place place' pre

  -- What the next instruction of the instrumented body is: a call that announces an instruction, or
  -- an instruction of the body.
  pub record Announces (place : List Insn) (i : Insn) (is : List Insn) (pre : List Event)
      : Type 0 where
    pub is_call : is_announcement handler i ≡ true
    pub nothing : pre ≡ []
    pub behind : At place is (events_of handler i)

  pub record Real (place : List Insn) (i : Insn) (is : List Insn) (pre : List Event) : Type 0 where
    pub rest : List Insn
    pub same : place ≡ i ∷ rest
    pub aligned : is ≡ instrument_body handler rest
    pub event : announced (events_of handler i) ≡ pre ++ events_of handler i

  from_start :
      (place : List Insn) (i : Insn) (is : List Insn)
      → i ∷ is ≡ instrument_body handler place
      → Announces place i is [] ⊎ Real place i is []
  unfolding instrument_body announced
  from_start [] i is e = cc
  from_start (insn opcode ∷ js) i is e = elim (visited handler opcode) [
    | plain v quiet ↦
        let e' : i ∷ is ≡ insn opcode ∷ instrument_body handler js = rw v at e in
        let same = head-eq_of_cons-eq e' in
        inr (record {
          rest = js;
          same = ap (λ j. j ∷ js) (sym same);
          aligned = tail-eq_of_cons-eq e';
          event = rw same quiet;
        })
    | called c v call before ↦
        let e' : i ∷ is ≡ method_insn c ∷ insn opcode ∷ instrument_body handler js = rw v at e in
        let same = head-eq_of_cons-eq e' in
        inl (record {
          is_call = rw same call;
          nothing = refl;
          behind =
              behind_call opcode js refl (tail-eq_of_cons-eq e')
                (before ∙ ap (λ j. events_of handler j ++ insn_events opcode) (sym same))
                (rw same
                  (call_events-IsPending (calls handler enter_name c) (calls handler exit_name c)));
        })
  ]
  from_start (method_insn c ∷ js) i is e =
      let same = head-eq_of_cons-eq e in
      inr (record {
        rest = js;
        same = ap (λ j. j ∷ js) (sym same);
        aligned = tail-eq_of_cons-eq e;
        event = rw same (announced-call handler c);
      })
  from_start (other v ∷ js) i is e =
      let same = head-eq_of_cons-eq e in
      inr (record {
        rest = js;
        same = ap (λ j. j ∷ js) (sym same);
        aligned = tail-eq_of_cons-eq e;
        event = rw same refl;
      })

  pub next-At :
      {place place' : List Insn} {pre : List Event} (i : Insn) (is : List Insn)
      → place' ≡ i ∷ is
      → At place place' pre
      → Announces place i is pre ⊎ Real place i is pre
  next-At {place} i is e (start aligned none_yet) =
      rw none_yet (from_start place i is (sym e ∙ aligned))
  next-At i is e (behind_call opcode js same aligned before pending) =
      let e' : i ∷ is ≡ insn opcode ∷ instrument_body handler js = sym e ∙ aligned in
      let head = head-eq_of_cons-eq e' in
      inr (record {
        rest = js;
        same = same ∙ ap (λ j. j ∷ js) (sym head);
        aligned = tail-eq_of_cons-eq e';
        event = rw head before;
      })

  -- A label of the instrumented body is one of the body.
  pub record Label (body : List Insn) (label : Text) (target : List Insn) : Type 0 where
    pub before : List Insn
    pub rest : List Insn
    pub found : body ≡ before ++ (other label ∷ rest)
    pub aligned : target ≡ instrument_body handler rest

  abbrev is_label : Insn → Bool
  is_label (other v) = true
  is_label _ = false

  -- Behind an instruction that is no label.
  peel :
      (i : Insn) (is before : List Insn) (label : Text) (target : List Insn)
      → is_label i ≡ false
      → i ∷ is ≡ before ++ (other label ∷ target)
      → (more : List Insn) × (is ≡ more ++ (other label ∷ target))
  peel i is [] label target not_label e = let labels = ap is_label (head-eq_of_cons-eq e) in cc
  peel i is (b ∷ bs) label target not_label e = (bs, tail-eq_of_cons-eq e)

  pub instrument_body-Label :
      (body before : List Insn) (label : Text) (target : List Insn)
      → instrument_body handler body ≡ before ++ (other label ∷ target)
      → Label body label target
  unfolding instrument_body
  instrument_body-Label [] [] label target e = cc
  instrument_body-Label [] (b ∷ bs) label target e = cc
  instrument_body-Label (insn opcode ∷ is) before label target e =
      let more : (bs : List Insn) × (instrument_body handler is ≡ bs ++ (other label ∷ target)) =
        elim (visited handler opcode) [
          | plain v quiet ↦
              peel (insn opcode) (instrument_body handler is) before label target refl (rw v at e)
          | called c v call announces ↦
              let (bs, f) =
                peel (method_insn c) (insn opcode ∷ instrument_body handler is) before label target
                  refl (rw v at e) in
              peel (insn opcode) (instrument_body handler is) bs label target refl f
        ] in
      let l = instrument_body-Label is more.0 label target more.1 in
      record {
        before = insn opcode ∷ l.before;
        rest = l.rest;
        found = ap (λ js. insn opcode ∷ js) l.found;
        aligned = l.aligned;
      }
  instrument_body-Label (method_insn c ∷ is) before label target e =
      let more = peel (method_insn c) (instrument_body handler is) before label target refl e in
      let l = instrument_body-Label is more.0 label target more.1 in
      record {
        before = method_insn c ∷ l.before;
        rest = l.rest;
        found = ap (λ js. method_insn c ∷ js) l.found;
        aligned = l.aligned;
      }
  instrument_body-Label (other v ∷ is) [] label target e = record {
    before = [];
    rest = is;
    found = ap (λ j. j ∷ is) (head-eq_of_cons-eq e);
    aligned = sym (tail-eq_of_cons-eq e);
  }
  instrument_body-Label (other v ∷ is) (b ∷ bs) label target e =
      let l = instrument_body-Label is bs label target (tail-eq_of_cons-eq e) in
      record {
        before = other v ∷ l.before;
        rest = l.rest;
        found = ap (λ js. other v ∷ js) l.found;
        aligned = l.aligned;
      }
