-- ===== src/Java/Instrument/Flow/Quiet.antt =====
-- The runs of a body that has no call of the handler.
use phasic_j.Base.{Bool, ◌≡◌, false, Text, List, [], ◌∷◌, ◌++◌, ◌==◌, Bool-cases, inl, inr}
use phasic_j.Java.Classes.{monitorenter, monitorexit, Insn, insn, method_insn, other}
use phasic_j.Java.Instrument.{enter_name}
use phasic_j.Java.Instrument.Flow.{
  events_of, is_announcement, Runs, stops, ends, leaves, passes, jumps,
}
use phasic_j.Java.Instrument.Trace.{Event, locks, unlocks, notifies_enter, notifies_exit, calls}

-- No call of the handler is among some events.
abbrev pub IsQuiet : List Event → Type 0
IsQuiet [] = Unit
IsQuiet (locks ∷ es) = IsQuiet es
IsQuiet (unlocks ∷ es) = IsQuiet es
IsQuiet (notifies_enter ∷ es) = ⊥
IsQuiet (notifies_exit ∷ es) = ⊥

-- No instruction of a body is a call of the handler.
abbrev pub HasNoCalls : Text → List Insn → Type 0
HasNoCalls handler [] = Unit
HasNoCalls handler (i ∷ is) = (is_announcement handler i ≡ false) × HasNoCalls handler is

HasNoCalls-append :
    (handler : Text) (before is : List Insn)
    → HasNoCalls handler (before ++ is)
    → HasNoCalls handler is
HasNoCalls-append handler [] is h = h
HasNoCalls-append handler (i ∷ before) is h = HasNoCalls-append handler before is h.1

IsQuiet-append : (es fs : List Event) → IsQuiet es → IsQuiet fs → IsQuiet (es ++ fs)
IsQuiet-append [] fs h k = k
IsQuiet-append (locks ∷ es) fs h k = IsQuiet-append es fs h k
IsQuiet-append (unlocks ∷ es) fs h k = IsQuiet-append es fs h k
IsQuiet-append (notifies_enter ∷ es) fs h k = absurd h
IsQuiet-append (notifies_exit ∷ es) fs h k = absurd h

events_of-IsQuiet :
    (handler : Text) (i : Insn) → is_announcement handler i ≡ false → IsQuiet (events_of handler i)
events_of-IsQuiet handler (insn opcode) free = elim (Bool-cases (opcode == monitorenter)) [
  | inl e ↦ rw e tt
  | inr e ↦ elim (Bool-cases (opcode == monitorexit)) [
    | inl k ↦ rw (e, k) tt
    | inr k ↦ rw (e, k) tt
  ]
]
events_of-IsQuiet handler (method_insn c) free = elim (Bool-cases (calls handler enter_name c)) [
  | inl e ↦ cc (rw e at free)
  | inr e ↦ let exits = rw e at free in rw (e, exits) tt
]
events_of-IsQuiet handler (other v) free = tt

pub Runs-IsQuiet :
    {handler : Text} {has_left : Bool} {body place : List Insn} {es : List Event}
    → HasNoCalls handler body
    → Runs handler body has_left place es
    → HasNoCalls handler place
    → IsQuiet es
Runs-IsQuiet h (stops still none_left) k = rw none_left tt
Runs-IsQuiet h (ends finished none_left) k = rw none_left tt
Runs-IsQuiet {handler} h (leaves i is here free last) k = rw last (events_of-IsQuiet handler i free)
Runs-IsQuiet {handler} h (passes i is fs here split more) k =
    let (free, k') = rw here at k in
    rw split (
      IsQuiet-append (events_of handler i) fs (events_of-IsQuiet handler i free)
        (Runs-IsQuiet h more k'))
Runs-IsQuiet {handler} h (jumps i is before label target fs here free found split more) k =
    rw split (
      IsQuiet-append (events_of handler i) fs (events_of-IsQuiet handler i free) (
        Runs-IsQuiet h more
          (HasNoCalls-append handler before (other label ∷ target) (rw found at h))))
