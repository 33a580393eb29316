-- ===== src/Java/Runtime/Threads/Alone.antt =====
-- What the methods of the runtime do as a whole is what a thread does that is not interrupted.
use mathlib.Core.Path.{subst}
use phasic_j.Base.{◌∙◌, sym, ◌≡◌, refl, ap, Bool-cases, inl, inr, List, [], ◌∷◌}
use phasic_j.Java.Instrument.Trace.{Event, locks, unlocks, notifies_enter, notifies_exit}
use phasic_j.Java.Runtime.{
  increment_and_get, AgentRt, native, object_monitor_enter, object_monitor_exit,
  application_monitor_enter, application_monitor_exit, go_on, happens, happens-enter, happens-exit,
  execute,
}
use phasic_j.Java.Runtime.Sends.{if_true, if_false}
use phasic_j.Java.Runtime.Threads.{
  Point, between, lock, unlock, pass_enter, pass_exit, call_enter, call_exit, count_enter,
  count_exit, native_enter, native_exit, this, acts, Interleaved, start, onward,
}
use phasic_j.Panic.{Run, done, panicked, undefined}
use phasic_j.Recorder.{Recorder, monitor_enter, monitor_exit}

-- The state that a run leaves.
abbrev state_of : Run AgentRt (Unit {0}) → AgentRt → AgentRt
state_of (done a s) s₀ = s
state_of (panicked p s) s₀ = s
state_of undefined s₀ = s₀

native_lem :
    (x : Run Recorder (Unit {0})) (s : AgentRt) {t : AgentRt}
    → native x s ≡ done tt t
    → (r : Recorder) × (x ≡ done tt r) × (record s { recorder = r } ≡ t)
native_lem (done tt r) s e = (r, refl, ap (λ x. state_of x s) e)
native_lem (panicked p r) s e = cc
native_lem undefined s e = cc

module _ (es : List Event) (ps : List Point) (s : AgentRt) {t : AgentRt} where
  enter-Interleaved :
      object_monitor_enter s ≡ done tt t
      → Interleaved s (between (notifies_enter ∷ es) ∷ ps) t (between es ∷ ps)
  unfolding object_monitor_enter application_monitor_enter
  enter-Interleaved e = elim (Bool-cases s.instrumentation_is_enabled) [
    | inl on ↦
        let counted : AgentRt = record s {
          monitor_enter_counter = increment_and_get s.monitor_enter_counter;
        } in
        let (r, returns, same) =
          native_lem (monitor_enter s.recorder) counted
            (sym (if_true s.instrumentation_is_enabled _ _ on) ∙ e) in
        subst (λ t. Interleaved s (between (notifies_enter ∷ es) ∷ ps) t (between es ∷ ps)) same
          (onward (onward (onward start (acts (this (call_enter on)))) (acts (this count_enter)))
            (acts (this (native_enter returns))))
    | inr off ↦
        subst (λ t. Interleaved s (between (notifies_enter ∷ es) ∷ ps) t (between es ∷ ps))
          (ap (λ x. state_of x s) (sym (if_false s.instrumentation_is_enabled _ _ off) ∙ e))
          (onward start (acts (this (pass_enter off))))
  ]

  exit-Interleaved :
      object_monitor_exit s ≡ done tt t
      → Interleaved s (between (notifies_exit ∷ es) ∷ ps) t (between es ∷ ps)
  unfolding object_monitor_exit application_monitor_exit
  exit-Interleaved e = elim (Bool-cases s.instrumentation_is_enabled) [
    | inl on ↦
        let counted : AgentRt = record s {
          monitor_exit_counter = increment_and_get s.monitor_exit_counter;
        } in
        let (r, returns, same) =
          native_lem (monitor_exit s.recorder) counted
            (sym (if_true s.instrumentation_is_enabled _ _ on) ∙ e) in
        subst (λ t. Interleaved s (between (notifies_exit ∷ es) ∷ ps) t (between es ∷ ps)) same
          (onward (onward (onward start (acts (this (call_exit on)))) (acts (this count_exit)))
            (acts (this (native_exit returns))))
    | inr off ↦
        subst (λ t. Interleaved s (between (notifies_exit ∷ es) ∷ ps) t (between es ∷ ps))
          (ap (λ x. state_of x s) (sym (if_false s.instrumentation_is_enabled _ _ off) ∙ e))
          (onward start (acts (this (pass_exit off))))
  ]

  happens-Interleaved :
      (e : Event)
      → happens e s ≡ done tt t
      → Interleaved s (between (e ∷ es) ∷ ps) t (between es ∷ ps)
  unfolding happens
  happens-Interleaved locks e =
      subst (λ t. Interleaved s (between (locks ∷ es) ∷ ps) t (between es ∷ ps))
        (ap (λ x. state_of x s) e) (onward start (acts (this lock)))
  happens-Interleaved unlocks e =
      subst (λ t. Interleaved s (between (unlocks ∷ es) ∷ ps) t (between es ∷ ps))
        (ap (λ x. state_of x s) e) (onward start (acts (this unlock)))
  happens-Interleaved notifies_enter e = enter-Interleaved (sym (happens-enter s) ∙ e)
  happens-Interleaved notifies_exit e = exit-Interleaved (sym (happens-exit s) ∙ e)

go_on_lem :
    (x : Run AgentRt (Unit {0})) (k : AgentRt → Run AgentRt (Unit {0})) {t : AgentRt}
    → go_on x k ≡ done tt t
    → (u : AgentRt) × (x ≡ done tt u) × (k u ≡ done tt t)
go_on_lem (done tt u) k e = (u, refl, e)
go_on_lem (panicked p u) k e = cc
go_on_lem undefined k e = cc

Interleaved-trans :
    {s : AgentRt} {ps : List Point} {t : AgentRt} {qs : List Point} {u : AgentRt} {rs : List Point}
    → Interleaved s ps t qs
    → Interleaved t qs u rs
    → Interleaved s ps u rs
Interleaved-trans before start = before
Interleaved-trans before (onward more turn) = onward (Interleaved-trans before more) turn

-- The first of some threads can have its events all in a row: where the whole run of them returns,
-- it is one of the interleavings.
execute-Interleaved :
    (es : List Event) (ps : List Point) (s : AgentRt) {t : AgentRt}
    → execute es s ≡ done tt t
    → Interleaved s (between es ∷ ps) t (between [] ∷ ps)
unfolding execute
execute-Interleaved [] ps s e =
    subst (λ t. Interleaved s (between [] ∷ ps) t (between [] ∷ ps)) (ap (λ x. state_of x s) e)
      start
execute-Interleaved (x ∷ es) ps s e =
    let (u, happened, rest) = go_on_lem (happens x s) (execute es) e in
    Interleaved-trans (happens-Interleaved es ps s x happened) (execute-Interleaved es ps u rest)
