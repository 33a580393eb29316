-- ===== src/Java/Runtime/Sends.antt =====
-- The events that a run of announced monitor instructions sends.
use mathlib.Core.Path.{subst}
use native.Mathlib.Nat.{add-zero, zero-add}
use phasic_j.Base.{
  ◌++◌, ℕ, ◌+◌, ◌%◌, ◌^◌, ◌≡◌, ◌∙◌, refl, arith, Bool, true, false, List, [], ◌∷◌, if◌then◌else◌,
}
use phasic_j.Java.Instrument.Flow.{IsPending}
use phasic_j.Java.Instrument.Flow.Quiet.{IsQuiet}
use phasic_j.Java.Instrument.Trace.{Event, locks, unlocks, notifies_enter, notifies_exit, announced}
use phasic_j.Java.Runtime.{
  AgentRt, object_monitor_enter, object_monitor_exit, application_monitor_enter,
  application_monitor_exit, increment_and_get, happens, happens-enter, happens-exit, execute,
}
use phasic_j.Panic.{done}
use phasic_j.Recorder.{Recorder, monitor_enter, monitor_exit}
use phasic_j.Recorder.Steps.{IsStarted, enter-IsStarted}

abbrev pub locks_in : List Event → ℕ
locks_in [] = 0
locks_in (locks ∷ es) = 1 + locks_in es
locks_in (e ∷ es) = locks_in es

abbrev pub unlocks_in : List Event → ℕ
unlocks_in [] = 0
unlocks_in (unlocks ∷ es) = 1 + unlocks_in es
unlocks_in (e ∷ es) = unlocks_in es

-- The calls of the handler among some events.
abbrev pub enters_in : List Event → ℕ
enters_in [] = 0
enters_in (notifies_enter ∷ es) = 1 + enters_in es
enters_in (e ∷ es) = enters_in es

abbrev pub exits_in : List Event → ℕ
exits_in [] = 0
exits_in (notifies_exit ∷ es) = 1 + exits_in es
exits_in (e ∷ es) = exits_in es

-- A run of a body that sends `enters` events to the recorder.
pub record Sends (es : List Event) (s : AgentRt) (i total enters exits : ℕ) : Type 0 where
  pub after : AgentRt
  pub returns : execute es s ≡ done tt after
  pub started : IsStarted after.recorder i (total + enters)
  pub enter_counter :
      after.monitor_enter_counter % 2 ^ 32 ≡ (s.monitor_enter_counter + enters) % 2 ^ 32
  pub exit_counter : after.monitor_exit_counter % 2 ^ 32 ≡ (s.monitor_exit_counter + exits) % 2 ^ 32

pub if_true : {A : Type 0} (b : Bool) (x y : A) → b ≡ true → (if b then x else y) ≡ x
if_true b x y e = rw e refl

pub if_false : {A : Type 0} (b : Bool) (x y : A) → b ≡ false → (if b then x else y) ≡ y
if_false b x y e = rw e refl

module _ (s : AgentRt) where
  enter_on :
      {r : Recorder}
      → s.instrumentation_is_enabled ≡ true
      → monitor_enter s.recorder ≡ done tt r
      → happens notifies_enter s
        ≡ done tt (record s {
          monitor_enter_counter = increment_and_get s.monitor_enter_counter;
          recorder = r;
        })
  unfolding object_monitor_enter application_monitor_enter
  enter_on on enters =
      happens-enter s ∙ if_true s.instrumentation_is_enabled _ _ on ∙ rw enters refl

  exit_on :
      s.instrumentation_is_enabled ≡ true
      → happens notifies_exit s
        ≡ done tt (record s { monitor_exit_counter = increment_and_get s.monitor_exit_counter })
  unfolding object_monitor_exit application_monitor_exit monitor_exit
  exit_on on = happens-exit s ∙ if_true s.instrumentation_is_enabled _ _ on

  enter_off : s.instrumentation_is_enabled ≡ false → happens notifies_enter s ≡ done tt s
  unfolding object_monitor_enter
  enter_off off = happens-enter s ∙ if_false s.instrumentation_is_enabled _ _ off

  exit_off : s.instrumentation_is_enabled ≡ false → happens notifies_exit s ≡ done tt s
  unfolding object_monitor_exit
  exit_off off = happens-exit s ∙ if_false s.instrumentation_is_enabled _ _ off

-- The call behind which a run stops.
pending-Sends :
    (es : List Event) (s : AgentRt) (i total : ℕ)
    → IsPending false es
    → s.instrumentation_is_enabled ≡ true
    → IsStarted s.recorder i total
    → Sends es s i total (enters_in es) (exits_in es)
unfolding execute happens
pending-Sends [] s i total pending on h = record {
  after = s;
  returns = refl;
  started = rw add-zero h;
  enter_counter = rw add-zero refl;
  exit_counter = rw add-zero refl;
}
pending-Sends (notifies_enter ∷ []) s i total pending on h =
    let (r, enters, h') = enter-IsStarted s.recorder i total h in
    record {
      after = record s {
        monitor_enter_counter = increment_and_get s.monitor_enter_counter;
        recorder = r;
      };
      returns = rw (enter_on s on enters) refl;
      started = h';
      enter_counter = omega arith;
      exit_counter = rw add-zero refl;
    }
pending-Sends (notifies_exit ∷ []) s i total pending on h = record {
  after = record s { monitor_exit_counter = increment_and_get s.monitor_exit_counter };
  returns = rw (exit_on s on) refl;
  started = rw add-zero h;
  enter_counter = rw add-zero refl;
  exit_counter = omega arith;
}
pending-Sends (notifies_enter ∷ e ∷ es) s i total pending on h = absurd pending
pending-Sends (notifies_exit ∷ e ∷ es) s i total pending on h = absurd pending
pending-Sends (locks ∷ es) s i total pending on h = absurd pending
pending-Sends (unlocks ∷ es) s i total pending on h = absurd pending

pub announced-Sends :
    (es more : List Event) (s : AgentRt) (i total : ℕ)
    → IsQuiet es
    → IsPending false more
    → s.instrumentation_is_enabled ≡ true
    → IsStarted s.recorder i total
    → Sends
        (announced es ++ more)
        s
        i
        total
        (locks_in es + enters_in more)
        (unlocks_in es + exits_in more)
unfolding announced execute happens
announced-Sends [] more s i total quiet pending on h =
    rw (zero-add (enters_in more), zero-add (exits_in more))
      (pending-Sends more s i total pending on h)
announced-Sends (locks ∷ es) more s i total quiet pending on h =
    let (r, enters, h') = enter-IsStarted s.recorder i total h in
    let s' : AgentRt = record s {
      monitor_enter_counter = increment_and_get s.monitor_enter_counter;
      recorder = r;
    } in
    let rest = announced-Sends es more s' i (total + 1) quiet pending on h' in
    record {
      after = rest.after;
      returns = rw (enter_on s on enters) rest.returns;
      started = subst (λ n. IsStarted rest.after.recorder i n) (omega arith) rest.started;
      enter_counter = omega (arith, rest.enter_counter);
      exit_counter = rest.exit_counter;
    }
announced-Sends (unlocks ∷ es) more s i total quiet pending on h =
    let s' : AgentRt = record s {
      monitor_exit_counter = increment_and_get s.monitor_exit_counter;
    } in
    let rest = announced-Sends es more s' i total quiet pending on h in
    record {
      after = rest.after;
      returns = rw (exit_on s on) rest.returns;
      started = rest.started;
      enter_counter = rest.enter_counter;
      exit_counter = omega (arith, rest.exit_counter);
    }
announced-Sends (notifies_enter ∷ es) more s i total quiet pending on h = absurd quiet
announced-Sends (notifies_exit ∷ es) more s i total quiet pending on h = absurd quiet

-- While the instrumentation is not enabled, no event is sent, and nothing changes.
pub execute-disabled :
    (es : List Event) (s : AgentRt)
    → s.instrumentation_is_enabled ≡ false
    → execute es s ≡ done tt s
unfolding execute happens
execute-disabled [] s off = refl
execute-disabled (locks ∷ es) s off = execute-disabled es s off
execute-disabled (unlocks ∷ es) s off = execute-disabled es s off
execute-disabled (notifies_enter ∷ es) s off = rw (enter_off s off) (execute-disabled es s off)
execute-disabled (notifies_exit ∷ es) s off = rw (exit_off s off) (execute-disabled es s off)
