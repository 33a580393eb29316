-- ===== src/Java/Runtime.antt =====
-- agent/rt/JavaLangObjectAmendment.java and ApplicationEvents.java: what the calls in an instrumented
-- class do.
pub mod Counted
pub mod Sends
pub mod Threads
use phasic_j.Base.{
  refl, ◌≡◌, ◌==◌, ◌&&◌, codes, text_eq, ℕ, Bool, true, false, List, [], ◌∷◌, ◌+◌, ◌%◌, ◌^◌,
  if◌then◌else◌,
}
use phasic_j.Java.Instrument.Trace.{Event, locks, unlocks, notifies_enter, notifies_exit}
use phasic_j.Java.Classes.{Call, invokestatic}
use phasic_j.Java.Instrument.{object_class, enter_name, exit_name, handler_call}
use phasic_j.Panic.{Run, done, panicked, undefined, missing_function}
use phasic_j.Recorder.{Recorder, monitor_enter, monitor_exit}

-- The static fields of both classes, and the recorder behind the native methods. A counter is an
-- `AtomicInteger`, whose 32 bits are read as a natural number.
pub record AgentRt : Type 0 where
  pub instrumentation_is_enabled : Bool
  pub monitor_enter_counter : ℕ
  pub monitor_exit_counter : ℕ
  pub recorder : Recorder

abbrev pub increment_and_get : ℕ → ℕ
increment_and_get n = (n + 1) % 2 ^ 32

-- A native method.
abbrev pub native : Run Recorder (Unit {0}) → AgentRt → Run AgentRt (Unit {0})
native (done a r) s = done tt (record s { recorder = r })
native (panicked p r) s = panicked p (record s { recorder = r })
native undefined s = undefined

-- `ApplicationEvents.phasicj$agent$rt$monitorEnter` and `phasicj$agent$rt$monitorExit`
unfoldable pub application_monitor_enter : AgentRt → Run AgentRt (Unit {0})
application_monitor_enter s =
    native (monitor_enter s.recorder)
      (record s { monitor_enter_counter = increment_and_get s.monitor_enter_counter })

unfoldable pub application_monitor_exit : AgentRt → Run AgentRt (Unit {0})
application_monitor_exit s =
    native (monitor_exit s.recorder)
      (record s { monitor_exit_counter = increment_and_get s.monitor_exit_counter })

-- The methods that are added to `java.lang.Object`.
unfoldable pub enable_object_instrumentation : AgentRt → AgentRt
enable_object_instrumentation s = record s { instrumentation_is_enabled = true }

unfoldable pub object_monitor_enter : AgentRt → Run AgentRt (Unit {0})
object_monitor_enter s =
    if s.instrumentation_is_enabled then application_monitor_enter s else done tt s

unfoldable pub object_monitor_exit : AgentRt → Run AgentRt (Unit {0})
object_monitor_exit s =
    if s.instrumentation_is_enabled then application_monitor_exit s else done tt s

abbrev pub go_on :
    Run AgentRt (Unit {0}) → (AgentRt → Run AgentRt (Unit {0})) → Run AgentRt (Unit {0})
go_on (done a s) k = k s
go_on (panicked p s) k = panicked p s
go_on undefined k = undefined

-- `invokestatic`, at the methods that an amended `java.lang.Object` has: both are static methods of a
-- class, with no arguments and no result. No other call of the handler resolves.
unfoldable pub invoke_static : Call → AgentRt → Run AgentRt (Unit {0})
invoke_static c s =
    if c.is_interface
    then panicked missing_function s
    else if c.opcode == invokestatic
        && text_eq c.owner (codes "java/lang/Object")
        && text_eq c.descriptor (codes "()V")
    then (if text_eq c.name (codes "phasicj$agent$rt$monitorEnter")
        then object_monitor_enter s
        else if text_eq c.name (codes "phasicj$agent$rt$monitorExit")
        then object_monitor_exit s
        else panicked missing_function s)
    else panicked missing_function s

-- What one event of an instrumented body does: a notification is the call that is emitted for it.
unfoldable pub happens : Event → AgentRt → Run AgentRt (Unit {0})
happens locks s = done tt s
happens unlocks s = done tt s
happens notifies_enter s = invoke_static (handler_call object_class enter_name) s
happens notifies_exit s = invoke_static (handler_call object_class exit_name) s

pub happens-enter : (s : AgentRt) → happens notifies_enter s ≡ object_monitor_enter s
unfolding happens invoke_static codes text_eq
happens-enter s = refl

pub happens-exit : (s : AgentRt) → happens notifies_exit s ≡ object_monitor_exit s
unfolding happens invoke_static codes text_eq
happens-exit s = refl

unfoldable pub execute : List Event → AgentRt → Run AgentRt (Unit {0})
execute [] s = done tt s
execute (e ∷ es) s = go_on (happens e s) (execute es)
