-- ===== src/Agent/Life.antt =====
-- The life of a JVM between `Agent_OnLoad` and its death: the callbacks of agent/jvm/events.rs and
-- the events of agent/jvm/entrypoints.rs, in any order.
pub mod AfterLoad
pub mod Nested
pub mod Observed
use mathlib.Core.Path.{subst}
use native.Mathlib.Nat.{add-zero, add_assoc}
use phasic_j.Base.{ℕ, ◌+◌, ◌≡◌, refl, ◌∙◌, sym, ap, Text, Option}
use phasic_j.Conf.{PjAgentConf}
use phasic_j.Host.{Host, JniTable}
use phasic_j.Jvm.Ends.{Ends}
use phasic_j.Jvm.EnvStorage.Kept.{
  Undisturbed, Undisturbed-refl, Undisturbed-trans, IsStored-Contains,
}
use phasic_j.Jvm.EnvStorage.Stored.{IsStored}
use phasic_j.Jvm.Events.{Jint, NewClass, pj_vm_start, pj_vm_init, pj_class_file_load_hook}
use phasic_j.Jvm.Events.Keeps.{hook-Ends}
use phasic_j.Jvm.Events.Start.{pj_vm_start-Ends}
use phasic_j.Jvm.Harmless.{AreHarmless}
use phasic_j.Jvm.Jvmti.{JvmtiTable}
use phasic_j.Jvm.Jvmti.Lawful.{IsStorage}
use phasic_j.Jvm.World.{World}
use phasic_j.Panic.{done}
use phasic_j.Recorder.{Recorder}
use phasic_j.Recorder.Steps as Recording
use phasic_j.Recorder.Steps.{IsStarted, Reach-IsStarted}

module _ {X : Type 0} {env : JvmtiTable X} (S : IsStorage env) (host : Host X)
    (jni : JniTable X) where
  -- The steps, with the number of events that are sent while they last: a callback that returns,
  -- and whatever else the JVM does to its own memory and to the host. All the while the threads of
  -- the application and the forwarding threads run on: they make a run of the recorder.
  pub data Step (w : World X) : World X → ℕ → Type 0 where
    class_file_load_hook :
        (name : Option Text) (len : Jint) (class : Text) (r : NewClass) {t : World X} {k : ℕ}
        → pj_class_file_load_hook host env name len class w ≡ done r t
        → Recording.Reach w.recorder t.recorder k
        → Step w t k
    vm_start :
        {t : World X} {k : ℕ}
        → pj_vm_start jni w ≡ done tt t
        → Recording.Reach w.recorder t.recorder k
        → Step w t k
    vm_init :
        {t : World X} {k : ℕ}
        → pj_vm_init w ≡ done tt t
        → Recording.Reach w.recorder t.recorder k
        → Step w t k
    elsewhere :
        {t : World X} {k : ℕ}
        → Undisturbed S w t
        → Recording.Reach w.recorder t.recorder k
        → Step w t k

  -- A run, with the number of events in it.
  pub data Reach (w : World X) : World X → ℕ → Type 0 where
    here : {k : ℕ} → k ≡ 0 → Reach w w k
    next : {t u : World X} {k j n : ℕ} → Reach w t k → Step t u j → n ≡ k + j → Reach w u n

  -- The agent works: its configuration is stored, and its recorder is started.
  pub record IsAlive (conf : PjAgentConf) (i : ℕ) (w : World X) (total : ℕ) : Type 0 where
    pub stored : IsStored S w conf
    pub started : IsStarted w.recorder i total

  Undisturbed-IsAlive :
      {conf : PjAgentConf} {i total k : ℕ} {w t : World X}
      → Undisturbed S w t
      → Recording.Reach w.recorder t.recorder k
      → IsAlive conf i w total
      → IsAlive conf i t (total + k)
  Undisturbed-IsAlive {w} {t} u run h = record {
    stored = IsStored-Contains S w t u.slot u.keeps h.stored;
    started = Reach-IsStarted run h.started;
  }

  module _ (H : AreHarmless S host.files host.processes jni) where
    Step-Undisturbed : {k : ℕ} {w t : World X} → Step w t k → Undisturbed S w t
    Step-Undisturbed {w} (class_file_load_hook name len class r e run) =
        subst (Ends (Undisturbed S w)) e (hook-Ends S host H w name len class)
    Step-Undisturbed {w} (vm_start e run) =
        subst (Ends (Undisturbed S w)) e (pj_vm_start-Ends S host H w)
    Step-Undisturbed {w} (vm_init e run) = subst (Ends (Undisturbed S w)) e (Undisturbed-refl S w)
    Step-Undisturbed (elsewhere u run) = u

    pub Reach-Undisturbed : {w t : World X} {k : ℕ} → Reach w t k → Undisturbed S w t
    Reach-Undisturbed {w} (here zero) = Undisturbed-refl S w
    Reach-Undisturbed (next before step e) =
        Undisturbed-trans S (Reach-Undisturbed before) (Step-Undisturbed step)

    Step-recorder : {k : ℕ} {w t : World X} → Step w t k → Recording.Reach w.recorder t.recorder k
    Step-recorder (class_file_load_hook name len class r e run) = run
    Step-recorder (vm_start e run) = run
    Step-recorder (vm_init e run) = run
    Step-recorder (elsewhere u run) = run

    Step-IsAlive :
        {conf : PjAgentConf} {i total k : ℕ} {w t : World X}
        → Step w t k
        → IsAlive conf i w total
        → IsAlive conf i t (total + k)
    Step-IsAlive step h = Undisturbed-IsAlive (Step-Undisturbed step) (Step-recorder step) h

    -- If files, processes and JNI functions leave the agent's memory alone, every run of callbacks
    -- that return and other steps of the JVM, with events and forwarding threads between and during
    -- them, keeps the configuration stored and the recorder started, and counts exactly the events
    -- of the run.
    pub Reach-IsAlive :
        {conf : PjAgentConf} {i total : ℕ} {w t : World X} {k : ℕ}
        → Reach w t k
        → IsAlive conf i w total
        → IsAlive conf i t (total + k)
    Reach-IsAlive {total} (here zero) h = rw (zero, add-zero) h
    Reach-IsAlive {total} (next {k} {j} before step e) h =
        rw (e, ← add_assoc) (Step-IsAlive step (Reach-IsAlive before h))
