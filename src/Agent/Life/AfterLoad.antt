-- ===== src/Agent/Life/AfterLoad.antt =====
-- What the callbacks do after `Agent_OnLoad` has returned, in any run of the JVM.
use mathlib.Core.Path.{subst}
use native.Mathlib.Nat.{zero-add}
use phasic_j.Base.{
  ℕ, ◌+◌, ◌<◌, ◌^◌, ◌≡◌, ◌≢◌, ◌∙◌, true, false, Text, Option, none, some, length, is_utf8,
  if◌then◌else◌, Bool-cases, inl, inr,
}
use phasic_j.Agent.{options_of, agent_on_load}
use phasic_j.Agent.Life.{Reach, IsAlive, Reach-IsAlive}
use phasic_j.Agent.Load.{startup, initialised, path, loaded, agent_on_load-loaded}
use phasic_j.Conf.{PjAgentConf, new_from_agent_options_list_str}
use phasic_j.Host.{Host, JniTable}
use phasic_j.Jvm.Ends.{Ends}
use phasic_j.Jvm.EnvStorage as EnvStorage
use phasic_j.Jvm.EnvStorage.Init.{Initialised}
use phasic_j.Jvm.EnvStorage.Free.{freed, free-stored, of-free}
use phasic_j.Jvm.EnvStorage.Kept.{Undisturbed, IsStored-Contains}
use phasic_j.Jvm.EnvStorage.Stored.{IsStored}
use phasic_j.Jvm.Events.{
  Jint, starts_with, runtime_prefix, unchanged, instrument_class, pj_vm_death,
  pj_class_file_load_hook,
}
use phasic_j.Jvm.Events.Hook.{hook-runtime_class, hook-instrument_class}
use phasic_j.Jvm.Events.Memory.{IsSlice, Writes, hook-defined}
use phasic_j.Jvm.Harmless.{AreHarmless}
use phasic_j.Jvm.Jvmti.{JvmtiTable}
use phasic_j.Jvm.Jvmti.Calls as Jvmti
use phasic_j.Jvm.Jvmti.Lawful.{IsStorage, IsConfigurable}
use phasic_j.Jvm.RawEnvStorage.{Ptr, null}
use phasic_j.Jvm.Setup.{has_nul}
use phasic_j.Jvm.Setup.Steps.{CanHook, enabled_world, enabled_world-IsStored}
use phasic_j.Jvm.World.{World}
use phasic_j.Panic.{undefined, ok, done}
use phasic_j.Recorder.{Recorder, monitor_enter}
use phasic_j.Recorder.Steps.{IsStarted, enter-IsStarted}
use phasic_j.RtJar.{write_rt_jar_file_if_missing}
use phasic_j.RtJar.Keeps.{write_rt_jar_file_if_missing-Ends}

-- What the hook does on a class whose name is a text, where the configuration is stored.
module _ {X : Type 0} (host : Host X) {env : JvmtiTable X} (S : IsStorage env) (w : World X)
    {conf : PjAgentConf} (stored : IsStored S w conf) where
  hook_lem :
      (name : Text) (len : Jint) (class : Text)
      → is_utf8 name ≡ true
      → pj_class_file_load_hook host env (some name) len class w ≡ (
          if starts_with name runtime_prefix
          then done unchanged w
          else instrument_class host env conf name len class w)
  hook_lem name len class u = elim (Bool-cases (starts_with name runtime_prefix)) [
    | inl e ↦ hook-runtime_class host S w stored name len class u e ∙ rw e
    | inr e ↦ hook-instrument_class host S w stored name class u e len ∙ rw e
  ]

-- An agent that works, at a moment of the JVM's life.
pub record Works {X : Type 0} (env : JvmtiTable X) (host : Host X) (conf : PjAgentConf)
    (w : World X) (i total : ℕ) (name : Text) (len : Jint) (class : Text) : Type 0 where
  -- A class is left alone or instrumented, as its name says.
  pub hook : pj_class_file_load_hook host env (some name) len class w ≡ (
      if starts_with name runtime_prefix
      then done unchanged w
      else instrument_class host env conf name len class w)
  -- It reads and writes only memory that it may.
  pub defined : pj_class_file_load_hook host env (some name) len class w ≢ undefined
  -- An event is recorded.
  pub recorder : Recorder
  pub enter : monitor_enter w.recorder ≡ done tt recorder
  pub counted : IsStarted recorder i (total + 1)
  -- The end of the JVM empties the storage.
  pub after_death : World X
  pub death : pj_vm_death env w ≡ done tt after_death
  pub emptied : EnvStorage.of env after_death ≡ done none after_death

module _ {X : Type 0} {env : JvmtiTable X} (S : IsStorage env) (host : Host X) where
  -- An agent that is alive works, for every class whose name is UTF-8.
  pub IsAlive-Works :
      {jni : JniTable X} {conf : PjAgentConf} {i total : ℕ} (w : World X) (name : Text) (len : Jint)
      (class : Text)
      → is_utf8 name ≡ true
      → IsSlice len class
      → Writes host.processes
      → IsAlive S host jni conf i w total
      → Works env host conf w i total name len class
  unfolding pj_vm_death
  IsAlive-Works {i} {total} w name len class utf slice writes h =
      let (r, enters, s) = enter-IsStarted w.recorder i total h.started in
      record {
        hook = hook_lem host S w h.stored name len class utf;
        defined = hook-defined host S writes name len class w h.stored slice;
        recorder = r;
        enter = enters;
        counted = s;
        after_death = freed S w h.stored.struct.phasicj_exec_ptr;
        death = free-stored S w h.stored;
        emptied = of-free S w h.stored;
      }

module _ {X : Type 0} (host : Host X) (options : Option Text) (w : World X)
    (u : is_utf8 (options_of options) ≡ true) {conf : PjAgentConf}
    (read : new_from_agent_options_list_str (options_of options) ≡ ok conf)
    (begun : startup host conf w ≡ done tt w) (short : length (options_of options) < 2 ^ 63)
    {p : Ptr} {w₀ : World X} (got : Jvmti.get_env host.get_env host.jvmti_version_11 w ≡ done p w₀)
    (J : IsConfigurable (host.env_at p)) (empty : J.storage.slot w₀.host ≡ null) where
  abbrev made : Initialised J.storage w₀ conf
  made = initialised host options w u read begun short got J empty

  abbrev jar_file : Text
  jar_file = path host options w u read begun short got J empty

  -- The world behind `Agent_OnLoad`, from the world behind the jar.
  abbrev pub end : World X → World X
  end w' = loaded host options w u read begun short got J empty w'

  module _ {jni : JniTable X} (H : AreHarmless J.storage host.files host.processes jni) where
    -- If the options are UTF-8, shorter than 2^63 bytes, and accepted, the startup log succeeds
    -- where it is asked for, the JVM gives an environment that behaves as documented, has both
    -- class hooks and an empty storage, the jar is written, to a path that is a C string, the
    -- recorder is not poisoned, a thread can be made, files, processes and JNI functions leave the
    -- agent's memory alone, and the program never reports success without output: Agent_OnLoad
    -- returns 0, and after any run of callbacks from there, with events and forwarding threads
    -- between and during them, the class hook, for a UTF-8 name and bytes that the JVM has given,
    -- is not undefined, leaves the class alone if its name begins with the runtime's prefix and
    -- else instruments it by the configuration that was read; monitorEnter returns and records one
    -- event more; and pj_vm_death returns with an empty storage.
    pub agent_on_load-Works :
        {w' t : World X} {k : ℕ} (name : Text) (len : Jint) (class : Text)
        → CanHook (J.potential made.next.host)
        → write_rt_jar_file_if_missing host.files host.rt_jar jar_file
            (enabled_world J host w₀ made)
          ≡ done (some tt) w'
        → is_utf8 jar_file ≡ true
        → has_nul jar_file ≡ false
        → w'.recorder.poisoned ≡ false
        → host.can_spawn ≡ true
        → Reach J.storage host jni (end w') t k
        → is_utf8 name ≡ true
        → IsSlice len class
        → Writes host.processes
        → (agent_on_load host options w ≡ done 0 (end w'))
          × Works (host.env_at p) host conf t (length w'.recorder.channels) k name len class
    agent_on_load-Works {w'} {t} {k} name len class can jar utf nul sound spawns run named slice
          writes =
        let E = enabled_world J host w₀ made in
        let (returns, started) =
          agent_on_load-loaded host options w u read begun short got J empty can jar utf nul sound
            spawns in
        let wrote : Undisturbed J.storage E w' =
          subst (Ends (Undisturbed J.storage E)) jar
            (write_rt_jar_file_if_missing-Ends J.storage host H E host.rt_jar jar_file) in
        let alive : IsAlive J.storage host jni conf (length w'.recorder.channels) (end w') 0 =
          record {
            stored =
                IsStored-Contains J.storage E (end w') (J.slot-with_segment _ _ ∙ wrote.slot)
                  wrote.keeps (enabled_world-IsStored J host w₀ made);
            started = started;
          } in
        (
          returns,
          IsAlive-Works J.storage host t name len class named slice writes (
              subst (λ n. IsAlive J.storage host jni conf (length w'.recorder.channels) t n)
                (zero-add k) (Reach-IsAlive J.storage host jni H run alive)),
        )
