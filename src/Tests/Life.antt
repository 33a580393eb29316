-- ===== src/Tests/Life.antt =====
-- The life of a small JVM behind Agent_OnLoad.
use mathlib.Core.Option.{some-injective}
use mathlib.Core.Path.{subst}
use phasic_j.Base.{
  ◌≡◌, ◌<◌, arith, refl, ap, true, false, Text, codes, Option, none, some, length, is_utf8,
  utf8_run, follow, lead,
}
use phasic_j.Agent.{agent_on_load}
use phasic_j.Agent.Life.{Reach, here, next, IsAlive, vm_init, elsewhere}
use phasic_j.Agent.Life.AfterLoad.{Works, agent_on_load-Works, end}
use phasic_j.FilePath.{push}
use phasic_j.Jvm.EnvStorage.Kept.{Undisturbed, Undisturbed-refl, IsStored-Contains}
use phasic_j.Jvm.Ends.{Meets}
use phasic_j.Jvm.Events.{unchanged, starts_with, nonneg, pj_class_file_load_hook}
use phasic_j.Jvm.Events.Hook.{hook-runtime_class}
use phasic_j.Jvm.Events.Memory.{Writes, IsGiven, hook-IsGiven}
use phasic_j.Jvm.Harmless.{AreHarmless}
use phasic_j.Jvm.RawEnvStorage.{Ptr}
use phasic_j.Jvm.Setup.{has_nul}
use phasic_j.Jvm.Setup.Steps.{enabled_world}
use phasic_j.Jvm.World.{World}
use phasic_j.Panic.{done}
use phasic_j.Recorder.{Recorder, initial, start_forwarding_worker_thread, monitor_enter}
use phasic_j.Recorder.Steps as Recording
use phasic_j.Recorder.Steps.{left_by, enter, start-IsStarted}
use phasic_j.RtJar.{rt_jar_default_temp_file_path, write_rt_jar_file_if_missing}
use phasic_j.Tests.Fixtures.{Machine, world, jvm, jvm_storage, jvm_configurable, write_to}
use phasic_j.Tests.Hook.{class}
use phasic_j.Tests.Jvm.{
  jar_host, jni, find, get, call, made, started, given_env, options_text-short,
  options_text-is_utf8, plain_conf, stored, stored_world,
}
use phasic_j.Tests.Options.{exec_conf, options_text, options_text-reads}

abbrev Calm : World Machine → World Machine → Type 0
Calm = Undisturbed (jvm_storage true)

-- A change of the host that leaves its slot alone.
pub host_change :
    (w : World Machine) (x : Machine) → x.slot ≡ w.host.slot → Calm w (record w { host = x })
host_change w x e = record { slot = e; keeps = λ q b at_q. at_q }

sends-Calm : (w : World Machine) (r : Recorder) → Calm w (record w { recorder = r })
sends-Calm w r = record { slot = refl; keeps = λ q b at_q. at_q }

write_to-Calm :
    (s : Text) (f : Option Text) (w : World Machine) → Calm w (write_to false s f w).world
write_to-Calm s none w = Undisturbed-refl (jvm_storage true) w
write_to-Calm s (some c) w = host_change w _ refl

find-Calm :
    (f : Text → World Machine → Ptr × World Machine) (name : Text) (w : World Machine)
    → some find ≡ some f
    → Calm w (f name w).1
find-Calm f name w e =
    subst (λ g. Calm w (g name w).1) (some-injective _ _ e) (Undisturbed-refl (jvm_storage true) w)

get-Calm :
    (f : Ptr → Text → Text → World Machine → Ptr × World Machine) (cls : Ptr) (name sig : Text)
    (w : World Machine)
    → some get ≡ some f
    → Calm w (f cls name sig w).1
get-Calm f cls name sig w e =
    subst (λ g. Calm w (g cls name sig w).1) (some-injective _ _ e)
      (Undisturbed-refl (jvm_storage true) w)

call-Calm :
    (f : Ptr → Ptr → World Machine → World Machine) (cls method : Ptr) (w : World Machine)
    → some call ≡ some f
    → Calm w (f cls method w)
call-Calm f cls method w e =
    subst (λ g. Calm w (g cls method w)) (some-injective _ _ e) (host_change w _ refl)

pub harmless : AreHarmless (jvm_storage true) jar_host.files jar_host.processes jni
harmless = record {
  create_dir_all = λ path w. Undisturbed-refl (jvm_storage true) w;
  create = λ path w. host_change w _ refl;
  write_all = λ fd s w. write_to-Calm s (w.host.files w.host.current) w;
  sync_all = λ fd w. Undisturbed-refl (jvm_storage true) w;
  spawn = λ file args w. Undisturbed-refl (jvm_storage true) w;
  write_stdin = λ child s w. host_change w _ refl;
  wait_with_output = λ child w. Undisturbed-refl (jvm_storage true) w;
  find_class = find-Calm;
  get_static_method_id = get-Calm;
  call_static_void_method = call-Calm;
}

-- The world behind Agent_OnLoad, on a host that has the jar.
abbrev enabled : World Machine
enabled = enabled_world (jvm_configurable true) jar_host world made

abbrev loaded_world : World Machine
loaded_world =
    end jar_host (some options_text) world options_text-is_utf8 options_text-reads started
      options_text-short given_env (jvm_configurable true) refl enabled

-- It starts its VM, and sends an event.
abbrev entered_world : World Machine
entered_world = record loaded_world {
  recorder = left_by (monitor_enter loaded_world.recorder) loaded_world.recorder;
}

run : Reach (jvm_storage true) jar_host jni loaded_world entered_world 1
run =
    next (next (here refl) (vm_init refl (Recording.here refl)) refl)
      (elsewhere (sends-Calm loaded_world _)
        (Recording.next (Recording.here refl) (enter refl) refl))
      refl

-- The program that puts a byte in front of what it is given always writes something.
pub class-Writes : Writes jar_host.processes
class-Writes child w out e ok =
    subst (λ o. 0 < length o.stdout) (some-injective _ _ e) (omega arith)

agent_on_load-Works_example :
    (agent_on_load jar_host (some options_text) world ≡ done 0 loaded_world)
    × Works
        (jvm true)
        jar_host
        exec_conf
        entered_world
        (length enabled.recorder.channels)
        1
        (codes "a/B")
        (nonneg 2)
        class
unfolding codes is_utf8 utf8_run follow lead has_nul push rt_jar_default_temp_file_path
    write_rt_jar_file_if_missing
agent_on_load-Works_example =
    agent_on_load-Works jar_host (some options_text) world options_text-is_utf8 options_text-reads
      started options_text-short given_env (jvm_configurable true) refl harmless (codes "a/B")
      (nonneg 2) class (λ e. cc, λ e. cc) refl refl refl
      (ap (λ r. r.poisoned) made.extends.recorder) refl run refl (omega arith) class-Writes

-- A stored configuration and a new recorder. A class of the runtime is loaded, and sends an event.
abbrev pub living_world : World Machine
living_world = record stored_world {
  recorder = left_by (start_forwarding_worker_thread true initial) initial;
}

pub alive : IsAlive (jvm_storage true) jar_host jni plain_conf 0 living_world 0
alive = record {
  stored =
      IsStored-Contains (jvm_storage true) stored_world living_world refl (λ q b e. e)
        (stored true).stored;
  started = start-IsStarted initial refl;
}

abbrev hooked_world : World Machine
hooked_world = record living_world {
  recorder = left_by (monitor_enter living_world.recorder) living_world.recorder;
}

runtime_class-done :
    pj_class_file_load_hook jar_host
      (jvm true)
      (some (codes "phasicj/agent/rt/Main"))
      (nonneg 2)
      class
      living_world
    ≡ done unchanged living_world
unfolding codes is_utf8 utf8_run follow lead starts_with
runtime_class-done =
    hook-runtime_class jar_host (jvm_storage true) living_world alive.stored
      (codes "phasicj/agent/rt/Main") (nonneg 2) class refl refl

hook-IsGiven_example :
    Meets IsGiven (
      pj_class_file_load_hook jar_host
        (jvm true)
        (some (codes "a/B"))
        (nonneg 2)
        class
        stored_world)
hook-IsGiven_example =
    hook-IsGiven jar_host (jvm_storage true) class-Writes (codes "a/B") (nonneg 2) class
      stored_world (stored true).stored (omega arith)
