-- ===== src/Jvm/Setup.antt =====
-- agent/jvm/setup.rs: the steps that prepare a JVM for the agent.
pub mod Steps
use phasic_j.Base.{
  ℕ, zero, suc, Bool, true, false, Text, Option, none, some, List, [], ◌∷◌, ◌==◌, ◌||◌,
  if◌then◌else◌, is_utf8,
}
use phasic_j.Conf.{PjAgentConf}
use phasic_j.Host.{Host, FileSystem, unwrap_io}
use phasic_j.Jvm.EnvStorage as EnvStorage
use phasic_j.Jvm.Jvmti.{
  JvmtiTable, JvmtiCapabilities, JvmtiEventCallbacks, JvmtiEvent, JvmtiEventMode, Handler,
  pj_vm_start, pj_vm_init, pj_vm_death, pj_class_file_load_hook, class_file_load_hook_event,
  vm_start_event, vm_init_event, vm_death_event, jvmti_enable, jvmti_disable,
}
use phasic_j.Jvm.Jvmti.Calls as Jvmti
use phasic_j.Jvm.World.{World, M, pure, fail, ◌>>=◌, ◌>>◌}
use phasic_j.Panic.{Run, done, panicked, undefined, missing_capability, null_result, interior_nul}
use phasic_j.Recorder.{Recorder, start_forwarding_worker_thread}
use phasic_j.RtJar.{rt_jar_default_temp_file_path, write_rt_jar_file_if_missing}

-- `get_initial_agent_callbacks` of agent/jvm/events.rs
abbrev pub get_initial_agent_callbacks : JvmtiEventCallbacks
get_initial_agent_callbacks = record {
  vm_start = some pj_vm_start;
  vm_init = some pj_vm_init;
  vm_death = some pj_vm_death;
  class_file_load_hook = some pj_class_file_load_hook;
}

-- Whether a text has a NUL byte, which no C string can hold.
unfoldable pub has_nul : Text → Bool
has_nul [] = false
has_nul (b ∷ s) = b == 0 || has_nul s

module _ {X : Type 0} where
  unfoldable pub expect_capability : ℕ → M X (Unit {0})
  expect_capability capa = if capa == 0 then fail missing_capability else pure tt

  -- `CString::new(path.to_str().unwrap()).unwrap()`
  unfoldable pub c_string_of_path : Text → M X Text
  c_string_of_path path =
      if is_utf8 path
      then (if has_nul path then fail interior_nul else pure path)
      else fail null_result

  -- A step of the recorder, in the world.
  abbrev pub recorded : World X → Run Recorder (Unit {0}) → Run (World X) (Unit {0})
  recorded w (done a r) = done a (record w { recorder = r })
  recorded w (panicked p r) = panicked p (record w { recorder = r })
  recorded w undefined = undefined

  abbrev pub record_with : (Recorder → Run Recorder (Unit {0})) → M X (Unit {0})
  record_with f w = recorded w (f w.recorder)

-- The capabilities that are asked for, on top of those that the environment has.
abbrev pub with_required : JvmtiCapabilities → JvmtiCapabilities
with_required capa = record capa {
  can_generate_all_class_hook_events = 1;
  can_generate_early_class_hook_events = 1;
}

module _ {X : Type 0} (env : JvmtiTable X) where
  unfoldable pub expect_jvmti_environment_provides_all_required_capabilities : M X (Unit {0})
  expect_jvmti_environment_provides_all_required_capabilities = do
    capa ← Jvmti.get_potential_capabilities env
    expect_capability capa.can_generate_all_class_hook_events
    expect_capability capa.can_generate_early_class_hook_events

  unfoldable pub add_all_required_capabilities : M X (Unit {0})
  add_all_required_capabilities = do
    capa ← Jvmti.get_capabilities env
    Jvmti.add_capabilities env (with_required capa)

  unfoldable pub set_all_event_callbacks : M X (Unit {0})
  set_all_event_callbacks = Jvmti.set_event_callbacks env get_initial_agent_callbacks

  unfoldable pub set_all_event_notification_modes : M X (Unit {0})
  set_all_event_notification_modes = do
    Jvmti.set_event_notification_mode env jvmti_enable class_file_load_hook_event none
    Jvmti.set_event_notification_mode env jvmti_enable vm_start_event none
    Jvmti.set_event_notification_mode env jvmti_enable vm_init_event none
    Jvmti.set_event_notification_mode env jvmti_enable vm_death_event none

  -- `add_embedded_jar_to_bootstrap_class_loader_search`, for the path of the jar.
  unfoldable pub add_jar : FileSystem X → Text → Text → M X (Unit {0})
  add_jar fs rt_jar path = do
    written ← write_rt_jar_file_if_missing fs rt_jar path
    unwrap_io written
    segment ← c_string_of_path path
    Jvmti.add_to_bootstrap_class_loader_search env segment

  unfoldable pub add_embedded_jar_to_bootstrap_class_loader_search : Host X → M X (Unit {0})
  add_embedded_jar_to_bootstrap_class_loader_search host w =
      add_jar host.files host.rt_jar
        (rt_jar_default_temp_file_path (host.temp_dir w) host.rt_jar_sha1_hash) w

  unfoldable pub configure_jvmti_env : Host X → PjAgentConf → M X (Unit {0})
  configure_jvmti_env host conf = do
    EnvStorage.init env conf
    expect_jvmti_environment_provides_all_required_capabilities
    add_all_required_capabilities
    set_all_event_callbacks
    set_all_event_notification_modes
    add_embedded_jar_to_bootstrap_class_loader_search host

unfoldable pub setup_agent : {X : Type 0} → Host X → PjAgentConf → M X (Unit {0})
setup_agent host conf = do
  env ← Jvmti.get_env host.get_env host.jvmti_version_11
  configure_jvmti_env (host.env_at env) host conf
  record_with (start_forwarding_worker_thread host.can_spawn)
