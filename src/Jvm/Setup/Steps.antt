-- ===== src/Jvm/Setup/Steps.antt =====
-- What `configure_jvmti_env` makes of a JVM.
use phasic_j.Base.{◌≡◌, ◌≢◌, ◌⊎◌, true, false, Text, some, arith, is_utf8, eq_false_of_ne}
use phasic_j.Conf.{PjAgentConf}
use phasic_j.Host.{Host}
use phasic_j.Jvm.EnvStorage.Init.{Initialised}
use phasic_j.Jvm.EnvStorage.Stored.{IsStored}
use phasic_j.Jvm.Jvmti.{
  JvmtiTable, JvmtiCapabilities, class_file_load_hook_event, vm_start_event, vm_init_event,
  vm_death_event, jvmti_enable,
}
use phasic_j.Jvm.Jvmti.Calls
use phasic_j.Jvm.Jvmti.Lawful.{IsConfigurable}
use phasic_j.Jvm.Setup.{
  get_initial_agent_callbacks, has_nul, c_string_of_path, expect_capability,
  expect_jvmti_environment_provides_all_required_capabilities, with_required,
  add_all_required_capabilities, set_all_event_callbacks, set_all_event_notification_modes, add_jar,
  add_embedded_jar_to_bootstrap_class_loader_search, configure_jvmti_env,
}
use phasic_j.Jvm.World.{World}
use phasic_j.RtJar.{rt_jar_default_temp_file_path, write_rt_jar_file_if_missing}
use phasic_j.Panic.{done, panicked, missing_capability}

-- Both class hooks can be had.
abbrev pub CanHook : JvmtiCapabilities → Type 0
CanHook c =
    (c.can_generate_all_class_hook_events ≢ 0) × (c.can_generate_early_class_hook_events ≢ 0)

module _ {X : Type 0} {env : JvmtiTable X} (J : IsConfigurable env) where
  -- The four events are enabled, the class hook first.
  abbrev pub all_events : X → X
  all_events x = J.with_mode jvmti_enable vm_death_event (
      J.with_mode jvmti_enable vm_init_event (
        J.with_mode jvmti_enable vm_start_event
          (J.with_mode jvmti_enable class_file_load_hook_event x)))

  -- The host after the events have been enabled, from the host with the storage: the capabilities
  -- come first, then the callbacks, and the four events last.
  abbrev pub enabled : X → X
  enabled x = all_events (
      J.with_callbacks get_initial_agent_callbacks
        (J.with_capabilities (with_required (J.capabilities x)) x))

  module _ (w : World X) where
    expect_lem :
        CanHook (J.potential w.host)
        → expect_jvmti_environment_provides_all_required_capabilities env w ≡ done tt w
    unfolding expect_jvmti_environment_provides_all_required_capabilities expect_capability
        Calls.get_potential_capabilities
    expect_lem (all, early) =
        rw (J.get_potential_capabilities_lem, eq_false_of_ne _ 0 all, eq_false_of_ne _ 0 early)

    expect-missing :
        (J.potential w.host).can_generate_all_class_hook_events ≡ 0
          ⊎ (J.potential w.host).can_generate_early_class_hook_events ≡ 0
        → expect_jvmti_environment_provides_all_required_capabilities env w
          ≡ panicked missing_capability w
    unfolding expect_jvmti_environment_provides_all_required_capabilities expect_capability
        Calls.get_potential_capabilities
    expect-missing h = rw J.get_potential_capabilities_lem (ground arith)

    add_lem :
        add_all_required_capabilities env w
        ≡ done tt
            (record w { host = J.with_capabilities (with_required (J.capabilities w.host)) w.host })
    unfolding add_all_required_capabilities Calls.get_capabilities Calls.add_capabilities
    add_lem = rw (J.get_capabilities_lem, J.add_capabilities_lem)

    callbacks_lem :
        set_all_event_callbacks env w
        ≡ done tt (record w { host = J.with_callbacks get_initial_agent_callbacks w.host })
    unfolding set_all_event_callbacks Calls.set_event_callbacks
    callbacks_lem = rw J.set_event_callbacks_lem

    modes_lem :
        set_all_event_notification_modes env w ≡ done tt (record w { host = all_events w.host })
    unfolding set_all_event_notification_modes Calls.set_event_notification_mode
    modes_lem = rw J.set_event_notification_mode_lem

    segment_lem :
        (path : Text)
        → Calls.add_to_bootstrap_class_loader_search env path w
          ≡ done tt (record w { host = J.with_segment path w.host })
    unfolding Calls.add_to_bootstrap_class_loader_search
    segment_lem path = rw J.add_to_bootstrap_class_loader_search_lem

c_string_lem :
    {X : Type 0} (path : Text) (w : World X)
    → is_utf8 path ≡ true
    → has_nul path ≡ false
    → c_string_of_path path w ≡ done path w
unfolding c_string_of_path
c_string_lem path w u nul = rw (u, nul)

module _ {X : Type 0} {env : JvmtiTable X} (J : IsConfigurable env) (host : Host X) (w : World X)
    {conf : PjAgentConf} (I : Initialised J.storage w conf) where
  -- The world when the events are enabled, before the jar is added.
  abbrev pub enabled_world : World X
  enabled_world = record I.next { host = enabled J I.next.host }

  -- The slot survives the steps that enable the events.
  slot-enabled : (x : X) → J.storage.slot (enabled J x) ≡ J.storage.slot x
  slot-enabled x = rw (
    J.slot-with_mode, J.slot-with_mode, J.slot-with_mode, J.slot-with_mode, J.slot-with_callbacks,
    J.slot-with_capabilities,
  )

  -- In the world in which the events have been enabled, and the jar is not yet added, the
  -- configuration is stored, so a class hook that runs from then on finds it.
  pub enabled_world-IsStored : IsStored J.storage enabled_world conf
  enabled_world-IsStored = record {
    storage_ne_null = rw slot-enabled I.stored.storage_ne_null;
    size = I.stored.size;
    struct = I.stored.struct;
    holds = rw slot-enabled I.stored.holds;
    is_raw = I.stored.is_raw;
  }

  abbrev pub jar_path : Text
  jar_path = rt_jar_default_temp_file_path (host.temp_dir enabled_world) host.rt_jar_sha1_hash

  -- On a JVM that has both capabilities, and in which init has been shown to store the
  -- configuration: if the jar is written in the world in which the events are enabled, to a path
  -- that is a C string, configure_jvmti_env stores the configuration, adds the capabilities, sets
  -- the callbacks, enables the four events and adds the jar, in this order, and returns.
  pub configure_jvmti_env_lem :
      {w' : World X}
      → CanHook (J.potential I.next.host)
      → write_rt_jar_file_if_missing host.files host.rt_jar jar_path enabled_world
        ≡ done (some tt) w'
      → is_utf8 jar_path ≡ true
      → has_nul jar_path ≡ false
      → configure_jvmti_env env host conf w
        ≡ done tt (record w' { host = J.with_segment jar_path w'.host })
  unfolding configure_jvmti_env add_embedded_jar_to_bootstrap_class_loader_search add_jar
  configure_jvmti_env_lem {w'} can jar u nul = rw (
    I.returns,
    expect_lem J I.next can,
    add_lem J I.next,
    callbacks_lem J _,
    modes_lem J _,
    jar,
    c_string_lem jar_path w' u nul,
    segment_lem J w' jar_path,
  )

  -- On a JVM without one of the two capabilities configure_jvmti_env panics in the world that init
  -- left, before it sets a callback or enables an event.
  pub configure_jvmti_env-missing :
      (J.potential I.next.host).can_generate_all_class_hook_events ≡ 0
        ⊎ (J.potential I.next.host).can_generate_early_class_hook_events ≡ 0
      → configure_jvmti_env env host conf w ≡ panicked missing_capability I.next
  unfolding configure_jvmti_env
  configure_jvmti_env-missing h = rw (I.returns, expect-missing J I.next h)
