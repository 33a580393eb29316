-- ===== src/Jvm/Jvmti.antt =====
-- agent/jvm/jvmti_env.rs: the function table of a `jvmtiEnv`, which the JVM implements, and the
-- checked calls of its entries.
pub mod Calls
pub mod Lawful
pub mod Storage
use phasic_j.Base.{ℕ, Bool, Text, Option, none, some, ◌==◌, if◌then◌else◌}
use phasic_j.Jvm.RawEnvStorage.{Ptr}
use phasic_j.Jvm.World.{World, M}
use phasic_j.Panic.{Panic, Run, done, panicked, missing_function, jvmti_error, jni_error}

-- The bits of `jvmtiCapabilities` that the agent reads or sets, and all others.
pub record JvmtiCapabilities : Type 0 where
  pub can_generate_all_class_hook_events : ℕ
  pub can_generate_early_class_hook_events : ℕ
  pub others : ℕ

-- The callbacks of agent/jvm/events.rs.
pub data Handler : Type 0 where
  pj_vm_start pj_vm_init pj_vm_death pj_class_file_load_hook : Handler

-- The entries of `jvmtiEventCallbacks` that the agent sets. All others are null.
pub record JvmtiEventCallbacks : Type 0 where
  pub vm_start : Option Handler
  pub vm_init : Option Handler
  pub vm_death : Option Handler
  pub class_file_load_hook : Option Handler

pub data JvmtiEvent : Type 0 where
  class_file_load_hook_event vm_start_event vm_init_event vm_death_event : JvmtiEvent

pub data JvmtiEventMode : Type 0 where
  jvmti_enable jvmti_disable : JvmtiEventMode

-- What a foreign function returns: its status, what it wrote to its out-parameter, and the world.
pub record Reply (X A : Type 0) : Type 0 where
  pub status : ℕ
  pub value : A
  pub world : World X

abbrev pub reply : {X A : Type 0} → ℕ → A → World X → Reply X A
reply s a w = record { status = s; value = a; world = w }

-- `JVMTI_ERROR_NONE` and `JNI_OK`
abbrev pub success : ℕ
success = 0

-- The functions of the environment, each of which may be a null pointer. A thread is a `jthread`;
-- none stands for all threads.
pub record JvmtiTable (X : Type 0) : Type 0 where
  pub get_phase : Option (World X → Reply X ℕ)
  pub allocate : Option (ℕ → World X → Reply X Ptr)
  pub deallocate : Option (Ptr → World X → Reply X (Unit {0}))
  pub get_potential_capabilities : Option (World X → Reply X JvmtiCapabilities)
  pub get_capabilities : Option (World X → Reply X JvmtiCapabilities)
  pub add_capabilities : Option (JvmtiCapabilities → World X → Reply X (Unit {0}))
  pub set_event_callbacks : Option (JvmtiEventCallbacks → World X → Reply X (Unit {0}))
  pub set_event_notification_mode :
      Option (JvmtiEventMode → JvmtiEvent → Option Ptr → World X → Reply X (Unit {0}))
  pub add_to_bootstrap_class_loader_search : Option (Text → World X → Reply X (Unit {0}))
  pub get_environment_local_storage : Option (World X → Reply X Ptr)
  pub set_environment_local_storage : Option (Ptr → World X → Reply X (Unit {0}))
  pub get_thread_local_storage : Option (Ptr → World X → Reply X Ptr)
  pub set_thread_local_storage : Option (Ptr → Ptr → World X → Reply X (Unit {0}))

-- The codes of `jvmtiPhase`, from the JVM's header.
pub record PhaseCodes : Type 0 where
  pub onload : ℕ
  pub primordial : ℕ
  pub start : ℕ
  pub live : ℕ
  pub dead : ℕ

module _ {X A : Type 0} where
  -- `jvmti_check(f(env, …))`
  abbrev pub jvmti_check : Reply X A → Run (World X) A
  jvmti_check r =
      if r.status == success then done r.value r.world else panicked (jvmti_error r.status) r.world

  -- `jni_check(f(…))`
  abbrev pub jni_check : Reply X A → Run (World X) A
  jni_check r =
      if r.status == success then done r.value r.world else panicked (jni_error r.status) r.world

  -- `(**env).F.unwrap()`, and what is done with the function.
  abbrev pub with_function {ℓ} : {F : Type ℓ} → Option F → (F → M X A) → M X A
  with_function none k w = panicked missing_function w
  with_function (some f) k w = k f w
