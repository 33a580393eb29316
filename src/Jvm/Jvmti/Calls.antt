-- ===== src/Jvm/Jvmti/Calls.antt =====
-- The checked calls of agent/jvm/jvmti_env.rs.
use phasic_j.Base.{ℕ, Text, Option, ◌==◌, if◌then◌else◌, codes}
use phasic_j.Jvm.RawEnvStorage.{Ptr}
use phasic_j.Jvm.World.{World, M, pure, fail, ◌>>=◌}
use phasic_j.Jvm.Jvmti.{
  JvmtiTable, JvmtiCapabilities, JvmtiEventCallbacks, JvmtiEvent, JvmtiEventMode, PhaseCodes, Reply,
  jvmti_check, jni_check, with_function,
}
use phasic_j.Panic.{unknown_phase}

module _ {X : Type 0} where
  -- `get_env`, with `GetEnv` of the `JavaVM` and the version that is asked for.
  unfoldable pub get_env : Option (ℕ → World X → Reply X Ptr) → ℕ → M X Ptr
  get_env entry version = with_function entry λ f w. jni_check (f version w)

module _ {X : Type 0} (env : JvmtiTable X) where
  unfoldable pub get_phase : M X ℕ
  get_phase = with_function env.get_phase λ f w. jvmti_check (f w)

  unfoldable pub get_phase_str : PhaseCodes → M X Text
  unfolding get_phase
  get_phase_str phase = do
    p ← get_phase
    if p == phase.onload
        then pure (codes "OnLoad")
        else if p == phase.primordial
        then pure (codes "Primordial")
        else if p == phase.live
        then pure (codes "Live")
        else if p == phase.start
        then pure (codes "Start")
        else if p == phase.dead
        then pure (codes "Dead")
        else fail unknown_phase

  unfoldable pub allocate : ℕ → M X Ptr
  allocate size = with_function env.allocate λ f w. jvmti_check (f size w)

  unfoldable pub deallocate : Ptr → M X (Unit {0})
  deallocate p = with_function env.deallocate λ f w. jvmti_check (f p w)

  unfoldable pub get_potential_capabilities : M X JvmtiCapabilities
  get_potential_capabilities = with_function env.get_potential_capabilities λ f w. jvmti_check (f w)

  unfoldable pub get_capabilities : M X JvmtiCapabilities
  get_capabilities = with_function env.get_capabilities λ f w. jvmti_check (f w)

  unfoldable pub add_capabilities : JvmtiCapabilities → M X (Unit {0})
  add_capabilities capa = with_function env.add_capabilities λ f w. jvmti_check (f capa w)

  unfoldable pub set_event_callbacks : JvmtiEventCallbacks → M X (Unit {0})
  set_event_callbacks cb = with_function env.set_event_callbacks λ f w. jvmti_check (f cb w)

  unfoldable pub set_event_notification_mode :
      JvmtiEventMode → JvmtiEvent → Option Ptr → M X (Unit {0})
  set_event_notification_mode mode event_type event_thread =
      with_function env.set_event_notification_mode
        λ f w. jvmti_check (f mode event_type event_thread w)

  unfoldable pub add_to_bootstrap_class_loader_search : Text → M X (Unit {0})
  add_to_bootstrap_class_loader_search segment =
      with_function env.add_to_bootstrap_class_loader_search λ f w. jvmti_check (f segment w)

  unfoldable pub get_environment_local_storage : M X Ptr
  get_environment_local_storage =
      with_function env.get_environment_local_storage λ f w. jvmti_check (f w)

  unfoldable pub set_environment_local_storage : Ptr → M X (Unit {0})
  set_environment_local_storage p =
      with_function env.set_environment_local_storage λ f w. jvmti_check (f p w)

  unfoldable pub get_thread_local_storage : Ptr → M X Ptr
  get_thread_local_storage thread =
      with_function env.get_thread_local_storage λ f w. jvmti_check (f thread w)

  unfoldable pub set_thread_local_storage : Ptr → Ptr → M X (Unit {0})
  set_thread_local_storage thread p =
      with_function env.set_thread_local_storage λ f w. jvmti_check (f thread p w)
