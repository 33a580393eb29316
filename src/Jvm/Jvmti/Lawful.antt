-- ===== src/Jvm/Jvmti/Lawful.antt =====
-- What the agent relies on of the JVM: the documented behaviour of the JVMTI functions, where the
-- JVM has memory left and grants what is asked for.
use phasic_j.Base.{ℕ, ◌≡◌, ◌≢◌, ◌<◌, ◌%◌, Text, none, some, ◌==◌, if◌then◌else◌}
use phasic_j.Jvm.RawEnvStorage.{Ptr, null, raw_align}
use phasic_j.Jvm.World.{World, uninit, lookup, update}
use phasic_j.Jvm.Jvmti.{
  JvmtiTable, JvmtiCapabilities, JvmtiEventCallbacks, JvmtiEvent, JvmtiEventMode, reply, success,
}

-- The world with a new block.
abbrev pub allocated : {X : Type 0} → ℕ → Ptr → World X → World X
allocated n p w = record w { heap = update w.heap p (some (record { size = n; content = uninit })) }

-- `Allocate` (a request of 0 bytes gives a null pointer) and `Deallocate`, and the environment-local storage, which holds one pointer. `slot`
-- reads that pointer off the host, and `place` is where the JVM's allocator puts a new block.
pub record IsStorage {X : Type 0} (env : JvmtiTable X) : Type 0 where
  pub slot : X → Ptr
  pub with_slot : Ptr → X → X
  pub slot-with_slot : (p : Ptr) (x : X) → slot (with_slot p x) ≡ p
  pub place : ℕ → World X → Ptr
  pub place_ne_null : (n : ℕ) (w : World X) → 0 < n → place n w ≢ null
  pub place_fresh : (n : ℕ) (w : World X) → 0 < n → lookup w.heap (place n w) ≡ none
  pub place_aligned : (n : ℕ) (w : World X) → place n w % raw_align ≡ 0
  pub get_environment_local_storage_lem :
      env.get_environment_local_storage ≡ some (λ w. reply success (slot w.host) w)
  pub set_environment_local_storage_lem :
      env.set_environment_local_storage
      ≡ some (λ p w. reply success tt (record w { host = with_slot p w.host }))
  pub allocate_lem :
      env.allocate
      ≡ some (λ n w.
        if n == 0
        then reply success null w
        else reply success (place n w) (allocated n (place n w) w))
  pub deallocate_lem :
      env.deallocate ≡ some (λ p w. reply success tt (record w { heap = update w.heap p none }))

-- The calls that set an environment up, each as a change of the host. `slot` does not depend on
-- them.
pub record IsConfigurable {X : Type 0} (env : JvmtiTable X) : Type 0 where
  pub storage : IsStorage env
  pub potential : X → JvmtiCapabilities
  pub capabilities : X → JvmtiCapabilities
  pub with_capabilities : JvmtiCapabilities → X → X
  pub with_callbacks : JvmtiEventCallbacks → X → X
  pub with_mode : JvmtiEventMode → JvmtiEvent → X → X
  pub with_segment : Text → X → X
  pub slot-with_capabilities :
      (c : JvmtiCapabilities) (x : X) → storage.slot (with_capabilities c x) ≡ storage.slot x
  pub slot-with_callbacks :
      (c : JvmtiEventCallbacks) (x : X) → storage.slot (with_callbacks c x) ≡ storage.slot x
  pub slot-with_mode :
      (m : JvmtiEventMode) (e : JvmtiEvent) (x : X)
      → storage.slot (with_mode m e x) ≡ storage.slot x
  pub slot-with_segment : (s : Text) (x : X) → storage.slot (with_segment s x) ≡ storage.slot x
  pub get_potential_capabilities_lem :
      env.get_potential_capabilities ≡ some (λ w. reply success (potential w.host) w)
  pub get_capabilities_lem :
      env.get_capabilities ≡ some (λ w. reply success (capabilities w.host) w)
  pub add_capabilities_lem :
      env.add_capabilities
      ≡ some (λ c w. reply success tt (record w { host = with_capabilities c w.host }))
  pub set_event_callbacks_lem :
      env.set_event_callbacks
      ≡ some (λ c w. reply success tt (record w { host = with_callbacks c w.host }))
  pub set_event_notification_mode_lem :
      env.set_event_notification_mode
      ≡ some (λ m e thread w. reply success tt (record w { host = with_mode m e w.host }))
  pub add_to_bootstrap_class_loader_search_lem :
      env.add_to_bootstrap_class_loader_search
      ≡ some (λ s w. reply success tt (record w { host = with_segment s w.host }))
