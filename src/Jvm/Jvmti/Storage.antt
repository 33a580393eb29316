-- ===== src/Jvm/Jvmti/Storage.antt =====
-- The checked calls of agent/jvm/jvmti_env.rs, on a JVM that behaves as documented.
use phasic_j.Base.{ℕ, ◌≡◌, false, ◌==◌, none}
use phasic_j.Jvm.Jvmti.{JvmtiTable}
use phasic_j.Jvm.Jvmti.Calls
use phasic_j.Jvm.Jvmti.Lawful.{IsStorage, allocated}
use phasic_j.Jvm.RawEnvStorage.{Ptr}
use phasic_j.Jvm.World.{World, update}
use phasic_j.Panic.{done}

module _ {X : Type 0} {env : JvmtiTable X} (S : IsStorage env) (w : World X) where
  pub get_lem : Calls.get_environment_local_storage env w ≡ done (S.slot w.host) w
  unfolding Calls.get_environment_local_storage
  get_lem = rw S.get_environment_local_storage_lem

  pub set_lem :
      (p : Ptr)
      → Calls.set_environment_local_storage env p w
        ≡ done tt (record w { host = S.with_slot p w.host })
  unfolding Calls.set_environment_local_storage
  set_lem p = rw S.set_environment_local_storage_lem

  pub allocate_ok :
      (n : ℕ)
      → (n == 0) ≡ false
      → Calls.allocate env n w ≡ done (S.place n w) (allocated n (S.place n w) w)
  unfolding Calls.allocate
  allocate_ok n h = rw (S.allocate_lem, h)

  pub deallocate_ok :
      (p : Ptr) → Calls.deallocate env p w ≡ done tt (record w { heap = update w.heap p none })
  unfolding Calls.deallocate
  deallocate_ok p = rw S.deallocate_lem
