-- ===== src/Jvm/JniEnv.antt =====
-- agent/jvm/jni_env.rs: checked calls of JNI functions.
use phasic_j.Base.{Text, ◌==◌, if◌then◌else◌}
use phasic_j.Host.{JniTable}
use phasic_j.Jvm.Jvmti.{with_function}
use phasic_j.Jvm.RawEnvStorage.{Ptr, null}
use phasic_j.Jvm.World.{World, M, pure, fail, ◌>>=◌}
use phasic_j.Panic.{Run, done, null_result}

module _ {X : Type 0} (env : JniTable X) where
  -- A call whose result and world are a pair.
  abbrev returned : {A : Type 0} → A × World X → Run (World X) A
  returned (a, w) = done a w

  unfoldable pub find_class : Text → M X Ptr
  find_class name = do
    cls ← with_function env.find_class λ f w. returned (f name w)
    if cls == null then fail null_result else pure cls

  -- The check is of the class, which the caller passed in, as in the source.
  unfoldable pub get_static_method_id : Ptr → Text → Text → M X Ptr
  get_static_method_id cls name sig = do
    method_id ← with_function env.get_static_method_id λ f w. returned (f cls name sig w)
    if cls == null then fail null_result else pure method_id

  unfoldable pub call_static_void_method : Ptr → Ptr → M X (Unit {0})
  call_static_void_method cls method_id =
      with_function env.call_static_void_method λ f w. done tt (f cls method_id w)
