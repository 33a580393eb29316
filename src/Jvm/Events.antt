-- ===== src/Jvm/Events.antt =====
-- agent/jvm/events.rs: the callbacks that the agent gives to the JVM.
pub mod Hook
pub mod Keeps
pub mod Length
pub mod Memory
pub mod Start
use phasic_j.Base.{
  ℕ, Bool, true, false, Text, codes, Option, none, some, List, [], ◌∷◌, ◌==◌, ◌&&◌, length, leb,
  take, if◌then◌else◌, is_utf8,
}
use phasic_j.Conf.{PjAgentConf}
use phasic_j.Debug.{dump_class_to_file}
use phasic_j.Host.{Host, JniTable, unwrap_io}
use phasic_j.Instr.{Instrumenter, using_system_path, wrap, instrument}
use phasic_j.Jvm.EnvStorage as EnvStorage
use phasic_j.Jvm.JniEnv as JniEnv
use phasic_j.Jvm.Jvmti.{JvmtiTable}
use phasic_j.Jvm.Jvmti.Calls as Jvmti
use phasic_j.Jvm.RawEnvStorage.{Ptr}
use phasic_j.Jvm.World.{World, M, pure, fail, ◌>>=◌, ◌>>◌, copy_nonoverlapping, to_signed}
use phasic_j.Panic.{Run, done, undefined, not_initialized, null_result, failed_conversion}

-- Whether a text begins with another.
unfoldable pub starts_with : Text → Text → Bool
starts_with s [] = true
starts_with [] (p ∷ ps) = false
starts_with (c ∷ s) (p ∷ ps) = c == p && starts_with s ps

abbrev pub runtime_prefix : Text
runtime_prefix = codes "phasicj/agent/rt/"

-- A `jint`.
pub data Jint : Type 0 where
  nonneg : ℕ → Jint
  negative : ℕ → Jint

-- What the hook wrote to `new_class_data` and `new_class_data_len`, if anything.
pub data NewClass : Type 0 where
  unchanged : NewClass
  replaced : Ptr → ℕ → NewClass

-- The match on `conf.phasicj_exec`.
abbrev pub instrumenter : Option Text → Instrumenter
instrumenter none = using_system_path
instrumenter (some path) = wrap path

module _ {X : Type 0} where
  unfoldable pub enable_instrumentation : JniTable X → M X (Unit {0})
  enable_instrumentation env = do
    java_lang_object_class ← JniEnv.find_class env (codes "java/lang/Object")
    enable_instr_method ←
        JniEnv.get_static_method_id env java_lang_object_class
          (codes "phasicj$agent$rt$enableInstrumentation") (codes "()V")
    JniEnv.call_static_void_method env java_lang_object_class enable_instr_method

  unfoldable pub pj_vm_start : JniTable X → M X (Unit {0})
  pj_vm_start jni_env = enable_instrumentation jni_env

  abbrev pub pj_vm_init : M X (Unit {0})
  pj_vm_init = pure tt

  unfoldable pub pj_vm_death : JvmtiTable X → M X (Unit {0})
  pj_vm_death env = EnvStorage.free env

  -- `CStr::from_ptr(name).to_str().ok().unwrap()`: a null pointer is undefined behaviour.
  unfoldable pub class_name_of : Option Text → M X Text
  class_name_of none w = undefined
  class_name_of (some s) w = (if is_utf8 s then pure s else fail null_result) w

  -- The slice of the class's bytes; the JVM's buffer has them, and perhaps more.
  unfoldable pub class_slice : Jint → Text → M X Text
  class_slice (negative n) buf w = fail failed_conversion w
  class_slice (nonneg n) buf w = if leb n (length buf) then done (take n buf) w else undefined

  unfoldable pub expect_storage : Option EnvStorage.EnvStorage → M X PjAgentConf
  expect_storage none = fail not_initialized
  expect_storage (some storage) = pure storage.conf

module _ {X : Type 0} (host : Host X) where
  -- `dump_class_to_file(…).unwrap()`, if the configuration asks for it.
  unfoldable pub dump_if : Bool → Text → Text → Text → M X (Unit {0})
  dump_if false dir class_name class = pure tt
  dump_if true dir class_name class = do
    r ← dump_class_to_file host.files dir class_name class
    unwrap_io r

module _ {X : Type 0} (env : JvmtiTable X) where
  -- The copy of the instrumented class that the JVM is given.
  unfoldable pub give_class : Text → M X NewClass
  give_class instrumented_class = do
    size ← to_signed 64 (length instrumented_class)
    jvmti_buf ← Jvmti.allocate env size
    copy_nonoverlapping instrumented_class jvmti_buf
    len ← to_signed 32 (length instrumented_class)
    pure (replaced jvmti_buf len)

module _ {X : Type 0} (host : Host X) (env : JvmtiTable X) where
  -- The hook from the result of the instrumentation on.
  unfoldable pub finish_hook : PjAgentConf → Text → Option Text → M X NewClass
  finish_hook conf class_name none = pure unchanged
  finish_hook conf class_name (some instrumented_class) = do
    dump_if host conf.debug_dump_classes_after_instr (codes "classes/after_instr") class_name
        instrumented_class
    give_class env instrumented_class

  -- The hook for a class that is not one of the runtime's.
  unfoldable pub instrument_class : PjAgentConf → Text → Jint → Text → M X NewClass
  instrument_class conf class_name class_data_len class_data = do
    class ← class_slice class_data_len class_data
    dump_if host conf.debug_dump_classes_before_instr (codes "classes/before_instr") class_name
        class
    instr_result ← instrument host.processes (instrumenter conf.phasicj_exec) class
    finish_hook conf class_name instr_result

  unfoldable pub pj_class_file_load_hook : Option Text → Jint → Text → M X NewClass
  pj_class_file_load_hook name class_data_len class_data = do
    env_storage ← EnvStorage.of env
    conf ← expect_storage env_storage
    class_name ← class_name_of name
    if starts_with class_name runtime_prefix
        then pure unchanged
        else instrument_class conf class_name class_data_len class_data
