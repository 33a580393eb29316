-- ===== src/Jvm/Harmless.antt =====
-- What is relied on of the world around the agent: it leaves the agent's memory alone.
use phasic_j.Base.{ℕ, ◌≡◌, Text, some, List}
use phasic_j.Host.{FileSystem, Processes, JniTable}
use phasic_j.Jvm.EnvStorage.Kept.{Undisturbed}
use phasic_j.Jvm.Jvmti.{JvmtiTable}
use phasic_j.Jvm.Jvmti.Lawful.{IsStorage}
use phasic_j.Jvm.RawEnvStorage.{Ptr}
use phasic_j.Jvm.World.{World}

-- What is relied on of the operating system and of the JVM's JNI functions: they leave the agent's
-- memory alone.
pub record AreHarmless {X : Type 0} {env : JvmtiTable X} (S : IsStorage env) (fs : FileSystem X)
    (os : Processes X) (jni : JniTable X) : Type 0 where
  pub create_dir_all :
      (path : Text) (w : World X) → Undisturbed S w (fs.create_dir_all path w).world
  pub create : (path : Text) (w : World X) → Undisturbed S w (fs.create path w).world
  pub write_all : (fd : ℕ) (s : Text) (w : World X) → Undisturbed S w (fs.write_all fd s w).world
  pub sync_all : (fd : ℕ) (w : World X) → Undisturbed S w (fs.sync_all fd w).world
  pub spawn :
      (file : Text) (args : List Text) (w : World X) → Undisturbed S w (os.spawn file args w).world
  pub write_stdin :
      (child : ℕ) (s : Text) (w : World X) → Undisturbed S w (os.write_stdin child s w).world
  pub wait_with_output :
      (child : ℕ) (w : World X) → Undisturbed S w (os.wait_with_output child w).world
  pub find_class :
      (f : Text → World X → Ptr × World X) (name : Text) (w : World X)
      → jni.find_class ≡ some f
      → Undisturbed S w (f name w).1
  pub get_static_method_id :
      (f : Ptr → Text → Text → World X → Ptr × World X) (cls : Ptr) (name sig : Text) (w : World X)
      → jni.get_static_method_id ≡ some f
      → Undisturbed S w (f cls name sig w).1
  pub call_static_void_method :
      (f : Ptr → Ptr → World X → World X) (cls method : Ptr) (w : World X)
      → jni.call_static_void_method ≡ some f
      → Undisturbed S w (f cls method w)
