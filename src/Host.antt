-- ===== src/Host.antt =====
-- What the agent is given by its surroundings: the operating system's files and processes, through
-- Rust's standard library, the JVM's function tables, and what the build embeds.
use phasic_j.Base.{ℕ, Bool, Text, Option, none, some, List}
use phasic_j.Jvm.Jvmti.{JvmtiTable, Reply}
use phasic_j.Jvm.RawEnvStorage.{Ptr}
use phasic_j.Jvm.World.{World, M, pure, ◌>>=◌}
use phasic_j.Panic.{done, panicked, io_error}

-- An `io::Result`, whose error carries nothing that the agent reads, and the world after the call.
pub record IoReply (X A : Type 0) : Type 0 where
  pub result : Option A
  pub world : World X

-- A file handle and a child process are numbers.
pub record FileSystem (X : Type 0) : Type 0 where
  pub exists : Text → World X → Bool
  pub create_dir_all : Text → World X → IoReply X (Unit {0})
  pub create : Text → World X → IoReply X ℕ
  pub write_all : ℕ → Text → World X → IoReply X (Unit {0})
  pub sync_all : ℕ → World X → IoReply X (Unit {0})

pub record Output : Type 0 where
  pub is_success : Bool
  pub stdout : Text

pub record Processes (X : Type 0) : Type 0 where
  pub spawn : Text → List Text → World X → IoReply X ℕ
  pub write_stdin : ℕ → Text → World X → IoReply X (Unit {0})
  pub wait_with_output : ℕ → World X → IoReply X Output

-- The functions of a `JNIEnv` that the agent calls.
pub record JniTable (X : Type 0) : Type 0 where
  pub find_class : Option (Text → World X → Ptr × World X)
  pub get_static_method_id : Option (Ptr → Text → Text → World X → Ptr × World X)
  pub call_static_void_method : Option (Ptr → Ptr → World X → World X)

pub record Host (X : Type 0) : Type 0 where
  pub get_env : Option (ℕ → World X → Reply X Ptr)
  pub jvmti_version_11 : ℕ
  pub env_at : Ptr → JvmtiTable X
  pub files : FileSystem X
  pub processes : Processes X
  pub temp_dir : World X → Text
  pub current_dir : World X → Option Text
  pub logs_info : Bool
  pub can_spawn : Bool
  pub rt_jar : Text
  pub rt_jar_sha1_hash : Text

module _ {X : Type 0} where
  abbrev pub io : {A : Type 0} → (World X → IoReply X A) → M X (Option A)
  io f w = done (f w).result (f w).world

  abbrev pub or_return : {A B : Type 0} → (A → M X (Option B)) → Option A → M X (Option B)
  or_return k none = pure none
  or_return k (some a) = k a

  -- `e?` in a function that returns an `io::Result`: an error returns at once.
  abbrev pub try : {A B : Type 0} → M X (Option A) → (A → M X (Option B)) → M X (Option B)
  try m k = m >>= or_return k

  -- `unwrap()` of an `io::Result`.
  abbrev pub unwrap_io : {A : Type 0} → Option A → M X A
  unwrap_io none w = panicked io_error w
  unwrap_io (some a) w = done a w
