-- ===== src/Jvm/EnvStorage/Stored.antt =====
-- How a stored configuration lies in memory, and that `EnvStorage::of` reads it back.
use phasic_j.Base.{
  ℕ, ◌≡◌, ◌≢◌, true, Text, Option, none, some, ◌==◌, length, take-length, leb_refl, eq_false_of_ne,
  is_utf8, if◌then◌else◌,
}
use phasic_j.Conf.{PjAgentConf}
use phasic_j.Jvm.EnvStorage.{
  EnvStorage, text_of, exec_of, to_env_storage, get_ptr, read_storage, of,
}
use phasic_j.Jvm.Jvmti.{JvmtiTable}
use phasic_j.Jvm.Jvmti.Lawful.{IsStorage}
use phasic_j.Jvm.Jvmti.Storage.{get_lem}
use phasic_j.Jvm.RawEnvStorage.{Ptr, null, RawEnvStorage}
use phasic_j.Jvm.World.{
  World, Heap, Block, Content, raw, bytes, lookup, block_at_lem, read_raw, from_raw_parts,
}
use phasic_j.Panic.{done}

abbrev pub block : ℕ → Content → Option Block
block n c = some (record { size = n; content = c })

-- The copy of the executable's path: a block of its bytes, or no block and a null pointer.
abbrev pub IsExecAt : Heap → Ptr → ℕ → Option Text → Type 0
IsExecAt h p n none = p ≡ null
IsExecAt h p n (some s) =
    (p ≢ null)
    × (n ≡ length s)
    × (is_utf8 s ≡ true)
    × ((size : ℕ) × (lookup h p ≡ block size (bytes s)))

-- The struct that stands for a configuration.
pub record IsRaw (h : Heap) (r : RawEnvStorage) (conf : PjAgentConf) : Type 0 where
  pub verbose : r.verbose ≡ conf.verbose
  pub before_instr : r.debug_dump_classes_before_instr ≡ conf.debug_dump_classes_before_instr
  pub after_instr : r.debug_dump_classes_after_instr ≡ conf.debug_dump_classes_after_instr
  pub exec : IsExecAt h r.phasicj_exec_ptr r.phasicj_exec_len conf.phasicj_exec

-- The slot of the JVM points to a struct that stands for `conf`.
pub record IsStored {X : Type 0} {env : JvmtiTable X} (S : IsStorage env) (w : World X)
    (conf : PjAgentConf) : Type 0 where
  pub storage_ne_null : S.slot w.host ≢ null
  pub size : ℕ
  pub struct : RawEnvStorage
  pub holds : lookup w.heap (S.slot w.host) ≡ block size (raw struct)
  pub is_raw : IsRaw w.heap struct conf

abbrev pub storage_of : PjAgentConf → EnvStorage
storage_of conf = record { conf = conf }

module _ {X : Type 0} where
  pub read_raw_lem :
      (w : World X) (p : Ptr) (n : ℕ) (r : RawEnvStorage)
      → p ≢ null
      → lookup w.heap p ≡ block n (raw r)
      → read_raw p w ≡ done r w
  unfolding read_raw
  read_raw_lem w p n r ne e = rw (block_at_lem w.heap p ne, e)

  from_raw_parts_lem :
      (w : World X) (p : Ptr) (n : ℕ) (s : Text)
      → p ≢ null
      → lookup w.heap p ≡ block n (bytes s)
      → from_raw_parts p (length s) w ≡ done s w
  unfolding from_raw_parts
  from_raw_parts_lem w p n s ne e =
      rw (block_at_lem w.heap p ne, e, leb_refl (length s), take-length s)

  exec_of_lem :
      (w : World X) (p : Ptr) (n : ℕ) (exec : Option Text)
      → IsExecAt w.heap p n exec
      → exec_of p n w ≡ done exec w
  unfolding exec_of text_of
  exec_of_lem w p n none h = rw h
  exec_of_lem w p n (some s) (ne, e, u, (size, b)) =
      rw (eq_false_of_ne p null ne, e, from_raw_parts_lem w p size s ne b, u)

  to_env_storage_lem :
      (w : World X) (r : RawEnvStorage) (conf : PjAgentConf)
      → IsRaw w.heap r conf
      → to_env_storage r w ≡ done (storage_of conf) w
  unfolding to_env_storage
  to_env_storage_lem w r conf h = rw (
    exec_of_lem w r.phasicj_exec_ptr r.phasicj_exec_len conf.phasicj_exec h.exec,
    h.verbose,
    h.before_instr,
    h.after_instr,
  )

module _ {X : Type 0} {env : JvmtiTable X} (S : IsStorage env) (w : World X) where
  pub get_ptr_lem :
      get_ptr env w ≡ done (if S.slot w.host == null then none else some (S.slot w.host)) w
  unfolding get_ptr
  get_ptr_lem = rw (get_lem S w)

  -- A JVM whose slot is null has no configuration.
  pub of-none : S.slot w.host ≡ null → of env w ≡ done none w
  unfolding of read_storage
  of-none e = rw (get_ptr_lem, e)

  -- A stored configuration is read as it is, and reading changes nothing.
  pub of-stored :
      {conf : PjAgentConf} → IsStored S w conf → of env w ≡ done (some (storage_of conf)) w
  unfolding of read_storage
  of-stored {conf} h = rw (
    get_ptr_lem,
    eq_false_of_ne _ null h.storage_ne_null,
    read_raw_lem w (S.slot w.host) h.size h.struct h.storage_ne_null h.holds,
    to_env_storage_lem w h.struct conf h.is_raw,
  )
