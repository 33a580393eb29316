-- ===== src/Jvm/EnvStorage.antt =====
-- agent/jvm/env_storage.rs: the configuration in the environment-local storage of the JVM.
pub mod Cell
pub mod Copy
pub mod Free
pub mod Init
pub mod Kept
pub mod Reads
pub mod Stored
use phasic_j.Base.{
  ℕ, zero, suc, ◌%◌, Bool, true, false, Text, Option, none, some, ◌==◌, if◌then◌else◌, length,
  is_utf8,
}
use phasic_j.Conf.{PjAgentConf}
use phasic_j.Jvm.Jvmti.{JvmtiTable}
use phasic_j.Jvm.Jvmti.Calls as Jvmti
use phasic_j.Jvm.RawEnvStorage.{Ptr, null, RawEnvStorage, raw_size, raw_align}
use phasic_j.Jvm.World.{
  M, pure, fail, ◌>>=◌, ◌>>◌, write_raw, read_raw, copy_nonoverlapping, from_raw_parts, to_signed,
}
use phasic_j.Panic.{invalid_utf8, already_initialized, not_initialized, zero_sized, misaligned}

pub record EnvStorage : Type 0 where
  pub conf : PjAgentConf

-- `is_jvmti_allocation_aligned`
unfoldable pub is_jvmti_allocation_aligned : Ptr → Bool
is_jvmti_allocation_aligned p = p % raw_align == 0

module _ {X : Type 0} where
  -- `str::from_utf8(buf).unwrap()`
  unfoldable pub text_of : Text → M X Text
  text_of buf = if is_utf8 buf then pure buf else fail invalid_utf8

  -- The executable's path, behind a pointer that may be null.
  unfoldable pub exec_of : Ptr → ℕ → M X (Option Text)
  exec_of p n =
      if p == null
      then pure none
      else do buf ← from_raw_parts p n; text ← text_of buf; pure (some text)

  unfoldable pub to_env_storage : RawEnvStorage → M X EnvStorage
  to_env_storage r = do
    exec ← exec_of r.phasicj_exec_ptr r.phasicj_exec_len
    pure (record {
      conf = record {
        verbose = r.verbose;
        phasicj_exec = exec;
        debug_dump_classes_before_instr = r.debug_dump_classes_before_instr;
        debug_dump_classes_after_instr = r.debug_dump_classes_after_instr;
      };
    })

module _ {X : Type 0} (env : JvmtiTable X) where
  -- `allocate`
  unfoldable pub allocate : ℕ → M X Ptr
  allocate size =
      if size == 0 then fail zero_sized else (do n ← to_signed 64 size; Jvmti.allocate env n)

  -- `allocate_type`, at `RawEnvStorage`
  unfoldable pub allocate_type : M X Ptr
  allocate_type = do
    buf ← allocate raw_size
    if is_jvmti_allocation_aligned buf then pure buf else fail misaligned

  -- The match of `from_conf`: the pointer and the length of a copy of the path.
  unfoldable pub copy_exec : Option Text → M X (Ptr × ℕ)
  copy_exec none = pure (null, 0)
  copy_exec (some s) = do p ← allocate (length s); copy_nonoverlapping s p; pure (p, length s)

  unfoldable pub from_conf : PjAgentConf → M X RawEnvStorage
  from_conf given = do
    (p, n) ← copy_exec given.phasicj_exec
    pure (record {
      verbose = given.verbose;
      phasicj_exec_ptr = p;
      phasicj_exec_len = n;
      debug_dump_classes_before_instr = given.debug_dump_classes_before_instr;
      debug_dump_classes_after_instr = given.debug_dump_classes_after_instr;
    })

  unfoldable pub get_ptr : M X (Option Ptr)
  get_ptr = do
    p ← Jvmti.get_environment_local_storage env
    pure (if p == null then none else some p)

  -- The rest of `of`, at the pointer that it got.
  unfoldable pub read_storage : Option Ptr → M X (Option EnvStorage)
  read_storage none = pure none
  read_storage (some p) = do r ← read_raw p; storage ← to_env_storage r; pure (some storage)

  -- `EnvStorage::of`
  unfoldable pub of : M X (Option EnvStorage)
  of = do p ← get_ptr; read_storage p

  -- The rest of `init`, behind its check.
  unfoldable pub store_conf : PjAgentConf → M X (Unit {0})
  store_conf conf = do
    storage ← allocate_type
    r ← from_conf conf
    write_raw storage r
    Jvmti.set_environment_local_storage env storage

  unfoldable pub init_at : PjAgentConf → Option EnvStorage → M X (Unit {0})
  init_at conf (some _) = fail already_initialized
  init_at conf none = store_conf conf

  -- `EnvStorage::init`
  unfoldable pub init : PjAgentConf → M X (Unit {0})
  init conf = do old ← of; init_at conf old

  -- The inner allocation of `free`.
  unfoldable pub free_exec : Ptr → M X (Unit {0})
  free_exec p = if p == null then pure tt else Jvmti.deallocate env p

  unfoldable pub free_at : Option Ptr → M X (Unit {0})
  free_at none = fail not_initialized
  free_at (some p) = do
    r ← read_raw p
    free_exec r.phasicj_exec_ptr
    Jvmti.set_environment_local_storage env null

  -- `EnvStorage::free`
  unfoldable pub free : M X (Unit {0})
  free = do p ← get_ptr; free_at p
