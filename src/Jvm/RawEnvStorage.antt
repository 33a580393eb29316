-- ===== src/Jvm/RawEnvStorage.antt =====
-- The layout of `RawEnvStorage` of agent/jvm/env_storage.rs, the struct that is kept in memory of the
-- JVM.
use phasic_j.Base.{ℕ, Bool}

-- An address; `null` is 0.
abbrev pub Ptr : Type 0
Ptr = ℕ

abbrev pub null : Ptr
null = 0

pub record RawEnvStorage : Type 0 where
  pub verbose : Bool
  pub phasicj_exec_ptr : Ptr
  pub phasicj_exec_len : ℕ
  pub debug_dump_classes_before_instr : Bool
  pub debug_dump_classes_after_instr : Bool

-- `mem::size_of` and `mem::align_of` of the struct on a 64-bit target: a `bool`, a pointer, a
-- `usize` and two `bool`s under `repr(C)`.
abbrev pub raw_size : ℕ
raw_size = 32

abbrev pub raw_align : ℕ
raw_align = 8
