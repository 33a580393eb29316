-- ===== src/Java/Entry.antt =====
-- agent/instr/experimental/svm/Instrumenter.java: the functions that the isolate's library exports as
-- `svm_instr_instrument` and `svm_instr_free`.
pub mod Received
use phasic_j.Base.{ℕ, ◌^◌, ◌-◌, ◌+◌, Text, Option, none, some, [], ◌∷◌, take, length}
use phasic_j.Java.Classes.{Asm}
use phasic_j.Java.Cli.{instrumented}
use phasic_j.Jvm.Events.{nonneg}
use phasic_j.Svm.{Instrumented, InstrumentFn, FreeFn}

-- The memory of the process, as `UnmanagedMemory` and the pointers of GraalVM have it: an address of
-- 0 is null, and reading is a fault where it gives none.
pub record Memory (W : Type 0) : Type 0 where
  pub malloc : ℕ → W → ℕ × W
  pub free : ℕ → W → W
  pub read : ℕ → W → Option ℕ
  pub write : ℕ → ℕ → W → W

module _ {W : Type 0} (memory : Memory W) where
  -- The loop of `makeCCharBufferFrom`.
  unfoldable pub write_bytes : ℕ → Text → W → W
  write_bytes p [] w = w
  write_bytes p (b ∷ bs) w = write_bytes (p + 1) bs (memory.write p b w)

  abbrev pub make_c_char_buffer_from : Text → W → ℕ × W
  make_c_char_buffer_from bytes w =
      let (buf, w') = memory.malloc (length bytes) w in (buf, write_bytes buf bytes w')

  -- `free`
  unfoldable pub entry_free : FreeFn W
  entry_free isolate_thread ptr w = memory.free ptr w

  module _ (asm : Asm) (resource : Option Text) where
    -- The `char *` and the `int` are written on both ways out. The result -1 is read as the 32 bits
    -- of a `c_int`.
    abbrev pub answered : Option Text → W → Instrumented W
    answered none w = record {
      status = 2 ^ 32 - 1;
      size = some (nonneg 0);
      buffer = some 0;
      world = w;
    }
    answered (some out_bytes) w =
        let (p, w') = make_c_char_buffer_from out_bytes w in
        record { status = 0; size = some (nonneg (length out_bytes)); buffer = some p; world = w' }

    -- `instrument`, on the bytes at the address of the class.
    unfoldable pub entry : InstrumentFn W
    entry isolate_thread in_buf_size in_buf w =
        answered (instrumented asm resource (take in_buf_size in_buf)) w
