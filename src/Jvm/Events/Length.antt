-- ===== src/Jvm/Events/Length.antt =====
-- The length of the class that `pj_class_file_load_hook` gives to the JVM.
use phasic_j.Base.{
  ℕ, ◌<◌, ◌^◌, inl, inr, Bool, true, false, Bool-cases, arith, Text, codes, Option, none, some, ltb,
  length, if◌then◌else◌,
}
use phasic_j.Conf.{PjAgentConf}
use phasic_j.Host.{Host}
use phasic_j.Jvm.Ends.{Returns, Returns-and_then}
use phasic_j.Jvm.Events.{
  Jint, NewClass, unchanged, replaced, starts_with, runtime_prefix, instrumenter, class_slice,
  class_name_of, expect_storage, dump_if, give_class, finish_hook, instrument_class,
  pj_class_file_load_hook,
}
use phasic_j.Instr.{instrument}
use phasic_j.Jvm.EnvStorage as EnvStorage
use phasic_j.Jvm.Jvmti.Calls
use phasic_j.Jvm.Jvmti.{JvmtiTable}
use phasic_j.Jvm.World.{World, M, pure, and_then, copy_nonoverlapping, to_signed}
use phasic_j.Panic.{Run, done, panicked, undefined}

-- The length is a `jint` that is not negative.
abbrev pub FitsJint : NewClass → Type 0
FitsJint unchanged = Unit
FitsJint (replaced p n) = n < 2 ^ 31

module _ {X : Type 0} where
  to_signed-fits : (n : ℕ) (w : World X) → Returns (λ m. m < 2 ^ 31) (to_signed 32 n w)
  unfolding to_signed
  to_signed-fits n w = elim (Bool-cases (ltb n (2 ^ 31))) [
    | inl e ↦ rw e (ground arith)
    | inr e ↦ rw e tt
  ]

  Returns-if :
      {A : Type 0} (Q : A → Type 0) (b : Bool) (m n : M X A) (w : World X)
      → Returns Q (m w)
      → Returns Q (n w)
      → Returns Q ((if b then m else n) w)
  Returns-if Q true m n w h k = h
  Returns-if Q false m n w h k = k

  -- What the length of a result says of the class that is made with it.
  replaced-FitsJint :
      (p : ℕ) (r : Run (World X) ℕ)
      → Returns (λ m. m < 2 ^ 31) r
      → Returns FitsJint (and_then r (λ len. pure (replaced p len)))
  replaced-FitsJint p (done n w) h = h
  replaced-FitsJint p (panicked e w) h = tt
  replaced-FitsJint p undefined h = tt

module _ {X : Type 0} (host : Host X) (env : JvmtiTable X) where
  give_class-FitsJint : (class : Text) (w : World X) → Returns FitsJint (give_class env class w)
  unfolding give_class
  give_class-FitsJint class w =
      Returns-and_then FitsJint (to_signed 64 (length class) w) _ λ size w₁.
        Returns-and_then FitsJint (Calls.allocate env size w₁) _ λ p w₂.
          Returns-and_then FitsJint (copy_nonoverlapping class p w₂) _ λ _ w₃.
            replaced-FitsJint p (to_signed 32 (length class) w₃) (to_signed-fits (length class) w₃)

  finish_hook-FitsJint :
      (conf : PjAgentConf) (name : Text) (r : Option Text) (w : World X)
      → Returns FitsJint (finish_hook host env conf name r w)
  unfolding finish_hook
  finish_hook-FitsJint conf name none w = tt
  finish_hook-FitsJint conf name (some class) w =
      Returns-and_then FitsJint
        (dump_if host conf.debug_dump_classes_after_instr (codes "classes/after_instr") name class
          w)
        _ λ _ w₁. give_class-FitsJint class w₁

  instrument_class-FitsJint :
      (conf : PjAgentConf) (name : Text) (len : Jint) (class : Text) (w : World X)
      → Returns FitsJint (instrument_class host env conf name len class w)
  unfolding instrument_class
  instrument_class-FitsJint conf name len buf w =
      Returns-and_then FitsJint (class_slice len buf w) _ λ class w₁.
        Returns-and_then FitsJint
          (dump_if host conf.debug_dump_classes_before_instr (codes "classes/before_instr") name
            class w₁)
          _
          λ _ w₂.
            Returns-and_then FitsJint
              (instrument host.processes (instrumenter conf.phasicj_exec) class w₂) _
              λ r w₃. finish_hook-FitsJint conf name r w₃

  -- On every host and JVM, whatever the class and the output of the program: a class that the hook
  -- gives to the JVM has a length below 2^31.
  pub hook-FitsJint :
      (name : Option Text) (len : Jint) (class : Text) (w : World X)
      → Returns FitsJint (pj_class_file_load_hook host env name len class w)
  unfolding pj_class_file_load_hook
  hook-FitsJint name len class w = Returns-and_then FitsJint (EnvStorage.of env w) _ λ storage w₁.
      Returns-and_then FitsJint (expect_storage storage w₁) _ λ conf w₂.
        Returns-and_then FitsJint (class_name_of name w₂) _ λ s w₃.
          Returns-if FitsJint (starts_with s runtime_prefix) (pure unchanged)
            (instrument_class host env conf s len class) w₃ tt
            (instrument_class-FitsJint conf s len class w₃)
