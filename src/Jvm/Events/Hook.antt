-- ===== src/Jvm/Events/Hook.antt =====
-- What `pj_class_file_load_hook` does to a class.
use phasic_j.Base.{
  ◌≡◌, refl, [], ◌<◌, ◌^◌, ◌∙◌, true, false, Text, Option, none, some, arith, ◌==◌, length,
  take-length, codes, is_utf8, leb_refl, ltb_of_lt,
}
use phasic_j.Conf.{PjAgentConf}
use phasic_j.Host.{Host, Output}
use phasic_j.Instr.Outcome.{Ran, answer, instrument-Ran}
use phasic_j.Jvm.EnvStorage.Stored.{block, IsStored, of-none, of-stored}
use phasic_j.Jvm.Events.{
  Jint, nonneg, unchanged, replaced, starts_with, runtime_prefix, instrumenter, class_name_of,
  class_slice, expect_storage, dump_if, give_class, finish_hook, instrument_class,
  pj_class_file_load_hook,
}
use phasic_j.Jvm.Jvmti.{JvmtiTable}
use phasic_j.Jvm.Jvmti.Calls
use phasic_j.Jvm.Jvmti.Lawful.{IsStorage, allocated}
use phasic_j.Jvm.Jvmti.Storage.{allocate_ok}
use phasic_j.Jvm.RawEnvStorage.{null}
use phasic_j.Jvm.World.{
  World, bytes, update, update_self, block_at, block_at_lem, copy_nonoverlapping, to_signed,
}
use phasic_j.Panic.{done, panicked, undefined, not_initialized}

module _ {X : Type 0} {env : JvmtiTable X} (S : IsStorage env) (w : World X) where
  -- The world in which the JVM has a copy of a class.
  abbrev pub given : Text → World X
  given class =
      let p = S.place (length class) w in
      record w {
        heap = update (allocated (length class) p w).heap p (block (length class) (bytes class));
      }

  -- An empty class is copied to the null pointer that `Allocate` gives for no bytes.
  give_class-empty : give_class env [] w ≡ undefined
  unfolding give_class to_signed copy_nonoverlapping Calls.allocate block_at
  give_class-empty = rw S.allocate_lem refl

  pub give_class_lem :
      (class : Text)
      → 0 < length class
      → length class < 2 ^ 31
      → give_class env class w
        ≡ done (replaced (S.place (length class) w) (length class)) (given class)
  unfolding give_class to_signed copy_nonoverlapping
  give_class_lem class pos small =
      let n = length class in
      let nz : (n == 0) ≡ false = ground arith in
      let wide : n < 2 ^ 63 = omega arith in
      rw (
        ltb_of_lt n (2 ^ 63) wide,
        allocate_ok S w n nz,
        block_at_lem (allocated n (S.place n w) w).heap (S.place n w) (S.place_ne_null n w pos),
        update_self w.heap (S.place n w),
        leb_refl n,
        ltb_of_lt n (2 ^ 31) small,
      )

module _ {X : Type 0} (host : Host X) {env : JvmtiTable X} (S : IsStorage env) (w : World X)
    {conf : PjAgentConf} (stored : IsStored S w conf) where
  -- With a stored configuration, a class whose name is UTF-8 and begins with the prefix of the
  -- agent's own runtime is left as it is, whatever the configuration and the class data, and the
  -- world is unchanged.
  pub hook-runtime_class :
      (name : Text) (len : Jint) (class : Text)
      → is_utf8 name ≡ true
      → starts_with name runtime_prefix ≡ true
      → pj_class_file_load_hook host env (some name) len class w ≡ done unchanged w
  unfolding pj_class_file_load_hook expect_storage class_name_of
  hook-runtime_class name len class u p = rw (of-stored S w stored, u, p)

  -- With a stored configuration, the behaviour of the hook on a class without a name is undefined:
  -- it reads a null pointer.
  pub hook-no_name :
      (len : Jint) (class : Text) → pj_class_file_load_hook host env none len class w ≡ undefined
  unfolding pj_class_file_load_hook expect_storage class_name_of
  hook-no_name len class = rw (of-stored S w stored)

  module _ (name class : Text) (u : is_utf8 name ≡ true)
      (other : starts_with name runtime_prefix ≡ false) where
    -- The hook is the three steps of `instrument_class`.
    pub hook-instrument_class :
        (len : Jint)
        → pj_class_file_load_hook host env (some name) len class w
          ≡ instrument_class host env conf name len class w
    unfolding pj_class_file_load_hook expect_storage class_name_of
    hook-instrument_class len = rw (of-stored S w stored, u, other)

    module _ {w₁ w₂ : World X} {out : Output}
        (before : dump_if host conf.debug_dump_classes_before_instr
            (codes "classes/before_instr")
            name
            class
            w
          ≡ done tt w₁)
        (ran : Ran host.processes (instrumenter conf.phasicj_exec) class w₁ out w₂) where
      -- The hook behind the run of the program.
      hook-finish :
          pj_class_file_load_hook host env (some name) (nonneg (length class)) class w
          ≡ finish_hook host env conf name (answer out) w₂
      unfolding instrument_class class_slice
      hook-finish =
          hook-instrument_class (nonneg (length class))
          ∙ rw (
            leb_refl (length class),
            take-length class,
            before,
            instrument-Ran host.processes _ class w₁ ran,
          )

      -- With a stored configuration, for a class whose name is UTF-8 and outside the agent's
      -- runtime: if the dump before the instrumentation succeeds where it is asked for, and the
      -- configured program ends and reports a failure, the class is left as it is.
      pub hook-not_instrumented :
          out.is_success ≡ false
          → pj_class_file_load_hook host env (some name) (nonneg (length class)) class w
            ≡ done unchanged w₂
      unfolding finish_hook
      hook-not_instrumented fails = hook-finish ∙ rw fails

      -- With a stored configuration, for a class whose name is UTF-8 and outside the agent's
      -- runtime: if the dumps that are asked for succeed and the configured program ends and
      -- reports success, with an output of between 1 and 2^31 - 1 bytes, the JVM is given a new
      -- block of memory with exactly the program's output, and its length.
      pub hook-replaced :
          {w₃ : World X}
          → out.is_success ≡ true
          → dump_if host conf.debug_dump_classes_after_instr
              (codes "classes/after_instr")
              name
              out.stdout
              w₂
            ≡ done tt w₃
          → 0 < length out.stdout
          → length out.stdout < 2 ^ 31
          → pj_class_file_load_hook host env (some name) (nonneg (length class)) class w
            ≡ done
                (replaced (S.place (length out.stdout) w₃) (length out.stdout))
                (given S w₃ out.stdout)
      unfolding finish_hook
      hook-replaced {w₃} success after pos small =
          hook-finish ∙ rw (success, after) (give_class_lem S w₃ out.stdout pos small)

      -- With a stored configuration, for a class whose name is UTF-8 and outside the agent's
      -- runtime: if the dumps that are asked for succeed, and the program reports success with an
      -- empty output, the behaviour of the hook is undefined, as it copies to the null pointer that
      -- Allocate gives for no bytes.
      pub hook-empty_output :
          {w₃ : World X}
          → out ≡ record { is_success = true; stdout = [] }
          → dump_if host conf.debug_dump_classes_after_instr
              (codes "classes/after_instr")
              name
              []
              w₂
            ≡ done tt w₃
          → pj_class_file_load_hook host env (some name) (nonneg (length class)) class w ≡ undefined
      unfolding finish_hook
      hook-empty_output {w₃} empty after = hook-finish ∙ rw (empty, after, give_class-empty S w₃)

module _ {X : Type 0} (host : Host X) {env : JvmtiTable X} (S : IsStorage env) (w : World X) where
  -- Without a stored configuration the hook panics, whatever the class.
  pub hook-not_initialized :
      (name : Option Text) (len : Jint) (class : Text)
      → S.slot w.host ≡ null
      → pj_class_file_load_hook host env name len class w ≡ panicked not_initialized w
  unfolding pj_class_file_load_hook expect_storage
  hook-not_initialized name len class empty = rw (of-none S w empty)
