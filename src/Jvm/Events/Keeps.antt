-- ===== src/Jvm/Events/Keeps.antt =====
-- What the callbacks leave of the stored configuration and of the agent's memory.
use phasic_j.Base.{
  ℕ, ◌<◌, ◌^◌, ◌∙◌, inl, inr, Bool, true, false, Bool-cases, arith, Text, codes, Option, none, some,
  [], ◌∷◌, ◌==◌, ltb, length, is_utf8, leb_refl,
}
use phasic_j.Conf.{PjAgentConf}
use phasic_j.Debug.{dump_path, dump_below, dump_class_to_file}
use phasic_j.FilePath.{parent}
use phasic_j.Host.{Host, JniTable, io, unwrap_io}
use phasic_j.Instr.{Instrumenter, program, instrument, invoke_phasicj_agent_instrument_class}
use phasic_j.Jvm.Ends.{Ends, Ends-and_then, Ends-try, Ends-if}
use phasic_j.Jvm.EnvStorage.Copy.{ne_of_fresh}
use phasic_j.Jvm.EnvStorage.Kept.{
  Undisturbed, Undisturbed-refl, Undisturbed-trans, allocated-Undisturbed,
}
use phasic_j.Jvm.EnvStorage.{EnvStorage}
use phasic_j.Jvm.EnvStorage.Reads.{of-Ends}
use phasic_j.Jvm.Events.{
  Jint, nonneg, negative, unchanged, starts_with, runtime_prefix, class_name_of, class_slice,
  expect_storage, dump_if, give_class, finish_hook, instrument_class, pj_class_file_load_hook,
}
use phasic_j.Jvm.Events.Hook.{given}
use phasic_j.Jvm.Jvmti.{JvmtiTable}
use phasic_j.Jvm.Jvmti.Calls
use phasic_j.Jvm.Jvmti.Lawful.{IsStorage, allocated}
use phasic_j.Jvm.World.{
  World, pure, fail, block_at, block_at_lem, update_self, update_ne, copy_nonoverlapping, to_signed,
}
use phasic_j.Panic.{Run, done, panicked, undefined, failed_conversion, null_result}
use phasic_j.Jvm.Harmless.{AreHarmless}

module _ {X : Type 0} {env : JvmtiTable X} (S : IsStorage env) where
  given-Undisturbed :
      (class : Text) (w : World X) → 0 < length class → Undisturbed S w (given S w class)
  given-Undisturbed class w pos =
      let a = allocated-Undisturbed S (length class) w pos in
      record {
        slot = a.slot;
        keeps = λ q b e.
            update_ne (allocated (length class) (S.place (length class) w) w).heap
              (S.place (length class) w) q _
              (ne_of_fresh w.heap (S.place (length class) w) q (S.place_fresh (length class) w pos)
                e)
            ∙ a.keeps q b e;
      }

  to_signed-Ends :
      (P : World X → Type 0) (bits n : ℕ) (w : World X) → P w → Ends P (to_signed bits n w)
  unfolding to_signed
  to_signed-Ends P bits n w h = Ends-if P _ (pure n) (fail failed_conversion) w h h

  give_class-Ends : (class : Text) (w : World X) → Ends (Undisturbed S w) (give_class env class w)
  unfolding give_class to_signed copy_nonoverlapping Calls.allocate block_at
  give_class-Ends class w = elim (Bool-cases (ltb (length class) (2 ^ 63))) [
    | inr e ↦ rw e (Undisturbed-refl S w)
    | inl e ↦ elim (Bool-cases (length class == 0)) [
      | inl z ↦ rw (e, S.allocate_lem, z) tt
      | inr nz ↦
          let pos : 0 < length class = ground arith in
          let p = S.place (length class) w in
          rw
            (
              e,
              S.allocate_lem,
              nz,
              block_at_lem (allocated (length class) p w).heap p
                  (S.place_ne_null (length class) w pos),
              update_self w.heap p,
              leb_refl (length class),
            )
            (Ends-and_then (Undisturbed S w) _ _
              (to_signed-Ends (Undisturbed S w) 32 (length class) (given S w class)
                (given-Undisturbed class w pos))
              (λ n w' h. h))
    ]
  ]

Ends-weaken :
    {X A : Type 0} {env : JvmtiTable X} (S : IsStorage env) {u v : World X}
    → Undisturbed S u v
    → (r : Run (World X) A) → Ends (Undisturbed S v) r
    → Ends (Undisturbed S u) r
Ends-weaken S h (done a w) e = Undisturbed-trans S h e
Ends-weaken S h (panicked p w) e = Undisturbed-trans S h e
Ends-weaken S h undefined e = tt

module _ {X : Type 0} {env : JvmtiTable X} (S : IsStorage env) (host : Host X) {jni : JniTable X}
    (H : AreHarmless S host.files host.processes jni) (w₀ : World X) where
  -- What the world may have become since `w₀`.
  abbrev Since : World X → Type 0
  Since = Undisturbed S w₀

  dump_below-Ends :
      (path class : Text) (dir : Option Text) (w : World X)
      → Since w
      → Ends Since (dump_below host.files path class dir w)
  unfolding dump_below
  dump_below-Ends path class none w h = h
  dump_below-Ends path class (some dir) w h =
      Ends-try Since (io (host.files.create_dir_all dir)) _ w
        (Undisturbed-trans S h (H.create_dir_all dir w))
        λ _ w₁ h₁.
          Ends-try Since (io (host.files.create path)) _ w₁
            (Undisturbed-trans S h₁ (H.create path w₁))
            λ fd w₂ h₂.
              Ends-try Since (io (host.files.write_all fd class)) _ w₂
                (Undisturbed-trans S h₂ (H.write_all fd class w₂)) λ _ w₃ h₃. h₃

  unwrap_io-Ends : (r : Option (Unit {0})) (w : World X) → Since w → Ends Since (unwrap_io r w)
  unwrap_io-Ends none w h = h
  unwrap_io-Ends (some tt) w h = h

  dump_if-Ends :
      (b : Bool) (dir name class : Text) (w : World X)
      → Since w
      → Ends Since (dump_if host b dir name class w)
  unfolding dump_if dump_class_to_file
  dump_if-Ends false dir name class w h = h
  dump_if-Ends true dir name class w h =
      Ends-and_then Since _ _
        (dump_below-Ends (dump_path dir name) class (parent (dump_path dir name)) w h)
        unwrap_io-Ends

  instrument-Ends :
      (i : Instrumenter) (class : Text) (w : World X)
      → Since w
      → Ends Since (instrument host.processes i class w)
  unfolding instrument invoke_phasicj_agent_instrument_class
  instrument-Ends i class w h =
      Ends-try Since (invoke_phasicj_agent_instrument_class host.processes i class) _ w
        (Ends-try Since
          (io (
            host.processes.spawn (program i.phasicj_exec)
              (codes "agent" ∷ codes "instrument-class" ∷ [])))
          _ w (Undisturbed-trans S h (H.spawn _ _ w))
          λ child w₁ h₁.
            Ends-try Since (io (host.processes.write_stdin child class)) _ w₁
              (Undisturbed-trans S h₁ (H.write_stdin child class w₁))
              λ _ w₂ h₂. Undisturbed-trans S h₂ (H.wait_with_output child w₂))
        λ out w' h'. Ends-if Since out.is_success (pure (some out.stdout)) (pure none) w' h' h'

  finish_hook-Ends :
      (conf : PjAgentConf) (name : Text) (r : Option Text) (w : World X)
      → Since w
      → Ends Since (finish_hook host env conf name r w)
  unfolding finish_hook
  finish_hook-Ends conf name none w h = h
  finish_hook-Ends conf name (some class) w h =
      Ends-and_then Since _ _ (dump_if-Ends _ _ name class w h)
        λ _ w₁ h₁. Ends-weaken S h₁ (give_class env class w₁) (give_class-Ends S class w₁)

  class_slice-Ends :
      (len : Jint) (buf : Text) (w : World X) → Since w → Ends Since (class_slice len buf w)
  unfolding class_slice
  class_slice-Ends (negative n) buf w h = h
  class_slice-Ends (nonneg n) buf w h = ground arith

  instrument_class-Ends :
      (conf : PjAgentConf) (name : Text) (len : Jint) (class : Text) (w : World X)
      → Since w
      → Ends Since (instrument_class host env conf name len class w)
  unfolding instrument_class
  instrument_class-Ends conf name len buf w h =
      Ends-and_then Since _ _ (class_slice-Ends len buf w h) λ class w₁ h₁.
        Ends-and_then Since _ _ (dump_if-Ends _ _ name class w₁ h₁) λ _ w₂ h₂.
          Ends-and_then Since _ _ (instrument-Ends _ class w₂ h₂)
            λ r w₃ h₃. finish_hook-Ends conf name r w₃ h₃

  class_name_of-Ends :
      (name : Option Text) (w : World X) → Since w → Ends Since (class_name_of name w)
  unfolding class_name_of
  class_name_of-Ends none w h = tt
  class_name_of-Ends (some s) w h = Ends-if Since (is_utf8 s) (pure s) (fail null_result) w h h

  expect_storage-Ends :
      (s : Option EnvStorage) (w : World X) → Since w → Ends Since (expect_storage s w)
  unfolding expect_storage
  expect_storage-Ends none w h = h
  expect_storage-Ends (some s) w h = h

  -- What the class hook leaves, if it returns or panics, keeps the slot and the blocks.
  pub hook-Ends :
      (name : Option Text) (len : Jint) (class : Text)
      → Ends Since (pj_class_file_load_hook host env name len class w₀)
  unfolding pj_class_file_load_hook
  hook-Ends name len class = Ends-and_then Since _ _ (of-Ends S w₀) λ storage w₁ h₁.
      Ends-and_then Since _ _ (expect_storage-Ends storage w₁ h₁) λ conf w₂ h₂.
        Ends-and_then Since _ _ (class_name_of-Ends name w₂ h₂) λ s w₃ h₃.
          Ends-if Since (starts_with s runtime_prefix) (pure unchanged)
            (instrument_class host env conf s len class) w₃ h₃
            (instrument_class-Ends conf s len class w₃ h₃)
