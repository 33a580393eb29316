-- ===== src/Jvm/Events/Memory.antt =====
-- When the class hook reads and writes only memory that it may.
use phasic_j.Base.{
  refl, ℕ, ◌≡◌, ◌≢◌, ◌<◌, ◌≤◌, ◌^◌, inl, inr, Bool, true, false, Bool-cases, Option-cases, arith,
  Text, codes, Option, none, some, [], ◌∷◌, ◌==◌, ltb, length, is_utf8, leb_refl,
}
use phasic_j.Conf.{PjAgentConf}
use phasic_j.Debug.{dump_class_to_file}
use phasic_j.Debug.Returns.{dump_class_to_file-IsDone}
use phasic_j.Host.{Host, Processes, Output}
use phasic_j.Instr.{Instrumenter, program, instrument, invoke_phasicj_agent_instrument_class}
use phasic_j.Jvm.Ends.{Meets, Any, Meets-and_then, Meets-try, IsDone-Meets, Meets-defined}
use phasic_j.Jvm.Events.Hook.{given}
use phasic_j.Jvm.RawEnvStorage.{null}
use phasic_j.Jvm.EnvStorage.Stored.{block, IsStored, of-stored}
use phasic_j.Jvm.Events.{
  NewClass, unchanged, replaced, Jint, nonneg, negative, starts_with, runtime_prefix, class_name_of,
  class_slice, expect_storage, dump_if, give_class, finish_hook, instrument_class,
  pj_class_file_load_hook,
}
use phasic_j.Jvm.Jvmti.{JvmtiTable}
use phasic_j.Jvm.Jvmti.Calls
use phasic_j.Jvm.Jvmti.Lawful.{IsStorage, allocated}
use phasic_j.Jvm.World.{
  lookup, bytes, World, block_at_lem, update_self, copy_nonoverlapping, to_signed,
}
use phasic_j.Panic.{undefined}

-- An answer that is no class, or a class with at least one byte.
abbrev pub IsFull : {X : Type 0} → Option Text → World X → Type 0
IsFull none w = Unit
IsFull (some s) w = 0 < length s

-- A class that the JVM is given is a block of its own memory, of the length that it is told, which
-- is between 1 and 2^31 - 1, and with that many bytes.
abbrev pub IsGiven : {X : Type 0} → NewClass → World X → Type 0
IsGiven unchanged w = Unit
IsGiven (replaced p n) w =
    (class : Text) × (n ≡ length class)
    × (0 < n)
    × (n < 2 ^ 31)
    × (p ≢ null)
    × (lookup w.heap p ≡ block n (bytes class))

-- A program that reports success has written something.
abbrev pub Writes : {X : Type 0} → Processes X → Type 0
Writes {X} os =
    (child : ℕ) (w : World X) (out : Output)
    → (os.wait_with_output child w).result ≡ some out
    → out.is_success ≡ true
    → 0 < length out.stdout

-- The bytes that a length stands for are in the buffer.
abbrev pub IsSlice : Jint → Text → Type 0
IsSlice (nonneg n) buf = n ≤ length buf
IsSlice (negative n) buf = Unit

module _ {X : Type 0} {env : JvmtiTable X} (S : IsStorage env) where
  to_signed-Meets :
      (n : ℕ) (w : World X) → Meets (λ m w'. (m ≡ n) × (m < 2 ^ 31) × (w' ≡ w)) (to_signed 32 n w)
  unfolding to_signed
  to_signed-Meets n w = elim (Bool-cases (ltb n (2 ^ 31))) [
    | inl e ↦ rw e (refl, ground arith, refl)
    | inr e ↦ rw e tt
  ]

  give_class-Meets :
      (class : Text) (w : World X) → 0 < length class → Meets IsGiven (give_class env class w)
  unfolding give_class to_signed copy_nonoverlapping Calls.allocate
  give_class-Meets class w pos = elim (Bool-cases (ltb (length class) (2 ^ 63))) [
    | inr e ↦ rw e tt
    | inl e ↦
        let nz : (length class == 0) ≡ false = ground arith in
        let p = S.place (length class) w in
        let ne = S.place_ne_null (length class) w pos in
        let Fits : ℕ → World X → Type 0 =
          λ m w'. (m ≡ length class) × (m < 2 ^ 31) × (w' ≡ given S w class) in
        rw
          (
            e,
            S.allocate_lem,
            nz,
            block_at_lem (allocated (length class) p w).heap p ne,
            update_self w.heap p,
            leb_refl (length class),
          )
          (Meets-and_then Fits IsGiven _ _ (to_signed-Meets (length class) (given S w class))
            λ n w' (same, small, left).
              (class, same, rw same pos, small, ne, rw (left, same) (update_self _ p _)))
  ]

module _ {X : Type 0} (host : Host X) {env : JvmtiTable X} (S : IsStorage env)
    (writes : Writes host.processes) where
  dump_if-Meets :
      (b : Bool) (dir name class : Text) (w : World X) → Meets Any (dump_if host b dir name class w)
  unfolding dump_if
  dump_if-Meets false dir name class w = tt
  dump_if-Meets true dir name class w =
      Meets-and_then Any Any (dump_class_to_file host.files dir name class w) _
        (IsDone-Meets _ (dump_class_to_file-IsDone host.files dir name class w))
        λ r w' _. elim (Option-cases r) [ inl e ↦ rw e tt | inr (a, e) ↦ rw e tt ]

  instrument-Meets :
      (i : Instrumenter) (class : Text) (w : World X)
      → Meets IsFull (instrument host.processes i class w)
  unfolding instrument invoke_phasicj_agent_instrument_class
  instrument-Meets i class w =
      let os = host.processes in
      let Ended : Option Output → World X → Type 0 =
        λ r _. (out : Output) → r ≡ some out → out.is_success ≡ true → 0 < length out.stdout in
      Meets-and_then Ended IsFull (invoke_phasicj_agent_instrument_class os i class w) _
        (Meets-try Ended
          (os.spawn (program i.phasicj_exec) (codes "agent" ∷ codes "instrument-class" ∷ [])) _ w
          (λ out e. cc)
          λ child _.
            Meets-try Ended (os.write_stdin child class) _ _ (λ out e. cc)
              λ _ _ out e. writes child _ out e)
        λ r w' full. elim (Option-cases r) [
          | inl e ↦ rw e tt
          | inr (out, e) ↦ elim (Bool-cases out.is_success) [
            | inl s ↦ rw (e, s) (full out e s)
            | inr s ↦ rw (e, s) tt
          ]
        ]

  finish_hook-Meets :
      (conf : PjAgentConf) (name : Text) (r : Option Text) (w : World X)
      → IsFull r w
      → Meets IsGiven (finish_hook host env conf name r w)
  unfolding finish_hook
  finish_hook-Meets conf name none w full = tt
  finish_hook-Meets conf name (some class) w full =
      Meets-and_then Any IsGiven _ _ (dump_if-Meets _ _ name class w)
        λ _ w₁ _. give_class-Meets S class w₁ full

  class_slice-Meets :
      (len : Jint) (buf : Text) (w : World X) → IsSlice len buf → Meets Any (class_slice len buf w)
  unfolding class_slice
  class_slice-Meets (negative n) buf w h = tt
  class_slice-Meets (nonneg n) buf w h = ground arith

  instrument_class-Meets :
      (conf : PjAgentConf) (name : Text) (len : Jint) (buf : Text) (w : World X)
      → IsSlice len buf
      → Meets IsGiven (instrument_class host env conf name len buf w)
  unfolding instrument_class
  instrument_class-Meets conf name len buf w h =
      Meets-and_then Any IsGiven _ _ (class_slice-Meets len buf w h) λ class w₁ _.
        Meets-and_then Any IsGiven _ _ (dump_if-Meets _ _ name class w₁) λ _ w₂ _.
          Meets-and_then IsFull IsGiven _ _ (instrument-Meets _ class w₂)
            λ r w₃ full. finish_hook-Meets conf name r w₃ full

  class_name_of-Meets : (s : Text) (w : World X) → Meets Any (class_name_of (some s) w)
  unfolding class_name_of
  class_name_of-Meets s w = elim (Bool-cases (is_utf8 s)) [ inl e ↦ rw e tt | inr e ↦ rw e tt ]

  -- With a stored configuration, for a class that has a name, whose bytes the JVM has given, and a
  -- program that never reports success without output: whatever the files and processes answer, the
  -- hook returns or panics and is never undefined, and a class that it gives to the JVM is a block
  -- of the JVM's memory, of the length that the JVM is told, between 1 and 2^31 - 1, that is filled
  -- to this length.
  pub hook-IsGiven :
      {conf : PjAgentConf} (name : Text) (len : Jint) (class : Text) (w : World X)
      → IsStored S w conf
      → IsSlice len class
      → Meets IsGiven (pj_class_file_load_hook host env (some name) len class w)
  unfolding pj_class_file_load_hook expect_storage
  hook-IsGiven {conf} name len class w stored h = rw (of-stored S w stored) (
      Meets-and_then Any IsGiven _ _ (class_name_of-Meets name w) λ s w₁ _.
        elim (Bool-cases (starts_with s runtime_prefix)) [
          | inl e ↦ rw e tt
          | inr e ↦ rw e (instrument_class-Meets conf s len class w₁ h)
        ])

  -- So the hook is not undefined.
  pub hook-defined :
      {conf : PjAgentConf} (name : Text) (len : Jint) (class : Text) (w : World X)
      → IsStored S w conf
      → IsSlice len class
      → pj_class_file_load_hook host env (some name) len class w ≢ undefined
  hook-defined name len class w stored h =
      Meets-defined IsGiven (pj_class_file_load_hook host env (some name) len class w)
        (hook-IsGiven name len class w stored h)
