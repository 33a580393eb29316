-- ===== src/Java/Cli/Hooked.antt =====
-- The class hook of the agent together with the program `phasicj`.
use phasic_j.Base.{
  codes, ◌≡◌, ◌<◌, ◌^◌, refl, arith, true, false, Bool-cases, inl, inr, Text, Option, none, some,
  Option-cases, [], ◌∷◌, length, is_utf8, if◌then◌else◌,
}
use phasic_j.Conf.{PjAgentConf}
use phasic_j.Host.{Host, Processes}
use phasic_j.Instr.{Instrumenter}
use phasic_j.Instr.Outcome.{Ran}
use phasic_j.Java.Classes.{Class, Asm}
use phasic_j.Java.Cli.{has_magic_number, appears_to_be_class_data, instrumented, main, finished}
use phasic_j.Java.Instrument.{instrument, get_instrumenter, visit_class, MonitorInsnInstrumenter}
use phasic_j.Jvm.EnvStorage.Stored.{IsStored}
use phasic_j.Jvm.Events.{
  nonneg, unchanged, replaced, NewClass, starts_with, runtime_prefix, instrumenter, dump_if,
  pj_class_file_load_hook,
}
use phasic_j.Jvm.Events.Hook.{given, hook-replaced, hook-not_instrumented}
use phasic_j.Jvm.Jvmti.{JvmtiTable}
use phasic_j.Jvm.Jvmti.Lawful.{IsStorage}
use phasic_j.Jvm.World.{World}
use phasic_j.Panic.{Run, done}

-- What is relied on of ASM's writer: its array begins with the magic number of a class, and has less
-- than 2^31 bytes, as every array of Java.
pub record IsAsm (asm : Asm) : Type 0 where
  pub write_magic : (c : Class) {out : Text} → asm.write c ≡ some out → has_magic_number out ≡ true
  pub write_small : (c : Class) {out : Text} → asm.write c ≡ some out → length out < 2 ^ 31

-- The class that the program prints, if it prints one.
unfoldable pub class_of : Asm → Option Text → Text → Option Text
class_of asm resource class_data =
    if appears_to_be_class_data class_data then instrumented asm resource class_data else none

-- The configured program is `phasicj`: it can be started, reads the whole class, and ends.
pub record RunsPhasicj {X : Type 0} (os : Processes X) (i : Instrumenter) (asm : Asm)
    (resource : Option Text) : Type 0 where
  pub after : Text → World X → World X
  pub runs :
      (class : Text) (w : World X)
      → Ran os i class w (finished (main asm resource (some class))) (after class w)

has_magic_number-pos : (s : Text) → has_magic_number s ≡ true → 0 < length s
unfolding has_magic_number
has_magic_number-pos [] h = cc
has_magic_number-pos (c ∷ s) h = omega arith

module _ {asm : Asm} (A : IsAsm asm) (resource : Option Text) where
  -- A class that the program prints has between 1 and 2^31 - 1 bytes.
  instrument-size :
      (i : MonitorInsnInstrumenter) (class : Text) {out : Text}
      → instrument asm i class ≡ some out
      → (0 < length out) × (length out < 2 ^ 31)
  unfolding instrument
  instrument-size i class {out} e = elim (Option-cases (asm.read class)) [
    | inl f ↦ cc (rw f at e)
    | inr (c, f) ↦ elim (Option-cases (visit_class asm i c)) [
      | inl g ↦ cc (rw (f, g) at e)
      | inr (c', g) ↦
          let wrote = rw (f, g) at e in
          (has_magic_number-pos out (A.write_magic c' wrote), A.write_small c' wrote)
    ]
  ]

  -- What the program's end says of the class.
  pub finished-some :
      (class : Text) {out : Text}
      → class_of asm resource class ≡ some out
      → finished (main asm resource (some class)) ≡ record { is_success = true; stdout = out }
  unfolding class_of main
  finished-some class {out} e = elim (Bool-cases (appears_to_be_class_data class)) [
    | inr m ↦ cc (rw m at e)
    | inl m ↦ let f = rw m at e in rw (m, f) refl
  ]

  finished-none :
      (class : Text)
      → class_of asm resource class ≡ none
      → (finished (main asm resource (some class))).is_success ≡ false
  unfolding class_of main
  finished-none class e = elim (Bool-cases (appears_to_be_class_data class)) [
    | inr m ↦ rw m refl
    | inl m ↦ let f = rw m at e in rw (m, f) refl
  ]

  pub class_of-size :
      (class : Text) {out : Text}
      → class_of asm resource class ≡ some out
      → (0 < length out) × (length out < 2 ^ 31)
  unfolding class_of
  class_of-size class e = elim (Bool-cases (appears_to_be_class_data class)) [
    | inr m ↦ cc (rw m at e)
    | inl m ↦ elim (Option-cases (get_instrumenter asm resource)) [
      | inl g ↦ cc (rw (m, g) at e)
      | inr (i, g) ↦ instrument-size i class (rw (m, g) at e)
    ]
  ]

  module _ {X : Type 0} (host : Host X) {env : JvmtiTable X} (S : IsStorage env) {w : World X}
      {conf : PjAgentConf} (stored : IsStored S w conf)
      (P : RunsPhasicj host.processes (instrumenter conf.phasicj_exec) asm resource)
      (name class : Text) where
    -- The dump of a class behind the instrumentation succeeds, if it is asked for.
    abbrev pub Dumped : Text → World X → World X → Type 0
    Dumped out w₂ w₃ =
        dump_if host conf.debug_dump_classes_after_instr (codes "classes/after_instr") name out w₂
        ≡ done tt w₃

    -- How the hook ends behind the run of the program, for the class that it prints.
    abbrev pub Hooked : Option Text → World X → Run (World X) NewClass → Type 0
    Hooked none w₂ r = r ≡ done unchanged w₂
    Hooked (some out) w₂ r =
        (w₃ : World X) × Dumped out w₂ w₃
        × (r ≡ done (replaced (S.place (length out) w₃) (length out)) (given S w₃ out))

    -- With a stored configuration whose program is phasicj, which can be started, reads the whole
    -- class and ends, for a class whose name is UTF-8 and outside the agent's runtime: if the dumps
    -- that are asked for succeed, the hook gives the JVM a new block of memory with exactly the
    -- class that the instrumenter makes; if the bytes have no magic number, or the instrumenter
    -- throws, it leaves the class as it is.
    pub hook-phasicj :
        {w₁ : World X}
        → is_utf8 name ≡ true
        → starts_with name runtime_prefix ≡ false
        → dump_if host conf.debug_dump_classes_before_instr
            (codes "classes/before_instr")
            name
            class
            w
          ≡ done tt w₁
        → ((out : Text)
            → class_of asm resource class ≡ some out
            → (w₃ : World X) × Dumped out (P.after class w₁) w₃)
        → Hooked
            (class_of asm resource class)
            (P.after class w₁)
            (pj_class_file_load_hook host env (some name) (nonneg (length class)) class w)
    hook-phasicj {w₁} u other before dumps = elim (Option-cases (class_of asm resource class)) [
      | inl e ↦ rw e (
          hook-not_instrumented host S w stored name class u other before (P.runs class w₁)
            (finished-none class e))
      | inr (out, e) ↦
          let (pos, small) = class_of-size class e in
          let ran = rw (finished-some class e) at (P.runs class w₁) in
          let (w₃, dumped) = dumps out e in
          rw e (
            w₃,
            dumped,
            hook-replaced host S w stored name class u other before ran refl dumped pos small,
          )
    ]
