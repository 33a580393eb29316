-- ===== src/Agent/Life/Observed.antt =====
-- From a loaded class to the events of its methods: the agent, the program `phasicj`, and the
-- runtime in Java together.
use mathlib.Core.Option.{some-injective}
use phasic_j.Base.{
  ℕ, ◌+◌, ◌≡◌, refl, sym, ap, ◌∙◌, arith, Bool, true, false, Text, codes, text_eq, Option, some,
  Option-cases, inl, inr, List, ◌∷◌, ◌++◌, length, is_utf8,
}
use phasic_j.Agent.Life.{Reach, here, next, class_file_load_hook, IsAlive, Reach-IsAlive}
use phasic_j.Conf.{PjAgentConf}
use phasic_j.Host.{Host, JniTable}
use phasic_j.Java.Classes.{Class, Method, Asm}
use phasic_j.Java.Cli.{has_magic_number}
use phasic_j.Java.Cli.Hooked.{IsAsm, RunsPhasicj, class_of, finished-some, class_of-size}
use phasic_j.Java.Instrument.{
  Amendment, object_class, visit_method, visit_methods, new_amendment, rename_class,
  get_instrumenter,
}
use phasic_j.Java.Instrument.Flow.{Runs, IsPending}
use phasic_j.Java.Instrument.Flow.Quiet.{HasNoCalls}
use phasic_j.Java.Instrument.Trace.{Event}
use phasic_j.Java.Instrument.Whole.{instrument-apart, visit_methods-append}
use phasic_j.Java.Runtime.{AgentRt, enable_object_instrumentation}
use phasic_j.Java.Runtime.Counted.{execute-instrument_body}
use phasic_j.Java.Runtime.Sends.{locks_in, unlocks_in, enters_in, exits_in, Sends}
use phasic_j.Jvm.Events.{
  nonneg, replaced, starts_with, runtime_prefix, instrumenter, dump_if, pj_class_file_load_hook,
}
use phasic_j.Jvm.Events.Hook.{given, hook-replaced}
use phasic_j.Jvm.Harmless.{AreHarmless}
use phasic_j.Jvm.Jvmti.{JvmtiTable}
use phasic_j.Jvm.Jvmti.Lawful.{IsStorage}
use phasic_j.Jvm.World.{World}
use phasic_j.Panic.{done}
use phasic_j.Recorder.Steps as Recording

-- The amendment of java.lang.Object, from the bytes of its class.
abbrev pub object_amendment : Asm → Text → Option Amendment
object_amendment asm amendment_class =
    new_amendment asm object_class (codes "phasicj$agent$rt$") amendment_class
      (codes "phasicj/agent/rt/JavaLangObjectAmendment")

object_amendment-class :
    (asm : Asm) (bytes : Text) {a : Amendment}
    → object_amendment asm bytes ≡ some a
    → a.class_to_amend ≡ object_class
unfolding new_amendment
object_amendment-class asm bytes {a} e =
    elim (Option-cases
      (rename_class asm (codes "phasicj/agent/rt/JavaLangObjectAmendment") bytes object_class)) [
        | inl f ↦ cc (rw f at e)
        | inr (renamed, f) ↦ sym (ap (λ x. x.class_to_amend) (some-injective _ _ (rw f at e)))
      ]

-- What `phasicj` prints for a class that is not java.lang.Object.
class_of-apart :
    (asm : Asm) (bytes class : Text) {a : Amendment} {c : Class} {out : Text}
    → object_amendment asm bytes ≡ some a
    → has_magic_number class ≡ true
    → asm.read class ≡ some c
    → text_eq c.name object_class ≡ false
    → asm.write (record c { methods = visit_methods object_class c.methods }) ≡ some out
    → class_of asm (some bytes) class ≡ some out
unfolding class_of get_instrumenter
class_of-apart asm bytes class {a} {c} made magic has_class apart wrote =
    let apart' : text_eq c.name a.class_to_amend ≡ false =
      rw (object_amendment-class asm bytes made) apart in
    rw (magic, made) (instrument-apart asm object_class a class has_class apart' ∙ wrote)

module _ {X : Type 0} {env : JvmtiTable X} (S : IsStorage env) (host : Host X) (jni : JniTable X)
    (H : AreHarmless S host.files host.processes jni) {conf : PjAgentConf} {i total : ℕ}
    {w : World X} (alive : IsAlive S host jni conf i w total) {asm : Asm} (A : IsAsm asm)
    (amendment : Text)
    (P : RunsPhasicj host.processes (instrumenter conf.phasicj_exec) asm (some amendment))
    (name class : Text) where
  -- The hook gives the JVM the instrumented class.
  hook-instrumented :
      {a : Amendment} {c : Class} {out : Text} {w₁ w₃ : World X}
      → is_utf8 name ≡ true
      → starts_with name runtime_prefix ≡ false
      → object_amendment asm amendment ≡ some a
      → has_magic_number class ≡ true
      → asm.read class ≡ some c
      → text_eq c.name object_class ≡ false
      → asm.write (record c { methods = visit_methods object_class c.methods }) ≡ some out
      → dump_if host conf.debug_dump_classes_before_instr
          (codes "classes/before_instr")
          name
          class
          w
        ≡ done tt w₁
      → dump_if host conf.debug_dump_classes_after_instr
          (codes "classes/after_instr")
          name
          out
          (P.after class w₁)
        ≡ done tt w₃
      → pj_class_file_load_hook host env (some name) (nonneg (length class)) class w
        ≡ done (replaced (S.place (length out) w₃) (length out)) (given S w₃ out)
  hook-instrumented {w₁} u other made magic has_class apart wrote before behind =
      let e = class_of-apart asm amendment class made magic has_class apart wrote in
      let (pos, small) = class_of-size A (some amendment) class e in
      let ran = rw (finished-some A (some amendment) class e) at (P.runs class w₁) in
      hook-replaced host S w alive.stored name class u other before ran refl behind pos small

  -- With a configuration stored and the recorder started, files, processes and JNI functions that
  -- leave the agent's memory alone, ASM as documented, and phasicj as the configured program: for a
  -- class whose name is UTF-8 and outside the agent's runtime, whose bytes have the magic number
  -- and are read as a class other than java.lang.Object that can be written again, where the
  -- amendment can be made and the dumps that are asked for succeed, the hook gives the JVM a new
  -- block with exactly the written class, in which each method is instrumented. After any run of
  -- callbacks and other steps of the JVM from there, if the runtime's copy of the recorder is the
  -- agent's: once the instrumentation of Object is enabled, every run of the body that a method has
  -- in the written class, if it had no call of the handler when it was loaded, along any control
  -- flow, until it is left or up to some moment, returns from each call of the handler, and is a
  -- run of the body that was loaded, with one event sent to the agent's recorder for each
  -- monitorenter on the way, on top of all events before, and the numbers of monitorenter and
  -- monitorexit instructions on the way added to the two counters, modulo 2^32; a run that has not
  -- left the body can have one call more.
  pub observed :
      {a : Amendment} {c : Class} {out : Text} {w₁ w₃ t : World X} {k j : ℕ}
      (before after : List Method) (m : Method) (has_left : Bool) (s : AgentRt) {es' : List Event}
      → is_utf8 name ≡ true
      → starts_with name runtime_prefix ≡ false
      → object_amendment asm amendment ≡ some a
      → has_magic_number class ≡ true
      → asm.read class ≡ some c
      → text_eq c.name object_class ≡ false
      → c.methods ≡ before ++ m ∷ after
      → asm.write (record c { methods = visit_methods object_class c.methods }) ≡ some out
      → dump_if host conf.debug_dump_classes_before_instr
          (codes "classes/before_instr")
          name
          class
          w
        ≡ done tt w₁
      → dump_if host conf.debug_dump_classes_after_instr
          (codes "classes/after_instr")
          name
          out
          (P.after class w₁)
        ≡ done tt w₃
      → Recording.Reach w.recorder w₃.recorder k
      → Reach S host jni (given S w₃ out) t j
      → s.recorder ≡ t.recorder
      → HasNoCalls object_class m.body
      → Runs object_class
          (visit_method object_class m).body
          has_left
          (visit_method object_class m).body
          es'
      → (pj_class_file_load_hook host env (some name) (nonneg (length class)) class w
          ≡ done (replaced (S.place (length out) w₃) (length out)) (given S w₃ out))
        × (asm.write (record c {
          methods =
              visit_methods object_class before
              ++ visit_method object_class m ∷ visit_methods object_class after;
        })
            ≡ some out)
        × (es : List Event) × (pending : List Event) × Runs object_class m.body has_left m.body es
        × IsPending has_left pending
        × Sends es'
            (enable_object_instrumentation s)
            i
            (total + k + j)
            (locks_in es + enters_in pending)
            (unlocks_in es + exits_in pending)
  unfolding visit_methods
  observed {c} {out} {w₃} {t} {k} {j} before after m has_left s u other made magic has_class apart
        methods wrote dumped dumped_behind during life same quiet run =
      let hooked =
        hook-instrumented u other made magic has_class apart wrote dumped dumped_behind in
      let loaded : Reach S host jni w (given S w₃ out) k =
        next (here refl)
          (class_file_load_hook (some name) (nonneg (length class)) class _ hooked during)
          (omega arith) in
      let now : IsAlive S host jni conf i t (total + k + j) =
        Reach-IsAlive S host jni H life (Reach-IsAlive S host jni H loaded alive) in
      let written = rw (methods, visit_methods-append object_class before (m ∷ after)) at wrote in
      let (es, pending, original, is_pending, sends) =
        execute-instrument_body object_class m.body has_left s i (total + k + j) quiet
          (rw same now.started) run in
      (hooked, written, es, pending, original, is_pending, sends)
