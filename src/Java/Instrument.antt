-- ===== src/Java/Instrument.antt =====
-- agent/instr/MonitorInsnInstrumenter.java, Amendment.java and Instrumenter.java: the calls that are
-- added to a class.
pub mod Flow
pub mod Trace
pub mod Whole
use phasic_j.Base.{
  ℕ, Bool, true, false, Text, codes, text_eq, Option, none, some, List, [], ◌∷◌, ◌++◌, ◌==◌,
  if◌then◌else◌,
}
use phasic_j.Java.Classes.{
  monitorenter, monitorexit, invokestatic, Call, Insn, insn, method_insn, other, Field, Method,
  Class, Asm, ◌>>=◌,
}
use phasic_j.Jvm.Events.{starts_with}

abbrev pub object_class : Text
object_class = codes "java/lang/Object"

abbrev pub enter_name : Text
enter_name = codes "phasicj$agent$rt$monitorEnter"

abbrev pub exit_name : Text
exit_name = codes "phasicj$agent$rt$monitorExit"

-- The call of a handler that is emitted.
abbrev pub handler_call : Text → Text → Call
handler_call event_handler_class name = record {
  opcode = invokestatic;
  owner = event_handler_class;
  name = name;
  descriptor = codes "()V";
  is_interface = false;
}

-- `MethodInstrumenter.visitInsn`
unfoldable pub visit_insn : Text → ℕ → List Insn
visit_insn event_handler_class opcode =
    (if opcode == monitorenter
      then method_insn (handler_call event_handler_class enter_name) ∷ []
      else [])
    ++ ((if opcode == monitorexit
          then method_insn (handler_call event_handler_class exit_name) ∷ []
          else [])
        ++ insn opcode ∷ [])

-- `MethodInstrumenter`: all other visits are passed on.
unfoldable pub instrument_body : Text → List Insn → List Insn
instrument_body handler [] = []
instrument_body handler (insn opcode ∷ is) = visit_insn handler opcode ++ instrument_body handler is
instrument_body handler (method_insn c ∷ is) = method_insn c ∷ instrument_body handler is
instrument_body handler (other v ∷ is) = other v ∷ instrument_body handler is

-- `ClassInstrumenter.visitMethod`
abbrev pub visit_method : Text → Method → Method
visit_method handler m = record m { body = instrument_body handler m.body }

unfoldable pub visit_methods : Text → List Method → List Method
visit_methods handler [] = []
visit_methods handler (m ∷ ms) = visit_method handler m ∷ visit_methods handler ms

pub record Amendment : Type 0 where
  pub class_to_amend : Text
  pub amendment_members_prefix : Text
  pub amend_with_class : Text
  pub amend_with_class_name : Text

-- `forwardMembersToSink`: the members whose names have the prefix.
unfoldable pub prefixed_fields : Text → List Field → List Field
prefixed_fields prefix [] = []
prefixed_fields prefix (f ∷ fs) =
    let rest = prefixed_fields prefix fs in if starts_with f.name prefix then f ∷ rest else rest

unfoldable pub prefixed_methods : Text → List Method → List Method
prefixed_methods prefix [] = []
prefixed_methods prefix (m ∷ ms) =
    let rest = prefixed_methods prefix ms in if starts_with m.name prefix then m ∷ rest else rest

pub record MonitorInsnInstrumenter : Type 0 where
  pub event_handler_class : Text
  pub amendments : List Amendment

module _ (asm : Asm) where
  -- `ClassMembersAmendment.accept`, whose sink is the instrumenter of the class itself.
  abbrev pub accept : Text → Amendment → Class → Class → Class
  accept handler a members c = record c {
    fields = c.fields ++ prefixed_fields a.amendment_members_prefix members.fields;
    methods =
        c.methods
        ++ visit_methods handler (prefixed_methods a.amendment_members_prefix members.methods);
  }

  -- `ClassInstrumenter.visitEnd`, on what has been emitted of the class.
  unfoldable pub visit_end : Text → Text → List Amendment → Class → Option Class
  visit_end handler class_name [] c = some c
  visit_end handler class_name (a ∷ as') c =
      let rest = visit_end handler class_name as' in
      if text_eq class_name a.class_to_amend
      then (do members ← asm.read a.amend_with_class; rest (accept handler a members c))
      else rest c

  -- The events of a class, as they go through a `ClassInstrumenter`.
  unfoldable pub visit_class : MonitorInsnInstrumenter → Class → Option Class
  visit_class self c =
      visit_end self.event_handler_class c.name self.amendments
        (record c { methods = visit_methods self.event_handler_class c.methods })

  -- `MonitorInsnInstrumenter.instrument`
  unfoldable pub instrument : MonitorInsnInstrumenter → Text → Option Text
  instrument self class_file_buffer = do
    c ← asm.read class_file_buffer
    c' ← visit_class self c
    asm.write c'

  -- `Amendment.renameClass`
  unfoldable pub rename_class : Text → Text → Text → Option Text
  rename_class old_class_name cls new_class_name = do
    c ← asm.read cls
    asm.write (asm.remap old_class_name new_class_name c)

  -- The constructor of `Amendment`.
  unfoldable pub new_amendment : Text → Text → Text → Text → Option Amendment
  new_amendment class_to_amend prefix amend_with_class amend_with_class_name = do
    renamed ← rename_class amend_with_class_name amend_with_class class_to_amend
    some (record {
      class_to_amend = class_to_amend;
      amendment_members_prefix = prefix;
      amend_with_class = renamed;
      amend_with_class_name = amend_with_class_name;
    })

  -- `Instrumenter.getInstrumenter`; `resource` is the bytes of the system resource with the
  -- amendment, if it can be read.
  unfoldable pub get_instrumenter : Option Text → Option MonitorInsnInstrumenter
  get_instrumenter resource = do
    amendment_class ← resource
    a ←
        new_amendment object_class (codes "phasicj$agent$rt$") amendment_class
          (codes "phasicj/agent/rt/JavaLangObjectAmendment")
    some (record { event_handler_class = object_class; amendments = a ∷ [] })
