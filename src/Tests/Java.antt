-- ===== src/Tests/Java.antt =====
-- The instrumenter with a small reader and writer of classes.
use mathlib.Core.Option.{some-injective}
use mathlib.Core.Path.{subst}
use phasic_j.Base.{
  ℕ, ◌≡◌, ◌<◌, ◌^◌, ◌+◌, ◌%◌, refl, arith, true, Text, codes, text_eq, Option, none, some, List, [],
  ◌∷◌, length, is_utf8, utf8_run, follow, lead, if◌then◌else◌,
}
use phasic_j.Host.{Host, Processes}
use phasic_j.Java.Classes.{Asm, Class, Method, Insn, other}
use phasic_j.Java.Cli.{instrumented, main, finished, has_magic_number, matches}
use phasic_j.Java.Cli.Hooked.{IsAsm, RunsPhasicj, class_of, Hooked, hook-phasicj}
use phasic_j.Java.Instrument.{
  Amendment, visit_methods, instrument_body, instrument, object_class, get_instrumenter,
  new_amendment, rename_class, visit_class, visit_end, visit_insn,
}
use phasic_j.Java.Instrument.Whole.{one_amendment, has_method, instrument-has_method}
use phasic_j.Jvm.Events.{nonneg, starts_with, dump_if, pj_class_file_load_hook, instrumenter}
use phasic_j.Tests.Fixtures.{Machine, host, jvm, jvm_storage}
use phasic_j.Tests.Jvm.{plain_conf, stored, stored_world}
use phasic_j.Tests.Body.{body}

-- A class with this body, and one with the methods that are added to java.lang.Object.
abbrev pub run_method : Method
run_method = record {
  access = 1;
  name = codes "run";
  descriptor = codes "()V";
  rest = [];
  body = body;
}

abbrev pub sample : Text → Class
sample name = record { name = name; header = []; fields = []; methods = run_method ∷ [] }

abbrev enable_method : Method
enable_method = record run_method {
  name = codes "phasicj$agent$rt$enableInstrumentation";
  body = other [] ∷ other [] ∷ other [] ∷ [];
}

abbrev pub members : Class
members = record (sample object_class) { methods = enable_method ∷ [] }

-- In this format a class is its number of instructions.
abbrev size_of : List Insn → ℕ
size_of [] = 0
size_of (i ∷ is) = 1 + size_of is

abbrev size_of_methods : List Method → ℕ
size_of_methods [] = 0
size_of_methods (m ∷ ms) = size_of m.body + size_of_methods ms

abbrev pub file : ℕ → Text
file n = 0xCA ∷ 0xFE ∷ 0xBA ∷ 0xBE ∷ n ∷ []

abbrev class_read : Text → Option Class
class_read s =
    if text_eq s (file 3)
    then some members
    else if text_eq s (file 5)
    then some (sample (codes "a/B"))
    else if text_eq s (file 6)
    then some (sample object_class)
    else none

abbrev pub asm : Asm
asm = record {
  read = class_read;
  write = λ c. some (file (size_of_methods c.methods % 256));
  remap = λ old new c. c;
}

abbrev amendment : Amendment
amendment = record {
  class_to_amend = object_class;
  amendment_members_prefix = codes "phasicj$agent$rt$";
  amend_with_class = file 3;
  amend_with_class_name = codes "phasicj/agent/rt/JavaLangObjectAmendment";
}

instrument-has_method_example :
    (c' : Class) × (instrument asm (one_amendment asm object_class amendment) (file 6)
      ≡ asm.write c')
    × (has_method (codes "phasicj$agent$rt$enableInstrumentation") (codes "()V") c'.methods ≡ true)
unfolding codes text_eq starts_with has_method
instrument-has_method_example =
    instrument-has_method asm object_class amendment (file 6) refl
      (codes "phasicj$agent$rt$enableInstrumentation") (codes "()V") refl refl refl refl

has_magic_number-file : (n : ℕ) → has_magic_number (file n) ≡ true
unfolding has_magic_number matches
has_magic_number-file n = refl

asm_magic : (c : Class) {out : Text} → asm.write c ≡ some out → has_magic_number out ≡ true
asm_magic c e =
    subst (λ s. has_magic_number s ≡ true) (some-injective _ _ e)
      (has_magic_number-file (size_of_methods c.methods % 256))

asm_small : (c : Class) {out : Text} → asm.write c ≡ some out → length out < 2 ^ 31
asm_small c e = subst (λ s. length s < 2 ^ 31) (some-injective _ _ e) (omega arith)

pub asm_lawful : IsAsm asm
asm_lawful = record { write_magic = asm_magic; write_small = asm_small }

abbrev pub resource : Option Text
resource = some (file 3)

-- A host on which the program `phasicj` can be run.
abbrev pub phasicj : Processes Machine
phasicj = record (host true true).processes {
  wait_with_output = λ child w. record {
    result = some (finished (main asm resource (some w.host.stdin)));
    world = w;
  };
}

abbrev pub phasicj_host : Host Machine
phasicj_host = record (host true true) { processes = phasicj }

abbrev pub phasicj_runs : RunsPhasicj phasicj (instrumenter plain_conf.phasicj_exec) asm resource
phasicj_runs = record {
  after = λ class w. record w { host = record w.host { stdin = class } };
  runs = λ class w. record {
    child = 0;
    spawned = w;
    fed = record w { host = record w.host { stdin = class } };
    spawn = refl;
    write_stdin = refl;
    wait_with_output = refl;
  };
}

hook-phasicj_example :
    Hooked asm_lawful resource phasicj_host
      (jvm_storage true)
      (stored true).stored
      phasicj_runs
      (codes "a/B")
      (file 5)
      (class_of asm resource (file 5))
      (phasicj_runs.after (file 5) stored_world)
      (pj_class_file_load_hook phasicj_host
        (jvm true)
        (some (codes "a/B"))
        (nonneg 5)
        (file 5)
        stored_world)
unfolding codes is_utf8 utf8_run follow lead starts_with dump_if
hook-phasicj_example =
    hook-phasicj asm_lawful resource phasicj_host (jvm_storage true) (stored true).stored
      phasicj_runs (codes "a/B") (file 5) refl refl refl (λ out e. (_, refl))

-- What both make of the class: two instructions more.
instrumented_sample : instrumented asm resource (file 5) ≡ some (file 7)
unfolding codes text_eq instrument get_instrumenter new_amendment rename_class visit_class visit_end
    visit_methods instrument_body visit_insn
instrumented_sample = refl
