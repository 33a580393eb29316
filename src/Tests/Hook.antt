-- ===== src/Tests/Hook.antt =====
-- The theorems on the class hook with a class in a small JVM.
use phasic_j.Base.{
  ◌≡◌, refl, Bool, true, Text, codes, some, [], ◌∷◌, is_utf8, utf8_run, follow, lead,
}
use phasic_j.Host.{Host, Output}
use phasic_j.Instr.Outcome.{Ran}
use phasic_j.Jvm.Events.{starts_with, dump_if, nonneg, instrumenter, pj_class_file_load_hook}
use phasic_j.Jvm.Events.Hook.{hook-empty_output}
use phasic_j.Jvm.World.{World}
use phasic_j.Panic.{undefined}
use phasic_j.Tests.Fixtures.{Machine, jvm, jvm_storage, host}
use phasic_j.Tests.Jvm.{plain_conf, stored, stored_world}

abbrev pub class : Text
class = 0xCA ∷ 0xFE ∷ []

abbrev output : Bool → Output
output works = record { is_success = works; stdout = 0xCA ∷ class }

abbrev ran_world : World Machine
ran_world = record stored_world { host = record stored_world.host { stdin = class } }

class-Ran :
    (works : Bool)
    → Ran
        (host true works).processes
        (instrumenter plain_conf.phasicj_exec)
        class
        stored_world
        (output works)
        ran_world
class-Ran works = record {
  child = 0;
  spawned = stored_world;
  fed = ran_world;
  spawn = refl;
  write_stdin = refl;
  wait_with_output = refl;
}

-- A program that reports success, and writes nothing.
abbrev silent_host : Host Machine
silent_host = record (host true true) {
  processes = record (host true true).processes {
    wait_with_output =
        λ child w. record { result = some (record { is_success = true; stdout = [] }); world = w };
  };
}

silent-Ran :
    Ran silent_host.processes
      (instrumenter plain_conf.phasicj_exec)
      class
      stored_world
      (record { is_success = true; stdout = [] })
      ran_world
silent-Ran = record {
  child = 0;
  spawned = stored_world;
  fed = ran_world;
  spawn = refl;
  write_stdin = refl;
  wait_with_output = refl;
}

hook-empty_output_example :
    pj_class_file_load_hook silent_host
      (jvm true)
      (some (codes "a/B"))
      (nonneg 2)
      class
      stored_world
    ≡ undefined
unfolding codes is_utf8 utf8_run follow lead starts_with dump_if
hook-empty_output_example =
    hook-empty_output silent_host (jvm_storage true) stored_world (stored true).stored (codes "a/B")
      class refl refl refl silent-Ran refl refl
