-- ===== src/Tests/Observed.antt =====
-- A class is loaded, instrumented by `phasicj`, and run.
use phasic_j.Base.{
  ◌≡◌, ◌+◌, refl, true, false, codes, text_eq, some, List, [], ◌∷◌, ◌++◌, is_utf8, utf8_run, follow,
  lead,
}
use phasic_j.Agent.Life.{here, IsAlive}
use phasic_j.Agent.Life.Observed.{observed}
use phasic_j.Java.Cli.{has_magic_number, matches}
use phasic_j.Java.Instrument.{
  object_class, visit_method, visit_methods, instrument_body, visit_insn, new_amendment,
  rename_class,
}
use phasic_j.Java.Instrument.Flow.{Runs, IsPending}
use phasic_j.Java.Instrument.Trace.{Event}
use phasic_j.Java.Runtime.{AgentRt, enable_object_instrumentation}
use phasic_j.Java.Runtime.Sends.{Sends, locks_in, unlocks_in, enters_in, exits_in}
use phasic_j.Jvm.Events.{nonneg, replaced, starts_with, dump_if, pj_class_file_load_hook}
use phasic_j.Jvm.Events.Hook.{given}
use phasic_j.Jvm.Harmless.{AreHarmless}
use phasic_j.Jvm.World.{World}
use phasic_j.Panic.{done}
use phasic_j.Recorder.Steps as Recording
use phasic_j.Tests.Body.{body, looped, looped-Runs}
use phasic_j.Tests.Fixtures.{Machine, jvm, jvm_storage}
use phasic_j.Tests.Java.{asm, asm_lawful, file, phasicj, phasicj_runs, sample, run_method}
use phasic_j.Tests.Jvm.{jar_host, jni, plain_conf}
use phasic_j.Tests.Life.{harmless, living_world, alive, host_change}
use phasic_j.Host.{Host}
use phasic_j.Jvm.EnvStorage.Kept.{Undisturbed-refl}

abbrev observed_host : Host Machine
observed_host = record jar_host { processes = phasicj }

abbrev observed-AreHarmless : AreHarmless (jvm_storage true) jar_host.files phasicj jni
observed-AreHarmless = record {
  create_dir_all = harmless.create_dir_all;
  create = harmless.create;
  write_all = harmless.write_all;
  sync_all = harmless.sync_all;
  spawn = λ file args w. Undisturbed-refl (jvm_storage true) w;
  write_stdin = λ child s w. host_change w _ refl;
  wait_with_output = λ child w. Undisturbed-refl (jvm_storage true) w;
  find_class = harmless.find_class;
  get_static_method_id = harmless.get_static_method_id;
  call_static_void_method = harmless.call_static_void_method;
}

observed-IsAlive : IsAlive (jvm_storage true) observed_host jni plain_conf 0 living_world 0
observed-IsAlive = record { stored = alive.stored; started = alive.started }

-- The world behind the run of the program, and the one in which the JVM has the class.
abbrev ran : World Machine
ran = phasicj_runs.after (file 5) living_world

abbrev rt : AgentRt
rt = record {
  instrumentation_is_enabled = false;
  monitor_enter_counter = 0;
  monitor_exit_counter = 0;
  recorder = ran.recorder;
}

observed_example :
    (pj_class_file_load_hook observed_host
        (jvm true)
        (some (codes "a/B"))
        (nonneg 5)
        (file 5)
        living_world
      ≡ done (replaced ((jvm_storage true).place 5 ran) 5) (given (jvm_storage true) ran (file 7)))
    × (asm.write (record (sample (codes "a/B")) {
      methods = [] ++ visit_method object_class run_method ∷ [];
    })
        ≡ some (file 7))
    × (es : List Event) × (pending : List Event) × Runs object_class body false body es
    × IsPending false pending
    × Sends looped
        (enable_object_instrumentation rt)
        0
        0
        (locks_in es + enters_in pending)
        (unlocks_in es + exits_in pending)
unfolding codes text_eq is_utf8 utf8_run follow lead starts_with has_magic_number matches
    new_amendment rename_class visit_methods instrument_body visit_insn dump_if
observed_example =
    observed (jvm_storage true) observed_host jni observed-AreHarmless observed-IsAlive asm_lawful
      (file 3) phasicj_runs (codes "a/B") (file 5) [] [] run_method false rt refl refl refl refl
      refl refl refl refl refl refl (Recording.here refl) (here refl) refl
      (refl, (refl, (refl, (refl, (refl, tt))))) looped-Runs
