-- ===== src/Instr.antt =====
-- agent/instr/rust/lib.rs: a class is instrumented by a run of the `phasicj` program.
pub mod Outcome
use phasic_j.Base.{ℕ, Bool, true, false, Text, codes, Option, none, some, [], ◌∷◌, if◌then◌else◌}
use phasic_j.Host.{Processes, Output, io, try}
use phasic_j.Jvm.World.{M, pure}

abbrev pub default_phasicj_exec : Text
default_phasicj_exec = codes "phasicj"

pub record Instrumenter : Type 0 where
  pub phasicj_exec : Option Text

abbrev pub using_system_path : Instrumenter
using_system_path = record { phasicj_exec = none }

abbrev pub wrap : Text → Instrumenter
wrap path = record { phasicj_exec = some path }

abbrev pub program : Option Text → Text
program none = default_phasicj_exec
program (some path) = path

module _ {X : Type 0} (os : Processes X) where
  unfoldable pub invoke_phasicj_agent_instrument_class : Instrumenter → Text → M X (Option Output)
  invoke_phasicj_agent_instrument_class self class_data =
      try
        (io (os.spawn (program self.phasicj_exec) (codes "agent" ∷ codes "instrument-class" ∷ [])))
        λ child. try (io (os.write_stdin child class_data)) λ _. io (os.wait_with_output child)

  unfoldable pub instrument : Instrumenter → Text → M X (Option Text)
  instrument self class_data =
      try (invoke_phasicj_agent_instrument_class self class_data)
        λ output. if output.is_success then pure (some output.stdout) else pure none
