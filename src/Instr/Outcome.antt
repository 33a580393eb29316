-- ===== src/Instr/Outcome.antt =====
-- When `Instrumenter::instrument` gives a class.
use phasic_j.Base.{
  ℕ, ◌≡◌, inl, inr, Bool-cases, Text, codes, Option, none, some, [], ◌∷◌, if◌then◌else◌,
}
use phasic_j.Host.{Processes, Output}
use phasic_j.Instr.{Instrumenter, program, instrument, invoke_phasicj_agent_instrument_class}
use phasic_j.Jvm.World.{World}
use phasic_j.Panic.{done}

-- A run of the program that ends: it is spawned with the two arguments, takes the class on its
-- standard input, and its output is collected.
pub record Ran {X : Type 0} (os : Processes X) (i : Instrumenter) (class : Text) (w : World X)
    (out : Output) (w' : World X) : Type 0 where
  pub child : ℕ
  pub spawned : World X
  pub fed : World X
  pub spawn :
      os.spawn (program i.phasicj_exec) (codes "agent" ∷ codes "instrument-class" ∷ []) w
      ≡ record { result = some child; world = spawned }
  pub write_stdin : os.write_stdin child class spawned ≡ record { result = some tt; world = fed }
  pub wait_with_output : os.wait_with_output child fed ≡ record { result = some out; world = w' }

-- The answer of a finished run.
abbrev pub answer : Output → Option Text
answer out = if out.is_success then some out.stdout else none

module _ {X : Type 0} (os : Processes X) (i : Instrumenter) (class : Text) (w : World X) where
  -- A finished run gives its standard output if it reports success, and an error if not.
  pub instrument-Ran :
      {out : Output} {w' : World X}
      → Ran os i class w out w'
      → instrument os i class w ≡ done (answer out) w'
  unfolding instrument invoke_phasicj_agent_instrument_class
  instrument-Ran {out} ran =
      rw (ran.spawn, ran.write_stdin, ran.wait_with_output)
        (elim (Bool-cases out.is_success) [ inl e ↦ rw e | inr e ↦ rw e ])

  -- A program that cannot be started gives an error.
  pub instrument-not_spawned :
      {w' : World X}
      → os.spawn (program i.phasicj_exec) (codes "agent" ∷ codes "instrument-class" ∷ []) w
        ≡ record { result = none; world = w' }
      → instrument os i class w ≡ done none w'
  unfolding instrument invoke_phasicj_agent_instrument_class
  instrument-not_spawned e = rw e
