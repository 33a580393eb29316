-- ===== src/Java/Cli.antt =====
-- agent/instr/cli/Cli.java and cli/cmd/PjAgentInstrumentClass.java: the command `phasicj agent
-- instrument-class`.
pub mod Hooked
use phasic_j.Base.{
  ℕ, Bool, true, false, Text, Option, none, some, [], ◌∷◌, ◌==◌, ltb, length, if◌then◌else◌,
}
use phasic_j.Host.{Output}
use phasic_j.Java.Classes.{Asm, ◌>>=◌}
use phasic_j.Java.Instrument.{get_instrumenter, instrument}

abbrev pub magic_number : Text
magic_number = 0xCA ∷ 0xFE ∷ 0xBA ∷ 0xBE ∷ []

-- The loop of `hasMagicNumber`.
unfoldable pub matches : Text → Text → Bool
matches [] bytes = true
matches (m ∷ ms) [] = false
matches (m ∷ ms) (d ∷ ds) = let rest = matches ms ds in if d == m then rest else false

unfoldable pub has_magic_number : Text → Bool
has_magic_number bytes =
    if ltb (length bytes) (length magic_number) then false else matches magic_number bytes

abbrev pub appears_to_be_class_data : Text → Bool
appears_to_be_class_data = has_magic_number

-- How a command ends: it returns, with what it printed on its standard output; it calls
-- `System.exit`; or it throws.
pub data Ended : Type 0 where
  printed : Text → Ended
  exited : ℕ → Ended
  threw : Ended

module _ (asm : Asm) (resource : Option Text) where
  abbrev pub instrumented : Text → Option Text
  instrumented class_data = do
    instrumenter ← get_instrumenter asm resource
    instrument asm instrumenter class_data

  abbrev pub printed_or_threw : Option Text → Ended
  printed_or_threw none = threw
  printed_or_threw (some instr_class_data) = printed instr_class_data

  -- `Cli.main`, from the bytes of the standard input, if they can be read. The status -1 is 255.
  unfoldable pub main : Option Text → Ended
  main none = threw
  main (some class_data) =
      if appears_to_be_class_data class_data
      then printed_or_threw (instrumented class_data)
      else exited 255

-- What picocli and the JVM make of it: `call` returns 0, which is the exit code; an exception gives
-- the exit code 1.
abbrev pub finished : Ended → Output
finished (printed out) = record { is_success = true; stdout = out }
finished (exited code) = record { is_success = code == 0; stdout = [] }
finished threw = record { is_success = false; stdout = [] }
