-- ===== src/Conf.antt =====
-- agent/conf/src/lib.rs
pub mod Apply
pub mod Grammar
pub mod Meaning
pub mod Render
pub mod Reorder
pub mod RoundTrip
pub mod Size
use phasic_j.Base.{Text, codes, text_eq, Bool, true, false, Option, none, some, List, [], ◌∷◌}
use phasic_j.Base.{if◌then◌else◌}
use phasic_j.Panic.{
  Result, ok, panic, ◌>>=◌, parse_failure, unexpected_option, exec_without_value, exec_empty,
  unrecognized_name, unexpected_value,
}
use phasic_j.Conf.Grammar.{Token, OptionPair, agent_option, end_of_input, parse}

pub record PjAgentConf : Type 0 where
  pub verbose : Bool
  pub phasicj_exec : Option Text
  pub debug_dump_classes_before_instr : Bool
  pub debug_dump_classes_after_instr : Bool

-- `PjAgentConf::new_with_defaults`
abbrev pub new_with_defaults : PjAgentConf
new_with_defaults = record {
  verbose = false;
  phasicj_exec = none;
  debug_dump_classes_before_instr = false;
  debug_dump_classes_after_instr = false;
}

unfoldable pub eval_bool_option_value : Option Text → Result Bool
eval_bool_option_value none = ok true
eval_bool_option_value (some v) =
    if text_eq v (codes "true")
    then ok true
    else if text_eq v (codes "false")
    then ok false
    else panic (unexpected_value v)

-- The inner match of the `phasicj_exec` case.
unfoldable pub eval_exec_option_value : Option Text → Result Text
eval_exec_option_value none = panic exec_without_value
eval_exec_option_value (some []) = panic exec_empty
eval_exec_option_value (some (b ∷ bs)) = ok (b ∷ bs)

unfoldable pub apply_agent_option : PjAgentConf → Text → Option Text → Result PjAgentConf
apply_agent_option conf option_name option_value =
    if text_eq option_name (codes "verbose")
    then (do b ← eval_bool_option_value option_value; ok (record conf { verbose = b }))
    else if text_eq option_name (codes "phasicj_exec")
    then (do
      value ← eval_exec_option_value option_value
      ok (record conf { phasicj_exec = some value }))
    else if text_eq option_name (codes "debug_dump_classes_before_instr")
    then (do
      b ← eval_bool_option_value option_value
      ok (record conf { debug_dump_classes_before_instr = b }))
    else if text_eq option_name (codes "debug_dump_classes_after_instr")
    then (do
      b ← eval_bool_option_value option_value
      ok (record conf { debug_dump_classes_after_instr = b }))
    else panic (unrecognized_name option_name)

-- The components of one `agent_option` pair, by their number.
unfoldable pub apply_agent_option_pair : PjAgentConf → List Token → Result PjAgentConf
apply_agent_option_pair conf (name ∷ []) = apply_agent_option conf name.text none
apply_agent_option_pair conf (name ∷ arg ∷ []) = apply_agent_option conf name.text (some arg.text)
apply_agent_option_pair conf _ = panic unexpected_option

-- The loop over the pairs inside `agent_options_list`.
unfoldable pub apply_pairs : PjAgentConf → List OptionPair → Result PjAgentConf
apply_pairs conf [] = ok conf
apply_pairs conf (agent_option comp ∷ pairs) = do
  conf' ← apply_agent_option_pair conf comp
  apply_pairs conf' pairs
apply_pairs conf (end_of_input ∷ pairs) = apply_pairs conf pairs

unfoldable pub apply_agent_options_list_str : PjAgentConf → Text → Result PjAgentConf
apply_agent_options_list_str conf options_str = elim (parse options_str) [
  | none ↦ panic parse_failure
  | some pairs ↦ apply_pairs conf pairs
]

unfoldable pub new_from_agent_options_list_str : Text → Result PjAgentConf
new_from_agent_options_list_str options_str =
    apply_agent_options_list_str new_with_defaults options_str
