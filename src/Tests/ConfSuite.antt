-- ===== src/Tests/ConfSuite.antt =====
-- The cases of agent/conf/src/test.rs, run on the model.
use phasic_j.Base.{text_eq, ◌≡◌, refl, true, Text, codes, Option, none, some, List, [], ◌∷◌, ◌++◌}
use phasic_j.Conf.{
  PjAgentConf, new_with_defaults, eval_bool_option_value, eval_exec_option_value,
  apply_agent_option, apply_agent_option_pair, apply_pairs, apply_agent_options_list_str,
  new_from_agent_options_list_str,
}
use phasic_j.Conf.Grammar.{
  conf_option_name, conf_option_arg, Token, OptionPair, agent_option, end_of_input, name_char,
  arg_char, span, skip, literal, named, parse_name, parse_arg, close_quote, parse_quoted_arg,
  parse_value, parse_assignment, parse_option, parse_next, parse_more, parse_options, finish, parse,
}
use phasic_j.Panic.{Result, ok}

-- The rules of a flattened tree.
data Flat : Type 0 where
  list option name arg eoi : Flat

abbrev flat_token : Token → Flat
flat_token t = elim t.rule [ conf_option_name ↦ name | conf_option_arg ↦ arg ]

abbrev flat_tokens : List Token → List Flat
flat_tokens [] = []
flat_tokens (t ∷ ts) = flat_token t ∷ flat_tokens ts

abbrev flat_pairs : List OptionPair → List Flat
flat_pairs [] = []
flat_pairs (agent_option ts ∷ ps) = option ∷ flat_tokens ts ++ flat_pairs ps
flat_pairs (end_of_input ∷ ps) = eoi ∷ flat_pairs ps

abbrev flat_tree : Option (List OptionPair) → List Flat
flat_tree none = []
flat_tree (some pairs) = list ∷ flat_pairs pairs

abbrev parse_flat_rule_vec : Text → List Flat
parse_flat_rule_vec s = flat_tree (parse s)

-- What each text of `test_parser` is expected to give.
abbrev parser_cases : List (Text × List Flat)
parser_cases =
    (codes "", list ∷ eoi ∷ [])
    ∷ (codes " ", list ∷ eoi ∷ [])
    ∷ (codes "hello", list ∷ option ∷ name ∷ eoi ∷ [])
    ∷ (codes " hello ", list ∷ option ∷ name ∷ eoi ∷ [])
    ∷ (codes "hello,world", list ∷ option ∷ name ∷ option ∷ name ∷ eoi ∷ [])
    ∷ (codes "hello, world", list ∷ option ∷ name ∷ option ∷ name ∷ eoi ∷ [])
    ∷ (codes "foo=bar", list ∷ option ∷ name ∷ arg ∷ eoi ∷ [])
    ∷ (codes "foo=\"Bar and Baz\"", list ∷ option ∷ name ∷ arg ∷ eoi ∷ [])
    ∷ (codes "foo=\"Bar and Baz\", zap", list ∷ option ∷ name ∷ arg ∷ option ∷ name ∷ eoi ∷ [])
    ∷ (codes "phasicj_exec=\"My Path/to/phasicj-exec\"", list ∷ option ∷ name ∷ arg ∷ eoi ∷ [])
    ∷ []

-- What each text of `test_conf_options_apply` is expected to give.
abbrev apply_cases : List (Text × Result PjAgentConf)
apply_cases =
    (codes "", ok (new_with_defaults))
    ∷ (
      codes "debug_dump_classes_before_instr=true,debug_dump_classes_after_instr",
      ok (record new_with_defaults {
        debug_dump_classes_before_instr = true;
        debug_dump_classes_after_instr = true;
      }),
    )
    ∷ (
      codes "debug_dump_classes_before_instr=true,debug_dump_classes_before_instr=false",
      ok (new_with_defaults),
    )
    ∷ (
      codes "phasicj_exec=\"My Path/to/phasicj-exec\"",
      ok (record new_with_defaults { phasicj_exec = some (codes "My Path/to/phasicj-exec") }),
    )
    ∷ []

abbrev Passes : {A : Type 0} → (Text → A) → List (Text × A) → Type 0
Passes run [] = Unit
Passes run ((s, expected) ∷ cases) = (run s ≡ expected) × Passes run cases

parser_suite : Passes parse_flat_rule_vec parser_cases
unfolding codes name_char arg_char span skip literal named parse_name parse_arg close_quote
    parse_quoted_arg parse_value parse_assignment parse_option parse_next parse_more parse_options
    finish parse
parser_suite = (refl, (refl, (refl, (refl, (refl, (refl, (refl, (refl, (refl, (refl, tt))))))))))

apply_suite : Passes new_from_agent_options_list_str apply_cases
unfolding codes name_char arg_char span skip literal named parse_name parse_arg close_quote
    parse_quoted_arg parse_value parse_assignment parse_option parse_next parse_more parse_options
    finish parse text_eq apply_agent_option apply_agent_option_pair apply_pairs
    eval_bool_option_value eval_exec_option_value apply_agent_options_list_str
    new_from_agent_options_list_str
apply_suite = (refl, (refl, (refl, (refl, tt))))
