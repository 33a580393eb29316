-- ===== src/Tests/Options.antt =====
-- The theorems on options lists at concrete lists.
use phasic_j.Conf.Grammar.Scan.{spaces}
use phasic_j.Base.{
  ◌≡◌, ◌⊎◌, refl, true, false, Text, codes, text_eq, none, some, List, [], ◌∷◌, all, all-All,
}
use phasic_j.Conf.{
  PjAgentConf, new_with_defaults, eval_bool_option_value, eval_exec_option_value,
  apply_agent_option, apply_agent_option_pair, apply_pairs, apply_agent_options_list_str,
  new_from_agent_options_list_str,
}
use phasic_j.Conf.Apply.{Setting, outcome, fault, first_fault, updated}
use phasic_j.Conf.Reorder.{swapped, new_from_agent_options_list_str-IsReordered}
use phasic_j.Conf.Grammar.{
  OptionPair, agent_option, end_of_input, name_token, arg_token, name_char, arg_char, span, skip,
  literal, named, parse_name, parse_arg, close_quote, parse_quoted_arg, parse_value,
  parse_assignment, parse_option, parse_next, parse_more, parse_options, finish, parse,
}
use phasic_j.Conf.Grammar.Sound.{IsTree, parse-IsTree}
use phasic_j.Conf.Meaning.{
  IsList, IsExec, new_from_agent_options_list_str-render, new_from_agent_options_list_str-total,
  new_from_agent_options_list_str-IsExec,
}
use phasic_j.Conf.Render.{Layout, render, settings, AllSettings}
use phasic_j.Conf.RoundTrip.{settings_of, new_from_agent_options_list_str-settings_of}
use phasic_j.Panic.{ok, panic, parse_failure, unexpected_value}

abbrev pub options_text : Text
options_text = codes "verbose,phasicj_exec=\"/bin/p\" , debug_dump_classes_after_instr = true"

abbrev wide : Layout
wide = record {
  before_name = 1;
  before_assign = 1;
  after_assign = 2;
  quoted = true;
  in_quote = 1;
  after = 1;
}

abbrev verbose_setting : Setting
verbose_setting = record { name = codes "verbose"; value = none }

abbrev exec_setting : Setting
exec_setting = record { name = codes "phasicj_exec"; value = some (codes "/bin/p") }

abbrev bare : Layout
bare = record wide { quoted = false }

abbrev two_settings : List (Layout × Setting)
two_settings = (wide, verbose_setting) ∷ (bare, exec_setting) ∷ []

two_settings-AllSettings : AllSettings two_settings
unfolding codes name_char arg_char all
two_settings-AllSettings = (
  record { nonempty = λ e. cc; name = all-All name_char (codes "verbose") refl; value = tt },
  (
    record {
      nonempty = λ e. cc;
      name = all-All name_char (codes "phasicj_exec") refl;
      value = (all-All arg_char (codes "/bin/p") refl, refl);
    },
    tt,
  ),
)

abbrev pub exec_conf : PjAgentConf
exec_conf = record {
  verbose = true;
  phasicj_exec = some (codes "/bin/p");
  debug_dump_classes_before_instr = false;
  debug_dump_classes_after_instr = true;
}

-- A list with both kinds of arguments, as a configuration.
pub options_text-reads : new_from_agent_options_list_str options_text ≡ ok exec_conf
unfolding codes text_eq eval_bool_option_value eval_exec_option_value apply_agent_option
    apply_agent_option_pair apply_pairs apply_agent_options_list_str new_from_agent_options_list_str
    name_char arg_char span skip literal named parse_name parse_arg close_quote parse_quoted_arg
    parse_value parse_assignment parse_option parse_next parse_more parse_options finish parse
options_text-reads = refl

-- The spaces behind an unquoted argument belong to it.
pub space_before_comma-panics :
    new_from_agent_options_list_str (codes "verbose=true ,verbose")
    ≡ panic (unexpected_value (codes "true "))
unfolding codes text_eq eval_bool_option_value eval_exec_option_value apply_agent_option
    apply_agent_option_pair apply_pairs apply_agent_options_list_str new_from_agent_options_list_str
    name_char arg_char span skip literal named parse_name parse_arg close_quote parse_quoted_arg
    parse_value parse_assignment parse_option parse_next parse_more parse_options finish parse
space_before_comma-panics = refl

abbrev tree : List OptionPair
tree = agent_option (name_token (codes "a") ∷ arg_token (codes "b") ∷ []) ∷ end_of_input ∷ []

tree-parsed : parse (codes "a=\"b\"") ≡ some tree
unfolding codes name_char arg_char span skip literal named parse_name parse_arg close_quote
    parse_quoted_arg parse_value parse_assignment parse_option parse_next parse_more parse_options
    finish parse
tree-parsed = refl

new_from_agent_options_list_str-render_example :
    new_from_agent_options_list_str (spaces 2 (render two_settings))
    ≡ outcome new_with_defaults (settings two_settings)
new_from_agent_options_list_str-render_example =
    new_from_agent_options_list_str-render 2 two_settings two_settings-AllSettings

new_from_agent_options_list_str-total_example :
    let text = codes "verbose,=" in
    (¬ IsList text × (new_from_agent_options_list_str text ≡ panic parse_failure))
    ⊎ ((l : IsList text) × (new_from_agent_options_list_str text
          ≡ outcome new_with_defaults (settings l.rendered)))
new_from_agent_options_list_str-total_example =
    new_from_agent_options_list_str-total (codes "verbose,=")

new_from_agent_options_list_str-settings_of_example :
    new_from_agent_options_list_str (render (settings_of wide exec_conf)) ≡ ok exec_conf
unfolding codes arg_char all
new_from_agent_options_list_str-settings_of_example =
    new_from_agent_options_list_str-settings_of wide exec_conf
      (λ e. cc, all-All arg_char (codes "/bin/p") refl, refl)

new_from_agent_options_list_str-IsExec_example : IsExec exec_conf.phasicj_exec
new_from_agent_options_list_str-IsExec_example =
    new_from_agent_options_list_str-IsExec options_text options_text-reads

parse-IsTree_example : IsTree tree
parse-IsTree_example = parse-IsTree (codes "a=\"b\"") tree-parsed

-- The same two options, the other way round, with other spaces.
abbrev narrow : Layout
narrow = record {
  before_name = 0;
  before_assign = 0;
  after_assign = 0;
  quoted = false;
  in_quote = 0;
  after = 0;
}

abbrev swapped_settings : List (Layout × Setting)
swapped_settings = (narrow, exec_setting) ∷ (wide, verbose_setting) ∷ []

new_from_agent_options_list_str-IsReordered_example :
    new_from_agent_options_list_str (spaces 1 (render swapped_settings))
    ≡ ok (updated new_with_defaults (verbose_setting ∷ exec_setting ∷ []))
unfolding codes text_eq first_fault fault
new_from_agent_options_list_str-IsReordered_example =
    new_from_agent_options_list_str-IsReordered 2 1 two_settings swapped_settings
      two_settings-AllSettings (two_settings-AllSettings.1.0, (two_settings-AllSettings.0, tt))
      (swapped verbose_setting exec_setting [] refl refl refl)
      (new_from_agent_options_list_str-render 2 two_settings two_settings-AllSettings)
