-- ===== src/Conf/Size.antt =====
-- How long the executable's path in a configuration can be.
use mathlib.Core.Path.{subst}
use phasic_j.Base.{
  ℕ, ◌≤◌, ◌≡◌, inl, inr, Text, Option, none, some, List, [], ◌∷◌, length, arith, Option-cases,
}
use phasic_j.Conf.{
  PjAgentConf, new_with_defaults, eval_bool_option_value, eval_exec_option_value,
  apply_agent_option, apply_agent_option_pair, apply_pairs, apply_agent_options_list_str,
  new_from_agent_options_list_str,
}
use phasic_j.Conf.Grammar.{Token, OptionPair, agent_option, end_of_input, parse}
use phasic_j.Conf.Grammar.Size.{tokens_size, pairs_size, parse-size}
use phasic_j.Panic.{Result, ok, panic}

abbrev pub IsWithin : ℕ → Option Text → Type 0
IsWithin n none = Unit
IsWithin n (some s) = length s ≤ n

-- The path of a result that is a configuration.
abbrev ExecWithin : ℕ → Result PjAgentConf → Type 0
ExecWithin n (ok conf) = IsWithin n conf.phasicj_exec
ExecWithin n (panic p) = Unit

apply_agent_option-ExecWithin :
    (n : ℕ) (conf : PjAgentConf) (name : Text) (value : Option Text)
    → IsWithin n conf.phasicj_exec
    → IsWithin n value
    → ExecWithin n (apply_agent_option conf name value)
unfolding apply_agent_option eval_bool_option_value eval_exec_option_value
apply_agent_option-ExecWithin n conf name none h v = ground arith
apply_agent_option-ExecWithin n conf name (some []) h v = ground arith
apply_agent_option-ExecWithin n conf name (some (c ∷ s)) h v = ground arith

apply_agent_option_pair-ExecWithin :
    (n : ℕ) (conf : PjAgentConf) (comp : List Token)
    → IsWithin n conf.phasicj_exec
    → tokens_size comp ≤ n
    → ExecWithin n (apply_agent_option_pair conf comp)
unfolding apply_agent_option_pair
apply_agent_option_pair-ExecWithin n conf [] h s = tt
apply_agent_option_pair-ExecWithin n conf (name ∷ []) h s =
    apply_agent_option-ExecWithin n conf name.text none h tt
apply_agent_option_pair-ExecWithin n conf (name ∷ arg ∷ []) h s =
    apply_agent_option-ExecWithin n conf name.text (some arg.text) h (omega (arith, s))
apply_agent_option_pair-ExecWithin n conf (name ∷ arg ∷ more ∷ rest) h s = tt

apply_pairs-ExecWithin :
    (n : ℕ) (conf : PjAgentConf) (pairs : List OptionPair)
    → IsWithin n conf.phasicj_exec
    → pairs_size pairs ≤ n
    → ExecWithin n (apply_pairs conf pairs)
unfolding apply_pairs
apply_pairs-ExecWithin n conf [] h s = h
apply_pairs-ExecWithin n conf (end_of_input ∷ pairs) h s = apply_pairs-ExecWithin n conf pairs h s
apply_pairs-ExecWithin n conf (agent_option comp ∷ pairs) h s = grind (
  arith,
  apply_agent_option_pair-ExecWithin n conf comp h (omega (arith, s)),
  λ (c : PjAgentConf) (w : IsWithin n c.phasicj_exec).
      apply_pairs-ExecWithin n c pairs w (omega (arith, s)),
)

text-ExecWithin : (text : Text) → ExecWithin (length text) (new_from_agent_options_list_str text)
unfolding new_from_agent_options_list_str apply_agent_options_list_str
text-ExecWithin text = elim (Option-cases (parse text)) [
  | inl f ↦ rw (apply_agent_options_list_str, f) tt
  | inr (pairs, f) ↦
      rw (apply_agent_options_list_str, f)
        (apply_pairs-ExecWithin (length text) new_with_defaults pairs tt (parse-size text f))
]

-- The executable's path in a configuration that was read from a text is no longer than the text.
pub new_from_agent_options_list_str-IsWithin :
    (text : Text) {conf : PjAgentConf}
    → new_from_agent_options_list_str text ≡ ok conf
    → IsWithin (length text) conf.phasicj_exec
new_from_agent_options_list_str-IsWithin text {conf} e =
    subst (ExecWithin (length text)) e (text-ExecWithin text)
