-- ===== src/Conf/Apply.antt =====
-- What a list of options does to a configuration: each option sets one field, the last one that
-- names a field decides it, and the first one that is not valid panics.
use phasic_j.Base.{
  ◌≡◌, refl, Text, codes, text_eq, Bool, true, false, ◌||◌, ◌&&◌, text_eq_iff, Option, none, some,
  List, [], ◌∷◌, arith, if◌then◌else◌,
}
use phasic_j.Panic.{
  Panic, Result, ok, panic, exec_without_value, exec_empty, unrecognized_name, unexpected_value,
}
use phasic_j.Conf.{
  PjAgentConf, eval_bool_option_value, eval_exec_option_value, apply_agent_option,
  apply_agent_option_pair, apply_pairs,
}
use phasic_j.Conf.Grammar.{OptionPair, Token, agent_option, end_of_input, name_token, arg_token}

-- An option as it is meant: a name and perhaps a value.
pub record Setting : Type 0 where
  pub name : Text
  pub value : Option Text

-- The pairs that stand for a setting.
abbrev pub components : Text → Option Text → List Token
components name none = name_token name ∷ []
components name (some v) = name_token name ∷ arg_token v ∷ []

abbrev pub pairs_of : List Setting → List OptionPair
pairs_of [] = end_of_input ∷ []
pairs_of (s ∷ ss) = agent_option (components s.name s.value) ∷ pairs_of ss

abbrev pub is_flag : Text → Bool
is_flag name =
    text_eq name (codes "verbose")
    || text_eq name (codes "debug_dump_classes_before_instr")
    || text_eq name (codes "debug_dump_classes_after_instr")

abbrev pub flag_fault : Option Text → Option Panic
flag_fault none = none
flag_fault (some v) =
    if text_eq v (codes "true") || text_eq v (codes "false")
    then none
    else some (unexpected_value v)

abbrev pub exec_fault : Option Text → Option Panic
exec_fault none = some exec_without_value
exec_fault (some []) = some exec_empty
exec_fault (some (_ ∷ _)) = none

-- Why a setting is refused, if it is.
unfoldable pub fault : Text → Option Text → Option Panic
fault name value =
    if is_flag name
    then flag_fault value
    else if text_eq name (codes "phasicj_exec")
    then exec_fault value
    else some (unrecognized_name name)

unfoldable pub first_fault : List Setting → Option Panic
first_fault [] = none
first_fault (s ∷ ss) = elim (fault s.name s.value) [ none ↦ first_fault ss | some p ↦ some p ]

-- The value of the last setting of a name.
unfoldable pub last_value : Text → List Setting → Option (Option Text)
last_value name [] = none
last_value name (s ∷ ss) = elim (last_value name ss) [
  | some v ↦ some v
  | none ↦ if text_eq s.name name then some s.value else none
]

-- A flag is on if it is given no value, or the value `true`.
abbrev pub flag_or : Bool → Option (Option Text) → Bool
flag_or b none = b
flag_or b (some none) = true
flag_or b (some (some v)) = text_eq v (codes "true")

abbrev pub exec_or : Option Text → Option (Option Text) → Option Text
exec_or e none = e
exec_or e (some v) = v

-- The configuration that a list of valid settings makes of `conf`.
unfoldable pub updated : PjAgentConf → List Setting → PjAgentConf
updated conf ss = record {
  verbose = flag_or conf.verbose (last_value (codes "verbose") ss);
  phasicj_exec = exec_or conf.phasicj_exec (last_value (codes "phasicj_exec") ss);
  debug_dump_classes_before_instr =
      flag_or conf.debug_dump_classes_before_instr
        (last_value (codes "debug_dump_classes_before_instr") ss);
  debug_dump_classes_after_instr =
      flag_or conf.debug_dump_classes_after_instr
        (last_value (codes "debug_dump_classes_after_instr") ss);
}

abbrev pub outcome : PjAgentConf → List Setting → Result PjAgentConf
outcome conf ss = elim (first_fault ss) [ none ↦ ok (updated conf ss) | some p ↦ panic p ]

-- A text equals one of two different texts at most.
text_eq-apart : (s a b : Text) → text_eq a b ≡ false → (text_eq s a && text_eq s b) ≡ false
text_eq-apart s a b h = ground (arith, text_eq_iff s a, text_eq_iff s b, text_eq_iff a b)

-- The four names are different texts.
record IsApart (s : Text) : Type 0 where
  verbose_exec : (text_eq s (codes "verbose") && text_eq s (codes "phasicj_exec")) ≡ false
  verbose_before :
      (text_eq s (codes "verbose") && text_eq s (codes "debug_dump_classes_before_instr")) ≡ false
  verbose_after :
      (text_eq s (codes "verbose") && text_eq s (codes "debug_dump_classes_after_instr")) ≡ false
  exec_before :
      (text_eq s (codes "phasicj_exec") && text_eq s (codes "debug_dump_classes_before_instr"))
      ≡ false
  exec_after :
      (text_eq s (codes "phasicj_exec") && text_eq s (codes "debug_dump_classes_after_instr"))
      ≡ false
  before_after :
      (text_eq s (codes "debug_dump_classes_before_instr")
        && text_eq s (codes "debug_dump_classes_after_instr"))
      ≡ false

names-IsApart : (s : Text) → IsApart s
unfolding codes text_eq
names-IsApart s = record {
  verbose_exec = text_eq-apart s _ _ refl;
  verbose_before = text_eq-apart s _ _ refl;
  verbose_after = text_eq-apart s _ _ refl;
  exec_before = text_eq-apart s _ _ refl;
  exec_after = text_eq-apart s _ _ refl;
  before_after = text_eq-apart s _ _ refl;
}

abbrev one_outcome : PjAgentConf → Text → Option Text → Result PjAgentConf
one_outcome conf name value = elim (fault name value) [
  | none ↦ ok (updated conf (record { name = name; value = value } ∷ []))
  | some p ↦ panic p
]

-- One option.
apply_agent_option_lem :
    (conf : PjAgentConf) (name : Text) (value : Option Text)
    → apply_agent_option conf name value ≡ one_outcome conf name value
unfolding apply_agent_option fault updated last_value eval_bool_option_value eval_exec_option_value
apply_agent_option_lem conf name none = ground (arith, names-IsApart name)
apply_agent_option_lem conf name (some []) = ground (arith, names-IsApart name)
apply_agent_option_lem conf name (some (b ∷ v)) = ground (arith, names-IsApart name)

flag_or-cons :
    (b : Bool) (n : Text) (s : Setting) (ss : List Setting)
    → flag_or (flag_or b (last_value n (s ∷ []))) (last_value n ss)
      ≡ flag_or b (last_value n (s ∷ ss))
unfolding last_value
flag_or-cons b n s ss = ground arith

exec_or-cons :
    (e : Option Text) (n : Text) (s : Setting) (ss : List Setting)
    → exec_or (exec_or e (last_value n (s ∷ []))) (last_value n ss)
      ≡ exec_or e (last_value n (s ∷ ss))
unfolding last_value
exec_or-cons e n s ss = ground arith

updated-cons :
    (conf : PjAgentConf) (s : Setting) (ss : List Setting)
    → updated (updated conf (s ∷ [])) ss ≡ updated conf (s ∷ ss)
unfolding updated
updated-cons conf s ss = simp (flag_or-cons, exec_or-cons)

updated-nil : (conf : PjAgentConf) → updated conf [] ≡ conf
unfolding updated last_value
updated-nil conf = refl

apply_agent_option_pair_lem :
    (conf : PjAgentConf) (name : Text) (value : Option Text)
    → apply_agent_option_pair conf (components name value) ≡ one_outcome conf name value
unfolding apply_agent_option_pair
apply_agent_option_pair_lem conf name none = apply_agent_option_lem conf name none
apply_agent_option_pair_lem conf name (some v) = apply_agent_option_lem conf name (some v)

-- The loop over the options of a list equals its description: the first setting that is not valid
-- panics, and with none each field is decided by the last setting of its name, and keeps its value
-- if no setting names it.
pub apply_pairs-outcome :
    (conf : PjAgentConf) (ss : List Setting) → apply_pairs conf (pairs_of ss) ≡ outcome conf ss
unfolding apply_pairs first_fault
apply_pairs-outcome conf [] = rw updated-nil
apply_pairs-outcome conf (s ∷ ss) =
    rw apply_agent_option_pair_lem
      (ground (arith, apply_pairs-outcome (updated conf (s ∷ [])) ss, updated-cons conf s ss))
