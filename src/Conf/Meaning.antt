-- ===== src/Conf/Meaning.antt =====
-- What `new_from_agent_options_list_str` makes of a text.
use phasic_j.Base.{
  ℕ, ◌≡◌, ◌≢◌, ap, ◌⊎◌, inl, inr, Text, codes, text_eq, text_eq_iff, Option, none, some, List, [],
  ◌∷◌, arith, All, Option-cases, ◌∙◌, sym,
}
use phasic_j.Panic.{ok, panic, parse_failure}
use phasic_j.Conf.{
  PjAgentConf, new_with_defaults, apply_agent_options_list_str, new_from_agent_options_list_str,
}
use phasic_j.Conf.Apply.{
  Setting, fault, first_fault, last_value, exec_or, updated, outcome, apply_pairs-outcome,
}
use phasic_j.Conf.Grammar.{name_char, arg_char, parse}
use phasic_j.Conf.Grammar.Scan.{spaces}
use phasic_j.Conf.Render.{Layout, render, settings, IsSetting, IsValue, AllSettings}
use phasic_j.Conf.Render.Accepted.{parse-rendered}
use phasic_j.Conf.Render.Parse.{parse-render}

-- Every list of settings whose names and values the grammar allows, each value in quotes or not,
-- with any spaces in front of the list and wherever the grammar skips them, is read with the
-- outcome of the settings: the first setting that is not valid panics with its own panic; if all
-- are valid, each field has the value of the last setting of its name, or its default. (No spaces
-- are skipped behind a value that is not in quotes, since they are bytes of the value, and no value
-- begins with a space.)
pub new_from_agent_options_list_str-render :
    (n : ℕ) (ss : List (Layout × Setting))
    → AllSettings ss
    → new_from_agent_options_list_str (spaces n (render ss))
      ≡ outcome new_with_defaults (settings ss)
unfolding new_from_agent_options_list_str apply_agent_options_list_str
new_from_agent_options_list_str-render n ss h =
    rw (apply_agent_options_list_str, parse-render n ss h)
      (apply_pairs-outcome new_with_defaults (settings ss))

abbrev AllBytes : Option Text → Type 0
AllBytes none = Unit
AllBytes (some v) = All arg_char v

-- A setting that the grammar can give.
pub record IsWritten (s : Setting) : Type 0 where
  pub nonempty : s.name ≢ []
  pub name : All name_char s.name
  pub value : AllBytes s.value

abbrev pub AllWritten : List Setting → Type 0
AllWritten [] = Unit
AllWritten (s ∷ ss) = IsWritten s × AllWritten ss

IsValue-AllBytes : (v : Option Text) → IsValue v → AllBytes v
IsValue-AllBytes none h = tt
IsValue-AllBytes (some v) h = h.0

IsSetting-IsWritten : (s : Setting) → IsSetting s → IsWritten s
IsSetting-IsWritten s h = record {
  nonempty = h.nonempty;
  name = h.name;
  value = IsValue-AllBytes s.value h.value;
}

AllSettings-AllWritten : (ss : List (Layout × Setting)) → AllSettings ss → AllWritten (settings ss)
AllSettings-AllWritten [] h = tt
AllSettings-AllWritten ((l, s) ∷ ss) h = (IsSetting-IsWritten s h.0, AllSettings-AllWritten ss h.1)

-- A text that is an options list, with the settings that it is a rendering of.
pub record IsList (text : Text) : Type 0 where
  pub before : ℕ
  pub rendered : List (Layout × Setting)
  pub all_settings : AllSettings rendered
  pub is_rendered : text ≡ spaces before (render rendered)

-- Every text either is no options list, in any layout, and then panics as such, or is one, and then
-- has exactly the outcome of the settings that it is a rendering of.
pub new_from_agent_options_list_str-total :
    (text : Text)
    → (¬ IsList text × (new_from_agent_options_list_str text ≡ panic parse_failure))
      ⊎ ((l : IsList text) × (new_from_agent_options_list_str text
            ≡ outcome new_with_defaults (settings l.rendered)))
unfolding new_from_agent_options_list_str apply_agent_options_list_str
new_from_agent_options_list_str-total text = elim (Option-cases (parse text)) [
  | inl e ↦ inl (
    λ l.
        let parsed = parse-render l.before l.rendered l.all_settings in
        cc (sym e ∙ ap parse l.is_rendered ∙ parsed),
    rw (apply_agent_options_list_str, e),
  )
  | inr (pairs, e) ↦
      let r = parse-rendered text e in
      let l : IsList text = record {
        before = r.before;
        rendered = r.rendered;
        all_settings = r.all_settings;
        is_rendered = r.text;
      } in
      inr (
        l,
        rw (apply_agent_options_list_str, e, r.tree_of)
            (apply_pairs-outcome new_with_defaults (settings r.rendered)),
      )
]

-- The last value of a name, if there is one, has a property.
abbrev Holds : (Option Text → Type 0) → Option (Option Text) → Type 0
Holds P none = Unit
Holds P (some v) = P v

last_value-fault :
    (n : Text) (ss : List Setting)
    → first_fault ss ≡ none
    → Holds (λ v. fault n v ≡ none) (last_value n ss)
unfolding first_fault last_value
last_value-fault n [] valid = tt
last_value-fault n (s ∷ ss) valid = ground (arith, last_value-fault n ss, text_eq_iff s.name n)

last_value-AllBytes :
    (n : Text) (ss : List Setting) → AllWritten ss → Holds AllBytes (last_value n ss)
unfolding last_value
last_value-AllBytes n [] h = tt
last_value-AllBytes n (s ∷ ss) h = ground (arith, last_value-AllBytes n ss h.1)

exec-fault :
    (v : Option Text) → fault (codes "phasicj_exec") v ≡ none → exec_or none (some v) ≢ some []
unfolding fault codes text_eq
exec-fault none h = cc
exec-fault (some []) h = cc
exec-fault (some (b ∷ v)) h = λ e. cc

-- A path of a PhasicJ executable that is safe to copy and to run.
abbrev pub IsExec : Option Text → Type 0
IsExec none = Unit
IsExec (some v) = (v ≢ []) × All arg_char v

exec_or-IsExec :
    (l : Option (Option Text))
    → Holds AllBytes l
    → Holds (λ v. fault (codes "phasicj_exec") v ≡ none) l
    → IsExec (exec_or none l)
exec_or-IsExec none h f = tt
exec_or-IsExec (some none) h f = tt
exec_or-IsExec (some (some v)) h f = (λ e. exec-fault (some v) f (ap some e), h)

updated-IsExec :
    (ss : List Setting)
    → AllWritten ss
    → first_fault ss ≡ none
    → IsExec (updated new_with_defaults ss).phasicj_exec
unfolding updated
updated-IsExec ss w f = exec_or-IsExec _ (last_value-AllBytes _ ss w) (last_value-fault _ ss f)

outcome-IsExec :
    (ss : List Setting) {conf : PjAgentConf}
    → AllWritten ss
    → outcome new_with_defaults ss ≡ ok conf
    → IsExec conf.phasicj_exec
outcome-IsExec ss w e = ground (arith, updated-IsExec ss w)

-- Whatever text a configuration was read from, the executable's path in it, if there is one, is not
-- empty, and has only the ASCII bytes that the grammar lets an argument have.
pub new_from_agent_options_list_str-IsExec :
    (text : Text) {conf : PjAgentConf}
    → new_from_agent_options_list_str text ≡ ok conf
    → IsExec conf.phasicj_exec
new_from_agent_options_list_str-IsExec text e = elim (new_from_agent_options_list_str-total text) [
  | inl (_, f) ↦ cc
  | inr (l, f) ↦
      outcome-IsExec (settings l.rendered) (AllSettings-AllWritten l.rendered l.all_settings)
        (sym f ∙ e)
]
