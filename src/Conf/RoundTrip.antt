-- ===== src/Conf/RoundTrip.antt =====
-- A configuration written out as an options list is read back.
use phasic_j.Base.{
  ◌≡◌, ◌≢◌, refl, Text, codes, text_eq, Bool, true, false, Option, none, some, List, [], ◌∷◌, ◌==◌,
  arith, All, all, all-All, ◌∙◌,
}
use phasic_j.Panic.{ok}
use phasic_j.Conf.{PjAgentConf, new_with_defaults, new_from_agent_options_list_str}
use phasic_j.Conf.Apply.{Setting, fault, first_fault, last_value, updated, outcome}
use phasic_j.Conf.Grammar.{name_char, arg_char}
use phasic_j.Conf.Grammar.Scan.{Stops}
use phasic_j.Conf.Meaning.{new_from_agent_options_list_str-render}
use phasic_j.Conf.Render.{Layout, render, settings, IsSetting, AllSettings}

abbrev flag_text : Bool → Text
flag_text true = codes "true"
flag_text false = codes "false"

abbrev flag : Text → Bool → Setting
flag name b = record { name = name; value = some (flag_text b) }

abbrev exec_settings : Layout → Option Text → List (Layout × Setting) → List (Layout × Setting)
exec_settings l none rest = rest
exec_settings l (some v) rest = (l, record { name = codes "phasicj_exec"; value = some v }) ∷ rest

-- All fields, each as an option, with the same spaces around each.
abbrev pub settings_of : Layout → PjAgentConf → List (Layout × Setting)
settings_of l conf =
    (l, flag (codes "verbose") conf.verbose)
    ∷ (l, flag (codes "debug_dump_classes_before_instr") conf.debug_dump_classes_before_instr)
    ∷ (l, flag (codes "debug_dump_classes_after_instr") conf.debug_dump_classes_after_instr)
    ∷ exec_settings l conf.phasicj_exec []

-- The path can be written: it is not empty, begins with no space, and has bytes of the grammar.
abbrev pub IsPrintable : Option Text → Type 0
IsPrintable none = Unit
IsPrintable (some v) = (v ≢ []) × All arg_char v × Stops (λ c. c == b' ') v

flag-IsSetting : (n : Text) (b : Bool) → n ≢ [] → all name_char n ≡ true → IsSetting (flag n b)
unfolding codes arg_char all
flag-IsSetting n true ne h = record {
  nonempty = ne;
  name = all-All name_char n h;
  value = (all-All arg_char (flag_text true) refl, refl);
}
flag-IsSetting n false ne h = record {
  nonempty = ne;
  name = all-All name_char n h;
  value = (all-All arg_char (flag_text false) refl, refl);
}

exec-AllSettings :
    (l : Layout) (exec : Option Text) → IsPrintable exec → AllSettings (exec_settings l exec [])
unfolding codes all name_char
exec-AllSettings l none h = tt
exec-AllSettings l (some v) h = (
  record {
    nonempty = λ e. cc;
    name = all-All name_char (codes "phasicj_exec") refl;
    value = (h.1, h.2);
  },
  tt,
)

settings_of-AllSettings :
    (l : Layout) (conf : PjAgentConf)
    → IsPrintable conf.phasicj_exec
    → AllSettings (settings_of l conf)
unfolding codes all name_char
settings_of-AllSettings l conf h = (
  flag-IsSetting (codes "verbose") conf.verbose (λ e. cc) refl,
  (
    flag-IsSetting (codes "debug_dump_classes_before_instr") conf.debug_dump_classes_before_instr
        (λ e. cc) refl,
    (
      flag-IsSetting (codes "debug_dump_classes_after_instr") conf.debug_dump_classes_after_instr
          (λ e. cc) refl,
      exec-AllSettings l conf.phasicj_exec h,
    ),
  ),
)

abbrev conf_of : Bool → Option Text → Bool → Bool → PjAgentConf
conf_of v e b a = record {
  verbose = v;
  phasicj_exec = e;
  debug_dump_classes_before_instr = b;
  debug_dump_classes_after_instr = a;
}

outcome_lem :
    (l : Layout) (v : Bool) (e : Option Text) (b a : Bool)
    → IsPrintable e
    → outcome new_with_defaults (settings (settings_of l (conf_of v e b a))) ≡ ok (conf_of v e b a)
unfolding first_fault fault updated last_value codes text_eq
outcome_lem l v (some []) b a h = absurd (h.0 refl)
outcome_lem l v none b a h = ground arith
outcome_lem l v (some (c ∷ e)) b a h = ground arith

settings_of-outcome :
    (l : Layout) (conf : PjAgentConf)
    → IsPrintable conf.phasicj_exec
    → outcome new_with_defaults (settings (settings_of l conf)) ≡ ok conf
settings_of-outcome l conf h =
    outcome_lem l conf.verbose conf.phasicj_exec conf.debug_dump_classes_before_instr
      conf.debug_dump_classes_after_instr h

-- Every configuration whose path can be written, or which has none, is read back from its options
-- list, whatever the spaces, with its values in quotes or not.
pub new_from_agent_options_list_str-settings_of :
    (l : Layout) (conf : PjAgentConf)
    → IsPrintable conf.phasicj_exec
    → new_from_agent_options_list_str (render (settings_of l conf)) ≡ ok conf
new_from_agent_options_list_str-settings_of l conf h =
    new_from_agent_options_list_str-render 0 (settings_of l conf) (settings_of-AllSettings l conf h)
    ∙ settings_of-outcome l conf h
