-- ===== src/Conf/Reorder.antt =====
-- The order of the options in a list.
use phasic_j.Conf.Grammar.Scan.{spaces}
use phasic_j.Base.{
  ℕ, ◌≡◌, ◌∙◌, refl, sym, ap, Text, codes, text_eq, text_eq_iff, none, Option-cases, inl, inr, List,
  ◌∷◌, arith, false,
}
use phasic_j.Panic.{ok}
use phasic_j.Conf.{PjAgentConf, new_with_defaults, new_from_agent_options_list_str}
use phasic_j.Conf.Apply.{Setting, first_fault, last_value, updated, outcome}
use phasic_j.Conf.Meaning.{new_from_agent_options_list_str-render}
use phasic_j.Conf.Render.{Layout, render, settings, AllSettings}

-- Another order of some settings, in which those of the same name keep theirs.
pub data IsReordered : List Setting → List Setting → Type 0 where
  same : {ss ts : List Setting} → ss ≡ ts → IsReordered ss ts
  behind :
      {ss ts : List Setting} (s : Setting) (us vs : List Setting)
      → ss ≡ s ∷ us
      → ts ≡ s ∷ vs
      → IsReordered us vs
      → IsReordered ss ts
  swapped :
      {ss ts : List Setting} (s t : Setting) (us : List Setting)
      → ss ≡ s ∷ t ∷ us
      → ts ≡ t ∷ s ∷ us
      → text_eq s.name t.name ≡ false
      → IsReordered ss ts
  chained :
      {ss ts : List Setting} (us : List Setting)
      → IsReordered ss us
      → IsReordered us ts
      → IsReordered ss ts

last_value-swapped :
    (n : Text) (s t : Setting) (us : List Setting)
    → text_eq s.name t.name ≡ false
    → last_value n (s ∷ t ∷ us) ≡ last_value n (t ∷ s ∷ us)
unfolding last_value
last_value-swapped n s t us apart =
    ground (arith, text_eq_iff s.name n, text_eq_iff t.name n, text_eq_iff s.name t.name)

last_value-IsReordered :
    (n : Text) {ss ts : List Setting} → IsReordered ss ts → last_value n ss ≡ last_value n ts
unfolding last_value
last_value-IsReordered n (same e) = ap (last_value n) e
last_value-IsReordered n (behind s us vs e f more) = rw (e, f, last_value-IsReordered n more) refl
last_value-IsReordered n (swapped s t us e f apart) = rw (e, f) (last_value-swapped n s t us apart)
last_value-IsReordered n (chained us before after) =
    last_value-IsReordered n before ∙ last_value-IsReordered n after

first_fault-IsReordered :
    {ss ts : List Setting} → IsReordered ss ts → first_fault ss ≡ none → first_fault ts ≡ none
unfolding first_fault
first_fault-IsReordered (same e) valid = rw e at valid
first_fault-IsReordered (behind s us vs e f more) valid =
    rw f (ground (arith, first_fault-IsReordered more, rw e at valid))
first_fault-IsReordered (swapped s t us e f apart) valid = rw f (ground (arith, rw e at valid))
first_fault-IsReordered (chained us before after) valid =
    first_fault-IsReordered after (first_fault-IsReordered before valid)

updated-IsReordered :
    (conf : PjAgentConf) {ss ts : List Setting}
    → IsReordered ss ts
    → updated conf ss ≡ updated conf ts
unfolding updated
updated-IsReordered conf r =
    rw
      (
        last_value-IsReordered (codes "verbose") r,
        last_value-IsReordered (codes "phasicj_exec") r,
        last_value-IsReordered (codes "debug_dump_classes_before_instr") r,
        last_value-IsReordered (codes "debug_dump_classes_after_instr") r,
      )
      refl

outcome-IsReordered :
    {ss ts : List Setting} (conf : PjAgentConf) {result : PjAgentConf}
    → IsReordered ss ts
    → outcome conf ss ≡ ok result
    → outcome conf ts ≡ ok result
outcome-IsReordered {ss} {ts} conf r e = elim (Option-cases (first_fault ss)) [
  | inl valid ↦
      let accepted = rw (outcome, valid) at e in
      rw (outcome, first_fault-IsReordered r valid)
        (ap ok (sym (updated-IsReordered conf r)) ∙ accepted)
  | inr (p, refused) ↦ cc (rw (outcome, refused) at e)
]

-- If a list of settings whose names and values the grammar allows is accepted, each value in quotes
-- or not, with any spaces in front of the list and wherever the grammar skips them, then every
-- other order of it in which settings of the same name keep theirs, again in any such layout, gives
-- the same configuration. (No spaces are skipped behind a value that is not in quotes, since they
-- are bytes of the value, and no value begins with a space.)
pub new_from_agent_options_list_str-IsReordered :
    (m n : ℕ) (ss ts : List (Layout × Setting)) {conf : PjAgentConf}
    → AllSettings ss
    → AllSettings ts
    → IsReordered (settings ss) (settings ts)
    → new_from_agent_options_list_str (spaces m (render ss)) ≡ ok conf
    → new_from_agent_options_list_str (spaces n (render ts)) ≡ ok conf
new_from_agent_options_list_str-IsReordered m n ss ts h k r e =
    new_from_agent_options_list_str-render n ts k
    ∙ outcome-IsReordered new_with_defaults r
        (sym (new_from_agent_options_list_str-render m ss h) ∙ e)
