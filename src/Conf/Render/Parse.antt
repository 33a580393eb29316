-- ===== src/Conf/Render/Parse.antt =====
-- A rendered options list is parsed to its options.
use phasic_j.Base.{Bool, true, false}
use phasic_j.Base.{
  ℕ, zero, suc, ◌≤◌, ◌≡◌, ◌≢◌, refl, Text, Option, none, some, List, [], ◌∷◌, ◌++◌, arith, All,
  length, length-append, ◌∙◌, ap,
}
use phasic_j.Conf.Apply.{Setting, components, pairs_of}
use phasic_j.Conf.Grammar.{
  Token, OptionPair, parse_name, named, span, agent_option, end_of_input, name_char, skip, literal,
  parse_option, parse_next, parse_more, parse_options, finish, parse,
}
use phasic_j.Conf.Grammar.Scan.{spaces, skip-spaces, length-spaces}
use phasic_j.Conf.Render.{
  Layout, written, behind, render_value, render_setting, render_more, render, settings, IsSetting,
  AllSettings, left, skip-left, render_more-IsSeparated, parse_option-render, skip-cons,
  literal_self,
}

skip-name : (name rest : Text) → name ≢ [] → All name_char name → skip (name ++ rest) ≡ name ++ rest
unfolding name_char
skip-name [] rest ne h = absurd (ne refl)
skip-name (c ∷ cs) rest ne h = skip-cons c (cs ++ rest) (ground arith)

-- What an option leaves: the rest of its list, up to spaces.
abbrev left_over : Layout → Setting → Text → Text
left_over l s rest = left l s.value rest

skip-left_over : (l : Layout) (s : Setting) (rest : Text) → skip (left_over l s rest) ≡ skip rest
skip-left_over l s rest = skip-left l s.value rest

-- The layout in front of an option is skipped.
parse_option-render_setting :
    (l : Layout) (s : Setting) (ss : List (Layout × Setting))
    → IsSetting s
    → parse_option (skip (render_setting l s (render_more ss)))
      ≡ some (components s.name s.value, left_over l s (render_more ss))
parse_option-render_setting l s ss h =
    rw (skip-spaces, skip-name s.name _ h.nonempty h.name)
      (parse_option-render l s _ h (render_more-IsSeparated ss))

parse_next-render :
    (l : Layout) (s : Setting) (ss : List (Layout × Setting))
    → IsSetting s
    → parse_next (skip (render_more ((l, s) ∷ ss)))
      ≡ some (components s.name s.value, left_over l s (render_more ss))
unfolding parse_next
parse_next-render l s ss h =
    rw (skip-cons b',' _ refl, parse_next, literal_self) (parse_option-render_setting l s ss h)

abbrev pub options_of : List (Layout × Setting) → List OptionPair
options_of [] = []
options_of ((l, s) ∷ ss) = agent_option (components s.name s.value) ∷ options_of ss

parse_more_stop :
    (n : ℕ) (text : Text) → parse_next (skip text) ≡ none → parse_more n text ≡ ([], text)
unfolding parse_more
parse_more_stop zero text e = refl
parse_more_stop (suc n) text e = rw (parse_more, e)

parse_more_step :
    (n : ℕ) (text rest : Text) (comp : List Token)
    → parse_next (skip text) ≡ some (comp, rest)
    → parse_more (suc n) text ≡ (agent_option comp ∷ (parse_more n rest).0, (parse_more n rest).1)
unfolding parse_more
parse_more_step n text rest comp e = rw (parse_more, e)

parse_next-nil : parse_next (skip []) ≡ none
unfolding parse_next literal skip
parse_next-nil = refl

-- Text that is the options `ss` behind spaces gives them, and leaves spaces.
parse_more-render :
    (n : ℕ) (ss : List (Layout × Setting)) (text : Text)
    → length ss ≤ n
    → AllSettings ss
    → skip text ≡ skip (render_more ss)
    → ((parse_more n text).0 ≡ options_of ss) × (skip (parse_more n text).1 ≡ [])
parse_more-render n [] text f h e =
    rw (parse_more_stop n text (rw e parse_next-nil)) (refl, e ∙ unfold skip in refl)
parse_more-render zero ((l, s) ∷ ss) text f h e = absurd (omega arith)
parse_more-render (suc n) ((l, s) ∷ ss) text f h e =
    let rest =
      parse_more-render n ss (left_over l s (render_more ss)) (omega arith) h.1
        (skip-left_over l s _) in
    rw
      (parse_more_step n text (left_over l s (render_more ss)) (components s.name s.value)
        (rw e (parse_next-render l s ss h.0)))
      (ap (λ os. agent_option (components s.name s.value) ∷ os) rest.0, rest.1)

length-written : (b : Bool) (l : Layout) (v rest : Text) → length rest ≤ length (written b l v rest)
length-written true l v rest = omega (
  arith,
  length-spaces l.after rest,
  length-append {0} v (b'"' ∷ spaces l.after rest),
  length-spaces l.in_quote (v ++ b'"' ∷ spaces l.after rest),
)
length-written false l v rest = omega (arith, length-append {0} v rest)

length-render_value :
    (l : Layout) (value : Option Text) (rest : Text)
    → length rest ≤ length (render_value l value rest)
length-render_value l none rest = length-spaces l.after rest
length-render_value l (some v) rest =
    let value = written l.quoted l v rest in
    omega (
      arith,
      length-written l.quoted l v rest,
      length-spaces l.after_assign value,
      length-spaces l.before_assign (b'=' ∷ spaces l.after_assign value),
    )

length-render_more : (ss : List (Layout × Setting)) → length ss ≤ length (render_more ss)
length-render_more [] = omega arith
length-render_more ((l, s) ∷ ss) =
    let tail = render_more ss in
    omega (
      arith,
      length-render_more ss,
      length-render_value l s.value tail,
      length-append {0} s.name (render_value l s.value tail),
      length-spaces l.before_name (s.name ++ render_value l s.value tail),
    )

skip-render_more : (ss : List (Layout × Setting)) → skip (render_more ss) ≡ render_more ss
unfolding skip
skip-render_more [] = refl
skip-render_more ((l, s) ∷ ss) = refl

length-behind : (b : Bool) (l : Layout) (rest : Text) → length rest ≤ length (behind b l rest)
length-behind true l rest = length-spaces l.after rest
length-behind false l rest = omega arith

-- The text behind an option is fuel enough for the options in it.
fuel_lem :
    (l : Layout) (value : Option Text) (ss : List (Layout × Setting))
    → length ss ≤ length (left l value (render_more ss))
fuel_lem l none ss = rw (skip-spaces, skip-render_more) (length-render_more ss)
fuel_lem l (some v) ss =
    omega (arith, length-render_more ss, length-behind l.quoted l (render_more ss))

pub pairs_of-options_of :
    (ss : List (Layout × Setting)) → options_of ss ++ (end_of_input ∷ []) ≡ pairs_of (settings ss)
pairs_of-options_of [] = refl
pairs_of-options_of ((l, s) ∷ ss) =
    ap (λ os. agent_option (components s.name s.value) ∷ os) (pairs_of-options_of ss)

parse_options_step :
    (text rest : Text) (comp : List Token)
    → parse_option text ≡ some (comp, rest)
    → parse_options text
      ≡ (agent_option comp ∷ (parse_more (length rest) rest).0, (parse_more (length rest) rest).1)
unfolding parse_options
parse_options_step text rest comp e = rw (parse_options, e)

finish_lem :
    (pairs : List OptionPair) (text : Text)
    → skip text ≡ []
    → finish (pairs, text) ≡ some (pairs ++ (end_of_input ∷ []))
unfolding finish
finish_lem pairs text e = rw (finish, e)

-- Every list of settings, written with any layout and any number of spaces in front, is parsed to
-- the pairs of those settings.
pub parse-render :
    (n : ℕ) (ss : List (Layout × Setting))
    → AllSettings ss
    → parse (spaces n (render ss)) ≡ some (pairs_of (settings ss))
unfolding parse
parse-render n [] h =
    rw skip-spaces (unfold parse_options skip parse_option parse_name named span finish in refl)
parse-render n ((l, s) ∷ ss) h =
    let rest = left_over l s (render_more ss) in
    let more =
      parse_more-render (length rest) ss rest (fuel_lem l s.value ss) h.1 (skip-left_over l s _) in
    rw
      (
        skip-spaces,
        parse_options_step _ rest (components s.name s.value)
            (parse_option-render_setting l s ss h.0),
        finish_lem _ _ more.1,
        more.0,
      )
      (ap (λ os. some (agent_option (components s.name s.value) ∷ os)) (pairs_of-options_of ss))
