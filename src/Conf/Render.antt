-- ===== src/Conf/Render.antt =====
-- Options lists as text, with any number of spaces where the grammar skips them.
pub mod Accepted
pub mod Parse
pub mod Reads
use phasic_j.Base.{
  ℕ, zero, suc, ◌≤◌, ◌≡◌, ◌≢◌, refl, Text, Bool, true, false, Option, none, some, List, [], ◌∷◌,
  ◌++◌, ◌==◌, arith, All, length, if◌then◌else◌, ◌∙◌,
}
use phasic_j.Conf.Apply.{Setting, components, pairs_of}
use phasic_j.Conf.Grammar.{
  Token, OptionPair, agent_option, end_of_input, name_token, arg_token, name_char, arg_char, span,
  skip, literal, named, parse_name, parse_arg, close_quote, parse_quoted_arg, parse_value,
  parse_assignment, parse_option, parse_next, parse_more, parse_options, finish, parse,
}
use phasic_j.Conf.Grammar.Scan.{spaces, skip-spaces, skip_idem, Stops, span-append, length-spaces}

-- How many spaces stand before a name, before and behind the `=`, behind the opening quote, and
-- behind the option, and whether its value stands in quotes. A value that does not has no spaces
-- behind it: they would be bytes of the value.
pub record Layout : Type 0 where
  pub before_name : ℕ
  pub before_assign : ℕ
  pub after_assign : ℕ
  pub quoted : Bool
  pub in_quote : ℕ
  pub after : ℕ

abbrev pub written : Bool → Layout → Text → Text → Text
written true l v rest = b'"' ∷ spaces l.in_quote (v ++ b'"' ∷ spaces l.after rest)
written false l v rest = v ++ rest

-- What stands behind a name, and the rest of the list.
abbrev pub render_value : Layout → Option Text → Text → Text
render_value l none rest = spaces l.after rest
render_value l (some v) rest =
    spaces l.before_assign (b'=' ∷ spaces l.after_assign (written l.quoted l v rest))

abbrev pub render_setting : Layout → Setting → Text → Text
render_setting l s rest = spaces l.before_name (s.name ++ render_value l s.value rest)

abbrev pub render_more : List (Layout × Setting) → Text
render_more [] = []
render_more ((l, s) ∷ ss) = b',' ∷ render_setting l s (render_more ss)

-- The options with commas between them.
abbrev pub render : List (Layout × Setting) → Text
render [] = []
render ((l, s) ∷ ss) = render_setting l s (render_more ss)

abbrev pub settings : List (Layout × Setting) → List Setting
settings [] = []
settings ((l, s) ∷ ss) = s ∷ settings ss

-- A value that can be written: bytes of the grammar, and no space in front, which would be skipped.
abbrev pub IsValue : Option Text → Type 0
IsValue none = Unit
IsValue (some v) = All arg_char v × Stops (λ c. c == b' ') v

pub record IsSetting (s : Setting) : Type 0 where
  pub nonempty : s.name ≢ []
  pub name : All name_char s.name
  pub value : IsValue s.value

abbrev pub AllSettings : List (Layout × Setting) → Type 0
AllSettings [] = Unit
AllSettings ((l, s) ∷ ss) = IsSetting s × AllSettings ss

-- The rest of a list: it ends a name and a value, and does not begin with `=` or a quote.
pub record IsSeparated (rest : Text) : Type 0 where
  pub ends : Stops name_char rest
  pub ends_value : Stops arg_char rest
  pub no_space : Stops (λ c. c == b' ') rest
  pub no_assign : literal b'=' rest ≡ none
  pub no_quote : literal b'"' rest ≡ none

pub render_more-IsSeparated : (ss : List (Layout × Setting)) → IsSeparated (render_more ss)
unfolding name_char arg_char literal
render_more-IsSeparated [] = record {
  ends = tt;
  ends_value = tt;
  no_space = tt;
  no_assign = refl;
  no_quote = refl;
}
render_more-IsSeparated ((l, s) ∷ ss) = record {
  ends = refl;
  ends_value = refl;
  no_space = refl;
  no_assign = refl;
  no_quote = refl;
}

skip-Stops : (s : Text) → Stops (λ c. c == b' ') s → skip s ≡ s
unfolding skip
skip-Stops [] h = refl
skip-Stops (c ∷ s) h = rw h

Stops-append : (p : ℕ → Bool) (v rest : Text) → Stops p v → Stops p rest → Stops p (v ++ rest)
Stops-append p [] rest h k = k
Stops-append p (c ∷ v) rest h k = h

pub skip-cons : (b : ℕ) (rest : Text) → (b == b' ') ≡ false → skip (b ∷ rest) ≡ b ∷ rest
unfolding skip
skip-cons b rest e = rw e

pub literal_self : (b : ℕ) (rest : Text) → literal b (b ∷ rest) ≡ some rest
unfolding literal
literal_self b rest = ground arith

parse_arg-append :
    (v rest : Text)
    → All arg_char v
    → Stops arg_char rest
    → parse_arg (v ++ rest) ≡ (arg_token v, rest)
unfolding parse_arg
parse_arg-append v rest h k = rw (span-append arg_char v rest h k)

close_quote-quote : (t : Token) (rest : Text) → close_quote t (b'"' ∷ rest) ≡ some (t, rest)
unfolding close_quote skip literal
close_quote-quote t rest = refl

-- A quoted value, with spaces behind the opening quote.
parse_quoted_arg-render :
    (n : ℕ) (v rest : Text)
    → All arg_char v
    → Stops (λ c. c == b' ') v
    → parse_quoted_arg (b'"' ∷ spaces n (v ++ b'"' ∷ rest)) ≡ some (arg_token v, rest)
unfolding parse_quoted_arg literal
parse_quoted_arg-render n v rest h st = rw (
  skip-spaces,
  skip-Stops (v ++ b'"' ∷ rest) (Stops-append _ v (b'"' ∷ rest) st refl),
  parse_arg-append v (b'"' ∷ rest) h (unfold arg_char in refl),
  close_quote-quote,
)

-- A value that is not in quotes is not taken for one that is.
literal-bare :
    (v rest : Text) → All arg_char v → literal b'"' rest ≡ none → literal b'"' (v ++ rest) ≡ none
unfolding literal arg_char
literal-bare [] rest h k = k
literal-bare (c ∷ v) rest h k = ground (arith, h.0)

parse_value-bare :
    (v rest : Text)
    → All arg_char v
    → IsSeparated rest
    → parse_value (v ++ rest) ≡ (arg_token v, rest)
unfolding parse_value parse_quoted_arg
parse_value-bare v rest h sep =
    rw (parse_value, parse_quoted_arg, literal-bare v rest h sep.no_quote)
      (parse_arg-append v rest h sep.ends_value)

-- What is left behind a value, and behind what stands behind a name.
abbrev pub behind : Bool → Layout → Text → Text
behind true l rest = spaces l.after rest
behind false l rest = rest

abbrev pub left : Layout → Option Text → Text → Text
left l none rest = skip (spaces l.after rest)
left l (some v) rest = behind l.quoted l rest

skip-behind : (b : Bool) (l : Layout) (rest : Text) → skip (behind b l rest) ≡ skip rest
skip-behind true l rest = skip-spaces l.after rest
skip-behind false l rest = refl

pub skip-left :
    (l : Layout) (value : Option Text) (rest : Text) → skip (left l value rest) ≡ skip rest
skip-left l none rest = skip_idem (spaces l.after rest) ∙ skip-spaces l.after rest
skip-left l (some v) rest = skip-behind l.quoted l rest

parse_value-render :
    (b : Bool) (l : Layout) (v rest : Text)
    → All arg_char v
    → Stops (λ c. c == b' ') v
    → IsSeparated rest
    → parse_value (skip (written b l v rest)) ≡ (arg_token v, behind b l rest)
unfolding parse_value
parse_value-render true l v rest h st sep = rw (
  skip-cons b'"' _ refl,
  parse_value,
  parse_quoted_arg-render l.in_quote v (spaces l.after rest) h st,
)
parse_value-render false l v rest h st sep =
    rw (skip-Stops (v ++ rest) (Stops-append _ v rest st sep.no_space))
      (parse_value-bare v rest h sep)

Stops-spaces : (n : ℕ) (s : Text) → Stops name_char s → Stops name_char (spaces n s)
unfolding name_char
Stops-spaces zero s h = h
Stops-spaces (suc n) s h = refl

Stops-render_value :
    (l : Layout) (value : Option Text) (rest : Text)
    → IsSeparated rest
    → Stops name_char (render_value l value rest)
Stops-render_value l none rest h = Stops-spaces l.after rest h.ends
Stops-render_value l (some v) rest h = Stops-spaces l.before_assign _ (unfold name_char in refl)

named_lem : (name rest : Text) → name ≢ [] → named name rest ≡ some (name_token name, rest)
unfolding named
named_lem [] rest h = absurd (h refl)
named_lem (c ∷ cs) rest h = refl

assignment_lem :
    (l : Layout) (name : Text) (value : Option Text) (rest : Text)
    → IsValue value
    → IsSeparated rest
    → parse_assignment (name_token name) (render_value l value rest)
      ≡ (components name value, left l value rest)
unfolding parse_assignment
assignment_lem l name none rest v h =
    let none_there : literal b'=' (skip (spaces l.after rest)) ≡ none =
      rw (skip-spaces, skip-Stops rest h.no_space) h.no_assign in
    rw (parse_assignment, none_there)
assignment_lem l name (some v) rest h sep = rw (
  parse_assignment,
  skip-spaces,
  skip-cons b'=' _ refl,
  literal_self,
  skip-spaces,
  parse_value-render l.quoted l v rest h.0 h.1 sep,
)

-- An option is read back, without its layout.
pub parse_option-render :
    (l : Layout) (s : Setting) (rest : Text)
    → IsSetting s
    → IsSeparated rest
    → parse_option (s.name ++ render_value l s.value rest)
      ≡ some (components s.name s.value, left l s.value rest)
unfolding parse_option parse_name
parse_option-render l s rest h sep = rw (
  parse_option,
  parse_name,
  span-append name_char s.name _ h.name (Stops-render_value l s.value rest sep),
  named_lem s.name _ h.nonempty,
  assignment_lem l s.name s.value rest h.value sep,
)
