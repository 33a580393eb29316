-- ===== src/Conf/Grammar.antt =====
-- agent/conf/src/PjAgentConfLang.pest: one function for each rule of the grammar, which returns
-- the tokens of the rule and the text that is left, or `none` where the rule does not match.
-- A choice is ordered, a repetition is greedy, and between the parts of a rule that is not atomic
-- stands an implicit `WHITESPACE*`, as in every pest grammar that declares `WHITESPACE`.
pub mod Scan
pub mod Size
pub mod Sound
use phasic_j.Base.{
  ℕ, zero, suc, Text, Bool, true, false, ◌&&◌, ◌||◌, Option, none, some, List, [], ◌∷◌, ◌++◌, ◌==◌,
  leb, length, if◌then◌else◌,
}

-- The rules that give tokens.
pub data Rule : Type 0 where
  conf_option_name conf_option_arg : Rule

-- A pair with no pairs inside: its rule and the text that it matched.
pub record Token : Type 0 where
  pub rule : Rule
  pub text : Text

-- The pairs inside `agent_options_list`.
pub data OptionPair : Type 0 where
  agent_option : List Token → OptionPair
  end_of_input : OptionPair

abbrev pub name_token : Text → Token
name_token s = record { rule = conf_option_name; text = s }

abbrev pub arg_token : Text → Token
arg_token s = record { rule = conf_option_arg; text = s }

abbrev pub lower_latin_alpha : ℕ → Bool
lower_latin_alpha c = leb b'a' c && leb c b'z'

-- The alternatives of `snake_case_name`.
unfoldable pub name_char : ℕ → Bool
name_char c = lower_latin_alpha c || c == b'_'

abbrev pub ascii_alphanumeric : ℕ → Bool
ascii_alphanumeric c =
    (leb b'0' c && leb c b'9') || (leb b'A' c && leb c b'Z') || (leb b'a' c && leb c b'z')

-- The alternatives of `conf_option_arg`.
unfoldable pub arg_char : ℕ → Bool
arg_char c = ascii_alphanumeric c || c == b'.' || c == b' ' || c == b'/' || c == b'-' || c == b'_'

-- The longest prefix whose bytes pass the test, and the rest.
unfoldable pub span : (ℕ → Bool) → Text → Text × Text
span p [] = ([], [])
span p (c ∷ s) = let more = span p s in if p c then (c ∷ more.0, more.1) else ([], c ∷ s)

-- `WHITESPACE*`
unfoldable pub skip : Text → Text
skip [] = []
skip (c ∷ s) = if c == b' ' then skip s else c ∷ s

-- A literal of one byte.
unfoldable pub literal : ℕ → Text → Option Text
literal b [] = none
literal b (c ∷ s) = if c == b then some s else none

-- A name has one byte at least.
unfoldable pub named : Text → Text → Option (Token × Text)
named [] rest = none
named (c ∷ cs) rest = some (name_token (c ∷ cs), rest)

-- `conf_option_name`, atomic: `snake_case_name` is a repetition of one byte or more.
unfoldable pub parse_name : Text → Option (Token × Text)
parse_name s = let (name, rest) = span name_char s in named name rest

-- `conf_option_arg`, atomic: it always matches.
unfoldable pub parse_arg : Text → Token × Text
parse_arg s = let (arg, rest) = span arg_char s in (arg_token arg, rest)

-- The end of `conf_option_quoted_arg`, behind the argument.
unfoldable pub close_quote : Token → Text → Option (Token × Text)
close_quote arg s = elim (literal b'"' (skip s)) [ none ↦ none | some rest ↦ some (arg, rest) ]

-- `conf_option_quoted_arg`
unfoldable pub parse_quoted_arg : Text → Option (Token × Text)
parse_quoted_arg s = elim (literal b'"' s) [
  | none ↦ none
  | some rest ↦ let (arg, rest') = parse_arg (skip rest) in close_quote arg rest'
]

-- `conf_option_quoted_arg | conf_option_arg`
unfoldable pub parse_value : Text → Token × Text
parse_value s = elim (parse_quoted_arg s) [ none ↦ parse_arg s | some r ↦ r ]

-- The optional value of an option, behind its name. `s` is what the name has left.
unfoldable pub parse_assignment : Token → Text → List Token × Text
parse_assignment name s = elim (literal b'=' (skip s)) [
  | none ↦ (name ∷ [], skip s)
  | some rest ↦ let (arg, rest') = parse_value (skip rest) in (name ∷ arg ∷ [], rest')
]

-- `agent_option`
unfoldable pub parse_option : Text → Option (List Token × Text)
parse_option s = elim (parse_name s) [
  | none ↦ none
  | some (name, rest) ↦ some (parse_assignment name rest)
]

-- `agent_options_list_sep ~ agent_option`
unfoldable pub parse_next : Text → Option (List Token × Text)
parse_next s = elim (literal b',' s) [ none ↦ none | some rest ↦ parse_option (skip rest) ]

-- The repetition of `parse_next`. Each round takes a byte at least, so the length of the text is
-- fuel enough.
unfoldable pub parse_more : ℕ → Text → List OptionPair × Text
parse_more zero s = ([], s)
parse_more (suc fuel) s = elim (parse_next (skip s)) [
  | none ↦ ([], s)
  | some (comp, rest) ↦
      let (pairs, rest') = parse_more fuel rest in (agent_option comp ∷ pairs, rest')
]

-- The optional part of `agent_options_list`.
unfoldable pub parse_options : Text → List OptionPair × Text
parse_options s = elim (parse_option s) [
  | none ↦ ([], s)
  | some (comp, rest) ↦
      let (pairs, rest') = parse_more (length rest) rest in (agent_option comp ∷ pairs, rest')
]

-- `EOI`, behind the options.
unfoldable pub finish : List OptionPair × Text → Option (List OptionPair)
finish (pairs, s) = elim (skip s) [ [] ↦ some (pairs ++ (end_of_input ∷ [])) | _ ∷ _ ↦ none ]

-- `PjAgentConfParser::parse(Rule::agent_options_list, s)`: the pairs inside the one pair that it
-- returns.
unfoldable pub parse : Text → Option (List OptionPair)
parse s = finish (parse_options (skip s))
