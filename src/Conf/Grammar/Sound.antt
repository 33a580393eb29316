-- ===== src/Conf/Grammar/Sound.antt =====
-- What the tree of an accepted options list looks like.
use mathlib.Core.Path.{subst}
use mathlib.Core.Option.{some-injective}
use phasic_j.Base.{
  ℕ, zero, suc, ◌≡◌, refl, ◌≢◌, Text, none, some, Option, List, [], ◌∷◌, ◌++◌, arith, All,
}
use phasic_j.Conf.Grammar.{
  conf_option_name, conf_option_arg, Token, OptionPair, agent_option, end_of_input, name_char,
  arg_char, skip, literal, named, parse_name, parse_arg, close_quote, parse_quoted_arg, parse_value,
  parse_assignment, parse_option, parse_next, parse_more, parse_options, finish, parse,
}
use phasic_j.Conf.Grammar.Scan.{span-All}

-- A name of the grammar: one byte or more, lower-case letters and underscores.
pub record IsName (t : Token) : Type 0 where
  pub rule : t.rule ≡ conf_option_name
  pub nonempty : t.text ≢ []
  pub bytes : All name_char t.text

pub record IsArg (t : Token) : Type 0 where
  pub rule : t.rule ≡ conf_option_arg
  pub bytes : All arg_char t.text

-- The pairs inside an `agent_option`: a name, and perhaps an argument.
abbrev pub IsOption : List Token → Type 0
IsOption [] = ⊥
IsOption (name ∷ []) = IsName name
IsOption (name ∷ arg ∷ []) = IsName name × IsArg arg
IsOption (name ∷ arg ∷ _ ∷ _) = ⊥

abbrev pub AllOptions : List OptionPair → Type 0
AllOptions [] = Unit
AllOptions (agent_option comp ∷ pairs) = IsOption comp × AllOptions pairs
AllOptions (end_of_input ∷ pairs) = ⊥

-- The options, and `EOI` behind them and nowhere else.
abbrev pub IsTree : List OptionPair → Type 0
IsTree [] = ⊥
IsTree (agent_option comp ∷ pairs) = IsOption comp × IsTree pairs
IsTree (end_of_input ∷ []) = Unit
IsTree (end_of_input ∷ _ ∷ _) = ⊥

-- What a rule returns has a property.
abbrev pub Gives {ℓ} : {A : Type ℓ} → (A → Type 0) → Option (A × Text) → Type 0
Gives P none = Unit
Gives P (some (a, rest)) = P a

named-IsName : (name rest : Text) → All name_char name → Gives IsName (named name rest)
unfolding named
named-IsName [] rest h = tt
named-IsName (c ∷ cs) rest h = record { rule = refl; nonempty = λ e. cc; bytes = h }

parse_name-IsName : (s : Text) → Gives IsName (parse_name s)
unfolding parse_name
parse_name-IsName s = named-IsName _ _ (span-All name_char s)

parse_arg-IsArg : (s : Text) → IsArg (parse_arg s).0
unfolding parse_arg
parse_arg-IsArg s = record { rule = refl; bytes = span-All arg_char s }

close_quote-IsArg : (t : Token) (s : Text) → IsArg t → Gives IsArg (close_quote t s)
unfolding close_quote
close_quote-IsArg t s h =
    elim (literal b'"' (skip s))
      as (λ x. Gives IsArg (elim x [ none ↦ none | some rest ↦ some (t, rest) ])) [
        | none ↦ tt
        | some rest ↦ h
      ]

parse_quoted_arg-IsArg : (s : Text) → Gives IsArg (parse_quoted_arg s)
unfolding parse_quoted_arg
parse_quoted_arg-IsArg s = grind (arith, close_quote-IsArg, parse_arg-IsArg)

parse_value-IsArg : (s : Text) → IsArg (parse_value s).0
unfolding parse_value
parse_value-IsArg s = grind (arith, parse_quoted_arg-IsArg, parse_arg-IsArg)

parse_assignment-IsOption : (t : Token) (s : Text) → IsName t → IsOption (parse_assignment t s).0
unfolding parse_assignment
parse_assignment-IsOption t s h = grind (arith, parse_value-IsArg)

parse_option-IsOption : (s : Text) → Gives IsOption (parse_option s)
unfolding parse_option
parse_option-IsOption s = grind (arith, parse_name-IsName, parse_assignment-IsOption)

parse_next-IsOption : (s : Text) → Gives IsOption (parse_next s)
unfolding parse_next
parse_next-IsOption s = grind (arith, parse_option-IsOption)

parse_more-AllOptions : (n : ℕ) (s : Text) → AllOptions (parse_more n s).0
unfolding parse_more
parse_more-AllOptions zero s = tt
parse_more-AllOptions (suc n) s =
    grind (arith, parse_next-IsOption (skip s), λ (r : Text). parse_more-AllOptions n r)

parse_options-AllOptions : (s : Text) → AllOptions (parse_options s).0
unfolding parse_options
parse_options-AllOptions s = grind (arith, parse_option-IsOption s, parse_more-AllOptions)

append-IsTree : (pairs : List OptionPair) → AllOptions pairs → IsTree (pairs ++ (end_of_input ∷ []))
append-IsTree [] h = tt
append-IsTree (agent_option comp ∷ pairs) h = (h.0, append-IsTree pairs h.1)
append-IsTree (end_of_input ∷ pairs) h = absurd h

finish-IsTree :
    (pairs : List OptionPair) (s : Text) {tree : List OptionPair}
    → AllOptions pairs
    → finish (pairs, s) ≡ some tree
    → IsTree tree
unfolding finish
finish-IsTree pairs s {tree} h =
    elim (skip s)
      as (λ x.
        (elim x [ [] ↦ some (pairs ++ (end_of_input ∷ [])) | _ ∷ _ ↦ none ]) ≡ some tree
        → IsTree tree) [
          | [] ↦ λ e. subst IsTree (some-injective _ _ e) (append-IsTree pairs h)
          | _ ∷ _ ↦ λ e. cc
        ]

-- Every text that the grammar accepts gives options, each with a name of the grammar and at most
-- one argument of its bytes, and then EOI and nothing else.
pub parse-IsTree : (s : Text) {tree : List OptionPair} → parse s ≡ some tree → IsTree tree
unfolding parse
parse-IsTree s e = finish-IsTree _ _ (parse_options-AllOptions (skip s)) e
