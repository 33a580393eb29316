-- ===== src/Conf/Grammar/Size.antt =====
-- How many bytes of a text the pairs of its tree hold.
use phasic_j.Base.{
  ℕ, zero, suc, ◌+◌, ◌≤◌, ◌≡◌, refl, ap, Text, Option, none, some, List, [], ◌∷◌, ◌++◌, length,
  arith, Bool,
}
use phasic_j.Conf.Grammar.{
  Token, OptionPair, agent_option, end_of_input, name_char, arg_char, span, skip, named, parse_name,
  parse_arg, close_quote, parse_quoted_arg, parse_value, parse_assignment, parse_option, parse_next,
  parse_more, parse_options, finish, parse,
}
use phasic_j.Conf.Grammar.Scan.{length-skip, length-literal}

abbrev pub tokens_size : List Token → ℕ
tokens_size [] = 0
tokens_size (t ∷ ts) = length t.text + tokens_size ts

-- The bytes of all names and arguments.
abbrev pub pairs_size : List OptionPair → ℕ
pairs_size [] = 0
pairs_size (agent_option comp ∷ pairs) = tokens_size comp + pairs_size pairs
pairs_size (end_of_input ∷ pairs) = pairs_size pairs

-- A rule's tokens and what it leaves are within a number of bytes.
abbrev Fits : ℕ → Option (Token × Text) → Type 0
Fits n none = Unit
Fits n (some (t, rest)) = length t.text + length rest ≤ n

abbrev AllFit : ℕ → Option (List Token × Text) → Type 0
AllFit n none = Unit
AllFit n (some (ts, rest)) = tokens_size ts + length rest ≤ n

span-size : (p : ℕ → Bool) (s : Text) → length (span p s).0 + length (span p s).1 ≤ length s
unfolding span
span-size p [] = omega arith
span-size p (c ∷ s) = ground (arith, span-size p s)

named-Fits : (n : ℕ) (name rest : Text) → length name + length rest ≤ n → Fits n (named name rest)
unfolding named
named-Fits n [] rest h = tt
named-Fits n (c ∷ cs) rest h = h

parse_name-Fits : (s : Text) → Fits (length s) (parse_name s)
unfolding parse_name
parse_name-Fits s = named-Fits _ _ _ (span-size name_char s)

parse_arg-size : (s : Text) → length (parse_arg s).0.text + length (parse_arg s).1 ≤ length s
unfolding parse_arg
parse_arg-size s = span-size arg_char s

close_quote-Fits :
    (t : Token) (s : Text) (n : ℕ) → length t.text + length s ≤ n → Fits n (close_quote t s)
unfolding close_quote
close_quote-Fits t s n h = ground (arith, length-literal b'"' (skip s), length-skip s)

parse_quoted_arg-Fits : (s : Text) → Fits (length s) (parse_quoted_arg s)
unfolding parse_quoted_arg
parse_quoted_arg-Fits s =
    grind (arith, length-literal, length-skip, parse_arg-size, close_quote-Fits)

parse_value-size : (s : Text) → length (parse_value s).0.text + length (parse_value s).1 ≤ length s
unfolding parse_value
parse_value-size s = ground (arith, parse_quoted_arg-Fits s, parse_arg-size s)

parse_assignment-size :
    (t : Token) (s : Text)
    → tokens_size (parse_assignment t s).0 + length (parse_assignment t s).1
      ≤ length t.text + length s
unfolding parse_assignment
parse_assignment-size t s = grind (arith, length-literal, length-skip, parse_value-size)

parse_option-AllFit : (s : Text) → AllFit (length s) (parse_option s)
unfolding parse_option
parse_option-AllFit s = grind (arith, parse_name-Fits, parse_assignment-size)

parse_next-AllFit : (s : Text) → AllFit (length s) (parse_next s)
unfolding parse_next
parse_next-AllFit s = grind (arith, length-literal, length-skip, parse_option-AllFit)

parse_more-size :
    (n : ℕ) (s : Text) → pairs_size (parse_more n s).0 + length (parse_more n s).1 ≤ length s
unfolding parse_more
parse_more-size zero s = omega arith
parse_more-size (suc n) s =
    grind (arith, parse_next-AllFit (skip s), length-skip s, λ (r : Text). parse_more-size n r)

parse_options-size :
    (s : Text) → pairs_size (parse_options s).0 + length (parse_options s).1 ≤ length s
unfolding parse_options
parse_options-size s = grind (arith, parse_option-AllFit s, parse_more-size)

append-size : (pairs : List OptionPair) → pairs_size (pairs ++ end_of_input ∷ []) ≡ pairs_size pairs
append-size [] = refl
append-size (agent_option comp ∷ pairs) = ap (λ n. tokens_size comp + n) (append-size pairs)
append-size (end_of_input ∷ pairs) = append-size pairs

finish-size :
    (pairs : List OptionPair) (s : Text) {tree : List OptionPair}
    → finish (pairs, s) ≡ some tree
    → pairs_size tree ≡ pairs_size pairs
unfolding finish
finish-size pairs s e = ground (arith, append-size pairs)

-- The tokens of a tree are together no longer than its text.
pub parse-size :
    (s : Text) {tree : List OptionPair} → parse s ≡ some tree → pairs_size tree ≤ length s
unfolding parse
parse-size s e =
    let all = finish-size _ _ e in omega (arith, parse_options-size (skip s), length-skip s, all)
