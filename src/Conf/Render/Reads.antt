-- ===== src/Conf/Render/Reads.antt =====
-- What stands behind the name of an option that is accepted: a rendered value, or none.
use mathlib.Core.Option.{some-injective}
use phasic_j.Base.{
  ℕ, suc, ◌≡◌, refl, sym, ap, ◌∙◌, arith, Bool, true, false, Bool-cases, inl, inr, Text, Option,
  none, some, Option-cases, List, [], ◌∷◌, ◌++◌, ◌==◌,
}
use phasic_j.Conf.Apply.{components}
use phasic_j.Conf.Grammar.{
  Token, name_token, arg_token, arg_char, span, skip, literal, parse_arg, close_quote,
  parse_quoted_arg, parse_value, parse_assignment,
}
use phasic_j.Conf.Grammar.Scan.{spaces, Stops, span-All, skip_idem}
use phasic_j.Conf.Render.{Layout, written, render_value, IsValue}

-- What `skip` and `span` take stands in front of what they leave.
pub skipped : (s : Text) → (n : ℕ) × (s ≡ spaces n (skip s))
unfolding skip
skipped [] = (0, refl)
skipped (c ∷ s) = elim (Bool-cases (c == b' ')) [
  | inl e ↦
      let (n, f) = skipped s in
      let same : c ≡ b' ' = ground arith in (suc n, rw e (λ i. same i ∷ f i))
  | inr e ↦ (0, rw e refl)
]

skip-no_space : (s : Text) → Stops (λ c. c == b' ') (skip s)
unfolding skip
skip-no_space [] = tt
skip-no_space (c ∷ s) = elim (Bool-cases (c == b' ')) [
  | inl e ↦ rw e (skip-no_space s)
  | inr e ↦ rw e e
]

pub span-joins : (p : ℕ → Bool) (s : Text) → s ≡ (span p s).0 ++ (span p s).1
unfolding span
span-joins p [] = refl
span-joins p (c ∷ s) = elim (Bool-cases (p c)) [
  | inl e ↦ rw e (ap (λ s'. c ∷ s') (span-joins p s))
  | inr e ↦ rw e refl
]

span-Stops : (p : ℕ → Bool) (s : Text) → Stops p (span p s).1
unfolding span
span-Stops p [] = tt
span-Stops p (c ∷ s) = elim (Bool-cases (p c)) [ inl e ↦ rw e (span-Stops p s) | inr e ↦ rw e e ]

-- The front of a text with no space in front has none either.
span-no_space :
    (p : ℕ → Bool) (s : Text) → Stops (λ c. c == b' ') s → Stops (λ c. c == b' ') (span p s).0
unfolding span
span-no_space p [] h = tt
span-no_space p (c ∷ s) h = elim (Bool-cases (p c)) [ inl e ↦ rw e h | inr e ↦ rw e tt ]

pub literal_lem : (b : ℕ) (s : Text) {rest : Text} → literal b s ≡ some rest → s ≡ b ∷ rest
unfolding literal
literal_lem b [] e = cc
literal_lem b (c ∷ s) e = elim (Bool-cases (c == b)) [
  | inl f ↦
      let same : c ≡ b = ground arith in
      let more = some-injective _ _ (rw f at e) in (λ i. same i ∷ more i)
  | inr f ↦ cc (rw f at e)
]

-- A space is a byte of an argument, so none is skipped behind one.
skip-argument : (s : Text) → Stops arg_char s → skip s ≡ s
unfolding skip arg_char
skip-argument [] h = refl
skip-argument (c ∷ s) h = elim (Bool-cases (c == b' ')) [ inl e ↦ ground arith | inr e ↦ rw e refl ]

abbrev layout : ℕ → ℕ → ℕ → Bool → ℕ → ℕ → Layout
layout n b a q i k = record {
  before_name = n;
  before_assign = b;
  after_assign = a;
  quoted = q;
  in_quote = i;
  after = k;
}

-- A value that has been read: how it is written, up to what is left behind the spaces.
pub record ReadValue (s : Text) (t : Token) (rest : Text) : Type 0 where
  quoted : Bool
  in_quote : ℕ
  after : ℕ
  value : Text
  token : t ≡ arg_token value
  bytes : IsValue (some value)
  text : (n b a : ℕ) → s ≡ written quoted (layout n b a quoted in_quote after) value (skip rest)

close_quote_lem :
    (arg : Token) (s : Text) {t : Token} {rest : Text}
    → close_quote arg s ≡ some (t, rest)
    → (arg ≡ t) × (skip s ≡ b'"' ∷ rest)
unfolding close_quote
close_quote_lem arg s e = elim (Option-cases (literal b'"' (skip s))) [
  | inl f ↦ cc (rw (close_quote, f) at e)
  | inr (r, f) ↦
      let both = some-injective _ _ (rw (close_quote, f) at e) in
      (ap (λ x. x.0) both, literal_lem b'"' (skip s) (f ∙ ap (λ x. some x.1) both))
]

-- An argument, behind the spaces that are skipped.
argument :
    (s : Text)
    → (v : Text) × (parse_arg (skip s) ≡ (arg_token v, (parse_arg (skip s)).1))
      × IsValue (some v)
      × (skip s ≡ v ++ (parse_arg (skip s)).1)
      × (skip (parse_arg (skip s)).1 ≡ (parse_arg (skip s)).1)
unfolding parse_arg
argument s = (
  (span arg_char (skip s)).0,
  refl,
  (span-All arg_char (skip s), span-no_space arg_char (skip s) (skip-no_space s)),
  span-joins arg_char (skip s),
  skip-argument _ (span-Stops arg_char (skip s)),
)

read_quoted :
    (s : Text) {t : Token} {rest : Text} → parse_quoted_arg s ≡ some (t, rest) → ReadValue s t rest
unfolding parse_quoted_arg
read_quoted s {t} {rest} e = elim (Option-cases (literal b'"' s)) [
  | inl f ↦ cc (rw (parse_quoted_arg, f) at e)
  | inr (r, f) ↦
      let (v, is_arg, bytes, joins, stops) = argument r in
      let (same, closes) =
        close_quote_lem (parse_arg (skip r)).0 _ (rw (parse_quoted_arg, f) at e) in
      let (n, front) = skipped r in
      let (k, behind) = skipped rest in
      record {
        quoted = true;
        in_quote = n;
        after = k;
        value = v;
        token = sym same ∙ ap (λ x. x.0) is_arg;
        bytes = bytes;
        text = λ _ _ _.
            literal_lem b'"' s f
            ∙ ap (λ x. b'"' ∷ x)
                (front
                  ∙ ap (spaces n)
                      (joins ∙ ap (λ x. v ++ x) (sym stops ∙ closes ∙ ap (λ x. b'"' ∷ x) behind)));
      }
]

read_value : (s : Text) → ReadValue (skip s) (parse_value (skip s)).0 (parse_value (skip s)).1
unfolding parse_value
read_value s = elim (Option-cases (parse_quoted_arg (skip s))) [
  | inl e ↦
      let (v, is_arg, bytes, joins, stops) = argument s in
      rw (parse_value, e)
        (record {
          quoted = false;
          in_quote = 0;
          after = 0;
          value = v;
          token = ap (λ x. x.0) is_arg;
          bytes = bytes;
          text = λ _ _ _. joins ∙ ap (λ x. v ++ x) (sym stops);
        })
  | inr (r, e) ↦ rw (parse_value, e) (read_quoted (skip s) e)
]

-- What stands behind a name, in the same way; how many spaces stand before the name is open.
pub record ReadTail (s name : Text) (ts : List Token) (rest : Text) : Type 0 where
  pub layout_at : ℕ → Layout
  pub before_name : (n : ℕ) → (layout_at n).before_name ≡ n
  pub value : Option Text
  pub is_value : IsValue value
  pub tokens : ts ≡ components name value
  pub text : (n : ℕ) → s ≡ render_value (layout_at n) value (skip rest)

pub read_tail :
    (name s : Text)
    → ReadTail s name
        (parse_assignment (name_token name) s).0
        (parse_assignment (name_token name) s).1
unfolding parse_assignment
read_tail name s = elim (Option-cases (literal b'=' (skip s))) [
  | inl e ↦
      let (k, front) = skipped s in
      rw (parse_assignment, e)
        (record {
          layout_at = λ n. layout n 0 0 true 0 k;
          before_name = λ n. refl;
          value = none;
          is_value = tt;
          tokens = refl;
          text = λ n. front ∙ ap (spaces k) (sym (skip_idem s));
        })
  | inr (r, e) ↦
      let (b, front) = skipped s in
      let (a, gap) = skipped r in
      let v = read_value r in
      rw (parse_assignment, e)
        (record {
          layout_at = λ n. layout n b a v.quoted v.in_quote v.after;
          before_name = λ n. refl;
          value = some v.value;
          is_value = v.bytes;
          tokens = ap (λ x. name_token name ∷ x ∷ []) v.token;
          text = λ n.
              front
              ∙ ap (spaces b) (
                  literal_lem b'=' (skip s) e
                  ∙ ap (λ x. b'=' ∷ x) (gap ∙ ap (spaces a) (v.text n b a)));
        })
]
