-- ===== src/Conf/Render/Accepted.antt =====
-- Every text that the grammar accepts is a rendered options list.
use mathlib.Core.Option.{some-injective}
use phasic_j.Base.{
  ℕ, zero, suc, ◌≡◌, ◌≢◌, refl, sym, ap, ◌∙◌, ◌⊎◌, inl, inr, Text, none, some, Option-cases, List,
  [], ◌∷◌, ◌++◌, length,
}
use phasic_j.Conf.Apply.{Setting, components, pairs_of}
use phasic_j.Conf.Grammar.{
  Token, OptionPair, agent_option, end_of_input, name_token, name_char, span, skip, literal, named,
  parse_name, parse_option, parse_next, parse_more, parse_options, finish, parse,
}
use phasic_j.Conf.Grammar.Scan.{spaces, span-All, skip_idem}
use phasic_j.Conf.Render.{
  Layout, render_value, render_setting, render_more, render, settings, IsSetting, AllSettings,
}
use phasic_j.Conf.Render.Parse.{options_of, pairs_of-options_of}
use phasic_j.Conf.Render.Reads.{read_tail, skipped, span-joins, literal_lem}

record ReadOption (s : Text) (comp : List Token) (rest : Text) : Type 0 where
  layout_at : ℕ → Layout
  before_name : (n : ℕ) → (layout_at n).before_name ≡ n
  setting : Setting
  is_setting : IsSetting setting
  tokens : comp ≡ components setting.name setting.value
  text : (n : ℕ) → s ≡ setting.name ++ render_value (layout_at n) setting.value (skip rest)

named_cases :
    (name rest : Text)
    → (named name rest ≡ none) ⊎ ((name ≢ []) × (named name rest ≡ some (name_token name, rest)))
unfolding named
named_cases [] rest = inl refl
named_cases (c ∷ cs) rest = inr (λ e. cc, refl)

read_option :
    (s : Text) {comp : List Token} {rest : Text}
    → parse_option s ≡ some (comp, rest)
    → ReadOption s comp rest
unfolding parse_option parse_name
read_option s {comp} {rest} e =
    let (name, behind) = span name_char s in
    elim (named_cases name behind) [
      | inl f ↦ cc (rw (parse_option, parse_name, f) at e)
      | inr (nonempty, f) ↦
          let both = some-injective _ _ (rw (parse_option, parse_name, f) at e) in
          let tail = read_tail name behind in
          record {
            layout_at = tail.layout_at;
            before_name = tail.before_name;
            setting = record { name = name; value = tail.value };
            is_setting = record {
              nonempty = nonempty;
              name = span-All name_char s;
              value = tail.is_value;
            };
            tokens = sym (ap (λ x. x.0) both) ∙ tail.tokens;
            text = λ n.
                span-joins name_char s
                ∙ ap (λ x. name ++ x)
                    (tail.text n
                      ∙ ap (λ x. render_value (tail.layout_at n) tail.value (skip x))
                          (ap (λ x. x.1) both));
          }
    ]

-- A list that has been read, from the options on, and from a comma on.
record ReadMore (s : Text) (pairs : List OptionPair) : Type 0 where
  rendered : List (Layout × Setting)
  all_settings : AllSettings rendered
  options : pairs ≡ options_of rendered
  text : s ≡ render_more rendered

-- An option behind `n` spaces, in front of a list.
render_option :
    (s : Text) {comp : List Token} {rest : Text} (o : ReadOption (skip s) comp rest) (n : ℕ)
    (ss : List (Layout × Setting))
    → s ≡ spaces n (skip s)
    → skip rest ≡ render_more ss
    → s ≡ render_setting (o.layout_at n) o.setting (render_more ss)
render_option s o n ss front more =
    front
    ∙ ap (spaces n)
        (o.text n ∙ ap (λ x. o.setting.name ++ render_value (o.layout_at n) o.setting.value x) more)
    ∙ ap
        (λ k.
          spaces k
            (o.setting.name ++ render_value (o.layout_at n) o.setting.value (render_more ss)))
        (sym (o.before_name n))

next_lem :
    (s : Text) {comp : List Token} {rest : Text}
    → parse_next s ≡ some (comp, rest)
    → (r : Text) × (s ≡ b',' ∷ r) × (parse_option (skip r) ≡ some (comp, rest))
unfolding parse_next
next_lem s e = elim (Option-cases (literal b',' s)) [
  | inl f ↦ cc (rw (parse_next, f) at e)
  | inr (r, f) ↦ (r, literal_lem b',' s f, rw (parse_next, f) at e)
]

read_more : (n : ℕ) (s : Text) → skip (parse_more n s).1 ≡ [] → ReadMore (skip s) (parse_more n s).0
unfolding parse_more
read_more zero s h = record { rendered = []; all_settings = tt; options = refl; text = h }
read_more (suc n) s h = elim (Option-cases (parse_next (skip s))) [
  | inl e ↦
      rw (parse_more, e)
        (record {
          rendered = [];
          all_settings = tt;
          options = refl;
          text = rw (parse_more, e) at h;
        })
  | inr ((comp, rest), e) ↦
      let (r, comma, matched) = next_lem (skip s) e in
      let o = read_option (skip r) matched in
      let (k, front) = skipped r in
      let more = read_more n rest (rw (parse_more, e) at h) in
      rw (parse_more, e)
        (record {
          rendered = (o.layout_at k, o.setting) ∷ more.rendered;
          all_settings = (o.is_setting, more.all_settings);
          options = λ i. agent_option (o.tokens i) ∷ more.options i;
          text = comma ∙ ap (λ x. b',' ∷ x) (render_option r o k more.rendered front more.text);
        })
]

finish_cases :
    (pairs : List OptionPair) (s : Text) {tree : List OptionPair}
    → finish (pairs, s) ≡ some tree
    → (skip s ≡ []) × (pairs ++ end_of_input ∷ [] ≡ tree)
unfolding finish
finish_cases pairs s {tree} =
    elim (skip s)
      as (λ x.
        (elim x [ [] ↦ some (pairs ++ (end_of_input ∷ [])) | _ ∷ _ ↦ none ]) ≡ some tree
        → (x ≡ []) × (pairs ++ end_of_input ∷ [] ≡ tree)) [
          | [] ↦ λ e. (refl, some-injective _ _ e)
          | _ ∷ _ ↦ λ e. cc
        ]

-- A text that has been read: spaces, and some settings in some layout.
pub record ReadText (s : Text) (tree : List OptionPair) : Type 0 where
  pub before : ℕ
  pub rendered : List (Layout × Setting)
  pub all_settings : AllSettings rendered
  pub tree_of : tree ≡ pairs_of (settings rendered)
  pub text : s ≡ spaces before (render rendered)

read_options :
    (s : Text) {tree : List OptionPair}
    → finish (parse_options (skip s)) ≡ some tree
    → ReadText s tree
unfolding parse_options
read_options s e = elim (Option-cases (parse_option (skip s))) [
  | inl f ↦
      let (n, front) = skipped s in
      let (empty, same) = finish_cases [] (skip s) (rw (parse_options, f) at e) in
      record {
        before = n;
        rendered = [];
        all_settings = tt;
        tree_of = sym same;
        text = front ∙ ap (spaces n) (sym (skip_idem s) ∙ empty);
      }
  | inr ((comp, rest), f) ↦
      let o = read_option (skip s) f in
      let (k, front) = skipped s in
      let (empty, same) = finish_cases _ _ (rw (parse_options, f) at e) in
      let more = read_more (length rest) rest empty in
      record {
        before = 0;
        rendered = (o.layout_at k, o.setting) ∷ more.rendered;
        all_settings = (o.is_setting, more.all_settings);
        tree_of =
            sym same
            ∙ (λ i. agent_option (o.tokens i) ∷ (more.options i ++ end_of_input ∷ []))
            ∙ pairs_of-options_of ((o.layout_at k, o.setting) ∷ more.rendered);
        text = render_option s o k more.rendered front more.text;
      }
]

-- Every text that is parsed is spaces and then some settings in some layout, and is parsed to the
-- pairs of those settings.
pub parse-rendered : (s : Text) {tree : List OptionPair} → parse s ≡ some tree → ReadText s tree
unfolding parse
parse-rendered s e = read_options s e
