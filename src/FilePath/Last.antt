-- ===== src/FilePath/Last.antt =====
-- The last byte of a path: what `push` keeps of it, and when there is a parent.
use mathlib.Core.List.{reverse, reverse-append, append_assoc}
use phasic_j.Base.{
  ℕ, ◌≡◌, sym, ◌∙◌, ap, inl, inr, false, Bool-cases, Text, some, [], ◌∷◌, ◌++◌, ◌==◌,
}
use phasic_j.FilePath.{ends_in_slash, drop_name, reversed_parent, push, parent}

-- A text that is not empty, and its last byte.
abbrev pub LastIs : ℕ → Text → Type 0
LastIs y s = (t : Text) × (s ≡ t ++ (y ∷ []))

not_nil : (y : ℕ) (t : Text) → ◌≡◌ {A = Text} [] (t ++ (y ∷ [])) → ⊥
not_nil y [] e = cc
not_nil y (c ∷ t) e = cc

LastIs-cons : (y c : ℕ) (s : Text) → LastIs y s → LastIs y (c ∷ s)
LastIs-cons y c s (t, e) = (c ∷ t, ap (λ xs. c ∷ xs) e)

pub LastIs-append : (y : ℕ) (r s : Text) → LastIs y s → LastIs y (r ++ s)
LastIs-append y r s (t, e) = (r ++ t, ap (λ xs. r ++ xs) e ∙ sym (append_assoc r t (y ∷ [])))

-- Whatever a path is pushed onto, its last byte stays the last.
pub push-LastIs : (y : ℕ) (buf path : Text) → LastIs y path → LastIs y (push buf path)
unfolding push
push-LastIs y [] path h = h
push-LastIs y (b ∷ buf) [] (t, e) = absurd (not_nil y t e)
push-LastIs y (b ∷ buf) (c ∷ path) h = elim (Bool-cases (c == b'/')) [
  | inl e ↦ rw e h
  | inr e ↦ elim (Bool-cases (ends_in_slash (b ∷ buf))) [
    | inl s ↦ rw (e, s) (LastIs-append y (b ∷ buf) (c ∷ path) h)
    | inr s ↦
        rw (e, s) (LastIs-append y (b ∷ buf) (b'/' ∷ c ∷ path) (LastIs-cons y b'/' (c ∷ path) h))
  ]
]

-- A path that does not end in a slash has a parent.
pub parent-LastIs :
    (y : ℕ) (path : Text)
    → (y == b'/') ≡ false
    → LastIs y path
    → (dir : Text) × (parent path ≡ some dir)
unfolding parent
parent-LastIs y path h (t, e) = (
  reverse (reversed_parent (drop_name (y ∷ reverse t))),
  rw (e, reverse-append t (y ∷ []), h) (rw h),
)

abbrev first : Text → ℕ
first [] = 0
first (c ∷ s) = c

-- A text has one last byte.
pub LastIs-unique : (y z : ℕ) (s : Text) → LastIs y s → LastIs z s → y ≡ z
LastIs-unique y z s (t, e) (u, f) =
    ap first (sym (reverse-append t (y ∷ [])) ∙ ap reverse (sym e ∙ f) ∙ reverse-append u (z ∷ []))
