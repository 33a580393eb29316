-- ===== src/Conf/Grammar/Scan.antt =====
-- What `span` and `skip` of the grammar do to a text, and how much they leave.
use phasic_j.Base.{
  ℕ, zero, suc, ◌≤◌, ◌≡◌, refl, Text, Bool, false, [], ◌∷◌, ◌++◌, ◌==◌, length, arith, Option, none,
  some, ◌<◌, Bool-cases, inl, inr, All,
}
use phasic_j.Conf.Grammar.{span, skip, literal}

-- The byte behind a greedy repetition does not pass its test.
abbrev pub Stops : (ℕ → Bool) → Text → Type 0
Stops p [] = Unit
Stops p (c ∷ s) = p c ≡ false

pub span-append :
    (p : ℕ → Bool) (xs rest : Text) → All p xs → Stops p rest → span p (xs ++ rest) ≡ (xs, rest)
unfolding span
span-append p [] [] a st = refl
span-append p [] (c ∷ s) a st = rw st
span-append p (x ∷ xs) rest a st = rw (a.0, span-append p xs rest a.1 st)

pub span-All : (p : ℕ → Bool) (s : Text) → All p (span p s).0
unfolding span
span-All p [] = tt
span-All p (c ∷ s) = elim (Bool-cases (p c)) [ inl e ↦ rw e (e, span-All p s) | inr e ↦ rw e tt ]

pub length-span : (p : ℕ → Bool) (s : Text) → length (span p s).1 ≤ length s
unfolding span
length-span p [] = omega arith
length-span p (c ∷ s) = ground (arith, length-span p s)

-- A repetition that took a byte leaves fewer.
pub length-span_cons :
    (p : ℕ → Bool) (s : Text) {c : ℕ} {cs : Text}
    → (span p s).0 ≡ c ∷ cs
    → length (span p s).1 < length s
unfolding span
length-span_cons p [] e = ground arith
length-span_cons p (c ∷ s) e = ground (arith, length-span p s)

pub length-skip : (s : Text) → length (skip s) ≤ length s
unfolding skip
length-skip [] = omega arith
length-skip (c ∷ s) = ground (arith, length-skip s)

pub skip_idem : (s : Text) → skip (skip s) ≡ skip s
unfolding skip
skip_idem [] = refl
skip_idem (c ∷ s) = elim (Bool-cases (c == b' ')) [
  | inl e ↦ rw e (skip_idem s)
  | inr e ↦ rw e (rw (e, skip))
]

-- If a rule matches, what it leaves is below a bound.
abbrev pub Leaves {ℓ} : {A : Type ℓ} → ℕ → Option (A × Text) → Type 0
Leaves n none = Unit
Leaves n (some (a, rest)) = length rest < n

abbrev pub LeavesText : ℕ → Option Text → Type 0
LeavesText n none = Unit
LeavesText n (some rest) = length rest < n

pub length-literal : (b : ℕ) (s : Text) → LeavesText (length s) (literal b s)
unfolding literal
length-literal b [] = tt
length-literal b (c ∷ s) = ground arith

abbrev pub spaces : ℕ → Text → Text
spaces zero s = s
spaces (suc n) s = b' ' ∷ spaces n s

pub skip-spaces : (n : ℕ) (s : Text) → skip (spaces n s) ≡ skip s
unfolding skip
skip-spaces zero s = refl
skip-spaces (suc n) s = skip-spaces n s

pub length-spaces : (n : ℕ) (s : Text) → length s ≤ length (spaces n s)
length-spaces zero s = omega arith
length-spaces (suc n) s = omega (arith, length-spaces n s)
