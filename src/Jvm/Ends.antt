-- ===== src/Jvm/Ends.antt =====
-- Rules for what a computation leaves, by the way it is composed.
use mathlib.Core.Path.{subst}
use phasic_j.Base.{
  ◌≡◌, ◌≢◌, inl, inr, Bool, true, false, Option, none, some, Option-cases, if◌then◌else◌,
}
use phasic_j.Host.{IoReply, io, or_return, try}
use phasic_j.Jvm.World.{World, M, and_then}
use phasic_j.Panic.{Run, done, panicked, undefined}

-- The world that a computation leaves, if it returns or panics, has a property.
abbrev pub Ends : {X A : Type 0} → (World X → Type 0) → Run (World X) A → Type 0
Ends P (done a w) = P w
Ends P (panicked p w) = P w
Ends P undefined = Unit

-- The value that a computation returns, if it does, has a property.
abbrev pub Returns : {X A : Type 0} → (A → Type 0) → Run (World X) A → Type 0
Returns Q (done a w) = Q a
Returns Q (panicked p w) = Unit
Returns Q undefined = Unit

module _ {X A B : Type 0} where
  pub Ends-and_then :
      (P : World X → Type 0) (r : Run (World X) A) (f : A → M X B)
      → Ends P r
      → ((a : A) (w : World X) → P w → Ends P (f a w))
      → Ends P (and_then r f)
  Ends-and_then P (done a w) f h k = k a w h
  Ends-and_then P (panicked p w) f h k = h
  Ends-and_then P undefined f h k = tt

  pub Returns-and_then :
      (Q : B → Type 0) (r : Run (World X) A) (f : A → M X B)
      → ((a : A) (w : World X) → Returns Q (f a w))
      → Returns Q (and_then r f)
  Returns-and_then Q (done a w) f k = k a w
  Returns-and_then Q (panicked p w) f k = tt
  Returns-and_then Q undefined f k = tt

module _ {X A B : Type 0} where
  or_return-Ends :
      (P : World X → Type 0) (k : A → M X (Option B)) (r : Option A) (w : World X)
      → ((a : A) (w' : World X) → P w' → Ends P (k a w'))
      → P w
      → Ends P (or_return k r w)
  or_return-Ends P k none w rest h = h
  or_return-Ends P k (some a) w rest h = rest a w h

  -- An error returns at once, and leaves the world as it is.
  pub Ends-try :
      (P : World X → Type 0) (m : M X (Option A)) (k : A → M X (Option B)) (w : World X)
      → Ends P (m w)
      → ((a : A) (w' : World X) → P w' → Ends P (k a w'))
      → Ends P (try m k w)
  Ends-try P m k w h rest =
      Ends-and_then P (m w) (or_return k) h λ r w'. or_return-Ends P k r w' rest

pub Ends-if :
    {X A : Type 0} (P : World X → Type 0) (b : Bool) (m n : M X A) (w : World X)
    → Ends P (m w)
    → Ends P (n w)
    → Ends P ((if b then m else n) w)
Ends-if P true m n w h k = h
Ends-if P false m n w h k = k

-- A computation returns: it neither panics nor is undefined.
abbrev pub IsDone : {X A : Type 0} → Run (World X) A → Type 0
IsDone (done a w) = Unit
IsDone (panicked p w) = ⊥
IsDone undefined = ⊥

pub try-io-IsDone :
    {X A B : Type 0} (f : World X → IoReply X A) (k : A → M X (Option B)) (w : World X)
    → ((a : A) (w' : World X) → IsDone (k a w'))
    → IsDone (try (io f) k w)
try-io-IsDone f k w rest = elim (Option-cases (f w).result) [
  | inl e ↦ rw e tt
  | inr (a, e) ↦ rw e (rest a (f w).world)
]

-- A computation is not undefined, and what it returns, if it does, has a property, with the world.
abbrev pub Meets : {X A : Type 0} → (A → World X → Type 0) → Run (World X) A → Type 0
Meets Q (done a w) = Q a w
Meets Q (panicked p w) = Unit
Meets Q undefined = ⊥

abbrev pub Any : {X A : Type 0} → A → World X → Type 0
Any a w = Unit

module _ {X A B : Type 0} where
  pub Meets-and_then :
      (Q : A → World X → Type 0) (P : B → World X → Type 0) (r : Run (World X) A) (f : A → M X B)
      → Meets Q r
      → ((a : A) (w : World X) → Q a w → Meets P (f a w))
      → Meets P (and_then r f)
  Meets-and_then Q P (done a w) f h k = k a w h
  Meets-and_then Q P (panicked p w) f h k = tt
  Meets-and_then Q P undefined f h k = absurd h

  -- An error returns at once.
  pub Meets-try :
      (Q : Option B → World X → Type 0) (f : World X → IoReply X A) (k : A → M X (Option B))
      (w : World X)
      → Q none (f w).world
      → ((a : A) → (f w).result ≡ some a → Meets Q (k a (f w).world))
      → Meets Q (try (io f) k w)
  Meets-try Q f k w z rest = elim (Option-cases (f w).result) [
    | inl e ↦ rw e z
    | inr (a, e) ↦ rw e (rest a e)
  ]

pub IsDone-Meets : {X A : Type 0} (r : Run (World X) A) → IsDone r → Meets Any r
IsDone-Meets (done a w) h = tt
IsDone-Meets (panicked p w) h = absurd h
IsDone-Meets undefined h = absurd h

-- A computation that meets anything is defined.
pub Meets-defined :
    {X A : Type 0} (Q : A → World X → Type 0) (r : Run (World X) A) → Meets Q r → r ≢ undefined
Meets-defined Q r h e = subst (Meets Q) e h

-- A computation returns, and the world that it leaves has a property.
abbrev pub Leaves : {X A : Type 0} → (World X → Type 0) → Run (World X) A → Type 0
Leaves P (done a w) = P w
Leaves P (panicked p w) = ⊥
Leaves P undefined = ⊥

pub Leaves-try :
    {X A B : Type 0} (P : World X → Type 0) (f : World X → IoReply X A) (k : A → M X (Option B))
    (w : World X)
    → P (f w).world
    → ((a : A) → (f w).result ≡ some a → Leaves P (k a (f w).world))
    → Leaves P (try (io f) k w)
Leaves-try P f k w h rest = elim (Option-cases (f w).result) [
  | inl e ↦ rw e h
  | inr (a, e) ↦ rw e (rest a e)
]
