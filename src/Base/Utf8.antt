-- ===== src/Base/Utf8.antt =====
-- `str::from_utf8` of Rust's standard library: whether bytes are well-formed UTF-8 (the table 3-7 of
-- the Unicode standard).
use mathlib.Core.Path.{◌≡◌, refl}
use mathlib.Core.Bool.{Bool, true, false, ◌&&◌}
use mathlib.Core.Option.{Option, none, some}
use mathlib.Core.List.{[], ◌∷◌}
use Prim.Native.Nat.{ℕ, zero, suc}
use native.Mathlib.Omega.{arith}
use phasic_j.Base.Checks.{ltb, leb, if◌then◌else◌}
use phasic_j.Base.Bytes.{Text, All}

-- What a sequence still wants: bytes, and the range of the next one.
pub record Pending : Type 0 where
  pub count : ℕ
  pub lo : ℕ
  pub hi : ℕ

abbrev pending : ℕ → ℕ → ℕ → Option Pending
pending n lo hi = some (record { count = n; lo = lo; hi = hi })

abbrev between : ℕ → ℕ → ℕ → Bool
between lo b hi = leb lo b && leb b hi

-- What the first byte of a sequence announces.
unfoldable pub lead : ℕ → Option Pending
lead b =
    if ltb b 0x80
    then pending 0 0x80 0xbf
    else if between 0xc2 b 0xdf
    then pending 1 0x80 0xbf
    else if between 0xe0 b 0xe0
    then pending 2 0xa0 0xbf
    else if between 0xed b 0xed
    then pending 2 0x80 0x9f
    else if between 0xe1 b 0xef
    then pending 2 0x80 0xbf
    else if between 0xf0 b 0xf0
    then pending 3 0x90 0xbf
    else if between 0xf1 b 0xf3
    then pending 3 0x80 0xbf
    else if between 0xf4 b 0xf4
    then pending 3 0x80 0x8f
    else none

-- The next byte, where `count` more are wanted.
unfoldable pub follow : Pending → ℕ → Option Pending
follow p b = elim p.count [
  | zero ↦ lead b
  | suc n ↦ if between p.lo b p.hi then pending n 0x80 0xbf else none
]

unfoldable pub utf8_run : Option Pending → Text → Bool
utf8_run none s = false
utf8_run (some p) [] = leb p.count 0
utf8_run (some p) (b ∷ s) = utf8_run (follow p b) s

unfoldable pub is_utf8 : Text → Bool
is_utf8 s = utf8_run (pending 0 0x80 0xbf) s

-- ASCII is UTF-8.
pub is_utf8_of_ascii : (s : Text) → All (λ b. ltb b 0x80) s → is_utf8 s ≡ true
unfolding is_utf8 utf8_run follow lead
is_utf8_of_ascii [] h = refl
is_utf8_of_ascii (b ∷ s) h = ground (arith, is_utf8_of_ascii s h.1)
