-- ===== src/Jvm/World.antt =====
-- What the agent's code acts on: the host (the JVM and the operating system, of an unknown type),
-- the memory that was allocated through JVMTI, and the agent's own event recorder.
use phasic_j.Base.{
  ℕ, Text, Option, none, some, List, [], ◌∷◌, ◌≡◌, ◌≢◌, refl, sym, arith, eq_refl, eq_false_of_ne,
  ◌^◌, ◌-◌, ◌==◌, leb, ltb, length, take, if◌then◌else◌,
}
use phasic_j.Jvm.RawEnvStorage.{Ptr, null, RawEnvStorage, raw_size}
use phasic_j.Panic.{Panic, Run, done, panicked, undefined, failed_conversion}
use phasic_j.Recorder.{Recorder}

pub data Content : Type 0 where
  uninit : Content
  raw : RawEnvStorage → Content
  bytes : Text → Content

pub record Block : Type 0 where
  pub size : ℕ
  pub content : Content

-- The blocks that are allocated, each under its address.
abbrev pub Heap : Type 0
Heap = List (Ptr × Block)

unfoldable pub lookup : Heap → Ptr → Option Block
lookup [] q = none
lookup ((p, b) ∷ h) q = if p == q then some b else lookup h q

unfoldable pub remove : Heap → Ptr → Heap
remove [] q = []
remove ((p, b) ∷ h) q = let rest = remove h q in if p == q then rest else (p, b) ∷ rest

-- The block behind a pointer. There is none behind a null pointer.
unfoldable pub block_at : Heap → Ptr → Option Block
block_at h p = if p == null then none else lookup h p

-- The heap with another block at an address, or with none.
unfoldable pub update : Heap → Ptr → Option Block → Heap
update h p none = remove h p
update h p (some b) = (p, b) ∷ remove h p

lookup-remove_self : (h : Heap) (p : Ptr) → lookup (remove h p) p ≡ none
unfolding lookup remove
lookup-remove_self [] p = refl
lookup-remove_self ((q, b) ∷ h) p = ground (arith, lookup-remove_self h p)

lookup-remove_ne : (h : Heap) (p q : Ptr) → q ≢ p → lookup (remove h p) q ≡ lookup h q
unfolding lookup remove
lookup-remove_ne [] p q ne = refl
lookup-remove_ne ((r, b) ∷ h) p q ne = ground (arith, lookup-remove_ne h p q ne)

pub update_self : (h : Heap) (p : Ptr) (b : Option Block) → lookup (update h p b) p ≡ b
unfolding update lookup
update_self h p none = lookup-remove_self h p
update_self h p (some b) = rw (eq_refl p)

pub update_ne :
    (h : Heap) (p q : Ptr) (b : Option Block) → q ≢ p → lookup (update h p b) q ≡ lookup h q
unfolding update lookup
update_ne h p q none ne = lookup-remove_ne h p q ne
update_ne h p q (some b) ne = rw (eq_false_of_ne p q (λ e. ne (sym e))) (lookup-remove_ne h p q ne)

pub block_at_lem : (h : Heap) (p : Ptr) → p ≢ null → block_at h p ≡ lookup h p
unfolding block_at
block_at_lem h p ne = rw (eq_false_of_ne p null ne)

pub record World (X : Type 0) : Type 0 where
  pub host : X
  pub heap : Heap
  pub recorder : Recorder

abbrev pub M : Type 0 → Type 0 → Type 0
M X A = World X → Run (World X) A

module _ {X : Type 0} where
  abbrev pub pure : {A : Type 0} → A → M X A
  pure a w = done a w

  abbrev pub fail : {A : Type 0} → Panic → M X A
  fail p w = panicked p w

  abbrev pub and_then : {A B : Type 0} → Run (World X) A → (A → M X B) → Run (World X) B
  and_then (done a w) f = f a w
  and_then (panicked p w) f = panicked p w
  and_then undefined f = undefined

  infixl 5 ◌>>=◌ ◌>>◌
  abbrev pub ◌>>=◌ : {A B : Type 0} → M X A → (A → M X B) → M X B
  ◌>>=◌ m f w = and_then (m w) f

  abbrev pub ◌>>◌ : {B : Type 0} → M X (Unit {0}) → M X B → M X B
  m >> k = m >>= λ _. k

  -- `ptr.write(value)`, for a pointer to the struct.
  abbrev pub put_raw : Ptr → RawEnvStorage → Option Block → M X (Unit {0})
  put_raw p r none w = undefined
  put_raw p r (some b) w =
      if leb raw_size b.size
      then done tt (record w { heap = update w.heap p (some (record b { content = raw r })) })
      else undefined

  unfoldable pub write_raw : Ptr → RawEnvStorage → M X (Unit {0})
  write_raw p r w = put_raw p r (block_at w.heap p) w

  abbrev pub raw_of : Option Block → M X RawEnvStorage
  raw_of none w = undefined
  raw_of (some b) w = elim b.content [ uninit ↦ undefined | raw r ↦ done r w | bytes _ ↦ undefined ]

  -- `*ptr`, for a pointer to the struct.
  unfoldable pub read_raw : Ptr → M X RawEnvStorage
  read_raw p w = raw_of (block_at w.heap p) w

  abbrev pub put_bytes : Text → Ptr → Option Block → M X (Unit {0})
  put_bytes s p none w = undefined
  put_bytes s p (some b) w =
      if leb (length s) b.size
      then done tt (record w { heap = update w.heap p (some (record b { content = bytes s })) })
      else undefined

  -- `ptr::copy_nonoverlapping(s.as_ptr(), p, s.len())`
  unfoldable pub copy_nonoverlapping : Text → Ptr → M X (Unit {0})
  copy_nonoverlapping s p w = put_bytes s p (block_at w.heap p) w

  abbrev pub bytes_of : ℕ → Option Block → M X Text
  bytes_of n none w = undefined
  bytes_of n (some b) w = elim b.content [
    | uninit ↦ undefined
    | raw _ ↦ undefined
    | bytes s ↦ if leb n (length s) then done (take n s) w else undefined
  ]

  -- `slice::from_raw_parts(p, n)`
  unfoldable pub from_raw_parts : Ptr → ℕ → M X Text
  from_raw_parts p n w = bytes_of n (block_at w.heap p) w

  -- `try_into().unwrap()` from a `usize` to a signed type of `bits` bits.
  unfoldable pub to_signed : ℕ → ℕ → M X ℕ
  to_signed bits n = if ltb n (2 ^ (bits - 1)) then pure n else fail failed_conversion
