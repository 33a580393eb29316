-- ===== src/Java/Entry/Received.antt =====
-- The functions of agent/instr/experimental/svm/Instrumenter.java behind the Rust code that calls
-- them.
use mathlib.Core.Path.{subst}
use phasic_j.Base.{
  ℕ, zero, suc, ◌≡◌, ◌<◌, ◌^◌, ◌+◌, ◌∙◌, refl, arith, Text, Option, none, some, Option-cases, inl,
  inr, [], ◌∷◌, take-length, length, ltb_of_lt,
}
use phasic_j.Java.Classes.{Asm}
use phasic_j.Java.Cli.{instrumented}
use phasic_j.Java.Entry.{Memory, write_bytes, entry, entry_free}
use phasic_j.Panic.{Run, done}
use phasic_j.Svm.{
  SvmIsolateThread, SvmInstrBuffer, svm_instr_instrument, svm_instr_free, as_slice, from_raw_parts,
}

-- What is relied on of the memory: a block that `malloc` gives has its addresses, what is written to
-- an address of a block is read there, and only there; and `free` takes back a block.
pub record IsMemory {W : Type 0} (M : Memory W) : Type 1 where
  pub HasAddress : ℕ → W → Type 0
  pub IsBlock : ℕ → W → Type 0
  pub blocks : W → ℕ
  pub malloc_address :
      (n k : ℕ) (w : W)
      → ((M.malloc n w).0 ≡ 0 → ⊥)
      → k < n
      → HasAddress ((M.malloc n w).0 + k) (M.malloc n w).1
  pub malloc_block :
      (n : ℕ) (w : W)
      → ((M.malloc n w).0 ≡ 0 → ⊥)
      → IsBlock (M.malloc n w).0 (M.malloc n w).1 × (blocks (M.malloc n w).1 ≡ blocks w + 1)
  pub write_address : (p q b : ℕ) (w : W) → HasAddress q w → HasAddress q (M.write p b w)
  pub write_block :
      (p b q : ℕ) (w : W)
      → HasAddress p w
      → IsBlock q w
      → IsBlock q (M.write p b w) × (blocks (M.write p b w) ≡ blocks w)
  pub read_written : (p b : ℕ) (w : W) → HasAddress p w → M.read p (M.write p b w) ≡ some b
  pub read_other :
      (p q b : ℕ) (w : W) → HasAddress p w → (p ≡ q → ⊥) → M.read q (M.write p b w) ≡ M.read q w
  pub free_block : (p : ℕ) (w : W) → IsBlock p w → blocks w ≡ blocks (M.free p w) + 1

restored : {a b c d : ℕ} → b ≡ a + 1 → c ≡ b → c ≡ d + 1 → d ≡ a
restored e f g = omega (arith, e, f, g)

module _ {W : Type 0} {M : Memory W} (L : IsMemory M) where
  abbrev HasAddresses : ℕ → ℕ → W → Type 0
  HasAddresses p n w = (k : ℕ) → k < n → L.HasAddress (p + k) w

  shifted : (p b n : ℕ) (w : W) → HasAddresses p (suc n) w → HasAddresses (p + 1) n (M.write p b w)
  shifted p b n w a k lt =
      L.write_address p (p + 1 + k) b w
        (subst (λ q. L.HasAddress q w) (omega arith) (a (suc k) (omega arith)))

  first : (p n : ℕ) (w : W) → HasAddresses p (suc n) w → L.HasAddress p w
  first p n w a = subst (λ q. L.HasAddress q w) (omega arith) (a zero (omega arith))

  -- Bytes that are written behind an address leave it alone.
  read-write_bytes :
      (q p : ℕ) (bs : Text) (w : W)
      → q < p
      → HasAddresses p (length bs) w
      → M.read q (write_bytes M p bs w) ≡ M.read q w
  unfolding write_bytes
  read-write_bytes q p [] w lt a = refl
  read-write_bytes q p (b ∷ bs) w lt a =
      read-write_bytes q (p + 1) bs (M.write p b w) (omega arith) (shifted p b (length bs) w a)
      ∙ L.read_other p q b w (first p (length bs) w a) (λ e. omega arith)

  write_bytes-block :
      (q p : ℕ) (bs : Text) (w : W)
      → HasAddresses p (length bs) w
      → L.IsBlock q w
      → L.IsBlock q (write_bytes M p bs w) × (L.blocks (write_bytes M p bs w) ≡ L.blocks w)
  unfolding write_bytes
  write_bytes-block q p [] w a block = (block, refl)
  write_bytes-block q p (b ∷ bs) w a block =
      let (one, same) = L.write_block p b q w (first p (length bs) w a) block in
      let (all, still) =
        write_bytes-block q (p + 1) bs (M.write p b w) (shifted p b (length bs) w a) one in
      (all, still ∙ same)

  -- What has been written is read.
  from_raw_parts-write_bytes :
      (p : ℕ) (bs : Text) (w : W)
      → HasAddresses p (length bs) w
      → from_raw_parts M.read p (length bs) (write_bytes M p bs w) ≡ done bs (write_bytes M p bs w)
  unfolding write_bytes from_raw_parts
  from_raw_parts-write_bytes p [] w a = refl
  from_raw_parts-write_bytes p (b ∷ bs) w a =
      let w' = M.write p b w in
      let a' = shifted p b (length bs) w a in
      let there : M.read p (write_bytes M (p + 1) bs w') ≡ some b =
        read-write_bytes p (p + 1) bs w' (omega arith) a'
        ∙ L.read_written p b w (first p (length bs) w a) in
      rw there (rw (from_raw_parts-write_bytes (p + 1) bs w' a') refl)

  -- The buffer that a caller has received: its bytes are the class, and once it is given back, as
  -- many blocks are in use as before.
  pub record IsReceived (self : SvmIsolateThread W) (out : Text) (w : W)
      (r : Run W (Option SvmInstrBuffer)) : Type 0 where
    pub buf : SvmInstrBuffer
    pub after : W
    pub end : W
    pub returns : r ≡ done (some buf) after
    pub reads : as_slice M.read buf after ≡ done out after
    pub frees : svm_instr_free self buf after ≡ done (some tt) end
    pub blocks : L.blocks end ≡ L.blocks w

  abbrev pub Answers : SvmIsolateThread W → Option Text → W → Run W (Option SvmInstrBuffer) → Type 0
  Answers self none w r = r ≡ done none w
  Answers self (some out) w r = IsReceived self out w r

  module _ (asm : Asm) (resource : Option Text) (self : SvmIsolateThread W)
      (calls : self.svm_instr_instrument_fn ≡ entry M asm resource)
      (calls_free : self.svm_instr_free_fn ≡ entry_free M) where
    -- If the isolate's functions are those of Instrumenter.java, its memory behaves as documented,
    -- and the allocation for the result does not fail, then for a class of less than 2^31 bytes:
    -- where the instrumenter throws, the Rust call gets an error and the memory is as before; else
    -- it gets a buffer whose slice is exactly the instrumented class, and behind svm_instr_free as
    -- many blocks are allocated as before.
    pub svm_instr_instrument-entry :
        (class : Text) (w : W)
        → length class < 2 ^ 31
        → ((out : Text)
            → instrumented asm resource class ≡ some out
            → (M.malloc (length out) w).0 ≡ 0
            → ⊥)
        → Answers self (instrumented asm resource class) w (svm_instr_instrument self class w)
    unfolding svm_instr_instrument svm_instr_free entry entry_free as_slice
    svm_instr_instrument-entry class w small room =
        elim (Option-cases (instrumented asm resource class)) [
          | inl f ↦
              rw (ltb_of_lt (length class) (2 ^ 31) small, calls, take-length class) (rw f refl)
          | inr (out, f) ↦
              let block = L.malloc_block (length out) w (room out f) in
              let p = (M.malloc (length out) w).0 in
              let w' = (M.malloc (length out) w).1 in
              let a : HasAddresses p (length out) w' =
                λ k lt. L.malloc_address (length out) k w (room out f) lt in
              let (kept, same) = write_bytes-block p p out w' a block.0 in
              rw f (record {
                buf = record { ptr = p; size = length out };
                after = write_bytes M p out w';
                end = M.free p (write_bytes M p out w');
                returns =
                    rw (ltb_of_lt (length class) (2 ^ 31) small, calls, take-length class)
                      (rw f refl);
                reads = from_raw_parts-write_bytes p out w' a;
                frees = rw calls_free refl;
                blocks = restored block.1 same (L.free_block p (write_bytes M p out w') kept);
              })
        ]
