-- ===== src/Jvm/EnvStorage/Copy.antt =====
-- What `EnvStorage::init` allocates: the struct, and the copy of the path.
use phasic_j.Base.{
  ℕ, ◌≡◌, ◌≢◌, ◌⊎◌, inl, inr, ◌<◌, ◌^◌, refl, sym, ◌∙◌, ap, true, false, Text, Option, none, some,
  [], ◌∷◌, arith, ◌==◌, length, is_utf8, leb_refl, ltb_of_lt,
}
use phasic_j.Jvm.EnvStorage.{is_jvmti_allocation_aligned, allocate, allocate_type, copy_exec}
use phasic_j.Jvm.EnvStorage.Stored.{block, IsExecAt}
use phasic_j.Jvm.Jvmti.{JvmtiTable}
use phasic_j.Jvm.Jvmti.Lawful.{IsStorage, allocated}
use phasic_j.Jvm.Jvmti.Storage.{allocate_ok}
use phasic_j.Jvm.RawEnvStorage.{Ptr, null, RawEnvStorage, raw_size}
use phasic_j.Jvm.World.{
  World, Heap, Block, uninit, raw, bytes, lookup, block_at_lem, update, update_self, update_ne,
  write_raw, copy_nonoverlapping, to_signed,
}
use phasic_j.Panic.{done}

-- A path that can be stored. A Rust string is UTF-8 and shorter than 2^63 bytes; it must not be
-- empty.
abbrev pub IsStorable : Option Text → Type 0
IsStorable none = Unit
IsStorable (some s) = (s ≢ []) × (is_utf8 s ≡ true) × (length s < 2 ^ 63)

-- No block is lost or overwritten, and the recorder is left alone.
pub record Extends {X : Type 0} (w w' : World X) : Type 0 where
  pub keeps : (q : Ptr) (b : Block) → lookup w.heap q ≡ some b → lookup w'.heap q ≡ some b
  pub recorder : w'.recorder ≡ w.recorder

module _ {X : Type 0} {env : JvmtiTable X} (S : IsStorage env) (w : World X) where
  pub allocate_lem :
      (n : ℕ)
      → 0 < n
      → n < 2 ^ 63
      → allocate env n w ≡ done (S.place n w) (allocated n (S.place n w) w)
  unfolding allocate to_signed
  allocate_lem n pos small =
      let nz : (n == 0) ≡ false = ground arith in
      rw (nz, ltb_of_lt n (2 ^ 63) small, allocate_ok S w n nz)

  pub allocate_type_lem :
      allocate_type env w ≡ done (S.place raw_size w) (allocated raw_size (S.place raw_size w) w)
  unfolding allocate_type is_jvmti_allocation_aligned
  allocate_type_lem =
      rw (allocate_lem raw_size (omega arith) (omega arith), S.place_aligned raw_size w)

  -- A copy of the path is made in a new block, or none is made.
  pub record Copied (exec : Option Text) : Type 0 where
    pub ptr : Ptr
    pub len : ℕ
    pub next : World X
    pub copied : copy_exec env exec w ≡ done (ptr, len) next
    pub is_exec : IsExecAt next.heap ptr len exec
    pub fresh : (q : Ptr) (b : Block) → lookup w.heap q ≡ some b → ptr ≢ q ⊎ (ptr ≡ null)
    pub extends : Extends w next
    pub host : next.host ≡ w.host

-- A used address and an unused one differ.
pub ne_of_fresh :
    (h : Heap) (p q : Ptr) {b : Block} → lookup h p ≡ none → lookup h q ≡ some b → q ≢ p
ne_of_fresh h p q e f same = cc (ap (lookup h) same)

length_pos : (s : Text) → s ≢ [] → 0 < length s
length_pos [] h = absurd (h refl)
length_pos (c ∷ s) h = omega arith

copy_lem :
    {X : Type 0} (w : World X) (p : Ptr) (s : Text)
    → p ≢ null
    → lookup w.heap p ≡ block (length s) uninit
    → copy_nonoverlapping s p w
      ≡ done tt (record w { heap = update w.heap p (block (length s) (bytes s)) })
unfolding copy_nonoverlapping
copy_lem w p s ne e = rw (block_at_lem w.heap p ne, e, leb_refl (length s))

pub write_lem :
    {X : Type 0} (w : World X) (p : Ptr) (r : RawEnvStorage)
    → p ≢ null
    → lookup w.heap p ≡ block raw_size uninit
    → write_raw p r w ≡ done tt (record w { heap = update w.heap p (block raw_size (raw r)) })
unfolding write_raw
write_lem w p r ne e = rw (block_at_lem w.heap p ne, e)

module _ {X : Type 0} {env : JvmtiTable X} (S : IsStorage env) (w : World X) where
  copy_some :
      (s : Text)
      → IsStorable (some s)
      → let p = S.place (length s) w in
        copy_exec env (some s) w
        ≡ done
            (p, length s)
            (record w {
              heap =
                  update (update w.heap p (block (length s) uninit)) p (block (length s) (bytes s));
            })
  unfolding copy_exec
  copy_some s (ne, u, small) = rw (
    allocate_lem S w (length s) (length_pos s ne) small,
    copy_lem (allocated (length s) (S.place (length s) w) w) (S.place (length s) w) s
        (S.place_ne_null (length s) w (length_pos s ne)) (update_self w.heap _ _),
  )

  pub copied : (exec : Option Text) → IsStorable exec → Copied S w exec
  unfolding copy_exec
  copied none h = record {
    ptr = null;
    len = 0;
    next = w;
    copied = refl;
    is_exec = refl;
    fresh = λ q b e. inr refl;
    extends = record { keeps = λ q b e. e; recorder = refl };
    host = refl;
  }
  copied (some s) h =
      let p = S.place (length s) w in
      let free = S.place_fresh (length s) w (length_pos s h.0) in
      record {
        ptr = p;
        len = length s;
        next = record w {
          heap = update (update w.heap p (block (length s) uninit)) p (block (length s) (bytes s));
        };
        copied = copy_some s h;
        is_exec = (
          S.place_ne_null (length s) w (length_pos s h.0),
          refl,
          h.1,
          (length s, update_self _ p _),
        );
        fresh = λ q b e. inl (λ same. ne_of_fresh w.heap p q free e (sym same));
        extends = record {
          keeps = λ q b e.
              let ne = ne_of_fresh w.heap p q free e in
              update_ne _ p q _ ne ∙ (update_ne w.heap p q _ ne ∙ e);
          recorder = refl;
        };
        host = refl;
      }
