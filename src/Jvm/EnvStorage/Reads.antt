-- ===== src/Jvm/EnvStorage/Reads.antt =====
-- `EnvStorage::of` only reads, whatever the slot points to.
use phasic_j.Base.{ℕ, inl, inr, Bool-cases, Option, none, some, ◌==◌, leb, length, is_utf8}
use phasic_j.Jvm.Ends.{Ends, Ends-and_then, Ends-if}
use phasic_j.Jvm.EnvStorage.{of, exec_of, text_of, to_env_storage, read_storage}
use phasic_j.Jvm.EnvStorage.Kept.{Undisturbed, Undisturbed-refl}
use phasic_j.Jvm.EnvStorage.Stored.{get_ptr_lem}
use phasic_j.Jvm.Jvmti.{JvmtiTable}
use phasic_j.Jvm.Jvmti.Lawful.{IsStorage}
use phasic_j.Jvm.RawEnvStorage.{Ptr, null}
use phasic_j.Jvm.World.{
  World, Block, uninit, raw, bytes, block_at, raw_of, bytes_of, read_raw, from_raw_parts, and_then,
  ◌>>=◌, pure, fail,
}
use phasic_j.Panic.{invalid_utf8}

module _ {X : Type 0} {env : JvmtiTable X} (S : IsStorage env) (w₀ : World X) where
  abbrev Since : World X → Type 0
  Since = Undisturbed S w₀

  raw_of-Ends : (b : Option Block) (w : World X) → Since w → Ends Since (raw_of b w)
  raw_of-Ends none w h = tt
  raw_of-Ends (some b) w h =
      elim b.content as (λ c. Ends Since (raw_of (some (record b { content = c })) w)) [
        | uninit ↦ tt
        | raw r ↦ h
        | bytes s ↦ tt
      ]

  bytes_of-Ends : (n : ℕ) (b : Option Block) (w : World X) → Since w → Ends Since (bytes_of n b w)
  bytes_of-Ends n none w h = tt
  bytes_of-Ends n (some b) w h =
      elim b.content as (λ c. Ends Since (bytes_of n (some (record b { content = c })) w)) [
        | uninit ↦ tt
        | raw r ↦ tt
        | bytes s ↦ elim (Bool-cases (leb n (length s))) [ inl e ↦ rw e h | inr e ↦ rw e tt ]
      ]

  read_raw-Ends : (p : Ptr) (w : World X) → Since w → Ends Since (read_raw p w)
  unfolding read_raw
  read_raw-Ends p w h = raw_of-Ends (block_at w.heap p) w h

  exec_of-Ends : (p n : ℕ) (w : World X) → Since w → Ends Since (exec_of p n w)
  unfolding exec_of from_raw_parts text_of
  exec_of-Ends p n w h =
      Ends-if Since (p == null) (pure none)
        (λ v. and_then (from_raw_parts p n v) λ buf. text_of buf >>= λ text. pure (some text)) w h
        (Ends-and_then Since _ _ (bytes_of-Ends n (block_at w.heap p) w h) λ buf w₁ h₁.
          Ends-and_then Since _ _
            (Ends-if Since (is_utf8 buf) (pure buf) (fail invalid_utf8) w₁ h₁ h₁) λ text w₂ h₂. h₂)

  read_storage-Ends : (p : Option Ptr) (w : World X) → Since w → Ends Since (read_storage env p w)
  unfolding read_storage to_env_storage
  read_storage-Ends none w h = h
  read_storage-Ends (some p) w h = Ends-and_then Since _ _ (read_raw-Ends p w h) λ r w₁ h₁.
      Ends-and_then Since _ _
        (Ends-and_then Since _ _ (exec_of-Ends r.phasicj_exec_ptr r.phasicj_exec_len w₁ h₁)
          λ exec w₂ h₂. h₂)
        λ storage w₃ h₃. h₃

  pub of-Ends : Ends Since (of env w₀)
  unfolding of
  of-Ends = rw (get_ptr_lem S w₀) (read_storage-Ends _ w₀ (Undisturbed-refl S w₀))
