-- ===== src/Jvm/EnvStorage/Kept.antt =====
-- When the stored configuration survives what others do to the world.
use phasic_j.Base.{ℕ, ◌≡◌, ◌<◌, refl, ◌∙◌, Option, none, some, Text}
use phasic_j.Conf.{PjAgentConf}
use phasic_j.Jvm.EnvStorage.Copy.{ne_of_fresh}
use phasic_j.Jvm.EnvStorage.Stored.{IsExecAt, IsRaw, IsStored}
use phasic_j.Jvm.Jvmti.{JvmtiTable}
use phasic_j.Jvm.Jvmti.Lawful.{IsStorage, allocated}
use phasic_j.Jvm.RawEnvStorage.{Ptr, RawEnvStorage}
use phasic_j.Jvm.World.{World, Heap, Block, lookup, update_ne}

-- Every block of one heap is in another, with the same content.
abbrev pub Contains : Heap → Heap → Type 0
Contains h h' = (q : Ptr) (b : Block) → lookup h q ≡ some b → lookup h' q ≡ some b

IsExecAt-Contains :
    (h h' : Heap) (p n : ℕ) (exec : Option Text)
    → Contains h h'
    → IsExecAt h p n exec
    → IsExecAt h' p n exec
IsExecAt-Contains h h' p n none keeps e = e
IsExecAt-Contains h h' p n (some s) keeps (ne, e, u, (size, at_p)) =
    (ne, e, u, (size, keeps p _ at_p))

IsRaw-Contains :
    (h h' : Heap) (r : RawEnvStorage) (conf : PjAgentConf)
    → Contains h h'
    → IsRaw h r conf
    → IsRaw h' r conf
IsRaw-Contains h h' r conf keeps raw = record {
  verbose = raw.verbose;
  before_instr = raw.before_instr;
  after_instr = raw.after_instr;
  exec = IsExecAt-Contains h h' _ _ conf.phasicj_exec keeps raw.exec;
}

module _ {X : Type 0} {env : JvmtiTable X} (S : IsStorage env) where
  -- The slot and the agent's blocks are left alone. Other threads may allocate, and send events.
  pub record Undisturbed (w w' : World X) : Type 0 where
    pub slot : S.slot w'.host ≡ S.slot w.host
    pub keeps : Contains w.heap w'.heap

  pub Undisturbed-refl : (w : World X) → Undisturbed w w
  Undisturbed-refl w = record { slot = refl; keeps = λ q b e. e }

  pub Undisturbed-trans : {u v w : World X} → Undisturbed u v → Undisturbed v w → Undisturbed u w
  Undisturbed-trans f g = record {
    slot = g.slot ∙ f.slot;
    keeps = λ q b e. g.keeps q b (f.keeps q b e);
  }

  -- The configuration depends on the slot and the blocks only.
  pub IsStored-Contains :
      (w w' : World X) {conf : PjAgentConf}
      → S.slot w'.host ≡ S.slot w.host
      → Contains w.heap w'.heap
      → IsStored S w conf
      → IsStored S w' conf
  IsStored-Contains w w' {conf} slot keeps h = record {
    storage_ne_null = rw slot h.storage_ne_null;
    size = h.size;
    struct = h.struct;
    holds = rw slot (keeps _ _ h.holds);
    is_raw = IsRaw-Contains w.heap w'.heap h.struct conf keeps h.is_raw;
  }

  pub allocated-Undisturbed :
      (n : ℕ) (w : World X) → 0 < n → Undisturbed w (allocated n (S.place n w) w)
  allocated-Undisturbed n w pos = record {
    slot = refl;
    keeps = λ q b e.
        update_ne w.heap (S.place n w) q _
          (ne_of_fresh w.heap (S.place n w) q (S.place_fresh n w pos) e)
        ∙ e;
  }
