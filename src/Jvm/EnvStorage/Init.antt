-- ===== src/Jvm/EnvStorage/Init.antt =====
-- `EnvStorage::init` stores the configuration that `EnvStorage::of` reads.
use phasic_j.Base.{ℕ, ◌≡◌, ◌≢◌, ◌⊎◌, inl, inr, refl, ◌∙◌, Text, Option, none, some, [], arith}
use phasic_j.Conf.{PjAgentConf}
use phasic_j.Jvm.EnvStorage.{allocate, copy_exec, from_conf, store_conf, init_at, init, of}
use phasic_j.Jvm.EnvStorage.Copy.{
  IsStorable, Extends, allocate_type_lem, Copied, ne_of_fresh, write_lem, copied,
}
use phasic_j.Jvm.EnvStorage.Stored.{block, IsExecAt, IsStored, storage_of, of-none, of-stored}
use phasic_j.Jvm.Jvmti.{JvmtiTable}
use phasic_j.Jvm.Jvmti.Lawful.{IsStorage, allocated}
use phasic_j.Jvm.Jvmti.Storage.{set_lem}
use phasic_j.Jvm.RawEnvStorage.{Ptr, null, RawEnvStorage, raw_size}
use phasic_j.Jvm.World.{World, Heap, Block, raw, update, update_self, update_ne}
use phasic_j.Panic.{done, panicked, already_initialized, zero_sized}

-- The struct that `from_conf` makes.
abbrev raw_of : PjAgentConf → Ptr → ℕ → RawEnvStorage
raw_of conf p n = record {
  verbose = conf.verbose;
  phasicj_exec_ptr = p;
  phasicj_exec_len = n;
  debug_dump_classes_before_instr = conf.debug_dump_classes_before_instr;
  debug_dump_classes_after_instr = conf.debug_dump_classes_after_instr;
}

-- The copy of the path survives a write elsewhere.
IsExecAt-update :
    (h : Heap) (p n q : ℕ) (exec : Option Text) (b : Option Block)
    → IsExecAt h p n exec
    → (p ≢ q) ⊎ (p ≡ null)
    → IsExecAt (update h q b) p n exec
IsExecAt-update h p n q none b e apart = e
IsExecAt-update h p n q (some s) b (ne, e, u, (size, holds)) (inl apart) =
    (ne, e, u, (size, update_ne h q p b apart ∙ holds))
IsExecAt-update h p n q (some s) b (ne, e, u, (size, holds)) (inr nul) = absurd (ne nul)

module _ {X : Type 0} {env : JvmtiTable X} (S : IsStorage env) (w : World X) where
  -- What `init` leaves: it returns, the configuration is stored, and nothing else has changed.
  pub record Initialised (conf : PjAgentConf) : Type 0 where
    pub next : World X
    pub returns : init env conf w ≡ done tt next
    pub stored : IsStored S next conf
    pub extends : Extends w next

  -- The world behind `store_conf`.
  abbrev filled :
      (conf : PjAgentConf)
      → Copied S (allocated raw_size (S.place raw_size w) w) conf.phasicj_exec
      → World X
  filled conf c =
      let p = S.place raw_size w in
      record c.next {
        heap = update c.next.heap p (block raw_size (raw (raw_of conf c.ptr c.len)));
        host = S.with_slot p c.next.host;
      }

  store_lem :
      (conf : PjAgentConf)
      (c : Copied S (allocated raw_size (S.place raw_size w) w) conf.phasicj_exec)
      → store_conf env conf w ≡ done tt (filled conf c)
  unfolding store_conf from_conf
  store_lem conf c =
      let p = S.place raw_size w in
      rw (
        allocate_type_lem S w,
        c.copied,
        write_lem c.next p (raw_of conf c.ptr c.len) (S.place_ne_null raw_size w (omega arith))
            (c.extends.keeps p _ (update_self w.heap p _)),
        set_lem S _ p,
      )

  -- On a JVM without a configuration `init` stores the given one, and touches no other memory.
  pub init-stored :
      (conf : PjAgentConf) → S.slot w.host ≡ null → IsStorable conf.phasicj_exec → Initialised conf
  unfolding init init_at
  init-stored conf empty h =
      let p = S.place raw_size w in
      let c = copied S (allocated raw_size p w) conf.phasicj_exec h in
      let free = S.place_fresh raw_size w (omega arith) in
      record {
        next = filled conf c;
        returns = rw (of-none S w empty) (store_lem conf c);
        stored = record {
          storage_ne_null = rw S.slot-with_slot (S.place_ne_null raw_size w (omega arith));
          size = raw_size;
          struct = raw_of conf c.ptr c.len;
          holds = rw S.slot-with_slot (update_self c.next.heap p _);
          is_raw = record {
            verbose = refl;
            before_instr = refl;
            after_instr = refl;
            exec =
                IsExecAt-update c.next.heap c.ptr c.len p conf.phasicj_exec _ c.is_exec
                  (c.fresh p _ (update_self w.heap p _));
          };
        };
        extends = record {
          keeps = λ q b e.
              let ne = ne_of_fresh w.heap p q free e in
              update_ne _ p q _ ne ∙ c.extends.keeps q b (update_ne w.heap p q _ ne ∙ e);
          recorder = c.extends.recorder;
        };
      }

  -- On a JVM whose storage is empty, for a configuration whose path, if there is one, is UTF-8, not
  -- empty and shorter than 2^63 bytes, init returns, and from then on of reads exactly the
  -- configuration that init was given.
  pub of-init :
      (conf : PjAgentConf)
      → S.slot w.host ≡ null
      → IsStorable conf.phasicj_exec
      → (w' : World X) × (init env conf w ≡ done tt w')
        × (of env w' ≡ done (some (storage_of conf)) w')
  of-init conf empty h =
      let I = init-stored conf empty h in (I.next, I.returns, of-stored S I.next I.stored)

  -- On a JVM that has a configuration init panics, and changes nothing.
  pub init-again :
      {old : PjAgentConf} (conf : PjAgentConf)
      → IsStored S w old
      → init env conf w ≡ panicked already_initialized w
  unfolding init init_at
  init-again conf h = rw (of-stored S w h)

  copy_exec-empty : copy_exec env (some []) w ≡ panicked zero_sized w
  unfolding copy_exec allocate
  copy_exec-empty = refl

module _ {X : Type 0} {env : JvmtiTable X} (S : IsStorage env) (w : World X) where
  -- An empty path is not stored: `init` panics, behind its first allocation.
  pub init-empty :
      (conf : PjAgentConf)
      → S.slot w.host ≡ null
      → conf.phasicj_exec ≡ some []
      → init env conf w ≡ panicked zero_sized (allocated raw_size (S.place raw_size w) w)
  unfolding init init_at store_conf from_conf
  init-empty conf empty e = rw (
    of-none S w empty,
    allocate_type_lem S w,
    e,
    copy_exec-empty S (allocated raw_size (S.place raw_size w) w),
  )
