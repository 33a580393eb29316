-- ===== src/Jvm/EnvStorage/Free.antt =====
-- `EnvStorage::free`, and how the storage fails.
use phasic_j.Base.{
  ℕ, ◌≡◌, ◌≢◌, inl, inr, Bool-cases, ◌∙◌, ap, Text, Option, none, some, ◌==◌, if◌then◌else◌,
  eq_false_of_ne,
}
use phasic_j.Conf.{PjAgentConf}
use phasic_j.Jvm.EnvStorage.{
  get_ptr, read_storage, of, allocate, allocate_type, store_conf, init_at, init, free_exec, free_at,
  free,
}
use phasic_j.Jvm.EnvStorage.Stored.{block, IsExecAt, IsStored, get_ptr_lem, read_raw_lem, of-none}
use phasic_j.Jvm.Jvmti.{JvmtiTable, Reply, reply, success}
use phasic_j.Jvm.Jvmti.Calls
use phasic_j.Jvm.Jvmti.Lawful.{IsStorage}
use phasic_j.Jvm.Jvmti.Storage.{set_lem, deallocate_ok}
use phasic_j.Jvm.RawEnvStorage.{Ptr, null, RawEnvStorage, raw_size}
use phasic_j.Jvm.World.{World, Heap, raw, lookup, update, update_ne, to_signed}
use phasic_j.Panic.{done, panicked, not_initialized, jvmti_error}

-- The heap without the copy of the path, if there is one.
abbrev pub without : Heap → Ptr → Heap
without h p = if p == null then h else update h p none

module _ {X : Type 0} {env : JvmtiTable X} (S : IsStorage env) (w : World X) where
  -- The world behind `free`.
  abbrev pub freed : Ptr → World X
  freed p = record w { heap = without w.heap p; host = S.with_slot null w.host }

  free_exec_lem : (p : Ptr) → free_exec env p w ≡ done tt (record w { heap = without w.heap p })
  unfolding free_exec
  free_exec_lem p = elim (Bool-cases (p == null)) [
    | inl e ↦ rw e
    | inr e ↦ rw (e, deallocate_ok S w p)
  ]

  -- The copy of the path and the struct are different blocks.
  struct_stays :
      (q p n len : ℕ) (r : RawEnvStorage) (exec : Option Text)
      → lookup w.heap q ≡ block n (raw r)
      → IsExecAt w.heap p len exec
      → lookup (without w.heap p) q ≡ block n (raw r)
  struct_stays q p n len r none e h = rw h e
  struct_stays q p n len r (some s) e (ne, l, u, (size, b)) =
      rw (eq_false_of_ne p null ne)
        (update_ne w.heap p q none (λ same. cc (ap (lookup w.heap) same)) ∙ e)

  -- `free` gives back the copy of the path and empties the slot, and returns.
  pub free-stored :
      {conf : PjAgentConf} (h : IsStored S w conf)
      → free env w ≡ done tt (freed h.struct.phasicj_exec_ptr)
  unfolding free free_at
  free-stored h =
      let p = h.struct.phasicj_exec_ptr in
      rw (
        get_ptr_lem S w,
        eq_false_of_ne _ null h.storage_ne_null,
        read_raw_lem w (S.slot w.host) h.size h.struct h.storage_ne_null h.holds,
        free_exec_lem p,
        set_lem S (record w { heap = without w.heap p }) null,
      )

  -- After `free` there is no configuration.
  pub of-free :
      {conf : PjAgentConf} (h : IsStored S w conf)
      → let w' = freed h.struct.phasicj_exec_ptr in of env w' ≡ done none w'
  of-free h = of-none S (freed h.struct.phasicj_exec_ptr) (S.slot-with_slot null w.host)

  -- On a stored configuration free returns, gives back the copy of the path and empties the slot,
  -- but the block of the struct is still allocated.
  pub free-leaks :
      {conf : PjAgentConf} (h : IsStored S w conf)
      → let w' = freed h.struct.phasicj_exec_ptr in
        (free env w ≡ done tt w')
        × (lookup w'.heap (S.slot w.host) ≡ block h.size (raw h.struct))
        × (S.slot w'.host ≡ null)
  free-leaks {conf} h = (
    free-stored h,
    struct_stays (S.slot w.host) h.struct.phasicj_exec_ptr h.size h.struct.phasicj_exec_len h.struct
        conf.phasicj_exec h.holds h.is_raw.exec,
    S.slot-with_slot null w.host,
  )

  -- Without a configuration `free` panics, and changes nothing.
  pub free-none : S.slot w.host ≡ null → free env w ≡ panicked not_initialized w
  unfolding free free_at
  free-none e = rw (get_ptr_lem S w, e)

-- On a JVM whose storage is empty and which has no memory, init panics with the code that Allocate
-- returned, in the world that Allocate left, so no slot is set.
pub init-no_memory :
    {X : Type 0} (env : JvmtiTable X) (conf : PjAgentConf) (w : World X)
    (get : World X → Reply X Ptr) (alloc : ℕ → World X → Reply X Ptr)
    → env.get_environment_local_storage ≡ some get
    → get w ≡ reply success null w
    → env.allocate ≡ some alloc
    → (alloc raw_size w).status ≢ success
    → init env conf w ≡ panicked (jvmti_error (alloc raw_size w).status) (alloc raw_size w).world
unfolding init init_at of get_ptr read_storage store_conf allocate_type allocate to_signed
    Calls.allocate Calls.get_environment_local_storage
init-no_memory env conf w get alloc g empty a ne =
    rw (g, empty, a, eq_false_of_ne (alloc raw_size w).status success ne)
