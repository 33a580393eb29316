-- ===== src/Tests/Fixtures.antt =====
-- A small JVM with an allocator, a disk and processes, for runs of the agent.
use phasic_j.Base.{
  ℕ, suc, ◌+◌, ◌*◌, ◌<◌, ◌≡◌, refl, arith, Bool, true, false, Text, codes, text_eq, text_eq_iff,
  Option, none, some, List, [], ◌∷◌, ◌++◌, ◌==◌, if◌then◌else◌,
}
use phasic_j.Host.{IoReply, FileSystem, Processes, Host}
use phasic_j.Jvm.Jvmti.{
  JvmtiTable, JvmtiCapabilities, JvmtiEventCallbacks, JvmtiEvent, JvmtiEventMode, reply, success,
}
use phasic_j.Jvm.Jvmti.Lawful.{IsStorage, IsConfigurable, allocated}
use phasic_j.Jvm.RawEnvStorage.{Ptr, null}
use phasic_j.Jvm.World.{World, Heap, lookup, update}
use phasic_j.Recorder.{initial}
use phasic_j.RtJar.Missing.{IsFiles}

-- The state of the JVM and of the operating system.
pub record Machine : Type 0 where
  pub slot : Ptr
  pub capabilities : JvmtiCapabilities
  pub callbacks : JvmtiEventCallbacks
  pub modes : List (JvmtiEventMode × JvmtiEvent)
  pub segments : List Text
  pub files : Text → Option Text
  pub current : Text
  pub stdin : Text

abbrev no_capabilities : JvmtiCapabilities
no_capabilities = record {
  can_generate_all_class_hook_events = 0;
  can_generate_early_class_hook_events = 0;
  others = 0;
}

abbrev no_callbacks : JvmtiEventCallbacks
no_callbacks = record {
  vm_start = none;
  vm_init = none;
  vm_death = none;
  class_file_load_hook = none;
}

abbrev pub machine : Machine
machine = record {
  slot = null;
  capabilities = no_capabilities;
  callbacks = no_callbacks;
  modes = [];
  segments = [];
  files = λ _. none;
  current = [];
  stdin = [];
}

abbrev pub world : World Machine
world = record { host = machine; heap = []; recorder = initial }

-- The sum of the addresses in use.
abbrev addresses : Heap → ℕ
addresses [] = 0
addresses ((p, b) ∷ h) = p + addresses h

pub lookup_above : (h : Heap) (q : Ptr) → addresses h < q → lookup h q ≡ none
unfolding lookup
lookup_above [] q lt = refl
lookup_above ((p, b) ∷ h) q lt = ground (arith, lookup_above h q)

-- The allocator takes an address above all those in use.
abbrev place : ℕ → World Machine → Ptr
place n w = 8 * suc (addresses w.heap)

-- A JVM that may, or may not, offer the class hooks.
abbrev pub offers : Bool → JvmtiCapabilities
offers b = record {
  can_generate_all_class_hook_events = 1;
  can_generate_early_class_hook_events = if b then 1 else 0;
  others = 0;
}

abbrev pub jvm : Bool → JvmtiTable Machine
jvm early = record {
  get_phase = some (λ w. reply success 1 w);
  allocate = some (λ n w.
      if n == 0
      then reply success null w
      else reply success (place n w) (allocated n (place n w) w));
  deallocate = some (λ p w. reply success tt (record w { heap = update w.heap p none }));
  get_potential_capabilities = some (λ w. reply success (offers early) w);
  get_capabilities = some (λ w. reply success w.host.capabilities w);
  add_capabilities =
      some (λ c w. reply success tt (record w { host = record w.host { capabilities = c } }));
  set_event_callbacks =
      some (λ c w. reply success tt (record w { host = record w.host { callbacks = c } }));
  set_event_notification_mode = some (λ m e thread w.
      reply success tt (record w { host = record w.host { modes = (m, e) ∷ w.host.modes } }));
  add_to_bootstrap_class_loader_search = some (λ s w.
      reply success tt (record w { host = record w.host { segments = s ∷ w.host.segments } }));
  get_environment_local_storage = some (λ w. reply success w.host.slot w);
  set_environment_local_storage =
      some (λ p w. reply success tt (record w { host = record w.host { slot = p } }));
  get_thread_local_storage = none;
  set_thread_local_storage = none;
}

abbrev pub jvm_storage : (early : Bool) → IsStorage (jvm early)
jvm_storage early = record {
  slot = λ x. x.slot;
  with_slot = λ p x. record x { slot = p };
  slot-with_slot = λ p x. refl;
  place = place;
  place_ne_null = λ n w pos. omega arith;
  place_fresh = λ n w pos. lookup_above w.heap (place n w) (omega arith);
  place_aligned = λ n w. omega arith;
  get_environment_local_storage_lem = refl;
  set_environment_local_storage_lem = refl;
  allocate_lem = refl;
  deallocate_lem = refl;
}

abbrev pub jvm_configurable : (early : Bool) → IsConfigurable (jvm early)
jvm_configurable early = record {
  storage = jvm_storage early;
  potential = λ x. offers early;
  capabilities = λ x. x.capabilities;
  with_capabilities = λ c x. record x { capabilities = c };
  with_callbacks = λ c x. record x { callbacks = c };
  with_mode = λ m e x. record x { modes = (m, e) ∷ x.modes };
  with_segment = λ s x. record x { segments = s ∷ x.segments };
  slot-with_capabilities = λ c x. refl;
  slot-with_callbacks = λ c x. refl;
  slot-with_mode = λ m e x. refl;
  slot-with_segment = λ s x. refl;
  get_potential_capabilities_lem = refl;
  get_capabilities_lem = refl;
  add_capabilities_lem = refl;
  set_event_callbacks_lem = refl;
  set_event_notification_mode_lem = refl;
  add_to_bootstrap_class_loader_search_lem = refl;
}

abbrev io_reply : {A : Type 0} → Option A → World Machine → IoReply Machine A
io_reply r w = record { result = r; world = w }

abbrev pub set_file : Text → Text → World Machine → World Machine
set_file path c w = record w {
  host = record w.host { files = λ q. if text_eq q path then some c else w.host.files q };
}

abbrev is_some : {A : Type 0} → Option A → Bool
is_some none = false
is_some (some a) = true

-- A full disk takes no bytes. There is one open file.
abbrev pub write_to : Bool → Text → Option Text → World Machine → IoReply Machine (Unit {0})
write_to full s none w = io_reply none w
write_to true s (some c) w = io_reply none w
write_to false s (some c) w = io_reply (some tt) (set_file w.host.current (c ++ s) w)

abbrev pub disk : Bool → FileSystem Machine
disk full = record {
  exists = λ path w. is_some (w.host.files path);
  create_dir_all = λ path w. io_reply (some tt) w;
  create = λ path w.
      let w' = set_file path [] w in
      io_reply (some 0) (record w' { host = record w'.host { current = path } });
  write_all = λ fd s w. write_to full s (w.host.files w.host.current) w;
  sync_all = λ fd w. io_reply (some tt) w;
}

pub text_eq_refl : (s : Text) → text_eq s s ≡ true
text_eq_refl s = (text_eq_iff s s).1 refl

pub write_ok :
    (full : Bool) (fd : ℕ) (c s : Text) (w : World Machine)
    → w.host.files w.host.current ≡ some c
    → ((disk full).write_all fd s w).result ≡ some tt
    → ((disk full).write_all fd s w).world.host.files w.host.current ≡ some (c ++ s)
write_ok true fd c s w e r = cc (rw e at r)
write_ok false fd c s w e r = rw (e, text_eq_refl w.host.current)

pub write_failed :
    (full : Bool) (fd : ℕ) (c s : Text) (w : World Machine)
    → w.host.files w.host.current ≡ some c
    → ((disk full).write_all fd s w).result ≡ none
    → (n : Text) × (((disk full).write_all fd s w).world.host.files w.host.current ≡ some n)
write_failed true fd c s w e r = (c, rw e e)
write_failed false fd c s w e r = cc (rw e at r)

abbrev pub disk_files : (full : Bool) → IsFiles (disk full)
disk_files full = record {
  content = λ w path. w.host.files path;
  path_of = λ w fd. w.host.current;
  exists_of_content = λ path c w e. rw e;
  create_ok = λ path fd w e. (rw (text_eq_refl path), refl);
  write_ok = write_ok full;
  write_failed = write_failed full;
  sync_keeps = λ fd w path. refl;
}

-- A program that puts a byte in front of what it is given.
abbrev programs : Bool → Processes Machine
programs works = record {
  spawn = λ file args w. io_reply (some 0) w;
  write_stdin = λ child s w. io_reply (some tt) (record w { host = record w.host { stdin = s } });
  wait_with_output =
      λ child w. io_reply (some (record { is_success = works; stdout = 0xCA ∷ w.host.stdin })) w;
}

abbrev pub host : Bool → Bool → Host Machine
host early works = record {
  get_env = some (λ version w. reply success 1 w);
  jvmti_version_11 = 0x300B0000;
  env_at = λ p. jvm early;
  files = disk false;
  processes = programs works;
  temp_dir = λ w. codes "/tmp";
  current_dir = λ w. some (codes "/home");
  logs_info = true;
  can_spawn = true;
  rt_jar = codes "PK";
  rt_jar_sha1_hash = codes "a9";
}
