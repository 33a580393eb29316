-- ===== src/Agent/Life/Nested.antt =====
-- Callbacks within callbacks: while one waits for the operating system or for a JNI function, the
-- JVM runs others, as the class hook for the classes that `pj_vm_start` makes it load.
use mathlib.Core.Path.{subst}
use mathlib.Core.Option.{map, map-eq-some_iff}
use phasic_j.Agent.Life.{Reach, IsAlive, Reach-IsAlive, Reach-Undisturbed}
use phasic_j.Base.{ℕ, ◌+◌, ◌≡◌, Option, some, Text, is_utf8, true}
use phasic_j.Agent.Life.AfterLoad.{Works, IsAlive-Works}
use phasic_j.Jvm.Events.{Jint}
use phasic_j.Jvm.Events.Memory.{Writes, IsSlice}
use phasic_j.Conf.{PjAgentConf}
use phasic_j.Host.{Host, FileSystem, Processes, JniTable, IoReply}
use phasic_j.Jvm.EnvStorage.Kept.{Undisturbed, Undisturbed-trans}
use phasic_j.Jvm.Harmless.{AreHarmless}
use phasic_j.Jvm.Jvmti.{JvmtiTable}
use phasic_j.Jvm.Jvmti.Lawful.{IsStorage}
use phasic_j.Jvm.World.{World}

module _ {X : Type 0} (during : World X → World X) where
  abbrev behind : {A : Type 0} → IoReply X A → IoReply X A
  behind r = record r { world = during r.world }

  -- The host with `during` at the end of each call.
  abbrev pub busy_files : FileSystem X → FileSystem X
  busy_files fs = record fs {
    create_dir_all = λ path w. behind (fs.create_dir_all path w);
    create = λ path w. behind (fs.create path w);
    write_all = λ fd s w. behind (fs.write_all fd s w);
    sync_all = λ fd w. behind (fs.sync_all fd w);
  }

  abbrev pub busy_processes : Processes X → Processes X
  busy_processes os = record os {
    spawn = λ file args w. behind (os.spawn file args w);
    write_stdin = λ child s w. behind (os.write_stdin child s w);
    wait_with_output = λ child w. behind (os.wait_with_output child w);
  }

  abbrev pub busy : Host X → Host X
  busy host = record host {
    files = busy_files host.files;
    processes = busy_processes host.processes;
  }

  abbrev pub busy_jni : JniTable X → JniTable X
  busy_jni jni = record {
    find_class = map (λ f name w. let r = f name w in (r.0, during r.1)) jni.find_class;
    get_static_method_id =
        map (λ f cls name sig w. let r = f cls name sig w in (r.0, during r.1))
          jni.get_static_method_id;
    call_static_void_method =
        map (λ f cls method w. during (f cls method w)) jni.call_static_void_method;
  }

-- What is behind a function of a table is so behind the function that it was made of.
map_some :
    {F : Type 0} (P : F → Type 0) (g : F → F) (o : Option F) {f : F}
    → map g o ≡ some f
    → ((f' : F) → o ≡ some f' → P (g f'))
    → P f
map_some P g o e h = let (f', e', same) = (map-eq-some_iff g o).0 e in subst P same (h f' e')

module _ {X : Type 0} {env : JvmtiTable X} (S : IsStorage env) where
  -- The host as a callback meets it that is at some depth within others: at each call of the host,
  -- a run of the JVM, in which callbacks meet the host as it is one level deeper.
  pub data IsNested (host : Host X) (jni : JniTable X) : Host X → JniTable X → Type 0 where
    alone : IsNested host jni host jni
    around :
        {h : Host X} {j : JniTable X}
        → IsNested host jni h j
        → (during : World X → World X) → ((w : World X) → (k : ℕ) × Reach S h j w (during w) k)
        → IsNested host jni (busy during h) (busy_jni during j)

  module _ (during : World X → World X) (D : (w : World X) → Undisturbed S w (during w)) where
    behind-Undisturbed : {w t : World X} → Undisturbed S w t → Undisturbed S w (during t)
    behind-Undisturbed h = Undisturbed-trans S h (D _)

    busy-AreHarmless :
        (host : Host X) {jni : JniTable X}
        → AreHarmless S host.files host.processes jni
        → AreHarmless S
            (busy_files during host.files)
            (busy_processes during host.processes)
            (busy_jni during jni)
    busy-AreHarmless host {jni} H = record {
      create_dir_all = λ path w. behind-Undisturbed (H.create_dir_all path w);
      create = λ path w. behind-Undisturbed (H.create path w);
      write_all = λ fd s w. behind-Undisturbed (H.write_all fd s w);
      sync_all = λ fd w. behind-Undisturbed (H.sync_all fd w);
      spawn = λ file args w. behind-Undisturbed (H.spawn file args w);
      write_stdin = λ child s w. behind-Undisturbed (H.write_stdin child s w);
      wait_with_output = λ child w. behind-Undisturbed (H.wait_with_output child w);
      find_class = λ f name w e.
          map_some (λ f. Undisturbed S w (f name w).1) _ jni.find_class e
            λ f' e'. behind-Undisturbed (H.find_class f' name w e');
      get_static_method_id = λ f cls name sig w e.
          map_some (λ f. Undisturbed S w (f cls name sig w).1) _ jni.get_static_method_id e
            λ f' e'. behind-Undisturbed (H.get_static_method_id f' cls name sig w e');
      call_static_void_method = λ f cls method w e.
          map_some (λ f. Undisturbed S w (f cls method w)) _ jni.call_static_void_method e
            λ f' e'. behind-Undisturbed (H.call_static_void_method f' cls method w e');
    }

  module _ (host : Host X) (jni : JniTable X)
      (H : AreHarmless S host.files host.processes jni) where
    -- The host is harmless at each depth.
    pub IsNested-AreHarmless :
        {h : Host X} {j : JniTable X} → IsNested host jni h j → AreHarmless S h.files h.processes j
    IsNested-AreHarmless alone = H
    IsNested-AreHarmless (around {h} {j} below during runs) =
        let deeper = IsNested-AreHarmless below in
        busy-AreHarmless during (λ w. Reach-Undisturbed S h j deeper (runs w).1) h deeper

    IsNested-Writes :
        {h : Host X} {j : JniTable X}
        → IsNested host jni h j
        → Writes host.processes
        → Writes h.processes
    IsNested-Writes alone writes = writes
    IsNested-Writes (around below during runs) writes =
        λ child w out e success. IsNested-Writes below writes child w out e success

    -- If files, processes and JNI functions leave the agent's memory alone, and the program never
    -- reports success without output: even where each call of the operating system and of JNI has a
    -- run of callbacks within it, and their calls have more, to any depth, every run of callbacks
    -- that return and other steps of the JVM, with events and forwarding threads between and during
    -- them, keeps the configuration stored and the recorder started, and counts exactly the events
    -- of the run. After it, the class hook, for a UTF-8 name and bytes that the JVM has given, is
    -- not undefined, leaves the class alone if its name begins with the runtime's prefix and else
    -- instruments it by the stored configuration; monitorEnter returns and records one event more;
    -- and pj_vm_death returns with an empty storage.
    pub nested-Works :
        {h : Host X} {j : JniTable X} {conf : PjAgentConf} {i total : ℕ} {w t : World X} {k : ℕ}
        (name : Text) (len : Jint) (class : Text)
        → IsNested host jni h j
        → Writes host.processes
        → IsAlive S h j conf i w total
        → Reach S h j w t k
        → is_utf8 name ≡ true
        → IsSlice len class
        → IsAlive S h j conf i t (total + k) × Works env h conf t i (total + k) name len class
    nested-Works {h} {j} {t} name len class nested writes alive run named slice =
        let later = Reach-IsAlive S h j (IsNested-AreHarmless nested) run alive in
        (
          later,
          IsAlive-Works S h t name len class named slice (IsNested-Writes nested writes) later,
        )
