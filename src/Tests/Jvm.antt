-- ===== src/Tests/Jvm.antt =====
-- The theorems on the agent in a small JVM.
use phasic_j.Base.{
  ◌≡◌, ◌<◌, ◌^◌, inr, refl, arith, Bool, true, false, Text, codes, some, [], ◌∷◌, length, is_utf8,
  utf8_run, follow, lead,
}
use phasic_j.Agent.{print_verbose_startup_info}
use phasic_j.Agent.Load.{startup, initialised}
use phasic_j.Conf.{PjAgentConf, new_with_defaults}
use phasic_j.Host.{JniTable, Host}
use phasic_j.Jvm.EnvStorage as EnvStorage
use phasic_j.Jvm.EnvStorage.Free.{freed, free-leaks}
use phasic_j.Jvm.EnvStorage.Copy.{IsStorable}
use phasic_j.Jvm.EnvStorage.Init.{Initialised, init-stored, of-init, init-empty}
use phasic_j.Jvm.EnvStorage.Stored.{block, storage_of}
use phasic_j.Jvm.Events.{pj_vm_start}
use phasic_j.Jvm.Events.Start.{pj_vm_start-unchecked}
use phasic_j.Jvm.Jvmti.Lawful.{allocated}
use phasic_j.Jvm.Jvmti.Calls as Calls
use phasic_j.Jvm.RawEnvStorage.{Ptr, null, raw_size}
use phasic_j.Jvm.Setup.{configure_jvmti_env}
use phasic_j.Jvm.Setup.Steps.{configure_jvmti_env-missing}
use phasic_j.Jvm.World.{World, raw, lookup}
use phasic_j.Panic.{done, panicked, zero_sized, missing_capability}
use phasic_j.Tests.Fixtures.{Machine, world, jvm, jvm_storage, jvm_configurable, host, disk}
use phasic_j.Tests.Options.{exec_conf, options_text, options_text-reads}

abbrev pub plain_conf : PjAgentConf
plain_conf = record new_with_defaults { phasicj_exec = some (codes "/bin/p") }

pub path-IsStorable : IsStorable (some (codes "/bin/p"))
unfolding codes is_utf8 utf8_run follow lead
path-IsStorable = (λ e. cc, refl, omega arith)

of-init_example :
    (w' : World Machine) × (EnvStorage.init (jvm true) exec_conf world ≡ done tt w')
    × (EnvStorage.of (jvm true) w' ≡ done (some (storage_of exec_conf)) w')
of-init_example = of-init (jvm_storage true) world exec_conf refl path-IsStorable

-- A JVM with a configuration.
abbrev pub stored : (early : Bool) → Initialised (jvm_storage early) world plain_conf
stored early = init-stored (jvm_storage early) world plain_conf refl path-IsStorable

abbrev pub stored_world : World Machine
stored_world = (stored true).next

init-empty_example :
    EnvStorage.init (jvm true) (record new_with_defaults { phasicj_exec = some [] }) world
    ≡ panicked zero_sized (allocated raw_size 8 world)
init-empty_example =
    init-empty (jvm_storage true) world (record new_with_defaults { phasicj_exec = some [] }) refl
      refl

free-leaks_example :
    let h = (stored true).stored in
    let w' = freed (jvm_storage true) stored_world h.struct.phasicj_exec_ptr in
    (EnvStorage.free (jvm true) stored_world ≡ done tt w')
    × (lookup w'.heap stored_world.host.slot ≡ block h.size (raw h.struct))
    × (w'.host.slot ≡ null)
free-leaks_example = free-leaks (jvm_storage true) stored_world (stored true).stored

-- A host on whose disk the jar is.
abbrev pub jar_host : Host Machine
jar_host = record (host true true) { files = record (disk false) { exists = λ path w. true } }

abbrev pub configured : Initialised (jvm_configurable true).storage world plain_conf
configured = stored true

configure_jvmti_env-missing_example :
    configure_jvmti_env (jvm false) (host false true) plain_conf world
    ≡ panicked missing_capability (stored false).next
configure_jvmti_env-missing_example =
    configure_jvmti_env-missing (jvm_configurable false) (host false true) world (stored false)
      (inr refl)

pub options_text-is_utf8 : is_utf8 options_text ≡ true
unfolding codes is_utf8 utf8_run follow lead
options_text-is_utf8 = refl

pub started : startup jar_host exec_conf world ≡ done tt world
unfolding print_verbose_startup_info
started = refl

pub given_env : Calls.get_env jar_host.get_env jar_host.jvmti_version_11 world ≡ done 1 world
unfolding Calls.get_env
given_env = refl

pub options_text-short : length options_text < 2 ^ 63
unfolding codes
options_text-short = omega arith

abbrev pub made : Initialised (jvm_storage true) world exec_conf
made =
    initialised jar_host (some options_text) world options_text-is_utf8 options_text-reads started
      options_text-short given_env (jvm_configurable true) refl

abbrev pub find : Text → World Machine → Ptr × World Machine
find name w = (5, w)

-- No method is found.
abbrev pub get : Ptr → Text → Text → World Machine → Ptr × World Machine
get cls name sig w = (null, w)

-- A call leaves the name of what was called on the input of the last process.
abbrev pub call : Ptr → Ptr → World Machine → World Machine
call cls method w = record w { host = record w.host { stdin = cls ∷ method ∷ [] } }

abbrev pub jni : JniTable Machine
jni = record {
  find_class = some find;
  get_static_method_id = some get;
  call_static_void_method = some call;
}

pj_vm_start-unchecked_example : pj_vm_start jni world ≡ done tt (call 5 null world)
pj_vm_start-unchecked_example =
    pj_vm_start-unchecked jni find get call refl refl refl world (λ e. cc)
