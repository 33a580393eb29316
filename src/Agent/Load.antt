-- ===== src/Agent/Load.antt =====
-- What `Agent_OnLoad` makes of its options and of the JVM.
use phasic_j.Base.{
  ℕ, ◌≡◌, ◌<◌, ◌^◌, true, false, Text, Option, none, some, [], ◌∷◌, arith, All, length, ltb,
  is_utf8, is_utf8_of_ascii, if◌then◌else◌,
}
use phasic_j.Agent.{options_of, to_str, print_verbose_startup_info, on_load, agent_on_load}
use phasic_j.Conf.{PjAgentConf, new_from_agent_options_list_str}
use phasic_j.Conf.Grammar.{arg_char}
use phasic_j.Conf.Meaning.{IsExec, new_from_agent_options_list_str-IsExec}
use phasic_j.Conf.Size.{IsWithin, new_from_agent_options_list_str-IsWithin}
use phasic_j.Host.{Host}
use phasic_j.Jvm.EnvStorage.Copy.{IsStorable}
use phasic_j.Jvm.EnvStorage.Init.{Initialised, init-stored}
use phasic_j.Jvm.Jvmti.Calls as Jvmti
use phasic_j.Jvm.Jvmti.Lawful.{IsConfigurable}
use phasic_j.Jvm.RawEnvStorage.{Ptr, null}
use phasic_j.Jvm.Setup.{has_nul, setup_agent, configure_jvmti_env}
use phasic_j.Jvm.Setup.Steps.{CanHook, enabled_world, jar_path, configure_jvmti_env_lem}
use phasic_j.Jvm.World.{World, pure}
use phasic_j.Panic.{ok, Run, done}
use phasic_j.Recorder.{start_forwarding_worker_thread}
use phasic_j.Recorder.Steps.{left_by, IsStarted, start-IsStarted}
use phasic_j.RtJar.{write_rt_jar_file_if_missing}

arg_char-ascii : (s : Text) → All arg_char s → All (λ b. ltb b 0x80) s
unfolding arg_char
arg_char-ascii [] h = tt
arg_char-ascii (c ∷ s) h = (ground arith, arg_char-ascii s h.1)

IsExec-IsStorable :
    (n : ℕ) (exec : Option Text) → IsExec exec → IsWithin n exec → n < 2 ^ 63 → IsStorable exec
IsExec-IsStorable n none e s small = tt
IsExec-IsStorable n (some v) e s small =
    (e.0, is_utf8_of_ascii v (arg_char-ascii v e.1), omega (arith, s))

-- The path of a configuration that was read from any options text, if it is shorter than 2^63
-- bytes, is one that can be stored in the JVM: it is UTF-8 and not empty.
pub new_from_agent_options_list_str-IsStorable :
    (text : Text) {conf : PjAgentConf}
    → new_from_agent_options_list_str text ≡ ok conf
    → length text < 2 ^ 63
    → IsStorable conf.phasicj_exec
new_from_agent_options_list_str-IsStorable text {conf} e small =
    IsExec-IsStorable (length text) conf.phasicj_exec
      (new_from_agent_options_list_str-IsExec text e)
      (new_from_agent_options_list_str-IsWithin text e) small

-- The log of a verbose start needs a current directory.
abbrev pub startup : {X : Type 0} → Host X → PjAgentConf → World X → Run (World X) (Unit {0})
startup host conf = if conf.verbose then print_verbose_startup_info host else pure tt

setup_lem :
    {X : Type 0} (host : Host X) (conf : PjAgentConf) (p : Ptr) (w w₀ w₁ : World X)
    → Jvmti.get_env host.get_env host.jvmti_version_11 w ≡ done p w₀
    → configure_jvmti_env (host.env_at p) host conf w₀ ≡ done tt w₁
    → w₁.recorder.poisoned ≡ false
    → host.can_spawn ≡ true
    → setup_agent host conf w
      ≡ done tt (record w₁ {
        recorder = left_by (start_forwarding_worker_thread true w₁.recorder) w₁.recorder;
      })
unfolding setup_agent start_forwarding_worker_thread
setup_lem host conf p w w₀ w₁ got set sound spawns = rw (got, set) (rw spawns (simp sound))

load_lem :
    {X : Type 0} (host : Host X) (options : Option Text) (conf : PjAgentConf) (w w₁ : World X)
    → is_utf8 (options_of options) ≡ true
    → new_from_agent_options_list_str (options_of options) ≡ ok conf
    → startup host conf w ≡ done tt w
    → setup_agent host conf w ≡ done tt w₁
    → agent_on_load host options w ≡ done 0 w₁
unfolding agent_on_load on_load to_str
load_lem host options conf w w₁ u read begun set = rw (u, read, begun, set)

module _ {X : Type 0} (host : Host X) (options : Option Text) (w : World X)
    (u : is_utf8 (options_of options) ≡ true) where
  module _ {conf : PjAgentConf}
      (read : new_from_agent_options_list_str (options_of options) ≡ ok conf)
      (begun : startup host conf w ≡ done tt w) (short : length (options_of options) < 2 ^ 63)
      {p : Ptr} {w₀ : World X}
      (got : Jvmti.get_env host.get_env host.jvmti_version_11 w ≡ done p w₀)
      (J : IsConfigurable (host.env_at p)) (empty : J.storage.slot w₀.host ≡ null) where
    -- The storage of the configuration, which cannot fail.
    abbrev pub initialised : Initialised J.storage w₀ conf
    initialised =
        init-stored J.storage w₀ conf empty
          (new_from_agent_options_list_str-IsStorable (options_of options) read short)

    abbrev pub path : Text
    path = jar_path J host w₀ initialised

    -- The world behind `Agent_OnLoad`, from the world behind the jar.
    abbrev pub loaded : World X → World X
    loaded w' = record w' {
      host = J.with_segment path w'.host;
      recorder = left_by (start_forwarding_worker_thread true w'.recorder) w'.recorder;
    }

    -- If the options are UTF-8, shorter than 2^63 bytes, and accepted, the startup log succeeds
    -- where it is asked for, the JVM gives an environment that behaves as documented, has both
    -- class hooks and an empty storage, the jar is written, to a path that is a C string, and the
    -- recorder is not poisoned, and a thread can be made, then Agent_OnLoad returns 0, in the world of the configured JVM
    -- with the jar added, and with a started recorder.
    pub agent_on_load-loaded :
        {w' : World X}
        → CanHook (J.potential initialised.next.host)
        → write_rt_jar_file_if_missing host.files host.rt_jar path
            (enabled_world J host w₀ initialised)
          ≡ done (some tt) w'
        → is_utf8 path ≡ true
        → has_nul path ≡ false
        → w'.recorder.poisoned ≡ false
        → host.can_spawn ≡ true
        → (agent_on_load host options w ≡ done 0 (loaded w'))
          × IsStarted (loaded w').recorder (length w'.recorder.channels) 0
    agent_on_load-loaded {w'} can jar utf nul sound spawns = (
      load_lem host options conf w (loaded w') u read begun (
          setup_lem host conf p w w₀ (record w' { host = J.with_segment path w'.host }) got
            (configure_jvmti_env_lem J host w₀ initialised can jar utf nul) sound spawns),
      start-IsStarted w'.recorder sound,
    )
