-- ===== src/Agent.antt =====
-- agent/agent.rs, and the entry points of agent/jvm/entrypoints.rs.
pub mod Life
pub mod Load
use phasic_j.Base.{ℕ, Bool, true, false, Text, Option, none, some, [], if◌then◌else◌, is_utf8}
use phasic_j.Conf.{PjAgentConf, new_from_agent_options_list_str}
use phasic_j.Host.{Host}
use phasic_j.Jvm.Setup.{setup_agent, record_with}
use phasic_j.Jvm.World.{World, M, pure, fail, ◌>>=◌, ◌>>◌}
use phasic_j.Panic.{Result, ok, panic, Run, done, panicked, invalid_utf8, io_error}
use phasic_j.Recorder.{Recorder, monitor_enter, monitor_exit}

abbrev pub error_agent_attach_not_supported : ℕ
error_agent_attach_not_supported = 1

-- A null pointer stands for an empty text.
abbrev pub options_of : Option Text → Text
options_of none = []
options_of (some s) = s

module _ {X : Type 0} where
  -- A result with no state, in the world.
  abbrev pub lift : {A : Type 0} → Result A → M X A
  lift (ok a) w = done a w
  lift (panic p) w = panicked p w

  -- `options.to_str().expect(…)`
  unfoldable pub to_str : Text → M X Text
  to_str options = if is_utf8 options then pure options else fail invalid_utf8

  abbrev expect_dir : Option Text → M X (Unit {0})
  expect_dir none = fail io_error
  expect_dir (some dir) = pure tt

  -- `print_verbose_startup_info` of agent/debug.rs: what it logs is left out, its `unwrap` is not,
  -- which is evaluated only if that level is logged.
  unfoldable pub print_verbose_startup_info : Host X → M X (Unit {0})
  print_verbose_startup_info host w =
      if host.logs_info then expect_dir (host.current_dir w) w else done tt w

  unfoldable pub on_load : Host X → Text → M X (Unit {0})
  on_load host options = do
    text ← to_str options
    conf ← lift (new_from_agent_options_list_str text)
    if conf.verbose then print_verbose_startup_info host else pure tt
    setup_agent host conf

  unfoldable pub on_attach : M X ℕ
  on_attach = pure error_agent_attach_not_supported

  abbrev pub on_unload : M X (Unit {0})
  on_unload = pure tt

  -- `Agent_OnLoad`
  unfoldable pub agent_on_load : Host X → Option Text → M X ℕ
  agent_on_load host options = do on_load host (options_of options); pure 0

  -- `Agent_OnAttach`
  unfoldable pub agent_on_attach : M X ℕ
  agent_on_attach = do _ ← on_attach; pure 0

  -- `Agent_OnUnload`
  unfoldable pub agent_on_unload : M X (Unit {0})
  agent_on_unload = on_unload
