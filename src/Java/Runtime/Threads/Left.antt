-- ===== src/Java/Runtime/Threads/Left.antt =====
-- What the threads have still to send and to count.
use phasic_j.Base.{ℕ, ◌+◌, ◌%◌, ◌^◌, ◌≡◌, ◌∙◌, arith, Bool, true, false, ◌&&◌, List, [], ◌∷◌}
use phasic_j.Java.Runtime.{AgentRt}
use phasic_j.Java.Runtime.Sends.{enters_in, exits_in}
use phasic_j.Java.Runtime.Threads.{Point, between, entering, entered, exiting, exited, crashed}
use phasic_j.Recorder.Steps.{IsStarted}

-- Calls of `monitorEnter` that are not sent, calls of both that are not counted.
pub record Left : Type 0 where
  pub unsent : ℕ
  pub enters : ℕ
  pub exits : ℕ

abbrev pub left_at : Point → Left
left_at (between es) = record { unsent = enters_in es; enters = enters_in es; exits = exits_in es }
left_at (entering es) = record {
  unsent = 1 + enters_in es;
  enters = 1 + enters_in es;
  exits = exits_in es;
}
left_at (entered es) = record {
  unsent = 1 + enters_in es;
  enters = enters_in es;
  exits = exits_in es;
}
left_at (exiting es) = record {
  unsent = enters_in es;
  enters = enters_in es;
  exits = 1 + exits_in es;
}
left_at (exited es) = record { unsent = enters_in es; enters = enters_in es; exits = exits_in es }
left_at crashed = record { unsent = 0; enters = 0; exits = 0 }

abbrev pub plus : Left → Left → Left
plus a b = record {
  unsent = a.unsent + b.unsent;
  enters = a.enters + b.enters;
  exits = a.exits + b.exits;
}

abbrev pub left : List Point → Left
left [] = record { unsent = 0; enters = 0; exits = 0 }
left (p ∷ ps) = plus (left_at p) (left ps)

abbrev pub runs_on : Point → Bool
runs_on crashed = false
runs_on _ = true

abbrev pub all_run_on : List Point → Bool
all_run_on [] = true
all_run_on (p ∷ ps) = runs_on p && all_run_on ps

-- What has been sent and counted between two moments is no longer left.
pub record Kept (s t : AgentRt) (i total : ℕ) (before after : Left) : Type 0 where
  pub sent : ℕ
  pub started : IsStarted t.recorder i sent
  pub enabled : t.instrumentation_is_enabled ≡ true
  pub sends : sent + after.unsent ≡ total + before.unsent
  pub enter_counter :
      (t.monitor_enter_counter + after.enters) % 2 ^ 32
      ≡ (s.monitor_enter_counter + before.enters) % 2 ^ 32
  pub exit_counter :
      (t.monitor_exit_counter + after.exits) % 2 ^ 32
      ≡ (s.monitor_exit_counter + before.exits) % 2 ^ 32

pub Kept-trans :
    {s t u : AgentRt} {i n : ℕ} {a b c : Left}
    → (h : Kept s t i n a b) → Kept t u i h.sent b c
    → Kept s u i n a c
Kept-trans h k = record {
  sent = k.sent;
  started = k.started;
  enabled = k.enabled;
  sends = k.sends ∙ h.sends;
  enter_counter = k.enter_counter ∙ h.enter_counter;
  exit_counter = k.exit_counter ∙ h.exit_counter;
}

pub Kept-plus_right :
    {s t : AgentRt} {i n : ℕ} {a b : Left} (c : Left)
    → Kept s t i n a b
    → Kept s t i n (plus a c) (plus b c)
Kept-plus_right c h = record {
  sent = h.sent;
  started = h.started;
  enabled = h.enabled;
  sends = omega (arith, h.sends);
  enter_counter = omega (arith, h.enter_counter);
  exit_counter = omega (arith, h.exit_counter);
}

pub Kept-plus_left :
    {s t : AgentRt} {i n : ℕ} {a b : Left} (c : Left)
    → Kept s t i n a b
    → Kept s t i n (plus c a) (plus c b)
Kept-plus_left c h = record {
  sent = h.sent;
  started = h.started;
  enabled = h.enabled;
  sends = omega (arith, h.sends);
  enter_counter = omega (arith, h.enter_counter);
  exit_counter = omega (arith, h.exit_counter);
}
