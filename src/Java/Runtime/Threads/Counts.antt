-- ===== src/Java/Runtime/Threads/Counts.antt =====
-- The steps of the threads, against what they have still to send and to count.
use mathlib.Core.Path.{subst}
use native.Mathlib.Nat.{add-zero}
use phasic_j.Base.{ℕ, ◌+◌, ◌≡◌, refl, sym, ap, ◌∙◌, arith, Bool, true, false, ◌&&◌, List}
use phasic_j.Java.Runtime.{AgentRt, enable_object_instrumentation}
use phasic_j.Java.Runtime.Threads.{
  Point, between, entering, exiting, Act, lock, unlock, pass_enter, pass_exit, call_enter,
  call_exit, count_enter, count_exit, native_enter, native_exit, crash_enter, crash_exit, Pick,
  this, another, Turn, acts, enables, forwards, Interleaved, start, onward,
}
use phasic_j.Recorder.{monitor_exit}
use phasic_j.Recorder.Steps.{left_by, IsStarted, enter-IsStarted, Reach-IsStarted}
use phasic_j.Java.Runtime.Threads.Left.{
  Left, left_at, left, runs_on, all_run_on, Kept, Kept-trans, Kept-plus_left, Kept-plus_right,
}

pub and_true_left : (a b : Bool) → (a && b) ≡ true → a ≡ true
and_true_left true b h = refl
and_true_left false b h = cc

pub and_true_right : (a b : Bool) → (a && b) ≡ true → b ≡ true
and_true_right true b h = h
and_true_right false b h = cc

module _ {s : AgentRt} {i n : ℕ} (on : s.instrumentation_is_enabled ≡ true)
    (h : IsStarted s.recorder i n) where
  Kept-refl : (a : Left) → Kept s s i n a a
  Kept-refl a = record {
    sent = n;
    started = h;
    enabled = on;
    sends = refl;
    enter_counter = refl;
    exit_counter = refl;
  }

  Act-Kept :
      {t : AgentRt} {p q : Point}
      → Act s p t q
      → Kept s t i n (left_at p) (left_at q) × (runs_on q ≡ true)
  unfolding monitor_exit
  Act-Kept (lock {es}) = (Kept-refl (left_at (between es)), refl)
  Act-Kept (unlock {es}) = (Kept-refl (left_at (between es)), refl)
  Act-Kept (pass_enter off) = cc
  Act-Kept (pass_exit off) = cc
  Act-Kept (call_enter {es} e) = (Kept-refl (left_at (entering es)), refl)
  Act-Kept (call_exit {es} e) = (Kept-refl (left_at (exiting es)), refl)
  Act-Kept (count_enter {es}) = (
    record {
      sent = n;
      started = h;
      enabled = on;
      sends = refl;
      enter_counter = omega arith;
      exit_counter = refl;
    },
    refl,
  )
  Act-Kept (count_exit {es}) = (
    record {
      sent = n;
      started = h;
      enabled = on;
      sends = refl;
      enter_counter = refl;
      exit_counter = omega arith;
    },
    refl,
  )
  Act-Kept (native_enter {es} {r} e) =
      let (r', returns, h') = enter-IsStarted s.recorder i n h in
      let same : r' ≡ r = ap (λ x. left_by x s.recorder) (sym returns ∙ e) in
      (
        record {
          sent = n + 1;
          started = subst (λ r. IsStarted r i (n + 1)) same h';
          enabled = on;
          sends = omega arith;
          enter_counter = refl;
          exit_counter = refl;
        },
        refl,
      )
  Act-Kept (native_exit {es} {r} e) =
      let same : s.recorder ≡ r = ap (λ x. left_by x s.recorder) e in
      (
        record {
          sent = n;
          started = subst (λ r. IsStarted r i n) same h;
          enabled = on;
          sends = refl;
          enter_counter = refl;
          exit_counter = refl;
        },
        refl,
      )
  Act-Kept (crash_enter e) = let (r, returns, h') = enter-IsStarted s.recorder i n h in cc
  Act-Kept (crash_exit e) = cc

  Pick-Kept :
      {t : AgentRt} {ps qs : List Point}
      → Pick s ps t qs
      → all_run_on ps ≡ true
      → Kept s t i n (left ps) (left qs) × (all_run_on qs ≡ true)
  Pick-Kept (this {p} {q} {ps} act) all =
      let (kept, runs) = Act-Kept act in
      (Kept-plus_right (left ps) kept, rw runs (and_true_right (runs_on p) (all_run_on ps) all))
  Pick-Kept (another {p} {ps} {qs} pick) all =
      let (kept, rest) = Pick-Kept pick (and_true_right (runs_on p) (all_run_on ps) all) in
      (Kept-plus_left (left_at p) kept, rw (and_true_left (runs_on p) (all_run_on ps) all) rest)

  Turn-Kept :
      {t : AgentRt} {ps qs : List Point}
      → Turn s ps t qs
      → all_run_on ps ≡ true
      → Kept s t i n (left ps) (left qs) × (all_run_on qs ≡ true)
  unfolding enable_object_instrumentation
  Turn-Kept (acts pick) all = Pick-Kept pick all
  Turn-Kept {ps} enables all = (
    record {
      sent = n;
      started = h;
      enabled = refl;
      sends = refl;
      enter_counter = refl;
      exit_counter = refl;
    },
    all,
  )
  Turn-Kept {ps} (forwards run) all = (
    record {
      sent = n;
      started = rw add-zero at (Reach-IsStarted run h);
      enabled = on;
      sends = refl;
      enter_counter = refl;
      exit_counter = refl;
    },
    all,
  )

-- With a started recorder and the instrumentation enabled, in any interleaving no thread crashes,
-- and what has been sent and counted is no longer left.
pub Interleaved-Kept :
    {s : AgentRt} {ps : List Point} {i n : ℕ} {t : AgentRt} {qs : List Point}
    → s.instrumentation_is_enabled ≡ true
    → IsStarted s.recorder i n
    → Interleaved s ps t qs
    → all_run_on ps ≡ true
    → Kept s t i n (left ps) (left qs) × (all_run_on qs ≡ true)
Interleaved-Kept {ps} on h start all = (Kept-refl on h (left ps), all)
Interleaved-Kept on h (onward before turn) all =
    let (kept, now) = Interleaved-Kept on h before all in
    let (more, later) = Turn-Kept kept.enabled kept.started turn now in
    (Kept-trans kept more, later)
