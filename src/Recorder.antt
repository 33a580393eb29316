-- ===== src/Recorder.antt =====
-- agent/recorder.rs, and `monitorEnter` and `monitorExit` of agent/jvm/entrypoints.rs: the channel
-- that carries the events of the application's threads to the forwarding thread.
pub mod Delivery
pub mod Steps
use phasic_j.Base.{
  ℕ, zero, suc, ◌+◌, Bool, true, false, Option, none, some, List, [], ◌∷◌, ◌++◌, length,
  if◌then◌else◌,
}
use phasic_j.Panic.{Run, done, panicked, io_error, poisoned_lock, no_sender, disconnected}

-- The thread that `start_forwarding_worker_thread` spawns: a failed `recv` panics, and ends it.
pub data Worker : Type 0 where
  receiving stopped : Worker

-- An unbounded channel of `()`: only the number of messages counts.
pub record Channel : Type 0 where
  pub queued : ℕ
  pub received : ℕ
  pub worker : Worker

-- `EVENT_FORWARDING_CHANNEL`, a mutex over an optional sender, and all channels made so far. The
-- sender is the index of its channel.
pub record Recorder : Type 0 where
  pub sender : Option ℕ
  pub poisoned : Bool
  pub channels : List Channel

abbrev pub initial : Recorder
initial = record { sender = none; poisoned = false; channels = [] }

abbrev pub fresh_channel : Channel
fresh_channel = record { queued = 0; received = 0; worker = receiving }

abbrev pub get_channel : List Channel → ℕ → Option Channel
get_channel [] i = none
get_channel (c ∷ cs) zero = some c
get_channel (c ∷ cs) (suc i) = get_channel cs i

abbrev pub set_channel : List Channel → ℕ → Channel → List Channel
set_channel [] i d = []
set_channel (c ∷ cs) zero d = d ∷ cs
set_channel (c ∷ cs) (suc i) d = c ∷ set_channel cs i d

-- `start_forwarding_worker_thread`; `thread::spawn` panics if the operating system makes no thread,
-- and then the receiver is dropped.
unfoldable pub start_forwarding_worker_thread : Bool → Recorder → Run Recorder (Unit {0})
start_forwarding_worker_thread can_spawn r =
    let r' = record r {
      sender = some (length r.channels);
      channels =
          r.channels
          ++ (if can_spawn then fresh_channel else record fresh_channel { worker = stopped }) ∷ [];
    } in
    if r.poisoned
    then panicked poisoned_lock r
    else if can_spawn
    then done tt r'
    else panicked io_error r'

-- A panic with the guard of the mutex alive.
abbrev poison : Recorder → Recorder
poison r = record r { poisoned = true }

-- `send(()).unwrap()`, under the lock: it fails if the receiver is gone.
unfoldable pub send : Recorder → ℕ → Option Channel → Run Recorder (Unit {0})
send r i none = panicked disconnected (poison r)
send r i (some c) = elim c.worker [
  | receiving ↦
      done tt
        (record r { channels = set_channel r.channels i (record c { queued = c.queued + 1 }) })
  | stopped ↦ panicked disconnected (poison r)
]

-- `as_ref().unwrap()`, under the lock.
unfoldable pub send_to : Recorder → Option ℕ → Run Recorder (Unit {0})
send_to r none = panicked no_sender (poison r)
send_to r (some i) = send r i (get_channel r.channels i)

-- `Java_phasicj_agent_rt_ApplicationEvents_monitorEnter`. A panic would leave an `extern fn`, which
-- can end the process: see Step in Recorder/Steps.
unfoldable pub monitor_enter : Recorder → Run Recorder (Unit {0})
monitor_enter r = if r.poisoned then panicked poisoned_lock r else send_to r r.sender

-- `Java_phasicj_agent_rt_ApplicationEvents_monitorExit`
unfoldable pub monitor_exit : Recorder → Run Recorder (Unit {0})
monitor_exit r = done tt r
