-- ===== src/Daemon/Tasks.antt =====
-- The calls of `record_events` of daemon/rtevents.rs as tasks that run at the same time: each step is
-- one access to the mutex or to the database.
pub mod Exclusion
pub mod Linear
pub mod Progress
use phasic_j.Base.{ℕ, ◌≡◌, Bool, true, false, Text, Option, none, some, ◌==◌, if◌then◌else◌}
use phasic_j.Daemon.{insert_into, Sqlite, SqliteRecorder}

-- `SqliteRecorder`, with the word of its mutex.
pub record Shared (D : Type 0) : Type 0 where
  pub recorder : SqliteRecorder D
  pub held : Bool

-- Where a task stands; the description is the local `ev_descr`.
pub data Place : Type 0 where
  idle : Place  -- there is no request yet
  waiting : Text → Place  -- before `lock()`
  holding : Text → Place  -- before `execute`, with the guard
  inserted : Text → Place  -- at the end of the block, with the guard
  replied : Text → Place  -- the acknowledgement has been returned
  died : Text → Place  -- a panic has ended the task

abbrev pub with_database : {D : Type 0} → Shared D → D → Shared D
with_database m d = record m { recorder = record m.recorder { database_connection = d } }

-- A guard that is dropped in a panic poisons the mutex.
abbrev pub poisoned_by : {D : Type 0} → Shared D → Shared D
poisoned_by m = record { recorder = record m.recorder { poisoned = true }; held = false }

-- One step of one task. `lock()` on a poisoned mutex gives an error, which `unwrap` turns into a
-- panic.
pub data Move {D : Type 0} (db : Sqlite D) (m : Shared D) : Place → Shared D → Place → Type 0 where
  arrive : (d : Text) → Move db m idle m (waiting d)
  acquire :
      {d : Text}
      → m.held ≡ false
      → m.recorder.poisoned ≡ false
      → Move db m (waiting d) (record m { held = true }) (holding d)
  refuse :
      {d : Text} → m.held ≡ false → m.recorder.poisoned ≡ true → Move db m (waiting d) m (died d)
  insert :
      {d : Text} (after : D)
      → insert_into db d m.recorder.database_connection ≡ some after
      → Move db m (holding d) (with_database m after) (inserted d)
  fail :
      {d : Text}
      → insert_into db d m.recorder.database_connection ≡ none
      → Move db m (holding d) (poisoned_by m) (died d)
  release : {d : Text} → Move db m (inserted d) (record m { held = false }) (replied d)

abbrev pub update : (ℕ → Place) → ℕ → Place → ℕ → Place
update places i p j = if j == i then p else places j

-- The daemon with any number of tasks.
pub record System (D : Type 0) : Type 0 where
  pub shared : Shared D
  pub places : ℕ → Place

pub data Step {D : Type 0} (db : Sqlite D) (s : System D) : System D → Type 0 where
  pick :
      (i : ℕ) {m : Shared D} {p : Place}
      → Move db s.shared (s.places i) m p
      → Step db s (record { shared = m; places = update s.places i p })

abbrev pub start : {D : Type 0} → SqliteRecorder D → System D
start r = record { shared = record { recorder = r; held = false }; places = λ i. idle }

pub data Reach {D : Type 0} (db : Sqlite D) (s : System D) : System D → Type 0 where
  here : Reach db s s
  later : {t u : System D} → Reach db s t → Step db t u → Reach db s u
