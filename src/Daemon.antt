-- ===== src/Daemon.antt =====
-- daemon/rtevents.rs and daemon/main.rs: the daemon that records events in an SQLite database, and
-- the replay client of daemon/tests/sqlite_replay_client/main.rs.
pub mod Record
pub mod Replay
pub mod Session
pub mod Tasks
use phasic_j.Base.{
  ℕ, suc, text_eq, Bool, true, false, Text, codes, Option, none, some, List, [], ◌∷◌, if◌then◌else◌,
}
use phasic_j.FilePath.{parent}
use phasic_j.Uds.{UnixStream, incoming}
use phasic_j.Panic.{
  Panic, Run, done, panicked, undefined, null_result, io_error, poisoned_lock, database_error,
}

-- SQLite, as the daemon uses it: a database of an unknown type, and the execution of a statement
-- with its parameters. `none` is an error, which leaves the database as it was.
pub record Sqlite (D : Type 0) : Type 0 where
  pub open_connection : Text → Option D
  pub execute : Text → List Text → D → Option D

-- The statements, with one space for each run of white space in the source.
abbrev pub create_statement : Text
create_statement = codes "CREATE TABLE rtevents ( id INTEGER PRIMARY KEY, description TEXT )"

abbrev pub insert_statement : Text
insert_statement = codes "INSERT INTO rtevents (description) VALUES (?1)"

abbrev pub create_table : {D : Type 0} → Sqlite D → D → Option D
create_table db d = db.execute create_statement [] d

abbrev pub insert_into : {D : Type 0} → Sqlite D → Text → D → Option D
insert_into db description d = db.execute insert_statement (description ∷ []) d

-- A mutex over the connection.
pub record SqliteRecorder (D : Type 0) : Type 0 where
  pub database_connection : D
  pub poisoned : Bool

-- `RecordEventsAck`
abbrev pub ack : Text
ack = codes "ack"

module _ {D : Type 0} (db : Sqlite D) where
  abbrev pub unlocked : Option D → Option (SqliteRecorder D)
  unlocked none = none
  unlocked (some d) = some (record { database_connection = d; poisoned = false })

  abbrev pub created : Option D → Option (SqliteRecorder D)
  created none = none
  created (some d) = unlocked (create_table db d)

  -- `SqliteRecorder::new`
  unfoldable pub new : Text → Option (SqliteRecorder D)
  new database = created (db.open_connection database)

  -- `execute(…).unwrap()`, under the lock.
  abbrev pub executed : SqliteRecorder D → Option D → Run (SqliteRecorder D) Text
  executed self none = panicked database_error (record self { poisoned = true })
  executed self (some d) = done ack (record self { database_connection = d })

  -- `record_events`
  unfoldable pub record_events : SqliteRecorder D → Text → Run (SqliteRecorder D) Text
  record_events self description =
      if self.poisoned
      then panicked poisoned_lock self
      else executed self (insert_into db description self.database_connection)

  -- The requests in the order in which they get the lock, each with what its caller is sent: an
  -- acknowledgement, or none where the handler has panicked.
  abbrev pub served : Run (SqliteRecorder D) Text → SqliteRecorder D → Bool × SqliteRecorder D
  served (done a r) r₀ = (true, r)
  served (panicked p r) r₀ = (false, r)
  served undefined r₀ = (false, r₀)

  unfoldable pub serve : SqliteRecorder D → List Text → List Bool × SqliteRecorder D
  serve r [] = ([], r)
  serve r (d ∷ ds) =
      let (acked, r') = served (record_events r d) r in
      let (more, r'') = serve r' ds in (acked ∷ more, r'')

-- What becomes of a request: it gets to the handler, whose answer comes back; it is lost before; or
-- the handler runs, but an error comes back.
pub data Transport : Type 0 where
  delivered lost unanswered : Transport

module _ {D : Type 0} (db : Sqlite D) (transport : ℕ → Transport) where
  -- The loop of the replay client over the rows of its query, each a description or an error, from
  -- the request of a number on: the first row that cannot be read, or request that is not
  -- acknowledged, ends it with an error.
  unfoldable pub replay : ℕ → SqliteRecorder D → List (Option Text) → Bool × SqliteRecorder D
  replay n r [] = (true, r)
  replay n r (none ∷ ds) = (false, r)
  replay n r (some d ∷ ds) =
      let (acked, r') = served db (record_events db r d) r in
      let rest = replay (suc n) r' ds in
      elim (transport n) [
        | delivered ↦ if acked then rest else (false, r')
        | lost ↦ (false, r)
        | unanswered ↦ (false, r')
      ]

-- What the daemon is given by the operating system: calls that succeed or fail.
pub record DaemonHost : Type 0 where
  pub new_runtime : Bool
  pub create_dir_all : Text → Bool
  pub bind : Text → Bool

-- `Opts` of the daemon, and `Opts` of the replay client.
pub record Opts : Type 0 where
  pub database : Text
  pub socket : Text

-- How far the daemon gets: it exits with a message on its usage, panics, serves with a recorder, or
-- returns or panics behind the end of its server.
pub data Started (D : Type 0) : Type 0 where
  usage : Started D
  failed : Panic → Started D
  serving returned broken : SqliteRecorder D → Started D

-- tonic's server on a stream of connections, at some moment of its life: the requests that it has
-- handed to the recorder, in the order in which they get the lock, and whether it has ended, without
-- or with an error.
pub record Tonic (S : Type 0) : Type 0 where
  pub requests : (ℕ → Option (UnixStream S)) → List Text
  pub has_ended : (ℕ → Option (UnixStream S)) → Option Bool

module _ {D : Type 0} (db : Sqlite D) where
  abbrev pub recording : Option (SqliteRecorder D) → Started D
  recording none = failed database_error
  recording (some r) = serving r

  unfoldable pub start_below : DaemonHost → Text → Text → Option Text → Started D
  start_below os socket database none = failed null_result
  start_below os socket database (some dir) =
      if os.create_dir_all dir
      then (if os.bind socket then recording (new db database) else failed io_error)
      else failed io_error

  -- `record_pj_rt_events_from_uds`, up to the serving of connections.
  unfoldable pub record_pj_rt_events_from_uds : DaemonHost → Text → Text → Started D
  record_pj_rt_events_from_uds os socket database = start_below os socket database (parent socket)

  abbrev pub run_with : DaemonHost → Option Opts → Started D
  run_with os none = usage
  run_with os (some opts) = record_pj_rt_events_from_uds os opts.socket opts.database

  -- `main` of the daemon, up to the serving; `parse` is clap's parser of the two options.
  unfoldable pub begin : (List Text → Option Opts) → DaemonHost → List Text → Started D
  begin parse os args = if os.new_runtime then run_with os (parse args) else failed io_error

  -- `serve_with_incoming(…).await.unwrap()`
  abbrev pub ended : Option Bool → SqliteRecorder D → Started D
  ended none r = serving r
  ended (some true) r = returned r
  ended (some false) r = broken r

  module _ {S Addr : Type 0} (tonic : Tonic S) (accept : ℕ → Option (S × Addr)) where
    abbrev pub serve_with_incoming : Started D → Started D
    serve_with_incoming (serving r) =
        ended (tonic.has_ended (incoming accept)) (serve db r (tonic.requests (incoming accept))).1
    serve_with_incoming other = other

    -- `main` of the daemon, at that moment.
    unfoldable pub main : (List Text → Option Opts) → DaemonHost → List Text → Started D
    main parse os args = serve_with_incoming (begin parse os args)

-- What the replay client is given: the rows of the query over its own database, if that can be
-- opened and read, whether a socket can be reached, and what becomes of its requests.
pub record ClientHost : Type 0 where
  pub query : Text → Option (List (Option Text))
  pub connect : Text → Bool
  pub transport : ℕ → Transport

-- The recorders of the daemons that are serving, by their sockets.
abbrev pub Daemons : Type 0 → Type 0
Daemons D = Text → Option (SqliteRecorder D)

abbrev pub with_daemon : {D : Type 0} → Text → SqliteRecorder D → Daemons D → Daemons D
with_daemon socket r daemons path = if text_eq path socket then some r else daemons path

module _ {D : Type 0} (db : Sqlite D) where
  abbrev pub replay_query :
      ClientHost → SqliteRecorder D → Option (List (Option Text)) → Bool × SqliteRecorder D
  replay_query os r none = (false, r)
  replay_query os r (some rows) = replay db os.transport 0 r rows

  -- The connection to a socket, and the replay over it.
  abbrev pub replay_over :
      ClientHost → Opts → Daemons D → Option (SqliteRecorder D) → Bool × Daemons D
  replay_over os opts daemons none = (false, daemons)
  replay_over os opts daemons (some r) =
      let (ok, r') = replay_query os r (os.query opts.database) in
      if os.connect opts.socket then (ok, with_daemon opts.socket r' daemons) else (false, daemons)

  -- `main` of the replay client: whether it returns `Ok`, and the daemons that it leaves.
  unfoldable pub client_main : ClientHost → Opts → Daemons D → Bool × Daemons D
  client_main os opts daemons = replay_over os opts daemons (daemons opts.socket)
