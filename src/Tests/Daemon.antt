-- ===== src/Tests/Daemon.antt =====
-- The theorems on the daemon with a small database.
use phasic_j.Base.{
  ℕ, zero, suc, ◌≡◌, refl, Bool, true, false, ◌&&◌, Text, codes, Option, none, some, List, [], ◌∷◌,
  ◌++◌, length, leb, if◌then◌else◌, arith,
}
use phasic_j.Base.{◌⊎◌, text_eq}
use phasic_j.Daemon.{
  Daemons, with_daemon, delivered, unanswered, Sqlite, SqliteRecorder, DaemonHost, ClientHost, Opts,
  serving, serve, begin, main, broken, Tonic, client_main,
}
use phasic_j.Daemon.Record.{IsSqlite, acknowledged, rows_of}
use phasic_j.Daemon.Replay.{readable, HasRoom}
use phasic_j.Daemon.Session.{client_main-succeeds, begin-client_main, main-acknowledged}
use phasic_j.FilePath.{parent}

abbrev pub Table : Type 0
Table = Option (List Text)

abbrev create : Table → Option Table
create none = some (some [])
create (some rs) = none

-- A bounded table takes two rows.
abbrev insert : Bool → Text → Table → Option Table
insert bounded s none = none
insert bounded s (some rs) =
    if bounded && leb 2 (length rs) then none else some (some (rs ++ s ∷ []))

-- The two statements, told apart by their parameters.
abbrev run : Bool → Text → List Text → Table → Option Table
run bounded sql [] d = create d
run bounded sql (s ∷ _) d = insert bounded s d

abbrev pub sqlite : Bool → Table → Sqlite Table
sqlite bounded found = record { open_connection = λ path. some found; execute = run bounded }

create_empty : (d d' : Table) → create d ≡ some d' → d' ≡ some []
create_empty none d' e = ground arith
create_empty (some rs) d' e = cc

insert_row :
    (bounded : Bool) (s : Text) (d d' : Table) (rs : List Text)
    → d ≡ some rs
    → insert bounded s d ≡ some d'
    → d' ≡ some (rs ++ s ∷ [])
insert_row bounded s none d' rs e f = cc
insert_row bounded s (some qs) d' rs e f = ground arith

abbrev sqlite_lawful : (bounded : Bool) (found : Table) → IsSqlite (sqlite bounded found)
sqlite_lawful bounded found = record {
  rows = λ d. d;
  create_empty = create_empty;
  insert_row = insert_row bounded;
}

has_room : HasRoom (sqlite_lawful false none)
has_room s none rs e = cc
has_room s (some qs) rs e = λ f. cc

abbrev pub recorder : SqliteRecorder Table
recorder = record { database_connection = some []; poisoned = false }

abbrev events : List Text
events = codes "a" ∷ codes "b" ∷ codes "c" ∷ []

abbrev os : DaemonHost
os = record { new_runtime = true; create_dir_all = λ path. true; bind = λ path. true }

-- A parser of the options of both programs that reads any arguments as these.
abbrev opts : Opts
opts = record { database = codes "events.db"; socket = codes "/run/s" }

abbrev parse : List Text → Option Opts
parse args = some opts

-- The last request is answered with an error, behind its row.
abbrev client : ClientHost
client = record {
  query = λ database. some (readable events);
  connect = λ socket. true;
  transport = λ n. if leb 2 n then unanswered else delivered;
}

abbrev reliable : ClientHost
reliable = record client { transport = λ n. delivered }

-- One daemon serves, on its socket.
abbrev daemons : Daemons Table
daemons = with_daemon (codes "/run/s") recorder (λ path. none)

daemons_lem : daemons (codes "/run/s") ≡ some recorder
unfolding codes text_eq
daemons_lem = refl

begin-client_main_example :
    let db = sqlite true none in
    let end = client_main db client opts daemons in
    (begin db parse os [] ≡ serving recorder)
    × (r : SqliteRecorder Table) × (end.1 (codes "/run/s") ≡ some r)
    × (sent : List Text) × (unsent : List Text) × (rows_of (sqlite_lawful true none) r ≡ some sent)
    × (sent ++ unsent ≡ events)
    × ((end.0 ≡ false) ⊎ (unsent ≡ []))
unfolding codes parent
begin-client_main_example =
    begin-client_main (sqlite_lawful true none) parse os [] opts (codes "/run") refl refl refl refl
      refl refl refl client (codes "events.db") daemons events daemons_lem refl refl

client_main-succeeds_example :
    let end = client_main (sqlite false none) reliable opts daemons in
    (end.0 ≡ true)
    × (r : SqliteRecorder Table) × (end.1 (codes "/run/s") ≡ some r)
    × (rows_of (sqlite_lawful false none) r ≡ some events)
unfolding codes parent
client_main-succeeds_example =
    client_main-succeeds (sqlite_lawful false none) parse os [] opts (codes "/run") refl refl refl
      refl refl refl refl reliable (codes "events.db") daemons events daemons_lem refl refl
      (λ k. refl) has_room

-- A server that has ended with an error behind three requests. One connection was accepted.
abbrev tonic : Tonic ℕ
tonic = record { requests = λ connections. events; has_ended = λ connections. some false }

abbrev accept : ℕ → Option (ℕ × Text)
accept zero = some (5, codes "peer")
accept (suc n) = none

main-acknowledged_example :
    let db = sqlite true none in
    let s = serve db recorder events in
    (main db tonic accept parse os [] ≡ broken s.1)
    × (rows_of (sqlite_lawful true none) s.1 ≡ some (acknowledged s.0 events))
unfolding codes parent
main-acknowledged_example =
    main-acknowledged (sqlite_lawful true none) parse os [] opts (codes "/run") refl refl refl refl
      refl refl refl tonic accept
