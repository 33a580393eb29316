-- ===== src/Daemon/Session.antt =====
-- The daemon from its start on, with the replay client.
use phasic_j.Base.{
  ◌⊎◌, inl, inr, false, ◌++◌, ◌∙◌, sym, ap, ℕ, ◌≡◌, refl, [], true, false, Text, Option, some, List,
}
use phasic_j.Daemon.{
  Sqlite, SqliteRecorder, new, DaemonHost, record_pj_rt_events_from_uds, start_below,
}
use phasic_j.FilePath.{parent}
use phasic_j.Daemon.Record.{IsSqlite, rows_of, acknowledged, serve-rows}
use phasic_j.Uds.{incoming}
use phasic_j.Daemon.{begin, main, serve, ended, Tonic, client_main, Opts, ClientHost, serving}
use mathlib.Core.List.{append-nil}
use phasic_j.Java.Instrument.Trace.{text_eq_self}
use phasic_j.Daemon.{create_table, Daemons, replay, delivered}
use phasic_j.Daemon.Replay.{readable, replay-rows, replay-succeeds, HasRoom}

module _ {D : Type 0} {db : Sqlite D} (Q : IsSqlite db) where
  -- A start on a new database: the runtime, the socket and its directory can be made, the options
  -- are parsed, and the table is created.
  module _ (parse : List Text → Option Opts) (os : DaemonHost) (args : List Text) (opts : Opts)
      (dir : Text) {d d' : D} (runtime : os.new_runtime ≡ true) (parsed : parse args ≡ some opts)
      (has_parent : parent opts.socket ≡ some dir) (made : os.create_dir_all dir ≡ true)
      (bound : os.bind opts.socket ≡ true) (opened : db.open_connection opts.database ≡ some d)
      (created : create_table db d ≡ some d') where
    -- The recorder that it begins with.
    abbrev pub fresh : SqliteRecorder D
    fresh = record { database_connection = d'; poisoned = false }

    begin-fresh : begin db parse os args ≡ serving fresh
    unfolding begin record_pj_rt_events_from_uds start_below new
    begin-fresh = rw (runtime, parsed, has_parent, made, bound, opened, created)

    -- If the runtime, the socket and its directory can be made, the daemon's options are parsed,
    -- its database can be opened and its table created, the daemon begins to serve. If it is the
    -- daemon behind its socket, and a replay client connects to that socket and reads all rows of
    -- its own query: whatever becomes of each request on the way, and of each insertion, the
    -- daemon's table then holds the first of these rows, in their order and each once, and all of
    -- them if the client returns Ok.
    pub begin-client_main :
        (client : ClientHost) (database : Text) (daemons : Daemons D) (ds : List Text)
        → daemons opts.socket ≡ some fresh
        → client.connect opts.socket ≡ true
        → client.query database ≡ some (readable ds)
        → let end =
            client_main db client (record { database = database; socket = opts.socket }) daemons in
          (begin db parse os args ≡ serving fresh)
          × (r : SqliteRecorder D) × (end.1 opts.socket ≡ some r)
          × (sent : List Text) × (unsent : List Text) × (rows_of Q r ≡ some sent)
          × (sent ++ unsent ≡ ds)
          × ((end.0 ≡ false) ⊎ (unsent ≡ []))
    unfolding client_main
    begin-client_main client database daemons ds there k q =
        let p = replay-rows Q client.transport 0 fresh ds [] (Q.create_empty d d' created) in
        (
          begin-fresh,
          (replay db client.transport 0 fresh (readable ds)).1,
          rw (there, k, q, text_eq_self opts.socket) refl,
          p.sent,
          p.unsent,
          p.rows,
          p.prefix,
          rw (there, k, q) p.complete,
        )

    -- If the runtime, the socket and its directory can be made, the daemon's options are parsed,
    -- its database can be opened and its table created, the daemon that begins so is the one behind
    -- its socket, a replay client connects to that socket and reads all rows of its own query,
    -- every request is delivered, and the database has room for every insertion: the client returns
    -- Ok, and the daemon's table holds exactly these rows, in their order.
    pub client_main-succeeds :
        (client : ClientHost) (database : Text) (daemons : Daemons D) (ds : List Text)
        → daemons opts.socket ≡ some fresh
        → client.connect opts.socket ≡ true
        → client.query database ≡ some (readable ds)
        → ((k : ℕ) → client.transport k ≡ delivered)
        → HasRoom Q
        → let end =
            client_main db client (record { database = database; socket = opts.socket }) daemons in
          (end.0 ≡ true)
          × (r : SqliteRecorder D) × (end.1 opts.socket ≡ some r)
          × (rows_of Q r ≡ some ds)
    unfolding client_main
    client_main-succeeds client database daemons ds there k q all room =
        let empty = Q.create_empty d d' created in
        let ok = replay-succeeds Q client.transport 0 fresh ds [] all refl empty room in
        let p = replay-rows Q client.transport 0 fresh ds [] empty in
        (
          rw (there, k, q) ok,
          (replay db client.transport 0 fresh (readable ds)).1,
          rw (there, k, q, text_eq_self opts.socket) refl,
          elim p.complete [
            | inl broken ↦ cc
            | inr none_left ↦ p.rows ∙ ap some (sym (append-nil p.sent) ∙ rw none_left at p.prefix)
          ],
        )

    -- If the runtime, the socket and its directory can be made, the options are parsed, the
    -- database can be opened and its table created: at every moment of the server's life, and
    -- behind its end, the table holds the descriptions of exactly the acknowledged requests, each
    -- once and in the order in which they got the lock; main serves, returns or panics as the
    -- server has not ended, ended, or ended with an error.
    pub main-acknowledged :
        {S Addr : Type 0} (tonic : Tonic S) (accept : ℕ → Option (S × Addr))
        → let ds = tonic.requests (incoming accept) in
          let s = serve db fresh ds in
          (main db tonic accept parse os args ≡ ended db (tonic.has_ended (incoming accept)) s.1)
          × (rows_of Q s.1 ≡ some (acknowledged s.0 ds))
    unfolding main
    main-acknowledged tonic accept = (
      rw begin-fresh refl,
      serve-rows Q fresh (tonic.requests (incoming accept)) [] (Q.create_empty d d' created),
    )
