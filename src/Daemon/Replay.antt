-- ===== src/Daemon/Replay.antt =====
-- What a replay leaves in the daemon's table.
use phasic_j.Base.{
  ℕ, suc, ◌⊎◌, ◌≡◌, ◌≢◌, refl, ◌∙◌, ap, true, false, Text, Option, none, some, List, [], ◌∷◌, ◌++◌,
  arith, Bool-cases, inl, inr,
}
use mathlib.Core.List.{append-nil, append_assoc}
use phasic_j.Daemon.{
  insert_into, Transport, delivered, lost, unanswered, Sqlite, SqliteRecorder, record_events,
  served, replay,
}
use phasic_j.Daemon.Record.{IsSqlite, rows_of, record_events-rows}

-- The rows of a query that can all be read.
abbrev pub readable : List Text → List (Option Text)
readable [] = []
readable (d ∷ ds) = some d ∷ readable ds

Transport-cases : (x : Transport) → (x ≡ delivered) ⊎ ((x ≡ lost) ⊎ (x ≡ unanswered))
Transport-cases delivered = inl refl
Transport-cases lost = inr (inl refl)
Transport-cases unanswered = inr (inr refl)

module _ {D : Type 0} {db : Sqlite D} (Q : IsSqlite db) where
  -- What a replay leaves: the rows that have got to the table are a prefix, and all of them if it
  -- ends without an error.
  pub record Replayed (transport : ℕ → Transport) (n : ℕ) (r : SqliteRecorder D) (rs ds : List Text)
      : Type 0 where
    pub sent : List Text
    pub unsent : List Text
    pub prefix : sent ++ unsent ≡ ds
    pub rows : rows_of Q (replay db transport n r (readable ds)).1 ≡ some (rs ++ sent)
    pub complete : ((replay db transport n r (readable ds)).0 ≡ false) ⊎ (unsent ≡ [])

  pub replay-rows :
      (transport : ℕ → Transport) (n : ℕ) (r : SqliteRecorder D) (ds : List Text) (rs : List Text)
      → rows_of Q r ≡ some rs
      → Replayed transport n r rs ds
  unfolding replay
  replay-rows transport n r [] rs e = record {
    sent = [];
    unsent = [];
    prefix = refl;
    rows = rw append-nil e;
    complete = inr refl;
  }
  replay-rows transport n r (d ∷ ds) rs e =
      let s = served db (record_events db r d) r in
      elim (Transport-cases (transport n)) [
        | inr (inl t) ↦ record {
          sent = [];
          unsent = d ∷ ds;
          prefix = refl;
          rows = rw (t, append-nil) e;
          complete = inl (rw t refl);
        }
        | inr (inr t) ↦ elim (Bool-cases s.0) [
          | inl a ↦ record {
            sent = d ∷ [];
            unsent = ds;
            prefix = refl;
            rows = rw t (rw a at (record_events-rows Q r d rs e));
            complete = inl (rw t refl);
          }
          | inr a ↦ record {
            sent = [];
            unsent = d ∷ ds;
            prefix = refl;
            rows = rw (t, append-nil) (rw (a, append-nil) at (record_events-rows Q r d rs e));
            complete = inl (rw t refl);
          }
        ]
        | inl t ↦ elim (Bool-cases s.0) [
          | inl a ↦
              let more =
                replay-rows transport (suc n) s.1 ds (rs ++ d ∷ [])
                  (rw a at (record_events-rows Q r d rs e)) in
              record {
                sent = d ∷ more.sent;
                unsent = more.unsent;
                prefix = ap (λ xs. d ∷ xs) more.prefix;
                rows = rw (t, a) (more.rows ∙ ap some (append_assoc rs (d ∷ []) more.sent));
                complete = rw (t, a) more.complete;
              }
          | inr a ↦ record {
            sent = [];
            unsent = d ∷ ds;
            prefix = refl;
            rows = rw (t, a, append-nil) (rw (a, append-nil) at (record_events-rows Q r d rs e));
            complete = inl (rw (t, a) refl);
          }
        ]
      ]

  -- No insertion into an existing table fails.
  abbrev pub HasRoom : Type 0
  HasRoom = (s : Text) (d : D) (rs : List Text) → Q.rows d ≡ some rs → insert_into db s d ≢ none

  -- Where no insertion fails, every request is acknowledged.
  record_events-acked :
      (r : SqliteRecorder D) (d : Text) (rs : List Text)
      → r.poisoned ≡ false
      → rows_of Q r ≡ some rs
      → HasRoom
      → let s = served db (record_events db r d) r in (s.0 ≡ true) × (s.1.poisoned ≡ false)
  unfolding record_events
  record_events-acked r d rs p e works = ground (arith, works d r.database_connection rs e)

  pub replay-succeeds :
      (transport : ℕ → Transport) (n : ℕ) (r : SqliteRecorder D) (ds rs : List Text)
      → ((k : ℕ) → transport k ≡ delivered)
      → r.poisoned ≡ false
      → rows_of Q r ≡ some rs
      → HasRoom
      → (replay db transport n r (readable ds)).0 ≡ true
  unfolding replay
  replay-succeeds transport n r [] rs all p e works = refl
  replay-succeeds transport n r (d ∷ ds) rs all p e works =
      let (a, q) = record_events-acked r d rs p e works in
      rw (all n, a)
        (replay-succeeds transport (suc n) (served db (record_events db r d) r).1 ds _ all q
          (record_events-rows Q r d rs e) works)
