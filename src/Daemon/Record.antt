-- ===== src/Daemon/Record.antt =====
-- What the daemon's table holds after any requests.
use phasic_j.Base.{
  ℕ, suc, ◌≡◌, refl, ◌∙◌, ap, Bool, true, false, Text, Option, some, List, [], ◌∷◌, ◌++◌, arith,
  Bool-cases, inl, inr, Option-cases, if◌then◌else◌,
}
use mathlib.Core.List.{append-nil, append_assoc}
use phasic_j.Daemon.{
  create_table, insert_into, Sqlite, SqliteRecorder, record_events, served, serve,
}

-- What is relied on of SQLite: `rows` are the descriptions in the table, in the order of their
-- ids, if there is a table. An insertion may fail for want of space, say.
pub record IsSqlite {D : Type 0} (db : Sqlite D) : Type 0 where
  pub rows : D → Option (List Text)
  pub create_empty : (d d' : D) → create_table db d ≡ some d' → rows d' ≡ some []
  pub insert_row :
      (s : Text) (d d' : D) (rs : List Text)
      → rows d ≡ some rs
      → insert_into db s d ≡ some d'
      → rows d' ≡ some (rs ++ s ∷ [])

-- The requests that were acknowledged.
abbrev pub acknowledged : List Bool → List Text → List Text
acknowledged [] ds = []
acknowledged (b ∷ bs) [] = []
acknowledged (b ∷ bs) (d ∷ ds) = if b then d ∷ acknowledged bs ds else acknowledged bs ds

abbrev pub count_true : List Bool → ℕ
count_true [] = 0
count_true (b ∷ bs) = if b then suc (count_true bs) else count_true bs

if-append :
    (b : Bool) (d : Text) (xs : List Text)
    → (if b then d ∷ [] else []) ++ xs ≡ (if b then d ∷ xs else xs)
if-append true d xs = refl
if-append false d xs = refl

module _ {D : Type 0} {db : Sqlite D} (Q : IsSqlite db) where
  abbrev pub rows_of : SqliteRecorder D → Option (List Text)
  rows_of r = Q.rows r.database_connection

  -- One request: the row of an acknowledged one is added, and a request that is not acknowledged
  -- leaves the table alone.
  pub record_events-rows :
      (r : SqliteRecorder D) (d : Text) (rs : List Text)
      → rows_of r ≡ some rs
      → let s = served db (record_events db r d) r in
        rows_of s.1 ≡ some (rs ++ (if s.0 then d ∷ [] else []))
  unfolding record_events
  record_events-rows r d rs e = elim (Bool-cases r.poisoned) [
    | inl p ↦ simp (p, e, append-nil)
    | inr p ↦ elim (Option-cases (insert_into db d r.database_connection)) [
      | inl q ↦ simp (p, q, e, append-nil)
      | inr (d', q) ↦ simp (p, q) (Q.insert_row d r.database_connection d' rs e q)
    ]
  ]

  -- For any requests, in the order in which they get the lock, the daemon's table holds its old
  -- rows and then the descriptions of the acknowledged requests, each once and in order.
  pub serve-rows :
      (r : SqliteRecorder D) (ds : List Text) (rs : List Text)
      → rows_of r ≡ some rs
      → rows_of (serve db r ds).1 ≡ some (rs ++ acknowledged (serve db r ds).0 ds)
  unfolding serve
  serve-rows r [] rs e = rw append-nil e
  serve-rows r (d ∷ ds) rs e =
      let s = served db (record_events db r d) r in
      let more =
        serve-rows s.1 ds (rs ++ (if s.0 then d ∷ [] else [])) (record_events-rows r d rs e) in
      more
      ∙ ap some (
          append_assoc rs _ _
          ∙ ap (λ xs. rs ++ xs) (if-append s.0 d (acknowledged (serve db s.1 ds).0 ds)))

  -- After a failed insertion no request is acknowledged any more.
  serve-poisoned :
      (r : SqliteRecorder D) (ds : List Text)
      → r.poisoned ≡ true
      → acknowledged (serve db r ds).0 ds ≡ []
  unfolding serve record_events
  serve-poisoned r [] p = refl
  serve-poisoned r (d ∷ ds) p = simp p (serve-poisoned r ds p)

  -- A request that is not acknowledged leaves the mutex poisoned.
  record_events-poisons :
      (r : SqliteRecorder D) (d : Text)
      → let s = served db (record_events db r d) r in s.0 ≡ false → s.1.poisoned ≡ true
  unfolding record_events
  record_events-poisons r d h = ground arith

  -- The acknowledged requests are a prefix of the requests: when one is not acknowledged, none
  -- after it is.
  serve-prefix :
      (r : SqliteRecorder D) (ds : List Text)
      → (dropped : List Text) × (acknowledged (serve db r ds).0 ds ++ dropped ≡ ds)
  unfolding serve
  serve-prefix r [] = ([], refl)
  serve-prefix r (d ∷ ds) =
      let s = served db (record_events db r d) r in
      elim (Bool-cases s.0) [
        | inl a ↦ let (dropped, e) = serve-prefix s.1 ds in (dropped, rw a (ap (λ xs. d ∷ xs) e))
        | inr a ↦ (d ∷ ds, rw (a, serve-poisoned s.1 ds (record_events-poisons r d a)))
      ]
