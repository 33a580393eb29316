-- ===== src/Daemon/Tasks/Progress.antt =====
-- No request waits for ever.
use mathlib.Core.Path.{subst}
use phasic_j.Base.{
  ℕ, ◌≡◌, refl, sym, ap, ◌∙◌, arith, Bool, true, false, Text, Option-cases, ◌==◌, Bool-cases, inl,
  inr,
}
use phasic_j.Daemon.{insert_into, Sqlite, SqliteRecorder}
use phasic_j.Daemon.Tasks.{
  Shared, Place, idle, waiting, holding, inserted, replied, died, Move, acquire, refuse, insert,
  fail, release, update, System, pick, start, Reach, here, later, with_database,
}
use phasic_j.Daemon.Tasks.Exclusion.{Inv, Inv-start, Reach-Inv, critical, is_owner, is_held}

abbrev pub is_active : Place → Bool
is_active (waiting d) = true
is_active (holding d) = true
is_active (inserted d) = true
is_active _ = false

abbrev pub is_finished : Place → Bool
is_finished (replied d) = true
is_finished (died d) = true
is_finished _ = false

module _ {D : Type 0} (db : Sqlite D) where
  chained : {s t u : System D} → Reach db s t → Reach db t u → Reach db s u
  chained before here = before
  chained before (later more step) = later (chained before more) step

  -- A step of a task at a place.
  stepped :
      (s : System D) (k : ℕ) {q p : Place} {m : Shared D}
      → s.places k ≡ q
      → Move db s.shared q m p
      → Reach db s (record { shared = m; places = update s.places k p })
  stepped s k {p} {m} e move =
      later here (pick k (subst (λ q. Move db s.shared q m p) (sym e) move))

  -- A run at whose end a task has finished and no task has the guard; the others stay where they
  -- are.
  record Finishes (s : System D) (k : ℕ) : Type 0 where
    target : System D
    run : Reach db s target
    free : target.shared.held ≡ false
    finished : is_finished (target.places k) ≡ true
    others : (j : ℕ) → (j == k) ≡ false → target.places j ≡ s.places j

  update_self : (places : ℕ → Place) (k : ℕ) (p : Place) → update places k p k ≡ p
  update_self places k p = let same : (k == k) ≡ true = ground arith in rw same refl

  -- One step that drops the guard and finishes the task.
  finished_by :
      (s : System D) (k : ℕ) (q p : Place) (r : SqliteRecorder D)
      → s.places k ≡ q
      → Move db s.shared q (record { recorder = r; held = false }) p
      → is_finished p ≡ true
      → Finishes s k
  finished_by s k q p r e move f = record {
    target = record {
      shared = record { recorder = r; held = false };
      places = update s.places k p;
    };
    run = stepped s k e move;
    free = refl;
    finished = ap is_finished (update_self s.places k p) ∙ f;
    others = λ j apart. rw apart refl;
  }

  behind :
      {s t : System D} (k : ℕ)
      → Reach db s t
      → ((j : ℕ) → (j == k) ≡ false → t.places j ≡ s.places j)
      → Finishes t k
      → Finishes s k
  behind k before kept f = record {
    target = f.target;
    run = chained before f.run;
    free = f.free;
    finished = f.finished;
    others = λ j apart. f.others j apart ∙ kept j apart;
  }

  from_holding : (s : System D) (k : ℕ) (d : Text) → s.places k ≡ holding d → Finishes s k
  from_holding s k d e =
      elim (Option-cases (insert_into db d s.shared.recorder.database_connection)) [
        | inl failure ↦ finished_by s k (holding d) (died d) _ e (fail failure) refl
        | inr (after, success) ↦
            let t : System D = record {
              shared = with_database s.shared after;
              places = update s.places k (inserted d);
            } in
            behind k (stepped s k e (insert after success)) (λ j apart. rw apart refl)
              (finished_by t k (inserted d) (replied d) _ (update_self s.places k (inserted d))
                release refl)
      ]

  from_critical :
      (s : System D) (k : ℕ) (q : Place) → s.places k ≡ q → critical q ≡ true → Finishes s k
  from_critical s k idle e c = cc
  from_critical s k (waiting d) e c = cc
  from_critical s k (holding d) e c = from_holding s k d e
  from_critical s k (inserted d) e c = finished_by s k (inserted d) (replied d) _ e release refl
  from_critical s k (replied d) e c = cc
  from_critical s k (died d) e c = cc

  from_free :
      (s : System D) (i : ℕ) (d : Text)
      → s.shared.held ≡ false
      → s.places i ≡ waiting d
      → Finishes s i
  from_free s i d free e = elim (Bool-cases s.shared.recorder.poisoned) [
    | inl p ↦ record {
      target = record { shared = s.shared; places = update s.places i (died d) };
      run = stepped s i e (refuse free p);
      free = free;
      finished = ap is_finished (update_self s.places i (died d));
      others = λ j apart. rw apart refl;
    }
    | inr p ↦
        let t : System D = record {
          shared = record s.shared { held = true };
          places = update s.places i (holding d);
        } in
        behind i (stepped s i e (acquire free p)) (λ j apart. rw apart refl)
          (from_holding t i d (update_self s.places i (holding d)))
  ]

  from_waiting :
      (s : System D) (i : ℕ) (d : Text)
      → Inv s.shared s.places
      → s.places i ≡ waiting d
      → (t : System D) × Reach db s t × (is_finished (t.places i) ≡ true)
  from_waiting s i d inv e = elim (Option-cases inv.owner) [
    | inl none_owns ↦
        let f = from_free s i d (inv.held ∙ ap is_held none_owns) e in (f.target, f.run, f.finished)
    | inr (k, owns) ↦
        let same : (k == k) ≡ true = ground arith in
        let has_guard : critical (s.places k) ≡ true =
          inv.owned k ∙ ap (λ o. is_owner o k) owns ∙ same in
        let apart : (i == k) ≡ false =
          sym (inv.owned i ∙ ap (λ o. is_owner o i) owns) ∙ ap critical e in
        let f = from_critical s k (s.places k) refl has_guard in
        let g = from_free f.target i d f.free (f.others i apart ∙ e) in
        (g.target, chained f.run g.run, g.finished)
  ]

  from_active :
      (s : System D) (i : ℕ) (q : Place)
      → Inv s.shared s.places
      → s.places i ≡ q
      → is_active q ≡ true
      → (t : System D) × Reach db s t × (is_finished (t.places i) ≡ true)
  from_active s i idle inv e a = cc
  from_active s i (waiting d) inv e a = from_waiting s i d inv e
  from_active s i (holding d) inv e a =
      let f = from_holding s i d e in (f.target, f.run, f.finished)
  from_active s i (inserted d) inv e a =
      let f = from_critical s i (inserted d) e refl in (f.target, f.run, f.finished)
  from_active s i (replied d) inv e a = cc
  from_active s i (died d) inv e a = cc

  -- The calls of record_events never block one another for good: at every moment of any
  -- interleaving of the tasks, each task that has a request can get to its end, a reply or a panic,
  -- by further steps of the tasks, whatever the database answers.
  pub Reach-finishes :
      {r : SqliteRecorder D} {s : System D}
      → Reach db (start r) s
      → (i : ℕ) → is_active (s.places i) ≡ true
      → (t : System D) × Reach db s t × (is_finished (t.places i) ≡ true)
  Reach-finishes {r} {s} run i a = from_active s i (s.places i) (Reach-Inv run (Inv-start r)) refl a
