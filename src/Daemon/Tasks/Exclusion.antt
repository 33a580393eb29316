-- ===== src/Daemon/Tasks/Exclusion.antt =====
-- One task at most has the guard of the mutex.
use phasic_j.Base.{
  Option, none, some, ℕ, ◌≡◌, refl, sym, ap, ◌∙◌, arith, Bool, true, false, ◌==◌, Bool-cases, inl,
  inr,
}
use phasic_j.Daemon.{Sqlite, SqliteRecorder}
use phasic_j.Daemon.Tasks.{
  Shared, Place, idle, waiting, holding, inserted, replied, died, Move, arrive, acquire, refuse,
  insert, fail, release, update, System, pick, start, Reach, here, later,
}

-- A task that has the guard.
abbrev pub critical : Place → Bool
critical (holding d) = true
critical (inserted d) = true
critical _ = false

abbrev pub before_insert : Place → Bool
before_insert (holding d) = true
before_insert _ = false

-- Whether a task is the one that has the guard, if any has it.
abbrev pub is_owner : Option ℕ → ℕ → Bool
is_owner none j = false
is_owner (some i) j = j == i

abbrev pub is_held : Option ℕ → Bool
is_held none = false
is_held (some i) = true

-- The mutex is held exactly while one task has the guard, and it is not poisoned before its
-- insertion.
pub record Inv {D : Type 0} (m : Shared D) (places : ℕ → Place) : Type 0 where
  pub owner : Option ℕ
  pub owned : (j : ℕ) → critical (places j) ≡ is_owner owner j
  pub held : m.held ≡ is_held owner
  pub sound : (j : ℕ) → before_insert (places j) ≡ true → m.recorder.poisoned ≡ false

pub Inv-start : {D : Type 0} (r : SqliteRecorder D) → Inv (start r).shared (start r).places
Inv-start r = record { owner = none; owned = λ j. refl; held = refl; sound = λ j h. cc }

none_of-held : (o : Option ℕ) → is_held o ≡ false → o ≡ none
none_of-held none h = refl
none_of-held (some i) h = cc

some_of-owner : (o : Option ℕ) (i : ℕ) → is_owner o i ≡ true → o ≡ some i
some_of-owner none i h = cc
some_of-owner (some k) i h = ap some (ground arith)

module _ (places : ℕ → Place) (i : ℕ) (p : Place) where
  -- Other tasks stay where they are.
  owned-update :
      (o o' : Option ℕ)
      → ((j : ℕ) → (j == i) ≡ false → is_owner o j ≡ is_owner o' j)
      → critical p ≡ is_owner o' i
      → ((j : ℕ) → critical (places j) ≡ is_owner o j)
      → (j : ℕ) → critical (update places i p j) ≡ is_owner o' j
  owned-update o o' others own owned j = elim (Bool-cases (j == i)) [
    | inl e ↦ let same : j ≡ i = ground arith in rw (e, same) own
    | inr e ↦ rw e (owned j ∙ others j e)
  ]

  sound-update :
      (b : Bool)
      → before_insert p ≡ false
      → ((j : ℕ) → before_insert (places j) ≡ true → b ≡ false)
      → (j : ℕ) → before_insert (update places i p j) ≡ true
      → b ≡ false
  sound-update b none_here sound j h = elim (Bool-cases (j == i)) [
    | inl e ↦ let here = rw e at h in cc
    | inr e ↦ sound j (rw e at h)
  ]

critical_of-before_insert : (q : Place) → before_insert q ≡ true → critical q ≡ true
critical_of-before_insert idle h = cc
critical_of-before_insert (waiting d) h = cc
critical_of-before_insert (holding d) h = refl
critical_of-before_insert (inserted d) h = cc
critical_of-before_insert (replied d) h = cc
critical_of-before_insert (died d) h = cc

module _ {D : Type 0} {m : Shared D} {places : ℕ → Place} (inv : Inv m places) (i : ℕ) where
  -- A step of a task that has the guard neither before it nor behind it.
  outside :
      (p : Place)
      → critical (places i) ≡ false
      → critical p ≡ false
      → before_insert p ≡ false
      → Inv m (update places i p)
  outside p before behind none_here = record {
    owner = inv.owner;
    owned =
        owned-update places i p inv.owner inv.owner (λ j e. refl)
          (behind ∙ sym before ∙ inv.owned i) inv.owned;
    held = inv.held;
    sound = sound-update places i p m.recorder.poisoned none_here inv.sound;
  }

  -- A step that drops the guard.
  dropped :
      (p : Place) (r : SqliteRecorder D)
      → critical (places i) ≡ true
      → critical p ≡ false
      → Inv (record { recorder = r; held = false }) (update places i p)
  dropped p r before behind =
      let e = some_of-owner inv.owner i (sym (inv.owned i) ∙ before) in
      let owned = owned-update places i p inv.owner none (λ j apart. rw e apart) behind inv.owned in
      record {
        owner = none;
        owned = owned;
        held = refl;
        sound = λ j h.
            let c = critical_of-before_insert (update places i p j) h in let f = owned j in cc;
      }

  pub Move-Inv :
      {db : Sqlite D} {m' : Shared D} (q p : Place)
      → places i ≡ q
      → Move db m q m' p
      → Inv m' (update places i p)
  Move-Inv q p e (arrive d) = outside (waiting d) (ap critical e) refl refl
  Move-Inv q p e (refuse {d} free poisoned) = outside (died d) (ap critical e) refl refl
  Move-Inv q p e (acquire {d} free sound) =
      let o = none_of-held inv.owner (sym inv.held ∙ free) in
      record {
        owner = some i;
        owned =
            owned-update places i (holding d) inv.owner (some i) (λ j apart. rw (o, apart) refl)
              (ground arith) inv.owned;
        held = refl;
        sound = λ j h. sound;
      }
  Move-Inv q p e (insert {d} after done) = record {
    owner = inv.owner;
    owned =
        owned-update places i (inserted d) inv.owner inv.owner (λ j apart. refl)
          (sym (ap critical e) ∙ inv.owned i) inv.owned;
    held = inv.held;
    sound = sound-update places i (inserted d) m.recorder.poisoned refl inv.sound;
  }
  Move-Inv q p e (fail {d} failed) = dropped (died d) _ (ap critical e) refl
  Move-Inv q p e (release {d}) = dropped (replied d) _ (ap critical e) refl

-- At every moment the invariant holds.
pub Reach-Inv :
    {D : Type 0} {db : Sqlite D} {s t : System D}
    → Reach db s t
    → Inv s.shared s.places
    → Inv t.shared t.places
Reach-Inv here inv = inv
Reach-Inv (later {t} before (pick i move)) inv =
    Move-Inv (Reach-Inv before inv) i (t.places i) _ refl move
