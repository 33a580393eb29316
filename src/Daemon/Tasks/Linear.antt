-- ===== src/Daemon/Tasks/Linear.antt =====
-- The tasks, whatever their interleaving, against the requests served one after the other.
use mathlib.Core.List.{append-nil, append_assoc}
use phasic_j.Base.{
  ℕ, ◌≡◌, refl, sym, ap, ◌∙◌, arith, Bool, true, false, Text, List, [], ◌∷◌, ◌++◌, ◌==◌,
  if◌then◌else◌, Bool-cases, inl, inr,
}
use phasic_j.Daemon.{Sqlite, SqliteRecorder, record_events, served, serve}
use phasic_j.Daemon.Tasks.{
  Shared, Place, idle, waiting, holding, inserted, replied, died, Move, arrive, acquire, refuse,
  insert, fail, release, update, System, pick, start, Reach, here, later,
}
use phasic_j.Daemon.Tasks.Exclusion.{before_insert, Inv, Inv-start, Reach-Inv}

-- A request that has been decided: its task, its description, and whether it is acknowledged.
pub record Entry : Type 0 where
  pub task : ℕ
  pub description : Text
  pub acked : Bool

abbrev pub descriptions : List Entry → List Text
descriptions [] = []
descriptions (e ∷ es) = e.description ∷ descriptions es

abbrev pub replies : List Entry → List Bool
replies [] = []
replies (e ∷ es) = e.acked ∷ replies es

-- What the entries say of a task.
unfoldable pub entries_of : ℕ → List Entry → List (Text × Bool)
entries_of i [] = []
entries_of i (e ∷ es) =
    let rest = entries_of i es in if e.task == i then (e.description, e.acked) ∷ rest else rest

-- What a task knows of its own request.
abbrev pub decided : Place → List (Text × Bool)
decided idle = []
decided (waiting d) = []
decided (holding d) = []
decided (inserted d) = (d, true) ∷ []
decided (replied d) = (d, true) ∷ []
decided (died d) = (d, false) ∷ []

entries_of-append :
    (i : ℕ) (es : List Entry) (e : Entry)
    → entries_of i (es ++ e ∷ [])
      ≡ entries_of i es ++ (if e.task == i then (e.description, e.acked) ∷ [] else [])
unfolding entries_of
entries_of-append i [] e = refl
entries_of-append i (f ∷ es) e = elim (Bool-cases (f.task == i)) [
  | inl h ↦ rw h (ap (λ xs. (f.description, f.acked) ∷ xs) (entries_of-append i es e))
  | inr h ↦ rw h (entries_of-append i es e)
]

descriptions-append :
    (es : List Entry) (e : Entry)
    → descriptions (es ++ e ∷ []) ≡ descriptions es ++ e.description ∷ []
descriptions-append [] e = refl
descriptions-append (f ∷ es) e = ap (λ ds. f.description ∷ ds) (descriptions-append es e)

replies-append : (es : List Entry) (e : Entry) → replies (es ++ e ∷ []) ≡ replies es ++ e.acked ∷ []
replies-append [] e = refl
replies-append (f ∷ es) e = ap (λ bs. f.acked ∷ bs) (replies-append es e)

module _ {D : Type 0} (db : Sqlite D) where
  -- One request more.
  serve-append :
      (r : SqliteRecorder D) (ds : List Text) (d : Text)
      → let before = serve db r ds in
        let last = served db (record_events db before.1 d) before.1 in
        serve db r (ds ++ d ∷ []) ≡ (before.0 ++ last.0 ∷ [], last.1)
  unfolding serve
  serve-append r [] d = refl
  serve-append r (c ∷ ds) d =
      let s = served db (record_events db r c) r in
      ap (λ x. (s.0 ∷ x.0, x.1)) (serve-append s.1 ds d)

  -- The decided requests in an order that explains the moment.
  pub record IsLinear (r : SqliteRecorder D) (s : System D) : Type 0 where
    pub entries : List Entry
    pub order : serve db r (descriptions entries) ≡ (replies entries, s.shared.recorder)
    pub tasks : (i : ℕ) → entries_of i entries ≡ decided (s.places i)

  -- A later moment: requests that have been decided keep their places in the order.
  pub record Extends {r : SqliteRecorder D} {s : System D} (h : IsLinear r s) (t : System D)
      : Type 0 where
    pub linear : IsLinear r t
    pub more : List Entry
    pub extends : linear.entries ≡ h.entries ++ more

  module _ {r : SqliteRecorder D} {s : System D} (h : IsLinear r s) (i : ℕ) where
    -- A step that decides nothing.
    undecided :
        (p : Place) (held : Bool)
        → decided p ≡ decided (s.places i)
        → Extends h
            (record { shared = record s.shared { held = held }; places = update s.places i p })
    undecided p held e = record {
      more = [];
      extends = sym (append-nil h.entries);
      linear = record {
        entries = h.entries;
        order = h.order;
        tasks = λ j. elim (Bool-cases (j == i)) [
          | inl k ↦ let same : j ≡ i = ground arith in rw (k, same) (h.tasks i ∙ sym e)
          | inr k ↦ rw k (h.tasks j)
        ];
      };
    }

    -- A step that decides the request of the task, as the handler does.
    decides :
        (p : Place) (d : Text) (b : Bool) (r' : SqliteRecorder D) (held : Bool)
        → decided (s.places i) ≡ []
        → decided p ≡ (d, b) ∷ []
        → served db (record_events db s.shared.recorder d) s.shared.recorder ≡ (b, r')
        → Extends h (record {
          shared = record { recorder = r'; held = held };
          places = update s.places i p;
        })
    decides p d b r' held none_yet now e =
        let entry : Entry = record { task = i; description = d; acked = b } in
        record {
          more = entry ∷ [];
          extends = refl;
          linear = record {
            entries = h.entries ++ entry ∷ [];
            order =
                rw (descriptions-append h.entries entry, replies-append h.entries entry)
                  (serve-append r (descriptions h.entries) d ∙ rw (h.order, e) refl);
            tasks = λ j. entries_of-append j h.entries entry ∙ elim (Bool-cases (j == i)) [
              | inl k ↦
                  let same : j ≡ i = ground arith in
                  let flipped : (i == j) ≡ true = ground arith in
                  let nothing : entries_of j h.entries ≡ [] =
                    h.tasks j ∙ ap (λ x. decided (s.places x)) same ∙ none_yet in
                  rw (k, flipped, nothing) (sym now)
              | inr k ↦
                  let flipped : (i == j) ≡ false = ground arith in
                  rw (k, flipped) (append-nil (entries_of j h.entries) ∙ h.tasks j)
            ];
          };
        }

  Move-Extends :
      {r : SqliteRecorder D} {s : System D} (i : ℕ) (q p : Place) {m : Shared D}
      → s.places i ≡ q
      → Move db s.shared q m p
      → Inv s.shared s.places
      → (h : IsLinear r s) → Extends h (record { shared = m; places = update s.places i p })
  unfolding record_events
  Move-Extends {s} i q p e (arrive d) inv h =
      undecided h i (waiting d) s.shared.held (sym (ap decided e))
  Move-Extends i q p e (acquire {d} free unpoisoned) inv h =
      undecided h i (holding d) true (sym (ap decided e))
  Move-Extends {s} i q p e (refuse {d} free poisoned) inv h =
      decides h i (died d) d false s.shared.recorder s.shared.held (ap decided e) refl
        (rw poisoned refl)
  Move-Extends {s} i q p e (insert {d} after success) inv h =
      decides h i (inserted d) d true (record s.shared.recorder { database_connection = after })
        s.shared.held (ap decided e) refl (rw (inv.sound i (ap before_insert e), success) refl)
  Move-Extends {s} i q p e (fail {d} failure) inv h =
      decides h i (died d) d false (record s.shared.recorder { poisoned = true }) false
        (ap decided e) refl (rw (inv.sound i (ap before_insert e), failure) refl)
  Move-Extends i q p e (release {d}) inv h = undecided h i (replied d) false (sym (ap decided e))

  Reach-Extends :
      {r : SqliteRecorder D} {s t : System D}
      → Reach db s t
      → Inv s.shared s.places
      → (h : IsLinear r s) → Extends h t
  Reach-Extends here inv h = record { linear = h; more = []; extends = sym (append-nil h.entries) }
  Reach-Extends (later {t} before (pick i move)) inv h =
      let first = Reach-Extends before inv h in
      let last = Move-Extends i (t.places i) _ refl move (Reach-Inv before inv) first.linear in
      record {
        linear = last.linear;
        more = first.more ++ last.more;
        extends =
            last.extends
            ∙ ap (λ es. es ++ last.more) first.extends
            ∙ append_assoc h.entries first.more last.more;
      }

  begun : (r : SqliteRecorder D) → IsLinear r (start r)
  unfolding serve entries_of
  begun r = record { entries = []; order = refl; tasks = λ i. refl }

  -- The calls of record_events run as tasks, in any interleaving of their accesses to the mutex and
  -- the database. At every moment there is an order of the requests that have been decided in which
  -- record_events, run for one after the other, gives the same recorder and the same replies; each
  -- task knows its request exactly as it is in that order, once if it is decided, and not at all
  -- before. At every later moment these requests keep their places, and further ones only come
  -- behind them.
  pub Reach-IsLinear :
      {r : SqliteRecorder D} {s t : System D}
      → Reach db (start r) s
      → Reach db s t
      → (h : IsLinear r s) × Extends h t
  Reach-IsLinear {r} to_s from_s =
      let now = Reach-Extends to_s (Inv-start r) (begun r) in
      (now.linear, Reach-Extends from_s (Reach-Inv to_s (Inv-start r)) now.linear)
