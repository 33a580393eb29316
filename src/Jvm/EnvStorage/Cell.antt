-- ===== src/Jvm/EnvStorage/Cell.antt =====
-- What the environment-local storage promises: a cell that holds one configuration or none.
use phasic_j.Base.{◌≡◌, refl, Option, none, some, List, [], ◌∷◌}
use phasic_j.Conf.{PjAgentConf}
use phasic_j.Jvm.EnvStorage.{EnvStorage, of, init, free}
use phasic_j.Jvm.EnvStorage.Free.{free-stored, free-none}
use phasic_j.Jvm.EnvStorage.Copy.{IsStorable}
use phasic_j.Jvm.EnvStorage.Init.{init-stored, init-again}
use phasic_j.Jvm.EnvStorage.Stored.{IsStored, storage_of, of-none, of-stored}
use phasic_j.Jvm.Jvmti.{JvmtiTable}
use phasic_j.Jvm.Jvmti.Lawful.{IsStorage}
use phasic_j.Jvm.RawEnvStorage.{null}
use phasic_j.Jvm.World.{World, M, pure, ◌>>=◌, ◌>>◌}
use phasic_j.Panic.{Run, done, panicked, undefined, already_initialized, not_initialized}

-- The three operations, and what each answers.
pub data Command : Type 0 where
  init_with : PjAgentConf → Command
  read release : Command

pub data Answer : Type 0 where
  stored released : Answer
  found : Option EnvStorage → Answer

abbrev pub Cell : Type 0
Cell = Option PjAgentConf

abbrev storage_in : Cell → Option EnvStorage
storage_in none = none
storage_in (some conf) = some (storage_of conf)

-- The operations of the cell.
unfoldable pub perform : Command → Cell → Run Cell Answer
perform (init_with conf) none = done stored (some conf)
perform (init_with conf) (some old) = panicked already_initialized (some old)
perform read cell = done (found (storage_in cell)) cell
perform release none = panicked not_initialized none
perform release (some conf) = done released none

abbrev pub then_answer : {S : Type 0} → Answer → Run S (List Answer) → Run S (List Answer)
then_answer a (done as' s) = done (a ∷ as') s
then_answer a (panicked p s) = panicked p s
then_answer a undefined = undefined

abbrev pub go_on : {S : Type 0} → Run S Answer → (S → Run S (List Answer)) → Run S (List Answer)
go_on (done a s) k = then_answer a (k s)
go_on (panicked p s) k = panicked p s
go_on undefined k = undefined

-- The commands one after the other, up to the first panic.
abbrev pub in_turn :
    {S : Type 0} → (Command → S → Run S Answer) → List Command → S → Run S (List Answer)
in_turn step [] s = done [] s
in_turn step (c ∷ cs) s = go_on (step c s) (in_turn step cs)

-- The operations of the agent.
unfoldable pub execute : {X : Type 0} → JvmtiTable X → Command → M X Answer
execute env (init_with conf) = do init env conf; pure stored
execute env read = do storage ← of env; pure (found storage)
execute env release = do free env; pure released

abbrev pub CanStore : List Command → Type 0
CanStore [] = Unit
CanStore (init_with conf ∷ cs) = IsStorable conf.phasicj_exec × CanStore cs
CanStore (_ ∷ cs) = CanStore cs

module _ {X : Type 0} {env : JvmtiTable X} (S : IsStorage env) where
  -- What the JVM's memory and slot are for a cell.
  abbrev pub Represents : World X → Cell → Type 0
  Represents w none = S.slot w.host ≡ null
  Represents w (some conf) = IsStored S w conf

  -- The same outcome, and worlds that are related.
  abbrev pub Agrees : {A : Type 0} → Run (World X) A → Run Cell A → Type 0
  Agrees (done a w) (done b cell) = (a ≡ b) × Represents w cell
  Agrees (panicked p w) (panicked q cell) = (p ≡ q) × Represents w cell
  Agrees _ _ = ⊥

  execute-perform :
      (c : Command) (w : World X) (cell : Cell)
      → CanStore (c ∷ [])
      → Represents w cell
      → Agrees (execute env c w) (perform c cell)
  unfolding execute perform
  execute-perform (init_with conf) w none can empty =
      let made = init-stored S w conf empty can.0 in rw made.returns (refl, made.stored)
  execute-perform (init_with conf) w (some old) can h = rw (init-again S w conf h) (refl, h)
  execute-perform read w none can empty = rw (of-none S w empty) (refl, empty)
  execute-perform read w (some conf) can h = rw (of-stored S w h) (refl, h)
  execute-perform release w none can empty = rw (free-none S w empty) (refl, empty)
  execute-perform release w (some conf) can h =
      rw (free-stored S w h) (refl, S.slot-with_slot null w.host)

  Agrees-then :
      (a b : Answer) (r : Run (World X) (List Answer)) (q : Run Cell (List Answer))
      → a ≡ b
      → Agrees r q
      → Agrees (then_answer a r) (then_answer b q)
  Agrees-then a b (done as' w) (done bs cell) e h = ((λ i. e i ∷ h.0 i), h.1)
  Agrees-then a b (panicked p w) (panicked q cell) e h = h
  Agrees-then a b (done as' w) (panicked q cell) e h = absurd h
  Agrees-then a b (done as' w) undefined e h = absurd h
  Agrees-then a b (panicked p w) (done bs cell) e h = absurd h
  Agrees-then a b (panicked p w) undefined e h = absurd h
  Agrees-then a b undefined q e h = absurd h

  Agrees-go_on :
      (r : Run (World X) Answer) (q : Run Cell Answer) (k : World X → Run (World X) (List Answer))
      (j : Cell → Run Cell (List Answer))
      → Agrees r q
      → ((w : World X) (cell : Cell) → Represents w cell → Agrees (k w) (j cell))
      → Agrees (go_on r k) (go_on q j)
  Agrees-go_on (done a w) (done b cell) k j h rest =
      Agrees-then a b (k w) (j cell) h.0 (rest w cell h.1)
  Agrees-go_on (panicked p w) (panicked q cell) k j h rest = h
  Agrees-go_on (done a w) (panicked q cell) k j h rest = absurd h
  Agrees-go_on (done a w) undefined k j h rest = absurd h
  Agrees-go_on (panicked p w) (done b cell) k j h rest = absurd h
  Agrees-go_on (panicked p w) undefined k j h rest = absurd h
  Agrees-go_on undefined q k j h rest = absurd h

  CanStore-head : (c : Command) (cs : List Command) → CanStore (c ∷ cs) → CanStore (c ∷ [])
  CanStore-head (init_with conf) cs can = (can.0, tt)
  CanStore-head read cs can = tt
  CanStore-head release cs can = tt

  CanStore-tail : (c : Command) (cs : List Command) → CanStore (c ∷ cs) → CanStore cs
  CanStore-tail (init_with conf) cs can = can.1
  CanStore-tail read cs can = can
  CanStore-tail release cs can = can

  -- The storage refines a cell that holds one configuration or none: any calls of init, of and
  -- free, from a world that represents a cell, with storable paths, answer or panic as the cell
  -- does, init on a full cell and free on an empty one among them, and leave a world that
  -- represents the cell that is left.
  pub execute-Agrees :
      (cs : List Command) (w : World X) (cell : Cell)
      → CanStore cs
      → Represents w cell
      → Agrees (in_turn (execute env) cs w) (in_turn perform cs cell)
  execute-Agrees [] w cell can h = (refl, h)
  execute-Agrees (c ∷ cs) w cell can h =
      Agrees-go_on (execute env c w) (perform c cell) (in_turn (execute env) cs)
        (in_turn perform cs) (execute-perform c w cell (CanStore-head c cs can) h)
        (λ w' cell'. execute-Agrees cs w' cell' (CanStore-tail c cs can))
