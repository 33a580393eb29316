-- ===== src/Uds/Wrapped.antt =====
-- The wrapper and the stream inside it give the same replies.
use phasic_j.Base.{ℕ, ◌≡◌, refl, Text, Option, List, [], ◌∷◌}
use phasic_j.Uds.{
  Poll, TokioStream, UnixStream, UdsConnectInfo, connect_info, poll_read, poll_write, poll_flush,
  poll_shutdown,
}

pub data Call : Type 0 where
  reads : ℕ → Call
  writes : Text → Call
  flushes shuts_down asks_peer : Call

pub data Reply (Addr Cred : Type 0) : Type 0 where
  has_read : Poll Text → Reply Addr Cred
  has_written : Poll ℕ → Reply Addr Cred
  has_flushed : Poll (Unit {0}) → Reply Addr Cred
  has_shut_down : Poll (Unit {0}) → Reply Addr Cred
  knows : Option Addr → Option Cred → Reply Addr Cred

-- Calls one after the other, with the reply to each.
abbrev pub in_turn :
    {S Addr Cred : Type 0}
    → (Call → S → Reply Addr Cred × S)
    → List Call
    → S
    → List (Reply Addr Cred) × S
in_turn step [] s = ([], s)
in_turn step (c ∷ cs) s = let (r, t) = step c s in let (rs, u) = in_turn step cs t in (r ∷ rs, u)

module _ {S Addr Cred : Type 0} (tokio : TokioStream S Addr Cred) where
  abbrev pub on : {A T : Type 0} → (Poll A → Reply Addr Cred) → Poll A × T → Reply Addr Cred × T
  on f (a, t) = (f a, t)

  -- A call of Tokio's stream.
  unfoldable pub on_stream : Call → S → Reply Addr Cred × S
  on_stream (reads n) s = on has_read (tokio.poll_read n s)
  on_stream (writes b) s = on has_written (tokio.poll_write b s)
  on_stream flushes s = on has_flushed (tokio.poll_flush s)
  on_stream shuts_down s = on has_shut_down (tokio.poll_shutdown s)
  on_stream asks_peer s = (knows (tokio.peer_addr s) (tokio.peer_cred s), s)

  abbrev pub known : UdsConnectInfo Addr Cred → Reply Addr Cred
  known i = knows i.peer_addr i.peer_cred

  -- The same call of the wrapper.
  unfoldable pub on_wrapper : Call → UnixStream S → Reply Addr Cred × UnixStream S
  on_wrapper (reads n) s = on has_read (poll_read tokio n s)
  on_wrapper (writes b) s = on has_written (poll_write tokio b s)
  on_wrapper flushes s = on has_flushed (poll_flush tokio s)
  on_wrapper shuts_down s = on has_shut_down (poll_shutdown tokio s)
  on_wrapper asks_peer s = (known (connect_info tokio s), s)

  -- A wrapper answers each call as the stream inside it.
  abbrev pub IsWrapper : {W : Type 0} → (W → S) → (Call → W → Reply Addr Cred × W) → Type 0
  IsWrapper {W} inner step =
      (c : Call) (s : W)
      → let a = step c s in let b = on_stream c (inner s) in (a.0 ≡ b.0) × (inner a.1 ≡ b.1)

  -- Any sequence of calls gets the same replies from a wrapper as from the stream inside it, and
  -- leaves the same stream inside.
  pub IsWrapper-on_stream :
      {W : Type 0} (inner : W → S) (step : Call → W → Reply Addr Cred × W)
      → IsWrapper inner step
      → (cs : List Call) (s : W)
      → let a = in_turn step cs s in
        let b = in_turn on_stream cs (inner s) in (a.0 ≡ b.0) × (inner a.1 ≡ b.1)
  IsWrapper-on_stream inner step h [] s = (refl, refl)
  IsWrapper-on_stream inner step h (c ∷ cs) s =
      let (r, t) = h c s in
      let (rs, u) = IsWrapper-on_stream inner step h cs (step c s).1 in
      rw (← t) ((λ i. r i ∷ rs i), u)

  pub on_wrapper-IsWrapper : IsWrapper (λ s. s.inner) on_wrapper
  unfolding on_wrapper on_stream poll_read poll_write poll_flush poll_shutdown connect_info
  on_wrapper-IsWrapper (reads n) s = (refl, refl)
  on_wrapper-IsWrapper (writes b) s = (refl, refl)
  on_wrapper-IsWrapper flushes s = (refl, refl)
  on_wrapper-IsWrapper shuts_down s = (refl, refl)
  on_wrapper-IsWrapper asks_peer s = (refl, refl)
