-- ===== src/Greeter/Unix.antt =====
-- `mod unix` of Bazel/pt/grpc/cargo_style/server.rs: the greeter's own wrapper of Tokio's Unix
-- socket, from before the one of services/util/tonic.
use phasic_j.Base.{ℕ, ◌≡◌, refl, sym, ◌∙◌, Text, Option, none, some, List}
use phasic_j.Uds.{Poll, TokioStream, UdsConnectInfo}
use phasic_j.Uds.Wrapped.{
  Call, reads, writes, flushes, shuts_down, asks_peer, Reply, has_read, has_written, has_flushed,
  has_shut_down, on, known, in_turn, on_stream, on_wrapper, IsWrapper, IsWrapper-on_stream,
  on_wrapper-IsWrapper,
}

-- `UnixStream`
pub record GreeterStream (S : Type 0) : Type 0 where
  pub socket : S

module _ {S Addr : Type 0} where
  -- `map_ok(|(st, _)| unix::UnixStream(st))`
  unfoldable pub greeter_accepted : Option (S × Addr) → Option (GreeterStream S)
  greeter_accepted none = none
  greeter_accepted (some (st, a)) = some (record { socket = st })

  -- The stream of connections; its pattern matches errors too, so it has no end.
  unfoldable pub greeter_incoming : (ℕ → Option (S × Addr)) → ℕ → Option (GreeterStream S)
  greeter_incoming accept n = greeter_accepted (accept n)

module _ {S Addr Cred : Type 0} (tokio : TokioStream S Addr Cred) where
  -- The socket behind a poll, wrapped again.
  abbrev back : {A : Type 0} → Poll A × S → Poll A × GreeterStream S
  back (a, s) = (a, record { socket = s })

  unfoldable greeter_connect_info : GreeterStream S → UdsConnectInfo Addr Cred
  greeter_connect_info self = record {
    peer_addr = tokio.peer_addr self.socket;
    peer_cred = tokio.peer_cred self.socket;
  }

  unfoldable greeter_poll_read : ℕ → GreeterStream S → Poll Text × GreeterStream S
  greeter_poll_read buf self = back (tokio.poll_read buf self.socket)

  unfoldable greeter_poll_write : Text → GreeterStream S → Poll ℕ × GreeterStream S
  greeter_poll_write buf self = back (tokio.poll_write buf self.socket)

  unfoldable greeter_poll_flush : GreeterStream S → Poll (Unit {0}) × GreeterStream S
  greeter_poll_flush self = back (tokio.poll_flush self.socket)

  unfoldable greeter_poll_shutdown : GreeterStream S → Poll (Unit {0}) × GreeterStream S
  greeter_poll_shutdown self = back (tokio.poll_shutdown self.socket)

  -- A call of the greeter's wrapper.
  unfoldable on_greeter : Call → GreeterStream S → Reply Addr Cred × GreeterStream S
  on_greeter (reads n) s = on tokio has_read (greeter_poll_read n s)
  on_greeter (writes b) s = on tokio has_written (greeter_poll_write b s)
  on_greeter flushes s = on tokio has_flushed (greeter_poll_flush s)
  on_greeter shuts_down s = on tokio has_shut_down (greeter_poll_shutdown s)
  on_greeter asks_peer s = (known tokio (greeter_connect_info s), s)

  on_greeter-IsWrapper : IsWrapper tokio (λ s. s.socket) on_greeter
  unfolding on_greeter on_stream greeter_poll_read greeter_poll_write greeter_poll_flush
      greeter_poll_shutdown greeter_connect_info
  on_greeter-IsWrapper (reads n) s = (refl, refl)
  on_greeter-IsWrapper (writes b) s = (refl, refl)
  on_greeter-IsWrapper flushes s = (refl, refl)
  on_greeter-IsWrapper shuts_down s = (refl, refl)
  on_greeter-IsWrapper asks_peer s = (refl, refl)

  -- Around the same socket, the greeter's wrapper and the one of services/util/tonic give the same
  -- replies to any sequence of reads, writes, flushes, shutdowns and questions for the peer, and
  -- leave the same socket.
  on_greeter-on_wrapper :
      (cs : List Call) (s : S)
      → let a = in_turn on_greeter cs (record { socket = s }) in
        let b = in_turn (on_wrapper tokio) cs (record { inner = s }) in
        (a.0 ≡ b.0) × (a.1.socket ≡ b.1.inner)
  on_greeter-on_wrapper cs s =
      let (a, u) =
        IsWrapper-on_stream tokio _ on_greeter on_greeter-IsWrapper cs (record { socket = s }) in
      let (b, v) =
        IsWrapper-on_stream tokio _ (on_wrapper tokio) (on_wrapper-IsWrapper tokio) cs
          (record { inner = s }) in
      (a ∙ sym b, u ∙ sym v)
