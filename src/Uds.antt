-- ===== src/Uds.antt =====
-- services/util/tonic/uds.rs: Tokio's Unix socket, wrapped for tonic.
pub mod Wrapped
use phasic_j.Base.{ℕ, Text, Option, none, some}

-- `Poll<io::Result<A>>`; an error carries nothing that is read here.
pub data Poll (A : Type 0) : Type 0 where
  pending : Poll A
  ready : Option A → Poll A

-- `tokio::net::UnixStream`: its polls, each with the stream behind it, and what it knows of its
-- peer. A read is given the room that its buffer has left, and gives the bytes that it put there.
pub record TokioStream (S Addr Cred : Type 0) : Type 0 where
  pub poll_read : ℕ → S → Poll Text × S
  pub poll_write : Text → S → Poll ℕ × S
  pub poll_flush : S → Poll (Unit {0}) × S
  pub poll_shutdown : S → Poll (Unit {0}) × S
  pub peer_addr : S → Option Addr
  pub peer_cred : S → Option Cred

-- `UnixStream`
pub record UnixStream (S : Type 0) : Type 0 where
  pub inner : S

pub record UdsConnectInfo (Addr Cred : Type 0) : Type 0 where
  pub peer_addr : Option Addr
  pub peer_cred : Option Cred

module _ {S : Type 0} where
  -- The stream behind a poll, wrapped again.
  abbrev pub rewrap : {A : Type 0} → Poll A × S → Poll A × UnixStream S
  rewrap (a, s) = (a, record { inner = s })

module _ {S Addr : Type 0} where
  -- `map_ok(|(s, _)| UnixStream(s))`
  unfoldable pub accepted : Option (S × Addr) → Option (UnixStream S)
  accepted none = none
  accepted (some (s, a)) = some (record { inner = s })

  -- The stream of connections that a server takes from a listener: its pattern matches every result
  -- of `accept`, errors too, so it has no end.
  unfoldable pub incoming : (ℕ → Option (S × Addr)) → ℕ → Option (UnixStream S)
  incoming accept n = accepted (accept n)

module _ {S Addr Cred : Type 0} (tokio : TokioStream S Addr Cred) where
  unfoldable pub connect_info : UnixStream S → UdsConnectInfo Addr Cred
  connect_info self = record {
    peer_addr = tokio.peer_addr self.inner;
    peer_cred = tokio.peer_cred self.inner;
  }

  unfoldable pub poll_read : ℕ → UnixStream S → Poll Text × UnixStream S
  poll_read buf self = rewrap (tokio.poll_read buf self.inner)

  unfoldable pub poll_write : Text → UnixStream S → Poll ℕ × UnixStream S
  poll_write buf self = rewrap (tokio.poll_write buf self.inner)

  unfoldable pub poll_flush : UnixStream S → Poll (Unit {0}) × UnixStream S
  poll_flush self = rewrap (tokio.poll_flush self.inner)

  unfoldable pub poll_shutdown : UnixStream S → Poll (Unit {0}) × UnixStream S
  poll_shutdown self = rewrap (tokio.poll_shutdown self.inner)
