-- ===== src/Services.antt =====
-- services/rtevents/rust/test/test_server.rs and test_client.rs: a server that acknowledges every
-- event, and a client that sends one, over a Unix socket.
pub mod Session
use phasic_j.Base.{
  ℕ, Bool, true, false, Text, codes, Option, none, some, List, [], ◌∷◌, if◌then◌else◌,
}
use phasic_j.Daemon.{ack}
use phasic_j.FilePath.{parent}
use phasic_j.Uds.{UnixStream, incoming}
use phasic_j.Panic.{Panic, Result, ok, panic, ◌>>=◌, null_result, wrong_arguments, no_connect_info}

-- `Request<RtEvent>`: what tonic has put into its extensions of the connection, and the event.
pub record Request (I : Type 0) : Type 0 where
  pub extensions : Option I
  pub description : Text

-- `get_socket_name`, which both programs have.
unfoldable pub get_socket_name : List Text → Result Text
get_socket_name (program ∷ socket ∷ []) = ok socket
get_socket_name _ = panic wrong_arguments

-- `record_events` of the test server; it prints the information on the connection.
unfoldable pub my_record_events : {I : Type 0} → Request I → Result Text
my_record_events request = elim request.extensions [
  | none ↦ panic no_connect_info
  | some conn_info ↦ ok ack
]

-- The operating system's answers to the server.
pub record ServerHost : Type 0 where
  pub create_dir_all : Text → Bool
  pub bind : Text → Bool

-- How far `main` of the server gets: it listens on a socket, or returns, without or with an error.
pub data Listening : Type 0 where
  listens : Text → Listening
  returns fails : Listening

-- `serve_with_incoming(…).await?`, at a moment at which tonic's server has ended in one way, or has
-- not.
abbrev pub ended : Option Bool → Text → Listening
ended none path = listens path
ended (some true) path = returns
ended (some false) path = fails

module _ {S Addr : Type 0} (has_ended : (ℕ → Option (UnixStream S)) → Option Bool)
    (accept : ℕ → Option (S × Addr)) where
  abbrev pub bind_below : ServerHost → Text → Option Text → Result Listening
  bind_below os path none = panic null_result
  bind_below os path (some dir) =
      if os.create_dir_all dir
      then (if os.bind path then ok (ended (has_ended (incoming accept)) path) else ok fails)
      else ok fails

  unfoldable pub server_main : ServerHost → List Text → Result Listening
  server_main os args = do path ← get_socket_name args; bind_below os path (parent path)

-- `main` of the client: `connect` says whether a socket can be reached, and `call` is what the
-- server answers to a description there. It prints the answer, or returns an error.
unfoldable pub client_main : (Text → Bool) → (Text → Option Text) → List Text → Result (Option Text)
client_main connect call args = do
  path ← get_socket_name args
  ok (if connect path then call (codes "Hello, Tonic!") else none)
