-- ===== src/Greeter.antt =====
-- The prototype of the services, in architecture/prototypes/integration/pt_rust_grpc_ipc: a greeter
-- over a Unix socket (Bazel/pt/grpc/cargo_style), and one over TCP (Cargo).
pub mod Session
pub mod Unix
use phasic_j.Base.{
  ℕ, Bool, true, false, Text, codes, Option, none, some, List, [], ◌∷◌, ◌++◌, if◌then◌else◌,
}
use phasic_j.FilePath.{parent}
use phasic_j.Panic.{Panic, Result, ok, panic, ◌>>=◌, null_result, wrong_arguments, no_connect_info}
use phasic_j.Services.{ServerHost, Listening, listens, returns, fails, ended}
use phasic_j.Greeter.Unix.{GreeterStream, greeter_incoming}

-- `Request<HelloRequest>`
pub record HelloRequest (I : Type 0) : Type 0 where
  pub extensions : Option I
  pub name : Text

-- `format!("Hello {}!", name)`
abbrev pub greeting : Text → Text
greeting name = codes "Hello " ++ (name ++ codes "!")

-- `say_hello` over a Unix socket, which prints the information on the connection.
unfoldable pub say_hello : {I : Type 0} → HelloRequest I → Result Text
say_hello request = elim request.extensions [
  | none ↦ panic no_connect_info
  | some conn_info ↦ ok (greeting request.name)
]

-- `say_hello` over TCP.
unfoldable pub say_hello_over_tcp : {I : Type 0} → HelloRequest I → Result Text
say_hello_over_tcp request = ok (greeting request.name)

unfoldable pub socket_name : List Text → Result Text
socket_name (program ∷ socket ∷ []) = ok socket
socket_name _ = panic wrong_arguments

module _ {S Addr : Type 0} (has_ended : (ℕ → Option (GreeterStream S)) → Option Bool)
    (accept : ℕ → Option (S × Addr)) where
  abbrev pub greet_below : ServerHost → Text → Option Text → Result Listening
  greet_below os path none = panic null_result
  greet_below os path (some dir) =
      if os.create_dir_all dir
      then (if os.bind path
          then ok (ended (has_ended (greeter_incoming accept)) path)
          else ok fails)
      else ok fails

  -- `main` of the server.
  unfoldable pub greeter_server : ServerHost → List Text → Result Listening
  greeter_server os args = do path ← socket_name args; greet_below os path (parent path)

abbrev pub tcp_address : Text
tcp_address = codes "[::1]:50051"

abbrev pub serve_at : {A : Type 0} → (A → Option Bool) → Option A → Listening
serve_at serve none = fails
serve_at serve (some addr) = ended (serve addr) tcp_address

-- `main` of the server over TCP: `parse` reads an address, and `serve` is tonic's server there, at a
-- moment at which it has ended in one way, or has not.
unfoldable pub tcp_server : {A : Type 0} → (Text → Option A) → (A → Option Bool) → Listening
tcp_server parse serve = serve_at serve (parse tcp_address)

-- `main` of the client; `call` is what the server answers to a name. It prints the answer.
unfoldable pub greeter_client :
    (Text → Bool) → (Text → Option Text) → List Text → Result (Option Text)
greeter_client connect call args = do
  path ← socket_name args
  ok (if connect path then call (codes "Tonic") else none)
