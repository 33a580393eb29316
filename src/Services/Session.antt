-- ===== src/Services/Session.antt =====
-- The test server and its client together.
use phasic_j.Base.{ℕ, ◌≡◌, Bool, true, Text, codes, Option, none, some, [], ◌∷◌}
use phasic_j.Daemon.{ack}
use phasic_j.FilePath.{parent}
use phasic_j.Panic.{Result, ok, panic}
use phasic_j.Services.{
  Request, ServerHost, listens, get_socket_name, my_record_events, server_main, client_main,
}
use phasic_j.Uds.{incoming, TokioStream, UnixStream, UdsConnectInfo, connect_info}

-- What a caller gets of a handler's result: a panic gives an error.
abbrev pub response : Result Text → Option Text
response (ok a) = some a
response (panic p) = none

module _ {S Addr Cred : Type 0} (tokio : TokioStream S Addr Cred)
    (deliver : UdsConnectInfo Addr Cred → Text → Request (UdsConnectInfo Addr Cred)) where
  -- The answer to a call over a connection; `deliver` is how tonic makes its request.
  abbrev pub answered : UnixStream S → Text → Option Text
  answered stream description =
      response (my_record_events (deliver (connect_info tokio stream) description))

  -- If the socket's directory can be made, the socket bound and reached, tonic's server has not
  -- ended, and tonic puts the information on the connection into each request, the test server
  -- listens on the path that it is given, and the test client, given the same path, gets the
  -- acknowledgement.
  client_main-server_main :
      (os : ServerHost) (server client path dir : Text) (connect : Text → Bool)
      (stream : UnixStream S) (has_ended : (ℕ → Option (UnixStream S)) → Option Bool)
      (accept : ℕ → Option (S × Addr))
      → has_ended (incoming accept) ≡ none
      → ((i : UdsConnectInfo Addr Cred) (d : Text) → (deliver i d).extensions ≡ some i)
      → parent path ≡ some dir
      → os.create_dir_all dir ≡ true
      → os.bind path ≡ true
      → connect path ≡ true
      → (server_main has_ended accept os (server ∷ path ∷ []) ≡ ok (listens path))
        × (client_main connect (answered stream) (client ∷ path ∷ []) ≡ ok (some ack))
  unfolding server_main client_main get_socket_name my_record_events
  client_main-server_main os server client path dir connect stream has_ended accept going carries p
        c b k =
      (rw (p, c, b, going), rw (k, carries (connect_info tokio stream) (codes "Hello, Tonic!")))
