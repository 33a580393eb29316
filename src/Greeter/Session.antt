-- ===== src/Greeter/Session.antt =====
-- The greeters and their client.
use phasic_j.Base.{ℕ, ◌≡◌, Bool, true, Text, codes, Option, none, some, [], ◌∷◌}
use phasic_j.FilePath.{parent}
use phasic_j.Greeter.{
  tcp_address, tcp_server, HelloRequest, say_hello, say_hello_over_tcp, socket_name, greeter_server,
  greeter_client,
}
use phasic_j.Panic.{ok}
use phasic_j.Services.{ServerHost, listens}
use phasic_j.Services.Session.{response}
use phasic_j.Greeter.Unix.{GreeterStream, greeter_incoming}

tcp_server-listens :
    {A : Type 0} (parse : Text → Option A) (serve : A → Option Bool) {addr : A}
    → parse tcp_address ≡ some addr
    → serve addr ≡ none
    → tcp_server parse serve ≡ listens tcp_address
unfolding tcp_server
tcp_server-listens parse serve reads serves = rw (reads, serves)

module _ {I : Type 0} (deliver : Text → HelloRequest I) where
  -- The answers over both transports.
  abbrev pub greeted : Text → Option Text
  greeted name = response (say_hello (deliver name))

  abbrev pub greeted_over_tcp : Text → Option Text
  greeted_over_tcp name = response (say_hello_over_tcp (deliver name))

  -- If the socket's directory can be made, the socket bound and reached, tonic's server has not
  -- ended, and tonic puts the name and the information on the connection into the request, the
  -- greeter listens on the path that it is given, and its client, given the same path, prints the
  -- greeting of Tonic, the same that the greeter over TCP answers. If that one's address can be
  -- read, and tonic's server there has not ended, it listens there.
  pub greeter_client-greeter_server :
      {S Addr : Type 0} (os : ServerHost) (server client path dir : Text) (connect : Text → Bool)
      (has_ended : (ℕ → Option (GreeterStream S)) → Option Bool) (accept : ℕ → Option (S × Addr))
      {A : Type 0} (parse : Text → Option A) (serve : A → Option Bool) (i : I) (addr : A)
      → has_ended (greeter_incoming accept) ≡ none
      → deliver (codes "Tonic") ≡ record { extensions = some i; name = codes "Tonic" }
      → parent path ≡ some dir
      → os.create_dir_all dir ≡ true
      → os.bind path ≡ true
      → connect path ≡ true
      → parse tcp_address ≡ some addr
      → serve addr ≡ none
      → (greeter_server has_ended accept os (server ∷ path ∷ []) ≡ ok (listens path))
        × (greeter_client connect greeted (client ∷ path ∷ []) ≡ ok (some (codes "Hello Tonic!")))
        × (greeted (codes "Tonic") ≡ greeted_over_tcp (codes "Tonic"))
        × (tcp_server parse serve ≡ listens tcp_address)
  unfolding greeter_server greeter_client socket_name say_hello say_hello_over_tcp codes
  greeter_client-greeter_server os server client path dir connect has_ended accept parse serve i
        addr going carries p c b k reads serves =
      (
        rw (p, c, b, going),
        rw (k, carries),
        rw carries,
        tcp_server-listens parse serve reads serves,
      )
