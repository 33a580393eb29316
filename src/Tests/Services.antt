-- ===== src/Tests/Services.antt =====
-- The theorems on the socket wrapper, the test programs and the embedded files at small inputs.
use phasic_j.Base.{Option, ℕ, true, Text, none, some, []}
use phasic_j.Services.{Request, ServerHost}
use phasic_j.Uds.{TokioStream, UnixStream, UdsConnectInfo, ready}

-- A stream that gives back what was written to it.
abbrev echo : TokioStream Text Text ℕ
echo = record {
  poll_read = λ n s. (ready (some s), []);
  poll_write = λ b s. (ready (some 1), b);
  poll_flush = λ s. (ready (some tt), s);
  poll_shutdown = λ s. (ready none, s);
  peer_addr = λ s. none;
  peer_cred = λ s. some 1000;
}

abbrev stream : UnixStream Text
stream = record { inner = [] }

abbrev server_host : ServerHost
server_host = record { create_dir_all = λ path. true; bind = λ path. true }

abbrev deliver : UdsConnectInfo Text ℕ → Text → Request (UdsConnectInfo Text ℕ)
deliver i d = record { extensions = some i; description = d }

abbrev no_connection : ℕ → Option (Text × Text)
no_connection n = none
