-- ===== src/Panic.antt =====
-- The panics of the agent and of the daemon, and fallible code with no state.
use phasic_j.Base.{ℕ, Text}

-- One constructor for each kind of place where the Rust code panics: an `unwrap`, an `expect`, an
-- `assert` or a `panic!`.
pub data Panic : Type 0 where
  parse_failure unexpected_option exec_without_value exec_empty : Panic
  unrecognized_name : Text → Panic
  unexpected_value : Text → Panic
  invalid_utf8 missing_function null_result failed_conversion : Panic
  jvmti_error : ℕ → Panic
  jni_error : ℕ → Panic
  already_initialized not_initialized zero_sized misaligned missing_capability : Panic
  unknown_phase : Panic
  poisoned_lock no_sender disconnected : Panic
  io_error interior_nul database_error : Panic
  wrong_arguments no_connect_info : Panic

pub data Result {ℓ} (A : Type ℓ) : Type ℓ where
  ok : A → Result A
  panic : Panic → Result A

infixl 5 ◌>>=◌
abbrev pub ◌>>=◌ {ℓ κ} : {A : Type ℓ} {B : Type κ} → Result A → (A → Result B) → Result B
ok a >>= f = f a
panic e >>= f = panic e

-- A computation on a state: it returns, it panics (what it did before stays done), or its behaviour
-- is undefined, as in a read through a dangling pointer.
pub data Run (S A : Type 0) : Type 0 where
  done : A → S → Run S A
  panicked : Panic → S → Run S A
  undefined : Run S A
