-- ===== src/Svm.antt =====
-- agent/experimental/svm/rust/lib.rs: a GraalVM isolate, in a shared library that is loaded at run
-- time, that instruments classes.
pub mod Embed
pub mod Isolates
pub mod Session
use phasic_j.Base.{
  ℕ, zero, suc, ◌+◌, ◌^◌, [], ◌∷◌, Text, Option, none, some, ◌==◌, ltb, length, if◌then◌else◌,
}
use phasic_j.Jvm.Events.{Jint, nonneg, negative}
use phasic_j.Panic.{Run, done, panicked, undefined, null_result, failed_conversion}

-- What a function of the library returns and leaves: its status, and each out-parameter that it
-- wrote.
pub record Created (W : Type 0) : Type 0 where
  pub status : ℕ
  pub thread : Option ℕ
  pub world : W

pub record Instrumented (W : Type 0) : Type 0 where
  pub status : ℕ
  pub size : Option Jint
  pub buffer : Option ℕ
  pub world : W

-- `SvmInstrInstrumentFn`: the thread, the length of the class and its bytes.
abbrev pub InstrumentFn : Type 0 → Type 0
InstrumentFn W = ℕ → ℕ → Text → W → Instrumented W

-- `SvmInstrFreeFn`
abbrev pub FreeFn : Type 0 → Type 0
FreeFn W = ℕ → ℕ → W → W

-- The symbols that are looked up in the library, each of which may be missing.
pub record Library (W : Type 0) : Type 0 where
  pub graal_create_isolate : Option (W → Created W)
  pub graal_tear_down_isolate : Option (ℕ → W → ℕ × W)
  pub svm_instr_instrument : Option (InstrumentFn W)
  pub svm_instr_free : Option (FreeFn W)

pub record SvmIsolateThread (W : Type 0) : Type 0 where
  pub isolate_thread : ℕ
  pub svm_instr_instrument_fn : InstrumentFn W
  pub svm_instr_free_fn : FreeFn W
  pub svm_library : Library W

pub record SvmInstrBuffer : Type 0 where
  pub ptr : ℕ
  pub size : ℕ

module _ {W : Type 0} where
  -- `f()?`, where an error returns at once.
  abbrev pub try_run :
      {A B : Type 0} → Run W (Option A) → (A → W → Run W (Option B)) → Run W (Option B)
  try_run (done none w) k = done none w
  try_run (done (some a) w) k = k a w
  try_run (panicked p w) k = panicked p w
  try_run undefined k = undefined

  -- `get_svm_symbol(…)?`
  abbrev pub with_symbol :
      {F A : Type 0} → Option F → (F → W → Run W (Option A)) → W → Run W (Option A)
  with_symbol none k w = done none w
  with_symbol (some f) k w = k f w

  abbrev pub created : Created W → Run W (Option ℕ)
  created r = elim r.thread [
    | none ↦ undefined
    | some t ↦ if r.status == 0 then done (some t) r.world else done none r.world
  ]

  unfoldable pub create_isolate : Library W → W → Run W (Option ℕ)
  create_isolate svm_library = with_symbol svm_library.graal_create_isolate λ f w. created (f w)

  unfoldable pub tear_down_isolate : Library W → ℕ → W → Run W (Option (Unit {0}))
  tear_down_isolate svm_library isolate_thread =
      with_symbol svm_library.graal_tear_down_isolate λ f w.
        let (err, w') = f isolate_thread w in if err == 0 then done (some tt) w' else done none w'

  -- The fields behind the thread, in their order.
  unfoldable pub with_thread : Library W → ℕ → W → Run W (Option (SvmIsolateThread W))
  with_thread svm_library thread = with_symbol svm_library.svm_instr_instrument λ f.
      with_symbol svm_library.svm_instr_free λ g w.
        done
          (some (record {
            isolate_thread = thread;
            svm_instr_instrument_fn = f;
            svm_instr_free_fn = g;
            svm_library = svm_library;
          }))
          w

  unfoldable pub with_library : Option (Library W) → W → Run W (Option (SvmIsolateThread W))
  with_library none w = done none w
  with_library (some svm_library) w =
      try_run (create_isolate svm_library w) (with_thread svm_library)

  -- `new_from_library_path`; `load` is `Library::new`.
  unfoldable pub new_from_library_path :
      (Text → W → Option (Library W) × W) → Text → W → Run W (Option (SvmIsolateThread W))
  new_from_library_path load path w =
      let (svm_library, w') = load path w in with_library svm_library w'

  abbrev pub instrumented : ℕ → Jint → ℕ → W → Run W (Option SvmInstrBuffer)
  instrumented err (negative n) out_buf w = panicked failed_conversion w
  instrumented err (nonneg n) out_buf w =
      if err == 0 then done (some (record { ptr = out_buf; size = n })) w else done none w

  -- An out-parameter that was not written is read all the same.
  abbrev pub assume_init : Instrumented W → Run W (Option SvmInstrBuffer)
  assume_init r = elim r.size [
    | none ↦ undefined
    | some n ↦ elim r.buffer [ none ↦ undefined | some b ↦ instrumented r.status n b r.world ]
  ]

  -- `slice::from_raw_parts`: the bytes at some addresses, which have to be readable; `read` is the
  -- memory of the process, and none a fault.
  abbrev pub followed_by : ℕ → Run W Text → Run W Text
  followed_by b (done bs w) = done (b ∷ bs) w
  followed_by b (panicked p w) = panicked p w
  followed_by b undefined = undefined

  unfoldable pub from_raw_parts : (ℕ → W → Option ℕ) → ℕ → ℕ → W → Run W Text
  from_raw_parts read p zero w = done [] w
  from_raw_parts read p (suc n) w = elim (read p w) [
    | none ↦ undefined
    | some b ↦ followed_by b (from_raw_parts read (p + 1) n w)
  ]

  -- `SvmInstrBuffer::as_slice`
  unfoldable pub as_slice : (ℕ → W → Option ℕ) → SvmInstrBuffer → W → Run W Text
  as_slice read self w = from_raw_parts read self.ptr self.size w

  unfoldable pub svm_instr_instrument :
      SvmIsolateThread W → Text → W → Run W (Option SvmInstrBuffer)
  svm_instr_instrument self in_buf w =
      if ltb (length in_buf) (2 ^ 31)
      then assume_init (self.svm_instr_instrument_fn self.isolate_thread (length in_buf) in_buf w)
      else panicked failed_conversion w

  unfoldable pub svm_instr_free :
      SvmIsolateThread W → SvmInstrBuffer → W → Run W (Option (Unit {0}))
  svm_instr_free self buf w = done (some tt) (self.svm_instr_free_fn self.isolate_thread buf.ptr w)

  abbrev pub unwrap_unit : Run W (Option (Unit {0})) → Run W (Option (Unit {0}))
  unwrap_unit (done none w) = panicked null_result w
  unwrap_unit (done (some _) w) = done (some tt) w
  unwrap_unit (panicked p w) = panicked p w
  unwrap_unit undefined = undefined

  -- `drop`
  unfoldable pub drop : SvmIsolateThread W → W → Run W (Option (Unit {0}))
  drop self w = unwrap_unit (tear_down_isolate self.svm_library self.isolate_thread w)
