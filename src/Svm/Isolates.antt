-- ===== src/Svm/Isolates.antt =====
-- The isolates that agent/experimental/svm/rust/lib.rs creates and tears down.
use phasic_j.Base.{
  ℕ, ◌+◌, ◌<◌, ◌^◌, ◌≡◌, ◌⊎◌, refl, arith, Text, Option, none, some, ltb_of_lt, length,
}
use phasic_j.Jvm.Events.{nonneg}
use phasic_j.Panic.{done}
use phasic_j.Svm.{
  Created, InstrumentFn, FreeFn, Library, SvmIsolateThread, SvmInstrBuffer, create_isolate,
  tear_down_isolate, with_thread, with_library, new_from_library_path, svm_instr_instrument,
  svm_instr_free, drop,
}

-- What is relied on of GraalVM: how many isolates are alive. A creation or a tear-down that reports
-- success makes one more or one less; no other function changes their number.
pub record IsGraal {W : Type 0} (lib : Library W) : Type 0 where
  pub isolates : W → ℕ
  pub create_lem :
      (f : W → Created W) (w : W)
      → lib.graal_create_isolate ≡ some f
      → (f w).status ≡ 0
      → isolates (f w).world ≡ isolates w + 1
  pub tear_down_lem :
      (f : ℕ → W → ℕ × W) (t : ℕ) (w : W)
      → lib.graal_tear_down_isolate ≡ some f
      → (f t w).0 ≡ 0
      → isolates (f t w).1 + 1 ≡ isolates w
  pub instrument_lem :
      (f : InstrumentFn W) (t n : ℕ) (class : Text) (w : W)
      → lib.svm_instr_instrument ≡ some f
      → isolates (f t n class w).world ≡ isolates w
  pub free_lem :
      (f : FreeFn W) (t b : ℕ) (w : W)
      → lib.svm_instr_free ≡ some f
      → isolates (f t b w) ≡ isolates w

module _ {W : Type 0} {lib : Library W} (G : IsGraal lib) (load : Text → W → Option (Library W) × W)
    (path : Text) (w w₀ : W) (loaded : load path w ≡ (some lib, w₀)) (create : W → Created W)
    (has_create : lib.graal_create_isolate ≡ some create) (thread : ℕ)
    (has_thread : (create w₀).thread ≡ some thread) (made : (create w₀).status ≡ 0) where
  -- A library that creates an isolate, but lacks one of the two functions of the instrumenter, is
  -- refused with an error, and the isolate stays alive.
  pub new_from_library_path-leaks :
      (lib.svm_instr_instrument ≡ none) ⊎ (lib.svm_instr_free ≡ none)
      → (new_from_library_path load path w ≡ done none (create w₀).world)
        × (G.isolates (create w₀).world ≡ G.isolates w₀ + 1)
  unfolding new_from_library_path with_library create_isolate with_thread
  new_from_library_path-leaks missing = (
    rw (loaded, has_create, has_thread, made) (ground (arith, missing)),
    G.create_lem create w₀ has_create made,
  )

  module _ {instr : InstrumentFn W} {free : FreeFn W} {tear_down : ℕ → W → ℕ × W}
      (has_instr : lib.svm_instr_instrument ≡ some instr)
      (has_free : lib.svm_instr_free ≡ some free)
      (has_tear_down : lib.graal_tear_down_isolate ≡ some tear_down) where
    -- What `new_from_library_path` makes.
    abbrev pub isolate : SvmIsolateThread W
    isolate = record {
      isolate_thread = thread;
      svm_instr_instrument_fn = instr;
      svm_instr_free_fn = free;
      svm_library = lib;
    }

    -- The worlds behind each call of a session.
    abbrev pub ready : W
    ready = (create w₀).world

    abbrev pub after_instrument : Text → W
    after_instrument class = (instr thread (length class) class ready).world

    abbrev pub after_free : Text → ℕ → W
    after_free class b = free thread b (after_instrument class)

    -- On a library that has all its functions, creates an isolate and instruments a class of less
    -- than 2^31 bytes, a session returns at every call: the isolate is made, gives the buffer of
    -- the instrumented class, takes it back, and is torn down by drop; at the end as many isolates
    -- are alive as when the library had been loaded.
    pub drop-isolates :
        (class : Text) (size buf : ℕ)
        → length class < 2 ^ 31
        → (instr thread (length class) class ready).status ≡ 0
        → (instr thread (length class) class ready).size ≡ some (nonneg size)
        → (instr thread (length class) class ready).buffer ≡ some buf
        → (tear_down thread (after_free class buf)).0 ≡ 0
        → let out : SvmInstrBuffer = record { ptr = buf; size = size } in
          let end = (tear_down thread (after_free class buf)).1 in
          (new_from_library_path load path w ≡ done (some isolate) ready)
          × (svm_instr_instrument isolate class ready ≡ done (some out) (after_instrument class))
          × (svm_instr_free isolate out (after_instrument class)
              ≡ done (some tt) (after_free class buf))
          × (drop isolate (after_free class buf) ≡ done (some tt) end)
          × (G.isolates end ≡ G.isolates w₀)
    unfolding new_from_library_path with_library create_isolate with_thread svm_instr_instrument
        svm_instr_free drop tear_down_isolate
    drop-isolates class size buf small sound has_size has_buffer down = (
      rw (loaded, has_create, has_thread, made, has_instr, has_free),
      rw (ltb_of_lt (length class) (2 ^ 31) small, has_size, has_buffer, sound),
      refl,
      rw (has_tear_down, down),
      omega (
        arith,
        G.create_lem create w₀ has_create made,
        G.instrument_lem instr thread (length class) class ready has_instr,
        G.free_lem free thread buf (after_instrument class) has_free,
        G.tear_down_lem tear_down thread (after_free class buf) has_tear_down down,
      ),
    )
