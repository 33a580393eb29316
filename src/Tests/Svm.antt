-- ===== src/Tests/Svm.antt =====
-- The theorems on isolates with a small library.
use mathlib.Core.Option.{some-injective}
use phasic_j.Base.{
  ℕ, ◌+◌, ◌-◌, ◌≡◌, inr, refl, arith, Text, codes, Option, none, some, [], ◌∷◌, ◌==◌, if◌then◌else◌,
}
use phasic_j.Jvm.Events.{nonneg}
use phasic_j.Panic.{done}
use phasic_j.Svm.{
  Created, InstrumentFn, FreeFn, Library, SvmIsolateThread, SvmInstrBuffer, new_from_library_path,
  svm_instr_instrument, svm_instr_free, drop, with_library, create_isolate, with_thread,
}
use phasic_j.Svm.Session.{Uses, here, next, instruments, frees, drop-Uses}
use phasic_j.Svm.Isolates.{IsGraal, new_from_library_path-leaks}

-- The world is the number of isolates that are alive.
abbrev create : ℕ → Created ℕ
create w = record { status = 0; thread = some 7; world = w + 1 }

abbrev tear_down : ℕ → ℕ → ℕ × ℕ
tear_down t w = (if w == 0 then 1 else 0, w - 1)

abbrev instr : InstrumentFn ℕ
instr t n class w = record { status = 0; size = some (nonneg (n + 1)); buffer = some 40; world = w }

abbrev release : FreeFn ℕ
release t b w = w

abbrev library : Option (FreeFn ℕ) → Library ℕ
library f = record {
  graal_create_isolate = some create;
  graal_tear_down_isolate = some tear_down;
  svm_instr_instrument = some instr;
  svm_instr_free = f;
}

abbrev load : Option (FreeFn ℕ) → Text → ℕ → Option (Library ℕ) × ℕ
load f path w = (some (library f), w)

tear_down_lem : (t w : ℕ) → (tear_down t w).0 ≡ 0 → (tear_down t w).1 + 1 ≡ w
tear_down_lem t w h = ground arith

create-one_more : (f : ℕ → Created ℕ) (w : ℕ) → some create ≡ some f → (f w).world ≡ w + 1
create-one_more f w e = rw (← some-injective _ _ e) refl

tear_down-one_less :
    (f : ℕ → ℕ → ℕ × ℕ) (t w : ℕ) → some tear_down ≡ some f → (f t w).0 ≡ 0 → (f t w).1 + 1 ≡ w
tear_down-one_less f t w e = rw (← some-injective _ _ e) (tear_down_lem t w)

instr-keeps :
    (f : InstrumentFn ℕ) (t n : ℕ) (class : Text) (w : ℕ)
    → some instr ≡ some f
    → (f t n class w).world ≡ w
instr-keeps f t n class w e = rw (← some-injective _ _ e) refl

release-keeps : (f : FreeFn ℕ) (t b w : ℕ) → some release ≡ some f → f t b w ≡ w
release-keeps f t b w e = rw (← some-injective _ _ e) refl

missing-keeps : (f : FreeFn ℕ) (t b w : ℕ) → ◌≡◌ {A = Option (FreeFn ℕ)} none (some f) → f t b w ≡ w
missing-keeps f t b w e = cc

abbrev full : IsGraal (library (some release))
full = record {
  isolates = λ w. w;
  create_lem = λ f w e s. create-one_more f w e;
  tear_down_lem = tear_down-one_less;
  instrument_lem = instr-keeps;
  free_lem = release-keeps;
}

abbrev lacking_free : IsGraal (library none)
lacking_free = record {
  isolates = λ w. w;
  create_lem = λ f w e s. create-one_more f w e;
  tear_down_lem = tear_down-one_less;
  instrument_lem = instr-keeps;
  free_lem = missing-keeps;
}

abbrev path : Text
path = codes "libsvm.so"

-- The library has no `svm_instr_free`.
new_from_library_path-leaks_example :
    (new_from_library_path (load none) path 0 ≡ done none 1)
    × (lacking_free.isolates 1 ≡ lacking_free.isolates 0 + 1)
new_from_library_path-leaks_example =
    new_from_library_path-leaks lacking_free (load none) path 0 0 refl create refl 7 refl refl
      (inr refl)

abbrev session_isolate : SvmIsolateThread ℕ
session_isolate = record {
  isolate_thread = 7;
  svm_instr_instrument_fn = instr;
  svm_instr_free_fn = release;
  svm_library = library (some release);
}

abbrev out : SvmInstrBuffer
out = record { ptr = 40; size = 3 }

-- A class is instrumented twice, and one buffer is given back.
session : Uses session_isolate 1 1
unfolding svm_instr_instrument svm_instr_free
session =
    next
      (next (next here (instruments (0xCA ∷ 0xFE ∷ []) (some out) refl))
        (instruments (0xCA ∷ 0xFE ∷ []) (some out) refl))
      (frees out (some tt) refl)

drop-Uses_example :
    (drop session_isolate 1 ≡ done (some tt) 0) × (full.isolates 0 ≡ full.isolates 0)
unfolding new_from_library_path with_library create_isolate with_thread
drop-Uses_example =
    drop-Uses full (load (some release)) path {w = 0} {w₀ = 0} {w₁ = 1} {t = 1} refl refl session
      refl refl
