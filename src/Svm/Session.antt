-- ===== src/Svm/Session.antt =====
-- Any use of an isolate, from its making to its drop.
use mathlib.Core.Path.{subst}
use phasic_j.Base.{
  ℕ, ◌+◌, ◌≡◌, ◌∙◌, refl, inl, inr, arith, Text, Option, none, some, Option-cases, Bool-cases,
  length, ltb, ◌^◌, ◌==◌,
}
use phasic_j.Svm.{
  Created, Instrumented, Library, SvmIsolateThread, SvmInstrBuffer, create_isolate, created,
  assume_init, tear_down_isolate, with_thread, with_library, new_from_library_path,
  svm_instr_instrument, svm_instr_free, drop, with_symbol, try_run,
}
use phasic_j.Jvm.Events.{nonneg, negative}
use phasic_j.Panic.{Run, done, panicked, undefined}
use phasic_j.Svm.Isolates.{IsGraal}

module _ {W : Type 0} (self : SvmIsolateThread W) where
  -- A call that returns, with a result or an error. A buffer need not be one of the isolate's.
  pub data Use (w : W) : W → Type 0 where
    instruments :
        (class : Text) (r : Option SvmInstrBuffer) {t : W}
        → svm_instr_instrument self class w ≡ done r t
        → Use w t
    frees :
        (buf : SvmInstrBuffer) (r : Option (Unit {0})) {t : W}
        → svm_instr_free self buf w ≡ done r t
        → Use w t

  pub data Uses (w : W) : W → Type 0 where
    here : Uses w w
    next : {t u : W} → Uses w t → Use t u → Uses w u

-- The world of a run that returns has a property.
abbrev In : {W A : Type 0} → (W → Type 0) → Run W A → Type 0
In P (done a w) = P w
In P (panicked p w) = Unit
In P undefined = Unit

with_symbol-cases :
    {W F A : Type 0} (P : Run W (Option A) → Type 0) (s : Option F) (k : F → W → Run W (Option A))
    (w : W)
    → P (done none w)
    → ((f : F) → s ≡ some f → P (k f w))
    → P (with_symbol s k w)
with_symbol-cases P none k w z rest = z
with_symbol-cases P (some f) k w z rest = rest f refl

created-cases :
    {W : Type 0} (P : Run W (Option ℕ) → Type 0) (r : Created W)
    → P undefined
    → P (done none r.world)
    → ((thread : ℕ) → r.status ≡ 0 → P (done (some thread) r.world))
    → P (created r)
created-cases P r u z rest = elim (Option-cases r.thread) [
  | inl e ↦ rw e u
  | inr (thread, e) ↦ elim (Bool-cases (r.status == 0)) [
    | inl s ↦ rw (e, s) (rest thread (ground arith))
    | inr s ↦ rw (e, s) z
  ]
]

module _ {W : Type 0} {lib : Library W} (G : IsGraal lib) where
  -- An isolate that has been made in the library, in one world, from another.
  record IsOf (w₀ : W) (self : SvmIsolateThread W) (w₁ : W) : Type 0 where
    pub library : self.svm_library ≡ lib
    pub instrument : lib.svm_instr_instrument ≡ some self.svm_instr_instrument_fn
    pub free : lib.svm_instr_free ≡ some self.svm_instr_free_fn
    pub alive : G.isolates w₁ ≡ G.isolates w₀ + 1

  abbrev Made : W → Run W (Option (SvmIsolateThread W)) → Type 0
  Made w₀ (done none w) = Unit
  Made w₀ (done (some self) w) = IsOf w₀ self w
  Made w₀ (panicked p w) = Unit
  Made w₀ undefined = Unit

  with_thread-Made :
      (w₀ w₁ : W) (thread : ℕ)
      → G.isolates w₁ ≡ G.isolates w₀ + 1
      → Made w₀ (with_thread lib thread w₁)
  unfolding with_thread
  with_thread-Made w₀ w₁ thread alive =
      with_symbol-cases (Made w₀) lib.svm_instr_instrument _ w₁ tt λ f e.
        with_symbol-cases (Made w₀) lib.svm_instr_free _ w₁ tt
          λ g k. record { library = refl; instrument = e; free = k; alive = alive }

  with_library-Made : (w₀ : W) → Made w₀ (with_library (some lib) w₀)
  unfolding with_library create_isolate
  with_library-Made w₀ =
      let Then : Run W (Option ℕ) → Type 0 = λ r. Made w₀ (try_run r (with_thread lib)) in
      with_symbol-cases Then lib.graal_create_isolate _ w₀ tt λ f e.
        created-cases Then (f w₀) tt tt
          λ thread s. with_thread-Made w₀ (f w₀).world thread (G.create_lem f w₀ e s)

  module _ (self : SvmIsolateThread W)
      (instrument : lib.svm_instr_instrument ≡ some self.svm_instr_instrument_fn)
      (free : lib.svm_instr_free ≡ some self.svm_instr_free_fn) where
    abbrev Same : W → W → Type 0
    Same w t = G.isolates t ≡ G.isolates w

    assume_init-In : (P : W → Type 0) (r : Instrumented W) → P r.world → In P (assume_init r)
    assume_init-In P r h = elim (Option-cases r.size) [
      | inl e ↦ rw e tt
      | inr (nonneg n, e) ↦ elim (Option-cases r.buffer) [
        | inl k ↦ rw (e, k) tt
        | inr (b, k) ↦ elim (Bool-cases (r.status == 0)) [
          | inl s ↦ rw (e, k, s) h
          | inr s ↦ rw (e, k, s) h
        ]
      ]
      | inr (negative n, e) ↦ elim (Option-cases r.buffer) [
        | inl k ↦ rw (e, k) tt
        | inr (b, k) ↦ rw (e, k) tt
      ]
    ]

    instrument-In : (class : Text) (w : W) → In (Same w) (svm_instr_instrument self class w)
    unfolding svm_instr_instrument
    instrument-In class w = elim (Bool-cases (ltb (length class) (2 ^ 31))) [
      | inr e ↦ rw e tt
      | inl e ↦ rw e (
          assume_init-In (Same w)
            (self.svm_instr_instrument_fn self.isolate_thread (length class) class w)
            (G.instrument_lem self.svm_instr_instrument_fn self.isolate_thread (length class) class
              w instrument))
    ]

    Use-Same : {w t : W} → Use self w t → Same w t
    unfolding svm_instr_free
    Use-Same {w} (instruments class r e) = subst (In (Same w)) e (instrument-In class w)
    Use-Same {w} (frees buf r e) =
        subst (In (Same w)) e (G.free_lem self.svm_instr_free_fn self.isolate_thread buf.ptr w free)

    Uses-Same : {w t : W} → Uses self w t → Same w t
    Uses-Same here = refl
    Uses-Same (next before use_it) = Use-Same use_it ∙ Uses-Same before

  -- Whatever calls of svm_instr_instrument and svm_instr_free return on an isolate that
  -- new_from_library_path has made, with results or errors and with any buffers: if the library
  -- then reports that the tear-down succeeds, drop returns, and as many isolates are alive as when
  -- the library had been loaded.
  pub drop-Uses :
      (load : Text → W → Option (Library W) × W) (path : Text) {w w₀ w₁ t : W}
      {self : SvmIsolateThread W} {tear_down : ℕ → W → ℕ × W}
      → load path w ≡ (some lib, w₀)
      → new_from_library_path load path w ≡ done (some self) w₁
      → Uses self w₁ t
      → lib.graal_tear_down_isolate ≡ some tear_down
      → (tear_down self.isolate_thread t).0 ≡ 0
      → let end = (tear_down self.isolate_thread t).1 in
        (drop self t ≡ done (some tt) end) × (G.isolates end ≡ G.isolates w₀)
  unfolding new_from_library_path drop tear_down_isolate
  drop-Uses load path {w} {w₀} {w₁} {t} {self} {tear_down} loaded made uses has down =
      let of : IsOf w₀ self w₁ = subst (Made w₀) (rw loaded at made) (with_library-Made w₀) in
      (
        rw (of.library, has, down) refl,
        omega (
          arith,
          of.alive,
          Uses-Same self of.instrument of.free uses,
          G.tear_down_lem tear_down self.isolate_thread t has down,
        ),
      )
