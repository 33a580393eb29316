-- ===== src/Tests/Entry.antt =====
-- The isolate's functions with a small memory.
use phasic_j.Base.{
  ℕ, ◌≡◌, ◌<◌, ◌-◌, ◌+◌, refl, arith, true, false, none, some, ◌==◌, ltb, ltb_of_lt, if◌then◌else◌,
}
use phasic_j.Java.Cli.{instrumented}
use phasic_j.Java.Entry.{Memory, entry, entry_free}
use phasic_j.Java.Entry.Received.{IsMemory, Answers, svm_instr_instrument-entry}
use phasic_j.Svm.{SvmIsolateThread, svm_instr_instrument}
use phasic_j.Tests.Java.{asm, resource, file}

-- A memory that never gives an address again.
record Heap : Type 0 where
  next : ℕ
  live : ℕ
  byte : ℕ → ℕ

abbrev memory : Memory Heap
memory = record {
  malloc = λ n w. (w.next, record w { next = w.next + n; live = w.live + 1 });
  free = λ p w. record w { live = w.live - 1 };
  read = λ p w. if ltb p w.next then some (w.byte p) else none;
  write = λ p b w. record w { byte = λ q. if q == p then b else w.byte q };
}

read_written : (p b : ℕ) (w : Heap) → p < w.next → memory.read p (memory.write p b w) ≡ some b
read_written p b w lt =
    let same : (p == p) ≡ true = ground arith in rw (ltb_of_lt p w.next lt, same) refl

read_other :
    (p q b : ℕ) (w : Heap) → (p ≡ q → ⊥) → memory.read q (memory.write p b w) ≡ memory.read q w
read_other p q b w apart = let other_one : (q == p) ≡ false = ground arith in rw other_one refl

abbrev memory_lawful : IsMemory memory
memory_lawful = record {
  HasAddress = λ p w. p < w.next;
  IsBlock = λ p w. 0 < w.live;
  blocks = λ w. w.live;
  malloc_address = λ n k w some_block lt. omega arith;
  malloc_block = λ n w some_block. (omega arith, refl);
  write_address = λ p q b w lt. lt;
  write_block = λ p b q w lt alive. (alive, refl);
  read_written = λ p b w lt. read_written p b w lt;
  read_other = λ p q b w lt apart. read_other p q b w apart;
  free_block = λ p w alive. omega arith;
}

abbrev isolate : SvmIsolateThread Heap
isolate = record {
  isolate_thread = 7;
  svm_instr_instrument_fn = entry memory asm resource;
  svm_instr_free_fn = entry_free memory;
  svm_library = record {
    graal_create_isolate = none;
    graal_tear_down_isolate = none;
    svm_instr_instrument = some (entry memory asm resource);
    svm_instr_free = some (entry_free memory);
  };
}

abbrev heap : Heap
heap = record { next = 8; live = 0; byte = λ p. 0 }

svm_instr_instrument-entry_example :
    Answers memory_lawful isolate
      (instrumented asm resource (file 5))
      heap
      (svm_instr_instrument isolate (file 5) heap)
svm_instr_instrument-entry_example =
    svm_instr_instrument-entry memory_lawful asm resource isolate refl refl (file 5) heap
      (omega arith) (λ out e null. omega (arith, null))
