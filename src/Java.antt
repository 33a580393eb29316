-- ===== src/Java.antt =====
-- The Java side: the program `phasicj`, which instruments a class, and the runtime that instrumented
-- classes call.
pub mod Classes
pub mod Cli
pub mod Entry
pub mod Instrument
pub mod Runtime
