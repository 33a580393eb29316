-- ===== src/Tests.antt =====
-- A small JVM on which the code runs, and the theorems at concrete inputs.
mod Body
mod ConfSuite
mod Daemon
mod Entry
mod Files
mod Fixtures
mod Hook
mod Java
mod Jvm
mod Life
mod Nested
mod Observed
mod Options
mod Recorder
mod Services
mod Storage
mod Svm
mod Tasks
mod Threads
