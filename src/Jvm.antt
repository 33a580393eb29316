-- ===== src/Jvm.antt =====
-- agent/jvm.rs: the modules of the agent that talk to the JVM.
pub mod Ends
pub mod Harmless
pub mod RawEnvStorage
pub mod World
pub mod Jvmti
pub mod EnvStorage
pub mod JniEnv
pub mod Setup
pub mod Events
