-- ===== src/Lib.antt =====
-- The PhasicJ agent, its instrumenter, and its events daemon.
--
-- PhasicJ observes the monitors of a Java program. A JVM loads the agent, a shared library written
-- in Rust. The agent reads its options, keeps them in the JVM, asks the JVM for its class hooks,
-- has each class instrumented by the program `phasicj` as it is loaded, and takes the events that
-- the instrumented classes send. `phasicj` is written in Java: it reads a class, puts a call before
-- each monitor instruction, adds the methods that are called to java.lang.Object, and prints the
-- class. The daemon records events in an SQLite database.
--
-- The parts, and the files that model them:
--   phasicj/agent/conf/src/lib.rs and PjAgentConfLang.pest: Conf and Conf/Grammar. Each rule of the
--     grammar is a function on the bytes of the options; `new_from_agent_options_list_str` applies
--     the options. Conf/Apply has the description of a list of settings (`outcome`), Conf/Render a
--     printer with free spacing and values in quotes or not, Conf/Render/Accepted the way
--     back from a parsed text to its settings. Tests/ConfSuite runs the cases of conf/src/test.rs.
--   phasicj/agent/jvm/env_storage.rs: Jvm/EnvStorage and Jvm/RawEnvStorage. `init`, `of` and `free`
--     on the JVM's environment-local storage.
--   phasicj/agent/jvm/jvmti_env.rs and jni_env.rs: Jvm/Jvmti and Jvm/JniEnv. The checked calls of
--     the JVM's function tables.
--   phasicj/agent/jvm/setup.rs: Jvm/Setup. phasicj/agent/jvm/events.rs: Jvm/Events.
--   phasicj/agent/agent.rs and jvm/entrypoints.rs: Agent. Agent/Life has the runs of a JVM behind
--     `Agent_OnLoad`: callbacks in any order, with events of the application and steps of the
--     forwarding threads between and during them. Agent/Life/Nested has callbacks within the calls
--     of others; Agent/Life/Observed puts the agent, `phasicj` and the runtime in Java together.
--   phasicj/agent/recorder.rs: Recorder; Recorder/Steps has the steps of the threads.
--   phasicj/agent/debug.rs: Debug. phasicj/agent/rt/embed/lib.rs: RtJar.
--   phasicj/agent/instr/rust/lib.rs: Instr, the agent's side of `phasicj`.
--   phasicj/agent/instr/MonitorInsnInstrumenter.java, Amendment.java and Instrumenter.java:
--     Java/Instrument, on a class as the events that ASM makes of it (Java/Classes).
--     Java/Instrument/Flow has the runs of a body (Runs): each instruction but a call of the
--     handler may go on at any label of the body, or leave it, which allows more than bytecode
--     does.
--   phasicj/agent/instr/cli/Cli.java, behind phasicj/cli: Java/Cli. Java/Cli/Hooked puts it behind
--     the agent's class hook.
--   phasicj/agent/rt: Java/Runtime, the methods that instrumented classes call, each as a whole.
--     Java/Runtime/Threads has them as interleaved threads, with one step for each shared access.
--   phasicj/agent/instr/experimental/svm/Instrumenter.java: Java/Entry.
--   phasicj/daemon/rtevents.rs, main.rs, cli.rs and tests/sqlite_replay_client/main.rs: Daemon.
--     `begin` is main up to the serving, `main` the whole of it. There the requests are served one
--     after the other; Daemon/Tasks has the calls of `record_events` as tasks that run at the same
--     time, with one step for each access to the mutex or the database. The replay client reaches
--     the daemon behind its socket, and each of its requests is delivered, lost, or unanswered
--     (Transport). SQLite executes the text of each statement.
--   phasicj/services/util/tonic/uds.rs: Uds, the wrapper of Unix sockets, with the stream of the
--     accepted connections that each server makes.
--   phasicj/services/rtevents/rust/test: Services, a server and a client that try out the service.
--   phasicj/agent/experimental/svm/rust/lib.rs: Svm. The isolate that is loaded from a shared
--     library; Svm/Isolates and Svm/Session count the isolates.
--   phasicj/agent/experimental/svm/rust/embed/lib.rs: Svm/Embed.
--   architecture/prototypes/integration/pt_rust_grpc_ipc: Greeter, the prototype of the services;
--     Greeter/Unix is its own wrapper of Unix sockets.
--
-- Panics are values (Panic). The agent's code acts on a world (Jvm/World): the memory that the JVM
-- has allocated for it, as a list of blocks; its recorder; and a host of unknown type, for all that
-- the JVM and the operating system keep. A computation returns, panics, or is undefined, as where
-- the source reads through a pointer that is null or dangles. Texts are lists of bytes.
--
-- What is not under this repository is a parameter: the JVM's function tables (Jvm/Jvmti, Host),
-- files and processes (Host), the embedded jar, library and hashes, SQLite, Tokio's runtime, clap's
-- parser and tonic's server (Daemon), Tokio's stream (Uds), the request that tonic makes of a call
-- (Services/Session, Greeter/Session), GraalVM's library (Svm) and memory (Java/Entry), and ASM's
-- reader, writer and remapper (Java/Classes). What the theorems rely on of them is documented
-- behaviour, in records of laws: IsStorage and IsConfigurable (Jvm/Jvmti/Lawful), AreHarmless
-- (Jvm/Harmless), IsFiles (RtJar/Missing), KeepsOthers (Svm/Embed/File), IsSqlite (Daemon/Record),
-- IsGraal (Svm/Isolates), IsMemory (Java/Entry/Received) and IsAsm (Java/Cli/Hooked). Of the
-- configured program it is relied on, where a theorem says so, that it writes something if it
-- reports success (Writes, Jvm/Events/Memory), or that it is `phasicj`, runs to its end, and has
-- the exit code that picocli makes of it (RunsPhasicj, Java/Cli/Hooked). Tests has small instances
-- that obey them.
--
-- Bounds: lengths that the source converts to `jlong` and `jint` are checked against 2^63 and 2^31;
-- the layout of the stored struct is that of a 64-bit target. Only the repetition of options in the
-- grammar takes fuel, the length of the text; every round takes a byte, so that is
-- enough.
--
-- Not modelled: log output, the start of the logger, the generated parser (its grammar is),
-- tonic's server and the inside of its transport, two callbacks that overlap with neither of them
-- inside the other (callbacks and other threads act while a callback waits for JNI or the
-- operating system, but not between two instructions of its own), what an instruction of a body
-- does but for the monitors, the getters of the counters, and the prototypes other than the
-- greeter. Two things are left more freedom than they have: a monitor does not keep other threads
-- out, and the steps of the recorder go on behind a panic that leaves an `extern fn` of
-- jvm/entrypoints.rs, where the process may end.
pub mod Base
pub mod Panic
pub mod Conf
pub mod Recorder
pub mod Jvm
pub mod FilePath
pub mod Host
pub mod RtJar
pub mod Instr
pub mod Java
pub mod Greeter
pub mod Debug
pub mod Agent
pub mod Daemon
pub mod Services
pub mod Svm
pub mod Uds
mod Tests
