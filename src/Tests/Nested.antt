-- ===== src/Tests/Nested.antt =====
-- A start of the VM within each call of another.
use phasic_j.Agent.Life.{Reach, here, next, vm_start, IsAlive}
use phasic_j.Agent.Life.AfterLoad.{Works}
use phasic_j.Agent.Life.Nested.{alone, around, busy, busy_jni, nested-Works}
use phasic_j.Base.{ℕ, refl, codes, arith, true, is_utf8, utf8_run, follow, lead}
use phasic_j.Host.{Host, JniTable}
use phasic_j.Jvm.Events.{nonneg}
use phasic_j.Jvm.Events.Start.{pj_vm_start-unchecked}
use phasic_j.Jvm.RawEnvStorage.{null}
use phasic_j.Jvm.World.{World}
use phasic_j.Recorder.Steps as Recording
use phasic_j.Tests.Fixtures.{Machine, jvm, jvm_storage}
use phasic_j.Tests.Hook.{class}
use phasic_j.Tests.Jvm.{jar_host, jni, find, get, call, plain_conf}
use phasic_j.Tests.Life.{alive, class-Writes, harmless, living_world}

-- What the inner start makes of the world.
abbrev start_within : World Machine → World Machine
start_within w = call 5 null w

start_within-Reach :
    (w : World Machine) → (k : ℕ) × Reach (jvm_storage true) jar_host jni w (start_within w) k
start_within-Reach w = (
  0,
  next (here refl)
      (vm_start (pj_vm_start-unchecked jni find get call refl refl refl w (λ e. cc))
        (Recording.here refl))
      refl,
)

abbrev busy_host : Host Machine
busy_host = busy start_within jar_host

abbrev busy_table : JniTable Machine
busy_table = busy_jni start_within jni

abbrev begun : World Machine
begun = start_within (call 5 null (start_within (start_within living_world)))

begun-Reach : Reach (jvm_storage true) busy_host busy_table living_world begun 0
begun-Reach =
    next (here refl)
      (vm_start (pj_vm_start-unchecked busy_table _ _ _ refl refl refl living_world (λ e. cc))
        (Recording.here refl))
      refl

busy-IsAlive : IsAlive (jvm_storage true) busy_host busy_table plain_conf 0 living_world 0
busy-IsAlive = record { stored = alive.stored; started = alive.started }

nested-Works_example :
    IsAlive (jvm_storage true) busy_host busy_table plain_conf 0 begun 0
    × Works (jvm true) busy_host plain_conf begun 0 0 (codes "a/B") (nonneg 2) class
unfolding codes is_utf8 utf8_run follow lead
nested-Works_example =
    nested-Works (jvm_storage true) jar_host jni harmless (codes "a/B") (nonneg 2) class
      (around alone start_within start_within-Reach) class-Writes busy-IsAlive begun-Reach refl
      (omega arith)
