-- ===== src/RtJar/Keeps.antt =====
-- The writing of the jar leaves the agent's memory alone.
use phasic_j.Base.{inl, inr, Bool-cases, Text, Option, none, some}
use phasic_j.FilePath.{parent}
use phasic_j.Host.{Host, JniTable, io}
use phasic_j.Jvm.Ends.{Ends, Ends-try}
use phasic_j.Jvm.EnvStorage.Kept.{Undisturbed, Undisturbed-refl, Undisturbed-trans}
use phasic_j.Jvm.Jvmti.{JvmtiTable}
use phasic_j.Jvm.Jvmti.Lawful.{IsStorage}
use phasic_j.Jvm.World.{World}
use phasic_j.RtJar.{write_rt_jar, write_below, write_rt_jar_file_if_missing}
use phasic_j.Jvm.Harmless.{AreHarmless}

module _ {X : Type 0} {env : JvmtiTable X} (S : IsStorage env) (host : Host X) {jni : JniTable X}
    (H : AreHarmless S host.files host.processes jni) (w₀ : World X) where
  abbrev Since : World X → Type 0
  Since = Undisturbed S w₀

  write_below-Ends :
      (rt_jar path : Text) (dir : Option Text)
      → Ends Since (write_below host.files rt_jar path dir w₀)
  unfolding write_below write_rt_jar
  write_below-Ends rt_jar path none = Undisturbed-refl S w₀
  write_below-Ends rt_jar path (some dir) =
      Ends-try Since (io (host.files.create_dir_all dir)) _ w₀ (H.create_dir_all dir w₀) λ _ w₁ h₁.
        Ends-try Since (io (host.files.create path)) _ w₁
          (Undisturbed-trans S h₁ (H.create path w₁))
          λ fd w₂ h₂.
            Ends-try Since (io (host.files.write_all fd rt_jar)) _ w₂
              (Undisturbed-trans S h₂ (H.write_all fd rt_jar w₂))
              λ _ w₃ h₃.
                Ends-try Since (io (host.files.sync_all fd)) _ w₃
                  (Undisturbed-trans S h₃ (H.sync_all fd w₃)) λ _ w₄ h₄. h₄

  -- `write_rt_jar_file_if_missing` leaves the agent's memory alone, on every branch.
  pub write_rt_jar_file_if_missing-Ends :
      (rt_jar path : Text) → Ends Since (write_rt_jar_file_if_missing host.files rt_jar path w₀)
  unfolding write_rt_jar_file_if_missing
  write_rt_jar_file_if_missing-Ends rt_jar path = elim (Bool-cases (host.files.exists path w₀)) [
    | inl e ↦ rw e (Undisturbed-refl S w₀)
    | inr e ↦ rw e (write_below-Ends rt_jar path (parent path))
  ]
