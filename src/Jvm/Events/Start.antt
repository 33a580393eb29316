-- ===== src/Jvm/Events/Start.antt =====
-- What `pj_vm_start` calls, and what it leaves.
use phasic_j.Base.{◌≡◌, ◌≢◌, inl, inr, Text, codes, some, Option-cases, ◌==◌}
use phasic_j.Host.{Host, JniTable}
use phasic_j.Jvm.Ends.{Ends, Ends-and_then, Ends-if}
use phasic_j.Jvm.EnvStorage.Kept.{Undisturbed, Undisturbed-refl, Undisturbed-trans}
use phasic_j.Jvm.Events.{enable_instrumentation, pj_vm_start}
use phasic_j.Jvm.JniEnv.{find_class, get_static_method_id, call_static_void_method}
use phasic_j.Jvm.Jvmti.{JvmtiTable}
use phasic_j.Jvm.Jvmti.Lawful.{IsStorage}
use phasic_j.Jvm.RawEnvStorage.{Ptr, null}
use phasic_j.Jvm.World.{World, pure, fail}
use phasic_j.Panic.{done, null_result}
use phasic_j.Jvm.Harmless.{AreHarmless}
use phasic_j.Base.{eq_false_of_ne}

module _ {X : Type 0} (env : JniTable X) (find : Text → World X → Ptr × World X)
    (get : Ptr → Text → Text → World X → Ptr × World X) (call : Ptr → Ptr → World X → World X)
    (has_find : env.find_class ≡ some find) (has_get : env.get_static_method_id ≡ some get)
    (has_call : env.call_static_void_method ≡ some call) (w : World X) where
  -- What the JVM answers to the two lookups, each with the world behind it.
  abbrev pub found_class : Ptr × World X
  found_class = find (codes "java/lang/Object") w

  abbrev pub found_method : Ptr × World X
  found_method =
      get found_class.0 (codes "phasicj$agent$rt$enableInstrumentation") (codes "()V") found_class.1

  -- On a table that has the three functions: if the class is found, pj_vm_start calls the method
  -- whose ID the JVM returned, even if that ID is null since there is no such method, and returns.
  pub pj_vm_start-unchecked :
      found_class.0 ≢ null
      → pj_vm_start env w ≡ done tt (call found_class.0 found_method.0 found_method.1)
  unfolding pj_vm_start enable_instrumentation find_class get_static_method_id
      call_static_void_method
  pj_vm_start-unchecked found =
      let apart = eq_false_of_ne found_class.0 null found in
      rw (has_find, has_get, has_call, apart, apart)

module _ {X : Type 0} {env : JvmtiTable X} (S : IsStorage env) (host : Host X) {jni : JniTable X}
    (H : AreHarmless S host.files host.processes jni) (w₀ : World X) where
  abbrev Since : World X → Type 0
  Since = Undisturbed S w₀

  find_class-Ends : (name : Text) (w : World X) → Since w → Ends Since (find_class jni name w)
  unfolding find_class
  find_class-Ends name w h = elim (Option-cases jni.find_class) [
    | inl e ↦ rw e h
    | inr (f, e) ↦
        let h' = Undisturbed-trans S h (H.find_class f name w e) in
        rw e (
          Ends-if Since ((f name w).0 == null) (fail null_result) (pure (f name w).0) (f name w).1
            h' h')
  ]

  get_static_method_id-Ends :
      (cls : Ptr) (name sig : Text) (w : World X)
      → Since w
      → Ends Since (get_static_method_id jni cls name sig w)
  unfolding get_static_method_id
  get_static_method_id-Ends cls name sig w h = elim (Option-cases jni.get_static_method_id) [
    | inl e ↦ rw e h
    | inr (f, e) ↦
        let r = f cls name sig w in
        let h' = Undisturbed-trans S h (H.get_static_method_id f cls name sig w e) in
        rw e (Ends-if Since (cls == null) (fail null_result) (pure r.0) r.1 h' h')
  ]

  call_static_void_method-Ends :
      (cls method : Ptr) (w : World X)
      → Since w
      → Ends Since (call_static_void_method jni cls method w)
  unfolding call_static_void_method
  call_static_void_method-Ends cls method w h = elim (Option-cases jni.call_static_void_method) [
    | inl e ↦ rw e h
    | inr (f, e) ↦ rw e (Undisturbed-trans S h (H.call_static_void_method f cls method w e))
  ]

  -- `pj_vm_start` leaves the agent's memory alone.
  pub pj_vm_start-Ends : Ends Since (pj_vm_start jni w₀)
  unfolding pj_vm_start enable_instrumentation
  pj_vm_start-Ends =
      Ends-and_then Since _ _ (find_class-Ends _ w₀ (Undisturbed-refl S w₀)) λ cls w₁ h₁.
        Ends-and_then Since _ _ (get_static_method_id-Ends cls _ _ w₁ h₁)
          λ m w₂ h₂. call_static_void_method-Ends cls m w₂ h₂
