-- ===== src/Recorder/Delivery.antt =====
-- The forwarding threads can always deliver what has been sent.
use native.Mathlib.Nat.{add-zero, add_assoc}
use phasic_j.Base.{true, ℕ, zero, suc, ◌+◌, ◌≡◌, refl, sym, ap, ◌∙◌, arith, some, false, length}
use phasic_j.Recorder.{
  receiving, Channel, Recorder, get_channel, set_channel, start_forwarding_worker_thread,
}
use phasic_j.Recorder.Steps.{
  left_by, deliver, Reach, here, next, get-set, start-IsStarted, Reach-IsStarted,
}

Reach-trans : {r s t : Recorder} {k j : ℕ} → Reach r s k → Reach s t j → Reach r t (k + j)
Reach-trans {r} {s} {t} {k} f (here e) = rw (e, add-zero) f
Reach-trans {r} {s} {t} {k} f (next {k = a} {j = b} before step e) =
    next (Reach-trans f before) step (ap (λ n. k + n) e ∙ sym (add_assoc k a b))

-- The forwarding thread of a channel takes its messages one by one.
drain :
    (r : Recorder) (i n m : ℕ)
    → get_channel r.channels i ≡ some (record { queued = n; received = m; worker = receiving })
    → (t : Recorder) × Reach r t 0
      × (get_channel t.channels i
          ≡ some (record { queued = 0; received = m + n; worker = receiving }))
drain r i zero m e = (r, here refl, rw add-zero e)
drain r i (suc n) m e =
    let c : Channel = record { queued = n; received = m + 1; worker = receiving } in
    let s : Recorder = record r { channels = set_channel r.channels i c } in
    let (t, run, f) = drain s i n (m + 1) (get-set r.channels i _ c e) in
    let sum : m + 1 + n ≡ m + suc n = omega arith in
    (
      t,
      Reach-trans (next (here refl) (deliver i n m refl e) refl) run,
      f ∙ ap (λ k. some (record { queued = 0; received = k; worker = receiving })) sum,
    )

-- After start_forwarding_worker_thread on a recorder that is not poisoned, where the thread can be
-- made, and any run of the application's and the forwarding threads, the forwarding thread of the
-- new channel can go on, with no further event, until its queue is empty and it has received every
-- event sent since the start.
pub delivery_after_start :
    (r : Recorder) {t : Recorder} {k : ℕ}
    → r.poisoned ≡ false
    → Reach (left_by (start_forwarding_worker_thread true r) r) t k
    → (t' : Recorder) × Reach t t' 0
      × (get_channel t'.channels (length r.channels)
          ≡ some (record { queued = 0; received = k; worker = receiving }))
delivery_after_start r {t} {k} sound run =
    let h = Reach-IsStarted run (start-IsStarted r sound) in
    let (t', more, e) = drain t (length r.channels) h.queued h.received h.channel in
    let all : h.received + h.queued ≡ k = omega (arith, h.counted) in
    (t', more, e ∙ ap (λ n. some (record { queued = 0; received = n; worker = receiving })) all)
