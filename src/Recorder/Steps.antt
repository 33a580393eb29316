-- ===== src/Recorder/Steps.antt =====
-- The threads of the application and the forwarding thread, interleaved in any order.
use phasic_j.Base.{
  true, ℕ, zero, suc, ◌+◌, ◌≡◌, ◌≢◌, refl, ◌∙◌, sym, ap, false, some, List, [], ◌∷◌, ◌++◌, arith,
  length,
}
use mathlib.Core.Option.{some-injective}
use native.Mathlib.Decide.{ℕ_discrete}
use native.Mathlib.Nat.{add-zero, zero-add, add_assoc}
use phasic_j.Panic.{Run, done, panicked, undefined}
use phasic_j.Recorder.{
  receiving, stopped, Channel, Recorder, fresh_channel, get_channel, set_channel,
  start_forwarding_worker_thread, send, send_to, monitor_enter, monitor_exit,
}

-- The state that an operation leaves, whether it returns or panics.
abbrev pub left_by : Run Recorder (Unit {0}) → Recorder → Recorder
left_by (done a r) r₀ = r
left_by (panicked p r) r₀ = r
left_by undefined r₀ = r₀

-- The steps, with the number of events that each sends. A thread of the forwarder waits while its
-- channel is empty and its sender lives; when the sender is gone `recv` fails, and the thread ends.
-- There are more runs here than the program has: they go on behind a panic of `monitorEnter`.
pub data Step (r : Recorder) : Recorder → ℕ → Type 0 where
  enter : {k : ℕ} → k ≡ 1 → Step r (left_by (monitor_enter r) r) k
  exit : {k : ℕ} → k ≡ 0 → Step r (left_by (monitor_exit r) r) k
  deliver :
      (i n m : ℕ) {k : ℕ}
      → k ≡ 0
      → get_channel r.channels i
        ≡ some (record { queued = suc n; received = m; worker = receiving })
      → Step r
          (record r {
            channels =
                set_channel r.channels i
                  (record { queued = n; received = m + 1; worker = receiving });
          })
          k
  stop :
      (i m : ℕ) {k : ℕ}
      → k ≡ 0
      → r.sender ≢ some i
      → get_channel r.channels i ≡ some (record { queued = 0; received = m; worker = receiving })
      → Step r
          (record r {
            channels =
                set_channel r.channels i (record { queued = 0; received = m; worker = stopped });
          })
          k

-- A run, with the number of calls of `monitorEnter` in it.
pub data Reach (r : Recorder) : Recorder → ℕ → Type 0 where
  here : {k : ℕ} → k ≡ 0 → Reach r r k
  next : {s t : Recorder} {k j n : ℕ} → Reach r s k → Step s t j → n ≡ k + j → Reach r t n

-- The sender's channel has a forwarding thread, and `total` events went into it.
pub record IsStarted (r : Recorder) (i total : ℕ) : Type 0 where
  pub sound : r.poisoned ≡ false
  pub sender : r.sender ≡ some i
  pub queued : ℕ
  pub received : ℕ
  pub channel :
      get_channel r.channels i
      ≡ some (record { queued = queued; received = received; worker = receiving })
  pub counted : queued + received ≡ total

get-append :
    (cs : List Channel) → get_channel (cs ++ fresh_channel ∷ []) (length cs) ≡ some fresh_channel
get-append [] = refl
get-append (c ∷ cs) = get-append cs

pub get-set :
    (cs : List Channel) (i : ℕ) (c d : Channel)
    → get_channel cs i ≡ some c
    → get_channel (set_channel cs i d) i ≡ some d
get-set [] i c d e = cc
get-set (x ∷ cs) zero c d e = refl
get-set (x ∷ cs) (suc i) c d e = get-set cs i c d e

get-set_ne :
    (cs : List Channel) (i j : ℕ) (d : Channel)
    → i ≢ j
    → get_channel (set_channel cs i d) j ≡ get_channel cs j
get-set_ne [] i j d h = refl
get-set_ne (x ∷ cs) zero zero d h = absurd (h refl)
get-set_ne (x ∷ cs) zero (suc j) d h = refl
get-set_ne (x ∷ cs) (suc i) zero d h = refl
get-set_ne (x ∷ cs) (suc i) (suc j) d h = get-set_ne cs i j d (λ e. h (ap suc e))

-- Starting the forwarding thread makes a started recorder, from any recorder that is not poisoned.
pub start-IsStarted :
    (r : Recorder)
    → r.poisoned ≡ false
    → IsStarted (left_by (start_forwarding_worker_thread true r) r) (length r.channels) 0
unfolding start_forwarding_worker_thread
start-IsStarted r h = rw h (record {
  sound = refl;
  sender = refl;
  queued = 0;
  received = 0;
  channel = get-append r.channels;
  counted = refl;
})

-- In a started recorder `monitorEnter` returns, and its event is one more.
pub enter-IsStarted :
    (r : Recorder) (i total : ℕ)
    → IsStarted r i total
    → (r' : Recorder) × (monitor_enter r ≡ done tt r') × IsStarted r' i (total + 1)
unfolding monitor_enter send_to send
enter-IsStarted r i total h = (
  record r {
    channels =
        set_channel r.channels i
          (record { queued = h.queued + 1; received = h.received; worker = receiving });
  },
  rw (h.sound, h.sender, h.channel),
  record {
    sound = h.sound;
    sender = h.sender;
    queued = h.queued + 1;
    received = h.received;
    channel = get-set r.channels i _ _ h.channel;
    counted = omega (arith, h.counted);
  },
)

deliver-IsStarted :
    (r : Recorder) (i total j n m : ℕ)
    → IsStarted r i total
    → get_channel r.channels j ≡ some (record { queued = suc n; received = m; worker = receiving })
    → IsStarted
        (record r {
          channels =
              set_channel r.channels j
                (record { queued = n; received = m + 1; worker = receiving });
        })
        i
        total
deliver-IsStarted r i total j n m h e = elim (ℕ_discrete j i) [
  | yes same ↦
      let here = rw same at e in
      let both : Path Channel (record { queued = suc n; received = m; worker = receiving })
          (record { queued = h.queued; received = h.received; worker = receiving }) =
        some-injective _ _ (sym here ∙ h.channel) in
      record {
        sound = h.sound;
        sender = h.sender;
        queued = n;
        received = m + 1;
        channel = rw same (get-set r.channels i _ _ h.channel);
        counted = omega (arith, ap (λ c. c.queued) both, ap (λ c. c.received) both, h.counted);
      }
  | no apart ↦ record {
    sound = h.sound;
    sender = h.sender;
    queued = h.queued;
    received = h.received;
    channel = get-set_ne r.channels j i _ apart ∙ h.channel;
    counted = h.counted;
  }
]

-- Every step of a started recorder keeps it started, and counts its events.
pub Step-IsStarted :
    {r t : Recorder} {i total k : ℕ} → Step r t k → IsStarted r i total → IsStarted t i (total + k)
unfolding monitor_exit
Step-IsStarted {r} {i} {total} (enter e) h =
    let (r', returns, s) = enter-IsStarted r i total h in rw (returns, e) s
Step-IsStarted {total} (exit e) h = rw (e, add-zero) h
Step-IsStarted {r} {i} {total} (deliver j n m e g) h =
    rw (e, add-zero) (deliver-IsStarted r i total j n m h g)
Step-IsStarted {r} {i} {total} (stop j m e ne g) h =
    rw (e, add-zero)
      (record {
        sound = h.sound;
        sender = h.sender;
        queued = h.queued;
        received = h.received;
        channel =
            get-set_ne r.channels j i _ (λ same. ne (h.sender ∙ ap some (sym same))) ∙ h.channel;
        counted = h.counted;
      })

-- Whatever the interleaving of the threads, a started recorder stays started, and the number of
-- events that are queued or received grows by the number of calls of monitorEnter: no event is
-- lost.
pub Reach-IsStarted :
    {r t : Recorder} {i total k : ℕ} → Reach r t k → IsStarted r i total → IsStarted t i (total + k)
Reach-IsStarted {total} (here e) h = rw (e, add-zero) h
Reach-IsStarted {total} (next {k} {j} before step e) h =
    rw (e, ← add_assoc) (Step-IsStarted step (Reach-IsStarted before h))

-- After start_forwarding_worker_thread on a recorder that is not poisoned, and any run of the
-- application's and the forwarding threads, monitorEnter returns, and the events sent since the
-- start are all queued or received.
enter_after_start :
    (r : Recorder) {t : Recorder} {k : ℕ}
    → r.poisoned ≡ false
    → Reach (left_by (start_forwarding_worker_thread true r) r) t k
    → (t' : Recorder) × (monitor_enter t ≡ done tt t') × IsStarted t' (length r.channels) (k + 1)
enter_after_start r {t} {k} sound run =
    enter-IsStarted t (length r.channels) k
      (rw zero-add at (Reach-IsStarted run (start-IsStarted r sound)))
