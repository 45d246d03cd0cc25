-- ===== src/Bus/Retry.antt =====
-- When the transmit loop of simulator/bus.py delivers a frame, how long it tries, and in which
-- order the frames get on the bus.
use mathlib.Core.List.{Sublistᴰ}
use native.Mathlib.Decide.{dec_le}
use e3on_canserver.Base.{
  ℕ, zero, suc, ◌+◌, ◌*◌, ◌≤◌, ◌<◌, ◌≡◌, refl, sym, ap, ◌∙◌, subst, ◌≢◌, ◌↔◌, ◌⊎◌, inl, inr, true,
  false, List, [], ◌∷◌, map, arith, Bool-cases, ==-false, All,
}
use e3on_canserver.Bus.{
  tx_retry_max, CanError, retryable, Answer, delivered, failed, Attempted, slept, retry_loop,
  send_with_retry, Message, tx_loop,
}
use e3on_canserver.Bus.Transient.{IsTransient, retryable-IsTransient}

-- Of the attempts from `a` to before `n`, one delivers, and all before it fail transiently.
abbrev pub DeliversBetween : ℕ → ℕ → (ℕ → Answer) → Type 0
DeliversBetween a n answers =
    (i : ℕ) × (a ≤ i)
    × (i < n)
    × (answers i ≡ delivered)
    × ((j : ℕ) → a ≤ j → j < i → IsTransient (answers j))

pub Answer-cases : (r : Answer) → (r ≡ delivered) ⊎ ((e : CanError) × (r ≡ failed e))
Answer-cases delivered = inl refl
Answer-cases (failed e) = inr (e, refl)

-- The three outcomes of an attempt.
pub retry_delivered :
    (k a b : ℕ) (answers : ℕ → Answer)
    → answers a ≡ delivered
    → retry_loop (suc k) a b answers ≡ (1, [])
unfolding retry_loop
retry_delivered k a b answers e = rw (e, retry_loop)

pub retry_given_up :
    (k a b : ℕ) (answers : ℕ → Answer) (x : CanError)
    → answers a ≡ failed x
    → (retryable x ≡ false) ⊎ (a ≡ tx_retry_max)
    → retry_loop (suc k) a b answers ≡ (0, [])
unfolding retry_loop
retry_given_up k a b answers x e h = rw (e, retry_loop) (ground arith)

pub retry_again :
    (k a b : ℕ) (answers : ℕ → Answer) (x : CanError)
    → answers a ≡ failed x
    → retryable x ≡ true
    → a ≢ tx_retry_max
    → retry_loop (suc k) a b answers ≡ slept b (retry_loop k (a + 1) (b * 2) answers)
unfolding retry_loop
retry_again k a b answers x e h n = rw (e, retry_loop) (rw (h, ==-false a tx_retry_max n))

delivers_here :
    (a n : ℕ) (answers : ℕ → Answer) → a < n → answers a ≡ delivered → DeliversBetween a n answers
delivers_here a n answers h e = (a, omega arith, h, e, λ j h1 h2. absurd (omega arith))

delivers_later :
    (a n : ℕ) (answers : ℕ → Answer)
    → IsTransient (answers a)
    → DeliversBetween (a + 1) n answers
    → DeliversBetween a n answers
delivers_later a n answers t (i, h1, h2, e, before) = (
  i,
  omega arith,
  h2,
  e,
  λ j j1 j2. elim (dec_le (a + 1) j) [
    | yes later ↦ before j later j2
    | no here ↦ let same : j ≡ a = omega arith in rw same t
  ],
)

-- A failure at `a` is transient, and the delivery comes later.
delivers_after :
    (a n : ℕ) (answers : ℕ → Answer) (x : CanError)
    → answers a ≡ failed x
    → DeliversBetween a n answers
    → (retryable x ≡ true) × DeliversBetween (a + 1) n answers
delivers_after a n answers x f (i, h1, h2, e, before) = elim (dec_le (a + 1) i) [
  | yes later ↦ (
    (retryable-IsTransient x.error_code x.cause_errno).1
        (subst IsTransient f (before a (omega arith) (omega arith))),
    (i, later, h2, e, λ j j1 j2. before j (omega arith) j2),
  )
  | no here ↦
      let same : i ≡ a = omega arith in
      let clash : answers a ≡ delivered = rw same at e in cc (f, clash)
]

retry_loop-delivers :
    (k a b : ℕ) (answers : ℕ → Answer)
    → a + k ≡ tx_retry_max + 1
    → ((retry_loop k a b answers).0 ≡ 1) ↔ DeliversBetween a (tx_retry_max + 1) answers
retry_loop-delivers zero a b answers h =
    ((λ e. unfold retry_loop in cc e), λ d. absurd (omega (arith, d.1, d.2)))
retry_loop-delivers (suc k) a b answers h = elim (Answer-cases (answers a)) [
  | inl e ↦ (
    (λ _. delivers_here a (tx_retry_max + 1) answers (omega arith) e),
    λ _. rw (retry_delivered k a b answers e),
  )
  | inr (x, e) ↦ elim (Bool-cases (retryable x)) [
    | inr stop ↦ (
      (λ t. cc (ap (λ (r : Attempted). r.0) (retry_given_up k a b answers x e (inl stop)), t)),
      λ d. cc (stop, (delivers_after a (tx_retry_max + 1) answers x e d).0),
    )
    | inl again ↦ elim (dec_le tx_retry_max a) [
      | yes last ↦ (
        (λ t. cc (
          ap (λ (r : Attempted). r.0) (retry_given_up k a b answers x e (inr (omega arith))),
          t,
        )),
        λ d.
            let later : DeliversBetween (a + 1) (tx_retry_max + 1) answers =
              (delivers_after a (tx_retry_max + 1) answers x e d).1 in
            absurd (omega (arith, later.1, later.2)),
      )
      | no more ↦
          let ih : ((retry_loop k (a + 1) (b * 2) answers).0 ≡ 1)
              ↔ DeliversBetween (a + 1) (tx_retry_max + 1) answers =
            retry_loop-delivers k (a + 1) (b * 2) answers (omega arith) in
          let step : (retry_loop (suc k) a b answers).0 ≡ (retry_loop k (a + 1) (b * 2) answers).0 =
            ap (λ (r : Attempted). r.0) (retry_again k a b answers x e again (omega arith)) in
          (
            (λ t.
                delivers_later a (tx_retry_max + 1) answers
                  (subst IsTransient (sym e)
                    ((retryable-IsTransient x.error_code x.cause_errno).0 again))
                  (ih.0 (sym step ∙ t))),
            λ d. step ∙ ih.1 (delivers_after a (tx_retry_max + 1) answers x e d).1,
          )
    ]
  ]
]

-- The loop ends with the first delivery.
retry_loop-once :
    (k a b : ℕ) (answers : ℕ → Answer)
    → ((retry_loop k a b answers).0 ≡ 0) ⊎ ((retry_loop k a b answers).0 ≡ 1)
unfolding retry_loop
retry_loop-once zero a b answers = inl refl
retry_loop-once (suc k) a b answers = elim (Answer-cases (answers a)) [
  | inl e ↦ inr (ap (λ (r : Attempted). r.0) (retry_delivered k a b answers e))
  | inr (x, e) ↦ rw (e, retry_loop) (ground (arith, retry_loop-once k (a + 1) (b * 2) answers))
]

send_with_retry-once :
    (answers : ℕ → Answer) → ((send_with_retry answers).0 ≡ 0) ⊎ ((send_with_retry answers).0 ≡ 1)
unfolding send_with_retry
send_with_retry-once answers = retry_loop-once (tx_retry_max + 1) 0 1 answers

-- A frame is on the bus once if one of the first six attempts delivers it and every attempt before
-- that one fails with ENOBUFS (105) or EAGAIN (11), by its own number or, where it has none, by
-- that of the OSError behind it; otherwise it is not on the bus.
pub send_with_retry-delivers :
    (answers : ℕ → Answer)
    → (((send_with_retry answers).0 ≡ 1) × DeliversBetween 0 6 answers)
      ⊎ (((send_with_retry answers).0 ≡ 0) × ¬ DeliversBetween 0 6 answers)
unfolding send_with_retry
send_with_retry-delivers answers =
    let both : ((send_with_retry answers).0 ≡ 1) ↔ DeliversBetween 0 6 answers =
      retry_loop-delivers (tx_retry_max + 1) 0 1 answers refl in
    elim (send_with_retry-once answers) [
      | inl lost ↦ inr (lost, λ d. absurd (omega (arith, lost, both.1 d)))
      | inr sent ↦ inl (sent, both.0 sent)
    ]

-- The frames on the bus are frames of the queue in the order of the queue, each as often as it is
-- queued at most, whatever the bus answers to each attempt: no frame is delivered twice.
pub tx_loop-queue :
    (queue : List (Message × (ℕ → Answer))) → Sublistᴰ (tx_loop queue) (map (λ m. m.0) queue)
unfolding tx_loop
tx_loop-queue [] = Sublistᴰ.slnil
tx_loop-queue ((msg, answers) ∷ queue) = elim (send_with_retry-once answers) [
  | inl lost ↦ rw lost (Sublistᴰ.cons (tx_loop-queue queue))
  | inr sent ↦ rw sent (Sublistᴰ.cons-cons refl (tx_loop-queue queue))
]

delivered_once :
    (answers : ℕ → Answer) → DeliversBetween 0 6 answers → (send_with_retry answers).0 ≡ 1
delivered_once answers d = elim (send_with_retry-delivers answers) [
  | inl sent ↦ sent.0
  | inr lost ↦ absurd (lost.1 d)
]

-- If for each frame one of its first six attempts delivers it and all before that one fail with
-- ENOBUFS or EAGAIN, then every frame gets on the bus, in the order of the queue.
pub tx_loop_complete :
    (queue : List (Message × (ℕ → Answer)))
    → All (λ m. DeliversBetween 0 6 m.1) queue
    → tx_loop queue ≡ map (λ m. m.0) queue
unfolding tx_loop
tx_loop_complete [] h = refl
tx_loop_complete ((msg, answers) ∷ queue) h =
    rw (delivered_once answers h.0) (ap (◌∷◌ msg) (tx_loop_complete queue h.1))
