-- ===== src/Bus/Tests.antt =====
-- Runs of simulator/bus.py, and its theorems at concrete inputs.
use mathlib.Core.List.{Sublistᴰ}
use e3on_canserver.Base.{
  ℕ, ◌<◌, ◌≡◌, refl, ◌⊎◌, inl, inr, none, some, List, [], ◌∷◌, map, arith, ltb, if◌then◌else◌,
  lt→ltb, ltb-false, All,
}
use e3on_canserver.Bus.{enobufs, Answer, delivered, failed, send_with_retry, Message, tx_loop}
use e3on_canserver.Bus.Retry.{
  DeliversBetween, send_with_retry-delivers, tx_loop-queue, tx_loop_complete,
}

-- ENOBUFS for the first `n` attempts, then a delivery.
abbrev busy : ℕ → ℕ → Answer
busy n i =
    if ltb i n then failed (record { error_code = none; cause_errno = some enobufs }) else delivered

abbrev down : ℕ → Answer
down i = failed (record { error_code = some 100; cause_errno = none })

busy_three : send_with_retry (busy 3) ≡ (1, 1 ∷ 2 ∷ 4 ∷ [])
unfolding send_with_retry
busy_three = refl

busy_six : send_with_retry (busy 6) ≡ (0, 1 ∷ 2 ∷ 4 ∷ 8 ∷ 16 ∷ [])
unfolding send_with_retry
busy_six = refl

down_gives_up : send_with_retry down ≡ (0, [])
unfolding send_with_retry
down_gives_up = refl

send_with_retry-delivers_example :
    (((send_with_retry (busy 5)).0 ≡ 1) × DeliversBetween 0 6 (busy 5))
    ⊎ (((send_with_retry (busy 5)).0 ≡ 0) × ¬ DeliversBetween 0 6 (busy 5))
send_with_retry-delivers_example = send_with_retry-delivers (busy 5)

abbrev sample_queue : List (Message × (ℕ → Answer))
sample_queue = ((0x690, 1 ∷ []), busy 3) ∷ ((0x690, 2 ∷ []), down) ∷ ((0x690, 3 ∷ []), busy 0) ∷ []

tx_loop_sample : tx_loop sample_queue ≡ (0x690, 1 ∷ []) ∷ (0x690, 3 ∷ []) ∷ []
unfolding tx_loop
tx_loop_sample = refl

tx_loop-queue_example : Sublistᴰ (tx_loop sample_queue) (map (λ m. m.0) sample_queue)
tx_loop-queue_example = tx_loop-queue sample_queue

abbrev busy_queue : List (Message × (ℕ → Answer))
busy_queue = ((0x690, 1 ∷ []), busy 3) ∷ ((0x690, 2 ∷ []), busy 5) ∷ []

-- ENOBUFS before the delivery.
busy-DeliversBetween : (n : ℕ) → n < 6 → DeliversBetween 0 6 (busy n)
busy-DeliversBetween n h = (
  n,
  omega arith,
  h,
  rw (ltb-false n n (omega arith)) refl,
  λ j h1 h2. rw (lt→ltb j n h2) (inl (inr (refl, refl))),
)

busy_queue-delivers : All (λ m. DeliversBetween 0 6 m.1) busy_queue
busy_queue-delivers =
    (busy-DeliversBetween 3 (omega arith), (busy-DeliversBetween 5 (omega arith), tt))

tx_loop_complete_example : tx_loop busy_queue ≡ (0x690, 1 ∷ []) ∷ (0x690, 2 ∷ []) ∷ []
tx_loop_complete_example = tx_loop_complete busy_queue busy_queue-delivers
