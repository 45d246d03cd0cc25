-- ===== src/Bus/Backoff.antt =====
-- How long the transmit loop of simulator/bus.py waits for one frame.
use e3on_canserver.Base.{
  ℕ, zero, suc, ◌+◌, ◌*◌, ◌≤◌, ◌≡◌, refl, ap, inl, inr, true, List, [], ◌∷◌, arith, Bool-cases,
  length,
}
use e3on_canserver.Bus.{
  tx_retry_max, CanError, retryable, Answer, failed, Attempted, slept, retry_loop, send_with_retry,
}
use e3on_canserver.Bus.Retry.{Answer-cases, retry_delivered, retry_given_up, retry_again}

-- `n` sleeps, each twice the one before, the first `b`.
abbrev pub doublings : ℕ → ℕ → List ℕ
doublings zero b = []
doublings (suc n) b = b ∷ doublings n (b * 2)

abbrev pub IsBackoff : ℕ → ℕ → List ℕ → Type 0
IsBackoff n b sleeps = (length sleeps ≤ n) × (sleeps ≡ doublings (length sleeps) b)

stopped-IsBackoff : (n b : ℕ) (r : Attempted) (sent : ℕ) → r ≡ (sent, []) → IsBackoff n b r.1
stopped-IsBackoff n b r sent e = rw e (omega arith, refl)

slept-IsBackoff :
    (n b : ℕ) (r s : Attempted) → r ≡ slept b s → IsBackoff n (b * 2) s.1 → IsBackoff (suc n) b r.1
slept-IsBackoff n b r s e h = rw e (omega (arith, h.0), ap (◌∷◌ b) h.1)

-- Both a delivery and a failure that is not retried end the attempts.
ended-IsBackoff :
    (k a b : ℕ) (answers : ℕ → Answer)
    → ((x : CanError)
        → answers a ≡ failed x
        → retryable x ≡ true
        → IsBackoff k b (retry_loop (suc k) a b answers).1)
    → IsBackoff k b (retry_loop (suc k) a b answers).1
ended-IsBackoff k a b answers again = elim (Answer-cases (answers a)) [
  | inl e ↦ stopped-IsBackoff k b _ 1 (retry_delivered k a b answers e)
  | inr (x, e) ↦ elim (Bool-cases (retryable x)) [
    | inr stop ↦ stopped-IsBackoff k b _ 0 (retry_given_up k a b answers x e (inl stop))
    | inl more ↦ again x e more
  ]
]

retry_loop-IsBackoff :
    (k a b : ℕ) (answers : ℕ → Answer)
    → a + k ≡ tx_retry_max
    → IsBackoff k b (retry_loop (suc k) a b answers).1
retry_loop-IsBackoff zero a b answers h = ended-IsBackoff zero a b answers (λ x e more.
    stopped-IsBackoff zero b _ 0 (retry_given_up zero a b answers x e (inr (omega arith))))
retry_loop-IsBackoff (suc k) a b answers h = ended-IsBackoff (suc k) a b answers (λ x e more.
    slept-IsBackoff k b _ _ (retry_again (suc k) a b answers x e more (omega arith))
      (retry_loop-IsBackoff k (a + 1) (b * 2) answers (omega arith)))

-- There are at most five sleeps for a frame, of 1, 2, 4, 8 and 16 times the first backoff.
pub send_with_retry_backoff :
    (answers : ℕ → Answer)
    → (length (send_with_retry answers).1 ≤ 5)
      × ((send_with_retry answers).1 ≡ doublings (length (send_with_retry answers).1) 1)
unfolding send_with_retry
send_with_retry_backoff answers = retry_loop-IsBackoff 5 0 1 answers refl
