-- ===== src/Bus/Transient.antt =====
-- Which errors are worth another attempt, `TX_RETRYABLE_ERRNOS` and `_tx_errno` of
-- simulator/bus.py, described by their numbers.
use e3on_canserver.Base.{
  ℕ, ◌≡◌, refl, sym, ap, ◌∙◌, subst, ◌↔◌, ◌⊎◌, inl, inr, true, ◌||◌, Option, none, some, arith,
  ◌==◌,
}
use e3on_canserver.Bus.{CanError, retryable, Answer, delivered, failed}

-- The number of an error: its own, else that of an OSError behind it.
abbrev pub IsNumber : CanError → ℕ → Type 0
IsNumber e n = (e.error_code ≡ some n) ⊎ ((e.error_code ≡ none) × (e.cause_errno ≡ some n))

-- The attempt fails with ENOBUFS, which is 105, or EAGAIN, which is 11.
abbrev pub IsTransient : Answer → Type 0
IsTransient delivered = ⊥
IsTransient (failed e) = IsNumber e 105 ⊎ IsNumber e 11

busy_number : (n : ℕ) → (((n == 105) || (n == 11)) ≡ true) ↔ ((n ≡ 105) ⊎ (n ≡ 11))
busy_number n = ground arith

abbrev number_in : Option ℕ → ℕ
number_in none = 0
number_in (some n) = n

-- The number of the error, decided.
IsNumber-some :
    (code cause : Option ℕ) (n k : ℕ)
    → ((code ≡ some n) ⊎ ((code ≡ none) × (cause ≡ some n)))
    → IsNumber (record { error_code = code; cause_errno = cause }) k
    → n ≡ k
IsNumber-some code cause n k (inl e) (inl f) = ap number_in (sym e ∙ f)
IsNumber-some code cause n k (inl e) (inr (f, g)) = cc (e, f)
IsNumber-some code cause n k (inr (e, e')) (inl f) = cc (e, f)
IsNumber-some code cause n k (inr (e, e')) (inr (f, g)) = ap number_in (sym e' ∙ g)

IsNumber-IsTransient :
    (code cause : Option ℕ) (n : ℕ)
    → ((code ≡ some n) ⊎ ((code ≡ none) × (cause ≡ some n)))
    → (((n == 105) || (n == 11)) ≡ true)
      ↔ IsTransient (failed (record { error_code = code; cause_errno = cause }))
IsNumber-IsTransient code cause n e = (there, back)
  where
    at : (k : ℕ) → n ≡ k → IsNumber (record { error_code = code; cause_errno = cause }) k
    at k q = subst (IsNumber (record { error_code = code; cause_errno = cause })) q e

    there :
        ((n == 105) || (n == 11)) ≡ true
        → IsTransient (failed (record { error_code = code; cause_errno = cause }))
    there h = elim ((busy_number n).0 h) [ inl q ↦ inl (at 105 q) | inr q ↦ inr (at 11 q) ]

    back :
        IsTransient (failed (record { error_code = code; cause_errno = cause }))
        → ((n == 105) || (n == 11)) ≡ true
    back (inl h) = (busy_number n).1 (inl (IsNumber-some code cause n 105 e h))
    back (inr h) = (busy_number n).1 (inr (IsNumber-some code cause n 11 e h))

no_number : ¬ IsTransient (failed (record { error_code = none; cause_errno = none }))
no_number (inl (inl e)) = cc e
no_number (inl (inr (e, f))) = cc f
no_number (inr (inl e)) = cc e
no_number (inr (inr (e, f))) = cc f

pub retryable-IsTransient :
    (code cause : Option ℕ)
    → (retryable (record { error_code = code; cause_errno = cause }) ≡ true)
      ↔ IsTransient (failed (record { error_code = code; cause_errno = cause }))
unfolding retryable
retryable-IsTransient none none = ((λ e. cc e), λ t. absurd (no_number t))
retryable-IsTransient none (some n) = IsNumber-IsTransient none (some n) n (inr (refl, refl))
retryable-IsTransient (some n) cause = IsNumber-IsTransient (some n) cause n (inl refl)
