-- ===== src/Bus.antt =====
-- simulator/bus.py: the transmit queue with its retries, and the dispatch of received frames.
-- What `can.Bus.send` answers is an argument: for each attempt, that the frame is out or an error.
pub mod Transient
pub mod Retry
pub mod Backoff
pub mod Dispatch
mod Tests
use e3on_canserver.Base.{
  ℕ, zero, suc, ◌+◌, ◌*◌, Bool, false, ◌||◌, not, Option, none, some, List, [], ◌∷◌, ◌++◌, ◌==◌,
  if◌then◌else◌, replicate,
}
use e3on_canserver.Base.Dict.{Dict, lookup, insert}
use e3on_canserver.Isotp.{Bytes}

-- `errno.ENOBUFS` and `errno.EAGAIN` on Linux.
abbrev pub enobufs : ℕ
enobufs = 105

abbrev pub eagain : ℕ
eagain = 11

abbrev pub tx_retry_max : ℕ
tx_retry_max = 5

-- A `can.CanError`: its `error_code`, if that is an integer, and the `errno` of a cause that is an
-- OSError.
pub record CanError : Type 0 where
  pub error_code : Option ℕ
  pub cause_errno : Option ℕ

-- `_tx_errno`
unfoldable pub tx_errno : CanError → Option ℕ
tx_errno e = elim e.error_code [ some code ↦ some code | none ↦ e.cause_errno ]

-- `_tx_errno(exc) in TX_RETRYABLE_ERRNOS`
unfoldable pub retryable : CanError → Bool
unfolding tx_errno
retryable e = elim (tx_errno e) [ none ↦ false | some n ↦ (n == enobufs) || (n == eagain) ]

pub data Answer : Type 0 where
  delivered : Answer
  failed : CanError → Answer

-- What became of a frame: how often it is on the bus, and the sleeps between the attempts, in units
-- of the first backoff of 2 ms.
abbrev pub Attempted : Type 0
Attempted = ℕ × List ℕ

abbrev pub slept : ℕ → Attempted → Attempted
slept backoff r = (r.0, backoff ∷ r.1)

-- The `for attempt in range(…)` loop with `rounds` rounds left.
unfoldable pub retry_loop : ℕ → ℕ → ℕ → (ℕ → Answer) → Attempted
unfolding retryable
retry_loop zero attempt backoff answers = (0, [])
retry_loop (suc rounds) attempt backoff answers = elim (answers attempt) [
  | delivered ↦ (1, [])
  | failed e ↦
      let again = slept backoff (retry_loop rounds (attempt + 1) (backoff * 2) answers) in
      if not (retryable e) then (0, []) else if attempt == tx_retry_max then (0, []) else again
]

-- `_send_with_retry`
unfoldable pub send_with_retry : (ℕ → Answer) → Attempted
unfolding retry_loop
send_with_retry = retry_loop (tx_retry_max + 1) 0 1

-- A frame in the transmit queue: its CAN-ID and its data.
abbrev pub Message : Type 0
Message = ℕ × Bytes

-- `_tx_loop` over the messages of the queue, each with the answers of the bus to its attempts: the
-- messages on the bus, in their order there, each as often as its attempts put it there.
unfoldable pub tx_loop : List (Message × (ℕ → Answer)) → List Message
unfolding send_with_retry
tx_loop [] = []
tx_loop ((msg, answers) ∷ queue) = replicate (send_with_retry answers).0 msg ++ tx_loop queue

-- `_rx_callbacks`, by CAN-ID; a callback is given by what it stands for.
module _ {ℓ} {Callback : Type ℓ} where
  -- `register_rx`
  unfoldable pub register_rx : Dict Callback → ℕ → Callback → Dict Callback
  unfolding insert
  register_rx callbacks arb_id callback = insert arb_id callback callbacks

  -- What one round of `_rx_loop` does with the result of `recv`: the callback that is scheduled
  -- for a message, none after a timeout, an error, or for a CAN-ID that nobody registered.
  unfoldable pub rx_round : Dict Callback → Option Message → Option (Callback × Message)
  unfolding lookup
  rx_round callbacks none = none
  rx_round callbacks (some msg) = elim (lookup msg.0 callbacks) [
    | none ↦ none
    | some cb ↦ some (cb, msg)
  ]
