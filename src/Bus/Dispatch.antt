-- ===== src/Bus/Dispatch.antt =====
-- Which callback of simulator/bus.py a received frame reaches.
use e3on_canserver.Base.{ℕ, ◌≡◌, inl, inr, some, ◌==◌, if◌then◌else◌, Bool-cases}
use e3on_canserver.Base.Dict.{Dict, lookup-insert}
use e3on_canserver.Bus.{Message, register_rx, rx_round}

-- After a registration, frames with that CAN-ID reach the new callback, and all others what they
-- reached before.
pub rx_round-register_rx :
    {Callback : Type 0} (callbacks : Dict Callback) (arb_id : ℕ) (cb : Callback) (msg : Message)
    → rx_round (register_rx callbacks arb_id cb) (some msg)
      ≡ (if arb_id == msg.0 then some (cb, msg) else rx_round callbacks (some msg))
unfolding rx_round register_rx
rx_round-register_rx callbacks arb_id cb msg = elim (Bool-cases (arb_id == msg.0)) [
  | inl same ↦ rw (lookup-insert arb_id msg.0 cb callbacks, rx_round, same)
  | inr other ↦ rw (lookup-insert arb_id msg.0 cb callbacks, rx_round, other)
]
