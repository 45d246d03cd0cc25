-- ===== src/Device/Register.antt =====
-- Which queue a received frame goes to after `register` of simulator/device.py.
use e3on_canserver.Base.{ℕ, ◌+◌, ◌≡◌, some, ◌==◌, if◌then◌else◌}
use e3on_canserver.Base.Dict.{Dict}
use e3on_canserver.Device.{SimulatedDevice, Channel, on_uds, on_s77, register}
use e3on_canserver.Bus.{Message, rx_round}
use e3on_canserver.Bus.Dispatch.{rx_round-register_rx}

-- After a device has registered, a frame on its UDS request CAN-ID goes to its UDS queue, one on
-- the CAN-ID two above to its Service 77 queue, and any other where it went before.
pub rx_round-register :
    (dev : SimulatedDevice) (number : ℕ) (callbacks : Dict (ℕ × Channel)) (msg : Message)
    → rx_round (register dev number callbacks) (some msg) ≡ (
        if (dev.tx_id + 2) == msg.0
        then some ((number, on_s77), msg)
        else if dev.tx_id == msg.0
        then some ((number, on_uds), msg)
        else rx_round callbacks (some msg))
unfolding register
rx_round-register dev number callbacks msg = rw (rx_round-register_rx, rx_round-register_rx)
