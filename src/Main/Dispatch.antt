-- ===== src/Main/Dispatch.antt =====
-- Which device a request reaches once main.py has loaded the configuration.
use e3on_canserver.Base.{
  ℕ, ◌+◌, ◌≡◌, refl, ap, ◌∙◌, ◌≢◌, some, List, [], ◌∷◌, ◌++◌, arith, ==-refl, ==-false, length, All,
}
use e3on_canserver.Base.Int.{ℤ}
use e3on_canserver.Base.Dict.{Dict, lookup, insert, lookup-insert}
use e3on_canserver.Isotp.{Bytes}
use e3on_canserver.Device.{Channel, on_uds, register}
use e3on_canserver.Device.Register.{rx_round-register}
use e3on_canserver.Doip.{Devices}
use e3on_canserver.Bus.{rx_round}
use e3on_canserver.Main.{DeviceEntry, load_device, load_devices, device_map}

-- The entries that do not take a CAN-ID for one of their own.
abbrev pub LeaveFree : ℕ → List DeviceEntry → Type 0
LeaveFree id = All (λ e. (e.tx ≢ id) × (e.tx + 2 ≢ id))

-- Devices that are loaded later and leave the CAN-ID free change nothing for it.
load_devices-later :
    (cd ce : ℤ) (n : ℕ) (es : List DeviceEntry) (callbacks : Dict (ℕ × Channel)) (id : ℕ)
    (msg_data : Bytes)
    → LeaveFree id es
    → rx_round (load_devices cd ce n es callbacks).1 (some (id, msg_data))
      ≡ rx_round callbacks (some (id, msg_data))
unfolding load_devices
load_devices-later cd ce n [] callbacks id msg_data h = refl
load_devices-later cd ce n (e ∷ es) callbacks id msg_data h =
    load_devices-later cd ce (n + 1) es (register (load_device cd ce e) n callbacks) id msg_data h.1
    ∙ (rx_round-register (load_device cd ce e) n callbacks (id, msg_data)
        ∙ rw (==-false (e.tx + 2) id h.0.1, ==-false e.tx id h.0.0))

load_devices-uds :
    (cd ce : ℤ) (n : ℕ) (before after : List DeviceEntry) (e : DeviceEntry)
    (callbacks : Dict (ℕ × Channel)) (msg_data : Bytes)
    → LeaveFree e.tx after
    → rx_round (load_devices cd ce n (before ++ (e ∷ after)) callbacks).1 (some (e.tx, msg_data))
      ≡ some ((n + length before, on_uds), (e.tx, msg_data))
unfolding load_devices
load_devices-uds cd ce n [] after e callbacks msg_data h =
    load_devices-later cd ce (n + 1) after (register (load_device cd ce e) n callbacks) e.tx
      msg_data h
    ∙ (rx_round-register (load_device cd ce e) n callbacks (e.tx, msg_data)
        ∙ rw (==-false (e.tx + 2) e.tx (omega arith), ==-refl)
            (ap (λ m. some ((m, on_uds), (e.tx, msg_data))) (omega arith)))
load_devices-uds cd ce n (b ∷ before) after e callbacks msg_data h =
    load_devices-uds cd ce (n + 1) before after e (register (load_device cd ce b) n callbacks)
      msg_data h
    ∙ ap (λ m. some ((m, on_uds), (e.tx, msg_data))) (omega arith)

device_map-later :
    (cd ce : ℤ) (n : ℕ) (es : List DeviceEntry) (callbacks : Dict (ℕ × Channel)) (m : Devices)
    (id : ℕ)
    → LeaveFree id es
    → lookup id (device_map m (load_devices cd ce n es callbacks).0) ≡ lookup id m
unfolding load_devices device_map
device_map-later cd ce n [] callbacks m id h = refl
device_map-later cd ce n (e ∷ es) callbacks m id h =
    device_map-later cd ce (n + 1) es (register (load_device cd ce e) n callbacks)
      (insert e.tx (load_device cd ce e) m) id h.1
    ∙ (lookup-insert e.tx id (load_device cd ce e) m ∙ rw (==-false e.tx id h.0.0))

device_map-loaded :
    (cd ce : ℤ) (n : ℕ) (before after : List DeviceEntry) (e : DeviceEntry)
    (callbacks : Dict (ℕ × Channel)) (m : Devices)
    → LeaveFree e.tx after
    → lookup e.tx (device_map m (load_devices cd ce n (before ++ (e ∷ after)) callbacks).0)
      ≡ some (load_device cd ce e)
unfolding load_devices device_map
device_map-loaded cd ce n [] after e callbacks m h =
    device_map-later cd ce (n + 1) after (register (load_device cd ce e) n callbacks)
      (insert e.tx (load_device cd ce e) m) e.tx h
    ∙ (lookup-insert e.tx e.tx (load_device cd ce e) m ∙ rw ==-refl)
device_map-loaded cd ce n (b ∷ before) after e callbacks m h =
    device_map-loaded cd ce (n + 1) before after e (register (load_device cd ce b) n callbacks)
      (insert b.tx (load_device cd ce b) m) h

-- Once a configuration is loaded, a frame on the CAN-ID of an entry reaches the UDS queue of that
-- entry's device, and DoIP finds that device under the number, unless a later entry has the same
-- number, or the number two below.
pub load_devices_dispatch :
    (cd ce : ℤ) (before after : List DeviceEntry) (e : DeviceEntry) (msg_data : Bytes)
    → LeaveFree e.tx after
    → (rx_round (load_devices cd ce 0 (before ++ (e ∷ after)) []).1 (some (e.tx, msg_data))
        ≡ some ((length before, on_uds), (e.tx, msg_data)))
      × (lookup e.tx (device_map [] (load_devices cd ce 0 (before ++ (e ∷ after)) []).0)
          ≡ some (load_device cd ce e))
load_devices_dispatch cd ce before after e msg_data h = (
  load_devices-uds cd ce 0 before after e [] msg_data h
      ∙ ap (λ m. some ((m, on_uds), (e.tx, msg_data))) (omega arith),
  device_map-loaded cd ce 0 before after e [] [] h,
)
