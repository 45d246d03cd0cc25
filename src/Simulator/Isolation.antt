-- ===== src/Simulator/Isolation.antt =====
-- A device of the simulator is not affected by the frames for other devices: behind the callbacks
-- of simulator/bus.py it behaves as it does alone.
use e3on_canserver.Base.{
  ℕ, ◌+◌, ◌≡◌, refl, sym, ap, ◌∙◌, ◌≢◌, ◌⊎◌, inl, inr, Option, none, some, List, [], ◌∷◌, ◌++◌,
  arith, ◌==◌, if◌then◌else◌, Bool-cases, Option-cases, get_elem?, set, get_elem?-set_other,
  get_elem?-set,
}
use e3on_canserver.Base.Dict.{Dict, lookup}
use e3on_canserver.Isotp.{Bytes, nothing}
use e3on_canserver.Service77.{s77_request_id_offset, s77_response_id_offset}
use e3on_canserver.Faults.Config.{Draws}
use e3on_canserver.Device.{
  uds_response_id_offset, Sent, Event, frame, SimulatedDevice, Channel, on_uds, on_s77, response_id,
  device_step, run,
}
use e3on_canserver.Device.Reads.{data_on}
use e3on_canserver.Device.Requests.{Arrival, arrivals, other}
use e3on_canserver.Device.Received.{data_on-append}
use e3on_canserver.Device.Sending.{device_step-data_on, device_step_tx_id}
use e3on_canserver.Bus.{Message, rx_round}
use e3on_canserver.Simulator.{deliver, simulator_run}

-- The frames on the two request CAN-IDs of a device, with their channels.
abbrev pub requests_for : ℕ → List (Message × Draws) → List (Channel × Arrival)
requests_for tx [] = []
requests_for tx (((id, msg_data), d) ∷ frames) =
    if id == tx
    then (on_uds, (msg_data, d)) ∷ requests_for tx frames
    else if id == tx + s77_request_id_offset
    then (on_s77, (msg_data, d)) ∷ requests_for tx frames
    else requests_for tx frames

-- The callbacks that lead to the device number `k` are exactly those of its two CAN-IDs.
pub record IsWired (callbacks : Dict (ℕ × Channel)) (k tx : ℕ) : Type 0 where
  pub uds_wired : lookup tx callbacks ≡ some (k, on_uds)
  pub s77_wired : lookup (tx + s77_request_id_offset) callbacks ≡ some (k, on_s77)
  pub others_wired :
      (id : ℕ) (k' : ℕ) (c : Channel)
      → id ≢ tx
      → id ≢ tx + s77_request_id_offset
      → lookup id callbacks ≡ some (k', c)
      → k' ≢ k

-- Two devices share no CAN-ID.
abbrev pub IsApart : ℕ → ℕ → Type 0
IsApart a b = (a ≢ b) × (a ≢ b + 2) × (a + 2 ≢ b)

abbrev pub AreApart : List SimulatedDevice → ℕ → ℕ → Type 0
AreApart ds k tx =
    (j : ℕ) (x : SimulatedDevice) → j ≢ k → get_elem? ds j ≡ some x → IsApart x.tx_id tx

-- A CAN-ID on which the device with this number answers.
abbrev pub IsResponseId : ℕ → ℕ → Type 0
IsResponseId tx id = (tx + uds_response_id_offset ≡ id) ⊎ (tx + s77_response_id_offset ≡ id)

-- The device stands at its place, among devices apart from it.
pub record IsAt (ds : List SimulatedDevice) (k tx : ℕ) (dev : SimulatedDevice) : Type 0 where
  pub there : get_elem? ds k ≡ some dev
  pub same_tx : dev.tx_id ≡ tx
  pub apart : AreApart ds k tx

-- What the simulator does with the frames is, for one device, what the device does alone.
abbrev pub IsAlone :
    Dict (ℕ × Channel)
    → List SimulatedDevice
    → ℕ
    → ℕ
    → List (Message × Draws)
    → SimulatedDevice
    → List (Channel × Event)
    → Type 0
IsAlone callbacks ds k id frames dev es =
    (get_elem? (simulator_run callbacks ds frames).0 k ≡ some (run dev es).0)
    × (data_on id (simulator_run callbacks ds frames).1 ≡ data_on id (run dev es).1)

deliver_lem :
    (ds : List SimulatedDevice) (k : ℕ) (c : Channel) (e : Event) (dev : SimulatedDevice)
    → get_elem? ds k ≡ some dev
    → deliver ds (k, c) e ≡ (set ds k (device_step dev c e).0, (device_step dev c e).1)
unfolding deliver
deliver_lem ds k c e dev h = rw (h, deliver) refl

deliver-none :
    (ds : List SimulatedDevice) (k : ℕ) (c : Channel) (e : Event)
    → get_elem? ds k ≡ none
    → deliver ds (k, c) e ≡ (ds, [])
unfolding deliver
deliver-none ds k c e h = rw (h, deliver) refl

abbrev tx_of : Option SimulatedDevice → ℕ
tx_of none = 0
tx_of (some dev) = dev.tx_id

-- A device that is replaced by one with the same CAN-IDs leaves the devices apart.
AreApart-set :
    (ds : List SimulatedDevice) (k tx j : ℕ) (dev dev' : SimulatedDevice)
    → get_elem? ds j ≡ some dev
    → dev'.tx_id ≡ dev.tx_id
    → AreApart ds k tx
    → AreApart (set ds j dev') k tx
AreApart-set ds k tx j dev dev' here same apart i x ne e = elim (Bool-cases (j == i)) [
  | inl own ↦
      let at_j : j ≡ i = ground arith in
      let found : some dev' ≡ some x =
        sym (get_elem?-set ds j dev dev' here) ∙ ap (get_elem? (set ds j dev')) at_j ∙ e in
      let old : IsApart dev.tx_id tx = apart j dev (λ q. ne (sym at_j ∙ q)) here in
      rw (sym (ap tx_of found), same) old
  | inr foreign ↦ apart i x ne (sym (get_elem?-set_other ds j i dev' (ground arith)) ∙ e)
]

-- A frame for the device itself.
own-IsAt :
    (ds : List SimulatedDevice) (k tx : ℕ) (dev : SimulatedDevice) (c : Channel) (e : Event)
    → IsAt ds k tx dev
    → IsAt (deliver ds (k, c) e).0 k tx (device_step dev c e).0
own-IsAt ds k tx dev c e h = rw (deliver_lem ds k c e dev h.there) record {
  there = get_elem?-set ds k dev (device_step dev c e).0 h.there;
  same_tx = device_step_tx_id dev c e ∙ h.same_tx;
  apart =
      AreApart-set ds k tx k dev (device_step dev c e).0 h.there (device_step_tx_id dev c e)
        h.apart;
}

response_id-apart :
    (x : SimulatedDevice) (c : Channel) (tx id : ℕ)
    → IsApart x.tx_id tx
    → IsResponseId tx id
    → response_id x c ≢ id
response_id-apart x on_uds tx id h (inl e) = λ q. let ne : x.tx_id ≢ tx = h.0 in omega arith
response_id-apart x on_uds tx id h (inr e) = λ q. let ne : x.tx_id ≢ tx + 2 = h.1 in omega arith
response_id-apart x on_s77 tx id h (inl e) = λ q. let ne : x.tx_id + 2 ≢ tx = h.2 in omega arith
response_id-apart x on_s77 tx id h (inr e) = λ q. let ne : x.tx_id ≢ tx = h.0 in omega arith

-- A frame for another device, or for none.
other-IsAt :
    (ds : List SimulatedDevice) (k tx k' id : ℕ) (dev : SimulatedDevice) (c : Channel) (e : Event)
    → IsAt ds k tx dev
    → k' ≢ k
    → IsResponseId tx id
    → IsAt (deliver ds (k', c) e).0 k tx dev × (data_on id (deliver ds (k', c) e).1 ≡ [])
other-IsAt ds k tx k' id dev c e h ne r = elim (Option-cases (get_elem? ds k')) [
  | inl nobody ↦ rw (deliver-none ds k' c e nobody) (h, refl)
  | inr (x, here) ↦ rw (deliver_lem ds k' c e x here) (
    record {
      there = get_elem?-set_other ds k' k (device_step x c e).0 ne ∙ h.there;
      same_tx = h.same_tx;
      apart =
          AreApart-set ds k tx k' x (device_step x c e).0 here (device_step_tx_id x c e) h.apart;
    },
    device_step-data_on x c e id (response_id-apart x c tx id (h.apart k' x ne here) r),
  )
]

append-data_on :
    (id : ℕ) (now now' later later' : List Sent)
    → data_on id now ≡ data_on id now'
    → data_on id later ≡ data_on id later'
    → data_on id (now ++ later) ≡ data_on id (now' ++ later')
append-data_on id now now' later later' h h' =
    rw (data_on-append id now later, data_on-append id now' later', h, h') refl

round-found :
    (callbacks : Dict (ℕ × Channel)) (target : ℕ × Channel) (msg : Message)
    → lookup msg.0 callbacks ≡ some target
    → rx_round callbacks (some msg) ≡ some (target, msg)
unfolding rx_round
round-found callbacks target msg h = rw (h, rx_round) refl

round-lost :
    (callbacks : Dict (ℕ × Channel)) (msg : Message)
    → lookup msg.0 callbacks ≡ none
    → rx_round callbacks (some msg) ≡ none
unfolding rx_round
round-lost callbacks msg h = rw (h, rx_round) refl

own-frame :
    (callbacks : Dict (ℕ × Channel)) (ds : List SimulatedDevice) (k tx : ℕ) (dev : SimulatedDevice)
    (c : Channel) (id msg_id : ℕ) (msg_data : Bytes) (d : Draws) (frames : List (Message × Draws))
    (es : List (Channel × Event))
    → lookup msg_id callbacks ≡ some (k, c)
    → get_elem? ds k ≡ some dev
    → IsAlone callbacks
        (deliver ds (k, c) (frame msg_data d)).0
        k
        id
        frames
        (device_step dev c (frame msg_data d)).0
        es
    → IsAlone callbacks ds k id (((msg_id, msg_data), d) ∷ frames) dev ((c, frame msg_data d) ∷ es)
unfolding simulator_run run
own-frame callbacks ds k tx dev c id msg_id msg_data d frames es h here (e, e') =
    rw (round-found callbacks (k, c) (msg_id, msg_data) h) (
      e,
      append-data_on id _ _ _ _
          (ap (λ r. data_on id r.1) (deliver_lem ds k c (frame msg_data d) dev here)) e',
    )

other-frame :
    (callbacks : Dict (ℕ × Channel)) (ds : List SimulatedDevice) (k k' : ℕ) (dev : SimulatedDevice)
    (c : Channel) (id msg_id : ℕ) (msg_data : Bytes) (d : Draws) (frames : List (Message × Draws))
    (es : List (Channel × Event))
    → lookup msg_id callbacks ≡ some (k', c)
    → data_on id (deliver ds (k', c) (frame msg_data d)).1 ≡ []
    → IsAlone callbacks (deliver ds (k', c) (frame msg_data d)).0 k id frames dev es
    → IsAlone callbacks ds k id (((msg_id, msg_data), d) ∷ frames) dev es
unfolding simulator_run
other-frame callbacks ds k k' dev c id msg_id msg_data d frames es h nothing (e, e') =
    rw (round-found callbacks (k', c) (msg_id, msg_data) h)
      (e, append-data_on id _ [] _ _ nothing e')

lost-frame :
    (callbacks : Dict (ℕ × Channel)) (ds : List SimulatedDevice) (k : ℕ) (dev : SimulatedDevice)
    (id : ℕ) (msg : Message) (d : Draws) (frames : List (Message × Draws))
    (es : List (Channel × Event))
    → lookup msg.0 callbacks ≡ none
    → IsAlone callbacks ds k id frames dev es
    → IsAlone callbacks ds k id ((msg, d) ∷ frames) dev es
unfolding simulator_run
lost-frame callbacks ds k dev id msg d frames es h (e, e') = rw (round-lost callbacks msg h) (e, e')

module _ (callbacks : Dict (ℕ × Channel)) (k tx id : ℕ) (w : IsWired callbacks k tx)
    (r : IsResponseId tx id) where
  pub simulator_run-IsAt :
      (frames : List (Message × Draws)) (ds : List SimulatedDevice) (dev : SimulatedDevice)
      → IsAt ds k tx dev
      → IsAlone callbacks ds k id frames dev (arrivals (requests_for tx frames))
  unfolding simulator_run run
  simulator_run-IsAt [] ds dev h = (h.there, refl)
  simulator_run-IsAt (((msg_id, msg_data), d) ∷ frames) ds dev h =
      let own : (c : Channel)
          → lookup msg_id callbacks ≡ some (k, c)
          → IsAlone callbacks ds k id (((msg_id, msg_data), d) ∷ frames) dev
              ((c, frame msg_data d) ∷ arrivals (requests_for tx frames)) =
        λ c l. own-frame callbacks ds k tx dev c id msg_id msg_data d frames _ l h.there (
          simulator_run-IsAt frames (deliver ds (k, c) (frame msg_data d)).0
            (device_step dev c (frame msg_data d)).0
            (own-IsAt ds k tx dev c (frame msg_data d) h)) in
      elim (Bool-cases (msg_id == tx)) [
        | inl own_id ↦
            let e : msg_id ≡ tx = ground arith in
            rw own_id (own on_uds (ap (λ i. lookup i callbacks) e ∙ w.uds_wired))
        | inr other ↦ elim (Bool-cases (msg_id == tx + s77_request_id_offset)) [
          | inl own_id ↦
              let e : msg_id ≡ tx + s77_request_id_offset = ground arith in
              rw (other, own_id) (own on_s77 (ap (λ i. lookup i callbacks) e ∙ w.s77_wired))
          | inr other' ↦ elim (Option-cases (lookup msg_id callbacks)) [
            | inl l ↦
                rw (other, other')
                  (lost-frame callbacks ds k dev id (msg_id, msg_data) d frames _ l
                    (simulator_run-IsAt frames ds dev h))
            | inr ((k', c), l) ↦
                let ne : k' ≢ k = w.others_wired msg_id k' c (ground arith) (ground arith) l in
                let (h', nothing) = other-IsAt ds k tx k' id dev c (frame msg_data d) h ne r in
                rw (other, other')
                  (other-frame callbacks ds k k' dev c id msg_id msg_data d frames _ l nothing
                    (simulator_run-IsAt frames (deliver ds (k', c) (frame msg_data d)).0 dev h'))
          ]
        ]
      ]
