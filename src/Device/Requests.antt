-- ===== src/Device/Requests.antt =====
-- Requests of both channels of simulator/device.py in one sequence: what the handlers make of it,
-- and what the specification of a device makes of it.
use e3on_canserver.Base.{ℕ, ◌≡◌, refl, ap, ◌∙◌, Option, none, some, List, [], ◌∷◌, ◌++◌, map, All}
use e3on_canserver.Isotp.{Bytes}
use e3on_canserver.Isotp.RoundTrip.{collected}
use e3on_canserver.Isotp.Robust.{IsByte}
use e3on_canserver.Datastore.{DatapointStore}
use e3on_canserver.Uds.{ProtocolHandler, handle_uds}
use e3on_canserver.Service77.{handle_service77}
use e3on_canserver.Faults.Config.{Draws}
use e3on_canserver.Device.{Event, frame, Channel, on_uds, on_s77}
use e3on_canserver.Device.Clients.{answer_all}
use e3on_canserver.Ecu.{Ecu, serve_payload}
use e3on_canserver.Ecu.Refines.{view, viewed, handle_uds-refines, handle_service77-viewed}

-- What arrives on the bus: a channel, and a frame with the draws for a response.
abbrev pub Arrival : Type 0
Arrival = Bytes × Draws

abbrev pub arrivals : List (Channel × Arrival) → List (Channel × Event)
arrivals = map (λ a. (a.0, frame a.1.0 a.1.1))

-- Of a sequence that both channels share, the part of one channel.
abbrev pub of_channel {ℓ} : {A : Type ℓ} → Channel → List (Channel × A) → List A
of_channel c [] = []
of_channel on_uds ((on_uds, x) ∷ xs) = x ∷ of_channel on_uds xs
of_channel on_uds ((on_s77, x) ∷ xs) = of_channel on_uds xs
of_channel on_s77 ((on_uds, x) ∷ xs) = of_channel on_s77 xs
of_channel on_s77 ((on_s77, x) ∷ xs) = x ∷ of_channel on_s77 xs

abbrev pub frames_on : Channel → List (Channel × Arrival) → List Bytes
frames_on c es = map (λ a. a.0) (of_channel c es)

-- A response, with the channel that it goes back on.
abbrev pub tagged : Channel → Option Bytes → List (Channel × Bytes) → List (Channel × Bytes)
tagged c none rs = rs
tagged c (some r) rs = (c, r) ∷ rs

-- The specification, and the handlers, over requests of both channels.
unfoldable pub serve_all : List ℕ → Ecu → List (Channel × Bytes) → Ecu × List (Channel × Bytes)
serve_all protected e [] = (e, [])
serve_all protected e ((c, p) ∷ ps) =
    let (e', r) = serve_payload protected e c p in
    let (e'', rs) = serve_all protected e' ps in (e'', tagged c r rs)

abbrev pub handler : List ℕ → Channel → ProtocolHandler
handler protected on_uds = handle_uds protected
handler protected on_s77 = handle_service77

unfoldable pub handle_all :
    List ℕ → DatapointStore → List (Channel × Bytes) → DatapointStore × List (Channel × Bytes)
handle_all protected s [] = (s, [])
handle_all protected s ((c, p) ∷ ps) =
    let (s', r) = handler protected c p s in
    let (s'', rs) = handle_all protected s' ps in (s'', tagged c r rs)

handler-refines :
    (protected : List ℕ) (c : Channel) (p : Bytes) (s : DatapointStore)
    → All IsByte p
    → viewed (handler protected c p s) ≡ serve_payload protected (view s) c p
handler-refines protected on_uds p s h = handle_uds-refines protected p s h
handler-refines protected on_s77 p s h = handle_service77-viewed protected p s h

-- The handlers implement the specification, on any sequence of requests.
pub handle_all-refines :
    (protected : List ℕ) (s : DatapointStore) (ps : List (Channel × Bytes))
    → All (λ p. All IsByte p.1) ps
    → (view (handle_all protected s ps).0, (handle_all protected s ps).1)
      ≡ serve_all protected (view s) ps
unfolding handle_all serve_all
handle_all-refines protected s [] h = refl
handle_all-refines protected s ((c, p) ∷ ps) h =
    ap (λ r. (r.0, tagged c (handler protected c p s).1 r.1))
      (handle_all-refines protected (handler protected c p s).0 ps h.1)
    ∙ ap
        (λ (r : Ecu × Option Bytes).
          ((serve_all protected r.0 ps).0, tagged c r.1 (serve_all protected r.0 ps).1))
        (handler-refines protected c p s h.0)

-- Requests of one channel, as a part of a sequence that both share.
abbrev pub on_channel : Channel → List Bytes → List (Channel × Bytes)
on_channel c = map (λ p. (c, p))

abbrev pub other : Channel → Channel
other on_uds = on_s77
other on_s77 = on_uds

pub of_channel-own :
    (c : Channel) (ps : List Bytes) (xs : List (Channel × Bytes))
    → of_channel c (on_channel c ps ++ xs) ≡ ps ++ of_channel c xs
of_channel-own c [] xs = refl
of_channel-own on_uds (p ∷ ps) xs = ap (◌∷◌ p) (of_channel-own on_uds ps xs)
of_channel-own on_s77 (p ∷ ps) xs = ap (◌∷◌ p) (of_channel-own on_s77 ps xs)

pub of_channel-other :
    (c : Channel) (ps : List Bytes) (xs : List (Channel × Bytes))
    → of_channel (other c) (on_channel c ps ++ xs) ≡ of_channel (other c) xs
of_channel-other c [] xs = refl
of_channel-other on_uds (p ∷ ps) xs = of_channel-other on_uds ps xs
of_channel-other on_s77 (p ∷ ps) xs = of_channel-other on_s77 ps xs

-- What handling gives for requests of one channel and then others.
tagged-collected :
    (c : Channel) (o : Option Bytes) (rs : List Bytes) (xs : List (Channel × Bytes))
    → tagged c o (on_channel c rs ++ xs) ≡ on_channel c (collected o rs) ++ xs
tagged-collected c none rs xs = refl
tagged-collected c (some r) rs xs = refl

pub handle_all-on_channel :
    (protected : List ℕ) (c : Channel) (ps : List Bytes) (order : List (Channel × Bytes))
    (s : DatapointStore)
    → let first = answer_all (handler protected c) ps s in
      let rest = handle_all protected first.0 order in
      handle_all protected s (on_channel c ps ++ order) ≡ (rest.0, on_channel c first.1 ++ rest.1)
unfolding handle_all answer_all
handle_all-on_channel protected c [] order s = refl
handle_all-on_channel protected c (p ∷ ps) order s =
    rw (handle_all-on_channel protected c ps order (handler protected c p s).0, tagged-collected)
      refl
