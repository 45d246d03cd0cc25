-- ===== src/Doip/Isolation.antt =====
-- Connections of the server of simulator/doip.py do not authorise each other.
use e3on_canserver.Base.{
  ℕ, ◌≡◌, refl, ap, ◌∙◌, ◌≢◌, ◌⊎◌, inl, inr, Bool, true, false, Option, none, some, List, [], ◌∷◌,
  arith, ◌==◌, if◌then◌else◌, Bool-cases, ==-false, if_ind, All,
}
use e3on_canserver.Isotp.{Bytes}
use e3on_canserver.Faults.Config.{Draws}
use e3on_canserver.Doip.{
  pt_routing_activation_req, Devices, SessionState, Handled, ignored, DoipFrame, sync_ok, round,
}
use e3on_canserver.Doip.Session.{handle_frame-inactive}
use e3on_canserver.Doip.Server.{
  ConnectionEvent, accepted, arrived, closed, ServerState, connection_step, connect, serve_events,
}

-- No Routing Activation Request among the frames of one connection.
abbrev pub IsNoActivation : ConnectionEvent → Type 0
IsNoActivation accepted = Unit
IsNoActivation (arrived d f) = f.payload_type ≢ pt_routing_activation_req
IsNoActivation closed = Unit

abbrev pub IsInactive : ℕ → ℕ × ConnectionEvent → Type 0
IsInactive n e = (e.0 ≢ n) ⊎ IsNoActivation e.1

-- The events of the other connections.
abbrev pub without : ℕ → List (ℕ × ConnectionEvent) → List (ℕ × ConnectionEvent)
without n [] = []
without n ((m, e) ∷ es) = if m == n then without n es else (m, e) ∷ without n es

pub round-inactive :
    (st : SessionState) (d : Draws) (f : DoipFrame)
    → st.activated ≡ false
    → f.payload_type ≢ pt_routing_activation_req
    → round st d f ≡ ignored st
unfolding round
round-inactive st d f h n =
    if_ind (λ (r : Handled). r ≡ ignored st) (sync_ok f) _ _
      (λ _. handle_frame-inactive st d f.payload_type f.payload h n) (λ _. refl)

-- A connection that is not active stays so, writes nothing and touches no device.
connection_step-inactive :
    (e : ConnectionEvent) (ds : Devices) (c : Option Bool)
    → c ≢ some true
    → IsNoActivation e
    → let r = connection_step e ds c in (r.0 ≡ ds) × (r.1 ≢ some true) × (r.2 ≡ [])
unfolding connection_step
connection_step-inactive accepted ds c h n = (refl, (λ e. cc), refl)
connection_step-inactive closed ds c h n = (refl, (λ e. cc), refl)
connection_step-inactive (arrived d f) ds none h n = (refl, h, refl)
connection_step-inactive (arrived d f) ds (some true) h n = absurd (h refl)
connection_step-inactive (arrived d f) ds (some false) h n =
    rw (round-inactive (record { activated = false; devices = ds }) d f refl n)
      (refl, (λ e. cc), refl)

-- Two states of the server that agree on the devices and on every connection but one.
record Agree (n : ℕ) (st st' : ServerState) : Type 0 where
  devices_same : st.devices ≡ st'.devices
  others_same : (j : ℕ) → j ≢ n → st.connections j ≡ st'.connections j
  unactivated : st.connections n ≢ some true

abbrev SameService : ServerState × List (ℕ × Bytes) → ServerState × List (ℕ × Bytes) → Type 0
SameService a b = (a.0.devices ≡ b.0.devices) × (a.1 ≡ b.1)

-- The state behind one event.
abbrev next : ServerState → ℕ → ConnectionEvent → ServerState
next st m e =
    let r = connection_step e st.devices (st.connections m) in
    record { devices = r.0; connections = connect m r.1 st.connections }

-- An event of the inactive connection happens on one side only.
own-Agree :
    (n m : ℕ) (st st' : ServerState) (e : ConnectionEvent)
    → m ≡ n
    → Agree n st st'
    → IsNoActivation e
    → Agree n (next st m e) st' × ((connection_step e st.devices (st.connections m)).2 ≡ [])
own-Agree n m st st' e same agree h =
    let (kept, inactive, silent) =
      connection_step-inactive e st.devices (st.connections m) (rw same agree.unactivated) h in
    (
      record {
        devices_same = kept ∙ agree.devices_same;
        others_same = λ j ne. rw (==-false j m (omega arith)) (agree.others_same j ne);
        unactivated = let here : (n == m) ≡ true = ground arith in rw here inactive;
      },
      silent,
    )

-- An event of another connection happens on both sides.
foreign-Agree :
    (n m : ℕ) (st st' : ServerState) (e : ConnectionEvent)
    → m ≢ n
    → Agree n st st'
    → Agree n (next st m e) (next st' m e)
      × ((connection_step e st.devices (st.connections m)).2
          ≡ (connection_step e st'.devices (st'.connections m)).2)
foreign-Agree n m st st' e ne agree =
    let same : connection_step e st.devices (st.connections m)
        ≡ connection_step e st'.devices (st'.connections m) =
      rw (agree.devices_same, agree.others_same m ne) refl in
    (
      record {
        devices_same = ap (λ r. r.0) same;
        others_same = λ j nj. elim (Bool-cases (j == m)) [
          | inl here ↦ rw here (ap (λ r. r.1) same)
          | inr there ↦ rw there (agree.others_same j nj)
        ];
        unactivated = rw (==-false n m (omega arith)) agree.unactivated;
      },
      ap (λ r. r.2) same,
    )

serve_events-Agree :
    (n : ℕ) (st st' : ServerState) (es : List (ℕ × ConnectionEvent))
    → Agree n st st'
    → All (IsInactive n) es
    → SameService (serve_events st es) (serve_events st' (without n es))
unfolding serve_events
serve_events-Agree n st st' [] agree h = (agree.devices_same, refl)
serve_events-Agree n st st' ((m, e) ∷ es) agree h = elim (Bool-cases (m == n)) [
  | inl own ↦
      let same : m ≡ n = ground arith in
      let calm : IsNoActivation e = elim (h.0) [ inl ne ↦ absurd (ne same) | inr calm ↦ calm ] in
      let (agree', silent) = own-Agree n m st st' e same agree calm in
      let (same_devices, same_output) = serve_events-Agree n (next st m e) st' es agree' h.1 in
      rw own (same_devices, rw silent same_output)
  | inr foreign ↦
      let (agree', same_written) = foreign-Agree n m st st' e (ground arith) agree in
      let (same_devices, same_output) =
        serve_events-Agree n (next st m e) (next st' m e) es agree' h.1 in
      rw foreign (same_devices, rw (same_written, same_output) refl)
]

-- A connection that is not active and on which no Routing Activation Request arrives has no effect
-- at all, whatever else it sends and whichever other connections are active: with its events left
-- out, the devices end the same and the server writes the same frames to the same connections.
pub serve_events-without :
    (n : ℕ) (st : ServerState) (es : List (ℕ × ConnectionEvent))
    → st.connections n ≢ some true
    → All (IsInactive n) es
    → let all = serve_events st es in
      let others = serve_events st (without n es) in
      (all.0.devices ≡ others.0.devices) × (all.1 ≡ others.1)
serve_events-without n st es h calm =
    serve_events-Agree n st st es
      (record { devices_same = refl; others_same = λ j ne. refl; unactivated = h }) calm
