-- ===== src/Doip/Session.antt =====
-- The session of simulator/doip.py: it ends, it serves a client's frames in order, and it answers
-- nothing before activation.
use e3on_canserver.Base.{
  ℕ, zero, suc, ◌+◌, ◌≤◌, ◌<◌, ◌≡◌, refl, ap, ◌∙◌, fun_ext, ◌≢◌, inl, inr, true, false, not, Option,
  none, some, List, [], ◌∷◌, ◌++◌, arith, ◌==◌, Option-cases, ==-false, if_ind, length, All,
}
use e3on_canserver.Base.Dict.{lookup, insert}
use e3on_canserver.Datastore.Laws.{StoreIsBounded}
use e3on_canserver.Isotp.{Bytes}
use e3on_canserver.Datastore.{DatapointStore}
use e3on_canserver.Uds.{handle_uds}
use e3on_canserver.Uds.Frame.{handle_uds_silent}
use e3on_canserver.Faults.Config.{has_errors, Draws}
use e3on_canserver.Device.{SimulatedDevice}
use e3on_canserver.Device.Doip.{handle_uds_payload, handle_uds_payload_clean}
use e3on_canserver.Device.Health.{max_value}
use e3on_canserver.Doip.{
  pt_routing_activation_req, pt_diagnostic_msg, diag_ack, diag_nack_unknown_target, pack_h,
  diagnostic_ack, diagnostic_message, SessionState, Handled, ignored, answer, dispatch,
  handle_diagnostic, handle_frame, read_frame, round, Served, go_on, session_loop, session,
}
use e3on_canserver.Doip.Frames.{
  client_frame, unpack_h-pack, good_frame, read_frame-append, length-read_frame,
}

-- The frames of a client, one after the other on the stream.
abbrev pub encode : List (ℕ × Bytes) → Bytes
encode [] = []
encode ((t, p) ∷ ms) = client_frame t p ++ encode ms

-- The frames served one by one, as the specification of the loop on bytes.
unfoldable pub serve : (ℕ → Draws) → ℕ → SessionState → List (ℕ × Bytes) → Option Served
serve draws k st [] = some (st, [])
serve draws k st ((t, p) ∷ ms) =
    go_on (handle_frame st (draws k) t p) (λ st'. serve draws (k + 1) st' ms)

length-encode : (t : ℕ) (p rest : Bytes) → length rest + 8 ≤ length (client_frame t p ++ rest)
length-encode t p rest =
    length-read_frame (client_frame t p ++ rest) (good_frame t p) rest (read_frame-append t p rest)

round-good_frame :
    (st : SessionState) (d : Draws) (t : ℕ) (p : Bytes)
    → round st d (good_frame t p) ≡ handle_frame st d t p
unfolding round
round-good_frame st d t p = refl

session_loop-encode :
    (draws : ℕ → Draws) (fuel k : ℕ) (st : SessionState) (ms : List (ℕ × Bytes))
    → length (encode ms) < fuel
    → session_loop fuel draws k st (encode ms) ≡ serve draws k st ms
unfolding session_loop serve
session_loop-encode draws zero k st ms h = absurd (omega arith)
session_loop-encode draws (suc fuel) k st [] h = unfold read_frame in refl
session_loop-encode draws (suc fuel) k st ((t, p) ∷ ms) h =
    rw (read_frame-append t p (encode ms), session_loop, round-good_frame)
      (ap (go_on (handle_frame st (draws k) t p)) (
        fun_ext (λ st'.
          session_loop-encode draws fuel (k + 1) st' ms
            (omega (arith, length-encode t p (encode ms))))))

-- On the bytes of any sequence of client frames the session does what serving the frames one by
-- one does: the stream is cut at the right places, whatever the payloads hold.
pub session-encode :
    (draws : ℕ → Draws) (st : SessionState) (ms : List (ℕ × Bytes))
    → session draws st (encode ms) ≡ serve draws 0 st ms
unfolding session
session-encode draws st ms =
    session_loop-encode draws (length (encode ms) + 1) 0 st ms (omega arith)

go_on-ne-none :
    (h : Handled) (next : SessionState → Option Served)
    → ((st : SessionState) → next st ≢ none)
    → go_on h next ≢ none
go_on-ne-none (st, out, true) next k e = cc
go_on-ne-none (st, out, false) next k e = elim (Option-cases (next st)) [
  | inl nothing_left ↦ k st nothing_left
  | inr (r, left) ↦ cc (rw left at e)
]

session_loop-ne-none :
    (draws : ℕ → Draws) (fuel k : ℕ) (st : SessionState) (stream : Bytes)
    → length stream < fuel
    → session_loop fuel draws k st stream ≢ none
unfolding session_loop
session_loop-ne-none draws zero k st stream h = absurd (omega arith)
session_loop-ne-none draws (suc fuel) k st stream h = elim (Option-cases (read_frame stream)) [
  | inl short ↦ rw (short, session_loop) (λ e. cc)
  | inr ((f, rest), e) ↦
      rw (e, session_loop)
        (go_on-ne-none (round st (draws k) f) _ (λ st'.
          session_loop-ne-none draws fuel (k + 1) st' rest
            (omega (arith, length-read_frame stream f rest e))))
]

-- The session ends on every finite stream of bytes, well formed or not.
pub session-ne-none :
    (draws : ℕ → Draws) (st : SessionState) (stream : Bytes) → session draws st stream ≢ none
unfolding session
session-ne-none draws st stream =
    session_loop-ne-none draws (length stream + 1) 0 st stream (omega arith)

pub handle_diagnostic-inactive :
    (st : SessionState) (d : Draws) (p : Bytes)
    → st.activated ≡ false
    → handle_diagnostic st d p ≡ ignored st
unfolding handle_diagnostic
handle_diagnostic-inactive st d (s1 ∷ s2 ∷ t1 ∷ t2 ∷ u ∷ us) h =
    if_ind (λ (r : Handled). r ≡ ignored st) (not st.activated) _ _ (λ _. refl)
      (λ e. cc (rw h at e))
handle_diagnostic-inactive st d _ h = refl

-- Before activation every frame but a Routing Activation Request is ignored.
pub handle_frame-inactive :
    (st : SessionState) (d : Draws) (t : ℕ) (p : Bytes)
    → st.activated ≡ false
    → t ≢ pt_routing_activation_req
    → handle_frame st d t p ≡ ignored st
unfolding handle_frame
handle_frame-inactive st d t p h n = rw (==-false t pt_routing_activation_req n) (
    if_ind (λ (r : Handled). r ≡ ignored st) (t == pt_diagnostic_msg) _ _
      (λ _. handle_diagnostic-inactive st d p h) (λ _. refl))

serve-inactive :
    (draws : ℕ → Draws) (k : ℕ) (st : SessionState) (ms : List (ℕ × Bytes))
    → st.activated ≡ false
    → All (λ m. m.0 ≢ pt_routing_activation_req) ms
    → serve draws k st ms ≡ some (st, [])
unfolding serve
serve-inactive draws k st [] h n = refl
serve-inactive draws k st ((t, p) ∷ ms) h n =
    rw (handle_frame-inactive st (draws k) t p h n.0, serve-inactive draws (k + 1) st ms h n.1)

-- Frames without a Routing Activation Request among them leave a session that is not active as it
-- is: nothing is written, no device is touched, and it stays inactive.
pub session-inactive :
    (draws : ℕ → Draws) (st : SessionState) (ms : List (ℕ × Bytes))
    → st.activated ≡ false
    → All (λ m. m.0 ≢ pt_routing_activation_req) ms
    → session draws st (encode ms) ≡ some (st, [])
session-inactive draws st ms h n = session-encode draws st ms ∙ serve-inactive draws 0 st ms h n

-- A Diagnostic Message from `source` to `target`.
abbrev pub diagnostic_request : ℕ → ℕ → Bytes → Bytes
diagnostic_request source target uds = (pack_h source ++ pack_h target) ++ uds

handle_frame-diagnostic :
    (st : SessionState) (d : Draws) (source target u : ℕ) (us : Bytes)
    → st.activated ≡ true
    → handle_frame st d pt_diagnostic_msg (diagnostic_request source target (u ∷ us))
      ≡ dispatch st d source target (u ∷ us)
unfolding handle_frame
handle_frame-diagnostic st d source target u us h =
    if_ind (λ (r : Handled). r ≡ dispatch st d source target (u ∷ us)) (not st.activated) _ _
      (λ e. cc (rw h at e)) (λ _. rw (unpack_h-pack source, unpack_h-pack target))

-- In an active session a request to an unknown target is answered by a negative ACK alone, with
-- the two addresses exchanged, and changes nothing.
pub diagnostic_unknown_target :
    (st : SessionState) (d : Draws) (source target u : ℕ) (us : Bytes)
    → st.activated ≡ true
    → lookup target st.devices ≡ none
    → handle_frame st d pt_diagnostic_msg (diagnostic_request source target (u ∷ us))
      ≡ (st, diagnostic_ack target source diag_nack_unknown_target ∷ [], false)
unfolding dispatch
diagnostic_unknown_target st d source target u us h e =
    handle_frame-diagnostic st d source target u us h ∙ rw (e, dispatch)

-- The answer to a request that a device serves.
abbrev pub exchanged : SessionState → ℕ → ℕ → SimulatedDevice → DatapointStore → Bytes → Handled
exchanged st source target dev s r = (
  record st { devices = insert target (record dev { store = s }) st.devices },
  diagnostic_ack target source diag_ack ∷ diagnostic_message target source r ∷ [],
  false,
)

-- In an active session a request to a known device with an error rate of 0 and bounded values is
-- answered by the ACK and then by exactly the response of the UDS handler, with the two addresses
-- exchanged, and the device keeps the handler's store.
pub diagnostic_exchange :
    (st : SessionState) (d : Draws) (source target u : ℕ) (us : Bytes) (dev : SimulatedDevice)
    → st.activated ≡ true
    → lookup target st.devices ≡ some dev
    → has_errors dev.config ≡ false
    → StoreIsBounded max_value dev.store
    → (r : Bytes) × ((handle_uds dev.protected (u ∷ us) dev.store).1 ≡ some r)
      × (handle_frame st d pt_diagnostic_msg (diagnostic_request source target (u ∷ us))
          ≡ exchanged st source target dev (handle_uds dev.protected (u ∷ us) dev.store).0 r)
unfolding dispatch
diagnostic_exchange st d source target u us dev h e c b =
    elim (Option-cases (handle_uds dev.protected (u ∷ us) dev.store).1) [
      | inl silent ↦ cc ((handle_uds_silent dev.protected (u ∷ us) dev.store).0 silent)
      | inr (r, given) ↦ (
        r,
        given,
        handle_frame-diagnostic st d source target u us h ∙ rw (e, dispatch) (served r given),
      )
    ]
  where
    served :
        (r : Bytes)
        → (handle_uds dev.protected (u ∷ us) dev.store).1 ≡ some r
        → answer st target source (handle_uds_payload dev d (u ∷ us))
          ≡ exchanged st source target dev (handle_uds dev.protected (u ∷ us) dev.store).0 r
    served r given = rw (handle_uds_payload_clean dev d (u ∷ us) c b, given)
