-- ===== src/Device/Responding.antt =====
-- The response of a worker of simulator/device.py, to a client that keeps to the protocol: it goes
-- out in one frame, or its other frames wait for Flow Control.
use native.Mathlib.Decide.{dec_le}
use e3on_canserver.Base.{
  ok, ℕ, ◌+◌, ◌≤◌, ◌≡◌, refl, false, Option, none, some, List, [], ◌∷◌, arith, length, take, drop,
}
use e3on_canserver.Isotp.{Bytes, pad, segment, Assembler, reset}
use e3on_canserver.Isotp.RoundTrip.{receive, waiting}
use e3on_canserver.Datastore.{DatapointStore}
use e3on_canserver.Uds.{ProtocolHandler}
use e3on_canserver.Faults.Config.{FaultConfig, has_errors, Draws, maybe_inject_clean}
use e3on_canserver.Isotp.Segments.{
  first_frame, later_frames, segment_small, segment_large, receive-later_frames,
  length-later_frames, receive_single, receive_first,
}
use e3on_canserver.Device.{to_id, respond}
use e3on_canserver.Device.Clients.{
  flow_frame, client_frames, IsRequest, answer_all, running, holding, answered, owing, Advanced,
}

-- One round of the response: it is sent in one frame, or its other frames wait.
respond_one :
    (c : FaultConfig) (id : ℕ) (a : Assembler) (s : DatapointStore) (d : Draws) (r f : Bytes)
    → has_errors c ≡ false
    → segment r ≡ ok (f ∷ [])
    → respond c d id (running a) (s, some r) ≡ (running a, s, to_id id (f ∷ []))
unfolding respond
respond_one c id a s d r f clean e = rw (e, respond, maybe_inject_clean c d (f ∷ []) clean) refl

respond_many :
    (c : FaultConfig) (id : ℕ) (a : Assembler) (s : DatapointStore) (d : Draws) (r f : Bytes)
    (cfs : List Bytes)
    → has_errors c ≡ false
    → segment r ≡ ok (f ∷ cfs)
    → 1 ≤ length cfs
    → respond c d id (running a) (s, some r) ≡ (holding a cfs, s, to_id id (f ∷ []))
unfolding respond
respond_many c id a s d r f [] clean e n = absurd (omega arith)
respond_many c id a s d r f (g ∷ rest) clean e n =
    rw (e, respond, maybe_inject_clean c d (f ∷ g ∷ rest) clean) refl

module _ (h : ProtocolHandler) (c : FaultConfig) (id : ℕ) (flow : Bytes)
    (clean : has_errors c ≡ false) where
  -- The last frame of the request `p` has been taken: the response goes out.
  pub respond-Advanced :
      (a : Assembler) (s s' : DatapointStore) (d : Draws) (p : Bytes) (o : Option Bytes)
      (ps : List Bytes)
      → h p s ≡ (s', o)
      → ((r : Bytes) → o ≡ some r → IsRequest r)
      → Advanced h id flow s reset
          (flow_frame flow ∷ client_frames flow ps)
          (p ∷ ps)
          []
          (respond c d id (running a) (s', o))
  respond-Advanced a s s' d p none ps e short = record {
    served = p ∷ [];
    unserved = ps;
    sent = [];
    got = [];
    owed_now = [];
    client = reset;
    phase = unfold respond in answered a ps;
    asked = refl;
    stored = unfold respond answer_all in rw e refl;
    on_id = unfold respond in refl;
    received = unfold receive in refl;
    paid = unfold answer_all in rw e refl;
  }
  respond-Advanced a s s' d p (some r) ps e short = elim (dec_le (length r) 7) [
    | yes small ↦
        rw (respond_one c id a s' d r (pad (length r ∷ r)) clean (segment_small r small)) (record {
          served = p ∷ [];
          unserved = ps;
          sent = pad (length r ∷ r) ∷ [];
          got = r ∷ [];
          owed_now = [];
          client = reset;
          phase = answered a ps;
          asked = refl;
          stored = unfold answer_all in rw e refl;
          on_id = refl;
          received = receive_single reset r (short r refl).0 small;
          paid = unfold answer_all in rw e refl;
        })
    | no large ↦
        rw
          (respond_many c id a s' d r (first_frame r) (later_frames r) clean
            (segment_large r (omega arith) (short r refl).1) (length-later_frames r (omega arith)))
          (record {
            served = p ∷ [];
            unserved = ps;
            sent = first_frame r ∷ [];
            got = [];
            owed_now = r ∷ [];
            client = waiting (length (take 6 r) + length (drop 6 r)) (take 6 r) 1;
            phase = owing a _ (later_frames r) r ps (receive-later_frames r (omega arith));
            asked = refl;
            stored = unfold answer_all in rw e refl;
            on_id = refl;
            received = receive_first reset r (omega arith) (short r refl).1;
            paid = unfold answer_all in rw e refl;
          })
  ]
