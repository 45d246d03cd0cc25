-- ===== src/Device/Serving.antt =====
-- One step of a worker of simulator/device.py for a client that keeps to the protocol: it serves
-- the request whose last frame this is, or none.
use native.Mathlib.Decide.{dec_le}
use e3on_canserver.Base.{
  ok, ℕ, ◌+◌, ◌-◌, ◌%◌, ◌≤◌, ◌<◌, ◌≡◌, refl, sym, ap, ◌∙◌, false, Option, none, some, List, [], ◌∷◌,
  ◌++◌, append_assoc, arith, length, get_or, take, drop, All, length-append, take-append-drop,
  length-take, length-drop, drop_all,
}
use e3on_canserver.Datastore.Laws.{StoreIsBounded}
use e3on_canserver.Isotp.{
  Bytes, pad, consecutive_frames, segment, Assembler, reset, flow_control, feed,
}
use e3on_canserver.Isotp.Frames.{feed-flow_control}
use e3on_canserver.Isotp.RoundTrip.{
  receive, waiting, finish_last, finish_more, feed_single, feed_first,
}
use e3on_canserver.Datastore.{DatapointStore}
use e3on_canserver.Uds.{ProtocolHandler}
use e3on_canserver.Faults.Config.{FaultConfig, has_errors, Draws}
use e3on_canserver.Isotp.Sequence.{due, behind, split_first, feed-due}
use e3on_canserver.Isotp.Segments.{
  frames_in, first_frame, later_frames, segment_small, segment_large,
}
use e3on_canserver.Device.{frame, Worker, to_id, respond, fc_sent, worker_step}
use e3on_canserver.Device.Health.{max_value, IsBoundedHandler}
use e3on_canserver.Device.Clients.{
  flow_frame, client_frames, IsRequest, answer_all, running, holding, Phase, between, asking,
  answered, owing, Advanced,
}
use e3on_canserver.Device.Responding.{respond-Advanced}

-- How a sequence of frames begins.
head_is : {f g : Bytes} {fs gs : List Bytes} → (f ∷ fs ≡ g ∷ gs) → f ≡ g
head_is e = ap (λ l. get_or l 0 []) e

no_frames : {f : Bytes} {fs : List Bytes} → ([] ≡ f ∷ fs) → ⊥
no_frames e = cc

tail_is : {f g : Bytes} {fs gs : List Bytes} → (f ∷ fs ≡ g ∷ gs) → fs ≡ gs
tail_is e = ap (λ l. drop 1 l) e

-- One frame for a worker that waits for nothing: it completes no payload, or it completes one.
worker_step_quiet :
    (h : ProtocolHandler) (c : FaultConfig) (id : ℕ) (a a' : Assembler) (s : DatapointStore)
    (f : Bytes) (d : Draws) (fc : Option Bytes)
    → feed a f ≡ ok (a', none, fc)
    → worker_step h c id (running a) s (frame f d) ≡ (running a', s, fc_sent id fc)
unfolding worker_step
worker_step_quiet h c id a a' s f d fc e = rw e refl

worker_step_complete :
    (h : ProtocolHandler) (c : FaultConfig) (id : ℕ) (a a' : Assembler) (s : DatapointStore)
    (f p : Bytes) (d : Draws)
    → feed a f ≡ ok (a', some p, none)
    → worker_step h c id (running a) s (frame f d) ≡ respond c d id (running a') (h p s)
unfolding worker_step
worker_step_complete h c id a a' s f p d e = rw e refl

worker_step_flow :
    (h : ProtocolHandler) (c : FaultConfig) (id : ℕ) (a : Assembler) (s : DatapointStore)
    (cfs : List Bytes) (flow : Bytes) (d : Draws)
    → worker_step h c id (holding a cfs) s (frame (flow_frame flow) d)
      ≡ (running a, s, to_id id cfs)
unfolding worker_step
worker_step_flow h c id a s cfs flow d = refl

client_frames-segment :
    (flow p : Bytes) (ps frames : List Bytes)
    → segment p ≡ ok frames
    → client_frames flow (p ∷ ps) ≡ frames ++ (flow_frame flow ∷ client_frames flow ps)
unfolding client_frames
client_frames-segment flow p ps frames e =
    ap (λ r. frames_in r ++ (flow_frame flow ∷ client_frames flow ps)) e

module _ (h : ProtocolHandler) (laws : IsBoundedHandler h) (c : FaultConfig) (id : ℕ) (flow : Bytes)
    (clean : has_errors c ≡ false) where
  -- A frame of a request that completes nothing.
  quiet-Advanced :
      (a a' : Assembler) (s : DatapointStore) (f : Bytes) (d : Draws) (fc : Option Bytes)
      (sent fs reqs unserved : List Bytes)
      → feed a f ≡ ok (a', none, fc)
      → fc_sent id fc ≡ to_id id sent
      → receive reset sent ≡ ok (reset, [])
      → Phase flow (running a') reset fs unserved []
      → reqs ≡ unserved
      → Advanced h id flow s reset fs reqs [] (worker_step h c id (running a) s (frame f d))
  quiet-Advanced a a' s f d fc sent fs reqs unserved e on_id received phase asked =
      rw (worker_step_quiet h c id a a' s f d fc e) (record {
        served = [];
        unserved = unserved;
        sent = sent;
        got = [];
        owed_now = [];
        client = reset;
        phase = phase;
        asked = asked;
        stored = unfold answer_all in refl;
        on_id = on_id;
        received = received;
        paid = unfold answer_all in refl;
      })

  -- The last frame of a request.
  complete-Advanced :
      (a a' : Assembler) (s : DatapointStore) (f p : Bytes) (d : Draws) (ps : List Bytes)
      → feed a f ≡ ok (a', some p, none)
      → StoreIsBounded max_value s
      → Advanced h id flow s reset
          (flow_frame flow ∷ client_frames flow ps)
          (p ∷ ps)
          []
          (worker_step h c id (running a) s (frame f d))
  complete-Advanced a a' s f p d ps e bounded = rw (worker_step_complete h c id a a' s f p d e) (
      respond-Advanced h c id flow clean a' s (h p s).0 d p (h p s).1 ps refl
        (λ r e'. laws.short p s r bounded e'))

  -- The next frame of a request whose First Frame has been taken.
  asking-Advanced :
      (b rem : Bytes) (fuel seq : ℕ) (s : DatapointStore) (d : Draws) (ps : List Bytes)
      → seq < 16
      → length rem ≤ fuel
      → 0 < length rem
      → length b + length rem ≤ 4095
      → StoreIsBounded max_value s
      → Advanced h id flow s reset
          (behind fuel seq rem ++ (flow_frame flow ∷ client_frames flow ps))
          ((b ++ rem) ∷ ps)
          []
          (worker_step h c id
            (running (waiting (length b + length rem) b seq))
            s
            (frame (due seq rem) d))
  asking-Advanced b rem fuel seq s d ps hs hf hp ht bounded = elim (dec_le (length rem) 7) [
    | yes last ↦
        let no_more : behind fuel seq rem ≡ [] =
          rw (drop_all 7 rem last) (unfold consecutive_frames in refl) in
        rw no_more (
          complete-Advanced (waiting (length b + length rem) b seq) reset s (due seq rem) (b ++ rem)
            d ps (feed-due seq b rem hs ∙ finish_last b rem ((seq + 1) % 16) last) bounded)
    | no more ↦
        quiet-Advanced (waiting (length b + length rem) b seq)
          (waiting (length (b ++ take 7 rem) + length (drop 7 rem)) (b ++ take 7 rem)
            ((seq + 1) % 16))
          s (due seq rem) d none [] _ ((b ++ rem) ∷ ps) (((b ++ take 7 rem) ++ drop 7 rem) ∷ ps)
          (feed-due seq b rem hs ∙ finish_more b rem ((seq + 1) % 16) (omega arith)) refl
          (unfold receive in refl)
          (asking (b ++ take 7 rem) (drop 7 rem) (fuel - 1) ((seq + 1) % 16) ps (omega arith)
            (omega (arith, length-drop 7 rem)) (omega (arith, length-drop 7 rem))
            (omega (arith, length-drop 7 rem, length-append b (take 7 rem), length-take 7 rem)))
          (rw (append_assoc, take-append-drop) refl)
  ]

  -- The first frame of the next request.
  request-Advanced :
      (a : Assembler) (p : Bytes) (ps : List Bytes) (s : DatapointStore) (f : Bytes)
      (fs : List Bytes) (d : Draws)
      → IsRequest p
      → client_frames flow (p ∷ ps) ≡ f ∷ fs
      → StoreIsBounded max_value s
      → Advanced h id flow s reset fs (p ∷ ps) [] (worker_step h c id (running a) s (frame f d))
  request-Advanced a p ps s f fs d req e bounded = elim (dec_le (length p) 7) [
    | yes small ↦
        let here : pad (length p ∷ p) ∷ (flow_frame flow ∷ client_frames flow ps) ≡ f ∷ fs =
          sym (client_frames-segment flow p ps _ (segment_small p small)) ∙ e in
        rw (sym (head_is here), sym (tail_is here))
          (complete-Advanced a reset s (pad (length p ∷ p)) p d ps (feed_single a p req.0 small)
            bounded)
    | no large ↦
        let here : first_frame p ∷ (later_frames p ++ (flow_frame flow ∷ client_frames flow ps))
            ≡ f ∷ fs =
          sym (client_frames-segment flow p ps _ (segment_large p (omega arith) req.1)) ∙ e in
        rw (sym (head_is here), sym (tail_is here))
          (quiet-Advanced a _ s (first_frame p) d (some flow_control) (flow_control ∷ []) _ (p ∷ ps)
            ((take 6 p ++ drop 6 p) ∷ ps) (feed_first a p (omega arith) req.1) refl
            (unfold receive feed pad in refl)
            (asking (take 6 p) (drop 6 p) (length (drop 6 p)) 1 ps (omega arith) (omega arith)
              (omega (arith, length-drop 6 p)) (omega (arith, length-drop 6 p, length-take 6 p)))
            (rw take-append-drop refl))
  ]

  -- Whatever its phase, a worker that takes the next frame of its client advances.
  pub step-Advanced :
      (w : Worker) (ca : Assembler) (now reqs owed : List Bytes) (s : DatapointStore) (f : Bytes)
      (fs : List Bytes) (d : Draws)
      → Phase flow w ca now reqs owed
      → now ≡ f ∷ fs
      → All IsRequest reqs
      → StoreIsBounded max_value s
      → Advanced h id flow s ca fs reqs owed (worker_step h c id w s (frame f d))
  step-Advanced w ca now reqs owed s f fs d (between a []) e reqs_ok bounded =
      let none_left : [] ≡ f ∷ fs = unfold client_frames in e in absurd (no_frames none_left)
  step-Advanced w ca now reqs owed s f fs d (between a (p ∷ ps)) e reqs_ok bounded =
      request-Advanced a p ps s f fs d reqs_ok.0 e bounded
  step-Advanced w ca now reqs owed s f fs d (asking b rem fuel seq ps hs hf hp ht) e reqs_ok
        bounded =
      let here : due seq rem ∷ (behind fuel seq rem ++ (flow_frame flow ∷ client_frames flow ps))
          ≡ f ∷ fs =
        rw (split_first fuel seq rem hs hf hp) at e in
      rw (sym (head_is here), sym (tail_is here))
        (asking-Advanced b rem fuel seq s d ps hs hf hp ht bounded)
  step-Advanced w ca now reqs owed s f fs d (answered a ps) e reqs_ok bounded =
      rw (sym (head_is e), sym (tail_is e))
        (quiet-Advanced a a s (flow_frame flow) d none [] _ ps ps (feed-flow_control a flow) refl
          (unfold receive in refl) (between a ps) refl)
  step-Advanced w ca now reqs owed s f fs d (owing a k cfs r ps got) e reqs_ok bounded =
      rw (sym (head_is e), sym (tail_is e), worker_step_flow h c id a s cfs flow d)
        (record {
          served = [];
          unserved = ps;
          sent = cfs;
          got = r ∷ [];
          owed_now = [];
          client = reset;
          phase = between a ps;
          asked = refl;
          stored = unfold answer_all in refl;
          on_id = refl;
          received = got;
          paid = unfold answer_all in refl;
        })
