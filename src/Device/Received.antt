-- ===== src/Device/Received.antt =====
-- What a client of simulator/device.py receives on one response CAN-ID, from the frames of both
-- workers.
use e3on_canserver.Base.{
  ok, ℕ, ◌≡◌, refl, sym, ap, ◌∙◌, ◌≢◌, List, [], ◌∷◌, ◌++◌, append_assoc, arith, ==-false, All,
}
use e3on_canserver.Datastore.Laws.{StoreIsBounded}
use e3on_canserver.Isotp.{Bytes, segment, Assembler, reset}
use e3on_canserver.Isotp.RoundTrip.{receive}
use e3on_canserver.Datastore.{DatapointStore}
use e3on_canserver.Uds.{ProtocolHandler}
use e3on_canserver.Isotp.Sequence.{receive-append}
use e3on_canserver.Isotp.Segments.{frames_in}
use e3on_canserver.Device.{Sent, Worker, to_id, Channel}
use e3on_canserver.Device.Health.{max_value, IsBoundedHandler}
use e3on_canserver.Device.Clients.{
  flow_frame, client_frames, IsRequest, answer_all, Phase, between, asking, answered, owing,
}
use e3on_canserver.Device.Reads.{data_on, data_on-to_id}
use e3on_canserver.Device.Requests.{
  of_channel, handler, handle_all, on_channel, other, of_channel-own, of_channel-other,
  handle_all-on_channel,
}

pub data_on-append :
    (id : ℕ) (xs ys : List Sent) → data_on id (xs ++ ys) ≡ data_on id xs ++ data_on id ys
data_on-append id [] ys = refl
data_on-append id ((i, f) ∷ xs) ys = ground (arith, data_on-append id xs ys)

data_on-other : (id i : ℕ) (frames : List Bytes) → i ≢ id → data_on id (to_id i frames) ≡ []
data_on-other id i [] ne = refl
data_on-other id i (f ∷ fs) ne = rw (==-false i id ne) (data_on-other id i fs ne)

append_cons-ne-nil {ℓ} : {A : Type ℓ} (xs ys : List A) (y : A) → xs ++ (y ∷ ys) ≢ []
append_cons-ne-nil [] ys y e = cc
append_cons-ne-nil (x ∷ xs) ys y e = cc

-- A client that has nothing left to send has got everything.
pub nothing_owed :
    (flow : Bytes) (w : Worker) (ca : Assembler) (fs reqs owed : List Bytes)
    → Phase flow w ca fs reqs owed
    → fs ≡ []
    → (ca ≡ reset) × (reqs ≡ []) × (owed ≡ [])
nothing_owed flow w ca fs reqs owed (between a []) e = (refl, refl, refl)
nothing_owed flow w ca fs reqs owed (between a (p ∷ ps)) e =
    let nothing_left : frames_in (segment p) ++ (flow_frame flow ∷ client_frames flow ps) ≡ [] =
      unfold client_frames in e in
    absurd (append_cons-ne-nil _ _ _ nothing_left)
nothing_owed flow w ca fs reqs owed (asking b rem fuel seq ps hs hf hp ht) e =
    absurd (append_cons-ne-nil _ _ _ e)
nothing_owed flow w ca fs reqs owed (answered a ps) e = cc
nothing_owed flow w ca fs reqs owed (owing a k cfs r ps got) e = cc

pub answer_all-StoreIsBounded :
    (h : ProtocolHandler) (ps : List Bytes) (s : DatapointStore)
    → IsBoundedHandler h
    → All IsRequest ps
    → StoreIsBounded max_value s
    → StoreIsBounded max_value (answer_all h ps s).0
unfolding answer_all
answer_all-StoreIsBounded h [] s laws reqs b = b
answer_all-StoreIsBounded h (p ∷ ps) s laws reqs b =
    answer_all-StoreIsBounded h ps (h p s).0 laws reqs.1 (laws.keeps p s reqs.0.1 b)

regroup :
    (xs ys zs ws tail : List Bytes) → xs ++ ys ≡ zs ++ ws → xs ++ (ys ++ tail) ≡ zs ++ (ws ++ tail)
regroup xs ys zs ws tail e =
    sym (append_assoc xs ys tail) ∙ ap (λ l. l ++ tail) e ∙ append_assoc zs ws tail

-- What a client gets from its own channel's worker, now and later.
pub got-own :
    (protected : List ℕ) (c : Channel) (id : ℕ) (s s' : DatapointStore) (served : List Bytes)
    (order : List (Channel × Bytes)) (client now : Assembler) (sent got owed owed_now : List Bytes)
    (later : List Sent)
    → s' ≡ (answer_all (handler protected c) served s).0
    → receive client sent ≡ ok (now, got)
    → got ++ owed_now ≡ owed ++ (answer_all (handler protected c) served s).1
    → receive now (data_on id later)
      ≡ ok (reset, owed_now ++ of_channel c (handle_all protected s' order).1)
    → receive client (data_on id (to_id id sent ++ later))
      ≡ ok (reset, owed ++ of_channel c (handle_all protected s (on_channel c served ++ order)).1)
got-own protected c id s s' served order client now sent got owed owed_now later stored e paid e' =
    rw
      (
        data_on-append,
        data_on-to_id,
        receive-append client now reset sent (data_on id later) got _ e e',
        handle_all-on_channel protected c served order s,
        of_channel-own,
        sym stored,
      )
      (ap (λ l. ok (reset, l)) (regroup got owed_now owed _ _ paid))

-- And what it gets while the other channel's worker sends.
pub got-other :
    (protected : List ℕ) (c : Channel) (id i : ℕ) (s s' : DatapointStore) (served : List Bytes)
    (order : List (Channel × Bytes)) (client : Assembler) (sent owed : List Bytes)
    (later : List Sent)
    → s' ≡ (answer_all (handler protected c) served s).0
    → i ≢ id
    → receive client (data_on id later)
      ≡ ok (reset, owed ++ of_channel (other c) (handle_all protected s' order).1)
    → receive client (data_on id (to_id i sent ++ later))
      ≡ ok (
        reset,
        owed ++ of_channel (other c) (handle_all protected s (on_channel c served ++ order)).1,
      )
got-other protected c id i s s' served order client sent owed later stored ne e =
    rw
      (
        data_on-append,
        data_on-other id i sent ne,
        e,
        handle_all-on_channel protected c served order s,
        of_channel-other,
        sym stored,
      )
      refl
