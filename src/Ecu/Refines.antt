-- ===== src/Ecu/Refines.antt =====
-- The handlers of simulator/protocol/uds.py and simulator/protocol/service77.py implement the
-- specification of a device, seen through its store.
use e3on_canserver.Base.{
  ℕ, suc, ◌<◌, ◌≡◌, refl, ap, ◌∙◌, fun_ext, inl, inr, Bool, true, false, ◌&&◌, not, Option, some,
  List, [], ◌∷◌, arith, ◌==◌, if◌then◌else◌, ltb-false, Bool-cases, Option-cases, length, All,
}
use e3on_canserver.Base.Dict.{lookup, is_some}
use e3on_canserver.Datastore.Laws.{
  read-write, resolvers-write, write-known, write_unknown, known-write,
}
use e3on_canserver.Isotp.{Bytes}
use e3on_canserver.Isotp.Robust.{IsByte}
use e3on_canserver.Datastore.{DatapointStore, known, resolved, read, write}
use e3on_canserver.Uds.{
  sid_read_data_by_id, sid_write_data_by_id, nrc_conditions_not_correct, nrc_request_out_of_range,
  negative_response, contains, handle_read_data_by_id, write_reply, handle_write_data_by_id,
  handle_uds,
}
use e3on_canserver.Uds.Replies.{did_of, request_did_lem, read_reply}
use e3on_canserver.Service77.{sid_service77, s77_reply, handle_service77}
use e3on_canserver.Service77.Replies.{tail_data, handle_service77-write}
use e3on_canserver.Device.{on_uds, on_s77}
use e3on_canserver.Ecu.{
  Ecu, assign, Request, too_short, read_did, write_did, by_service, parse_uds, parse_fields,
  parse_service77, serve_request, serve_payload,
}

-- A store as its device's clients see it.
abbrev pub view : DatapointStore → Ecu
view s = record { value = read s; writable = known s; dynamic = resolved s }

pub view-write :
    (s : DatapointStore) (k : ℕ) (v : Bytes)
    → view (write s k v).0 ≡ (if known s k then assign (view s) k v else view s)
view-write s k v = elim (Bool-cases (known s k)) [
  | inl here ↦
      let values : read (write s k v).0
          ≡ (λ j. if (k == j) && not (resolved s j) then some v else read s j) =
        fun_ext (λ j. ground (arith, read-write s k j v)) in
      let names : known (write s k v).0 ≡ known s = fun_ext (λ j. known-write s k j v) in
      let rules : resolved (write s k v).0 ≡ resolved s =
        fun_ext (λ j. ap (λ d. is_some (lookup j d)) (resolvers-write s k v)) in
      rw here (λ i. record { value = values i; writable = names i; dynamic = rules i })
  | inr no_entry ↦ rw (no_entry, write_unknown s k v no_entry) refl
]

abbrev pub viewed : DatapointStore × Option Bytes → Ecu × Option Bytes
viewed r = (view r.0, r.1)

-- What both services answer to a write: the two replies, chosen by whether the store knew the key.
abbrev pub confirmed : (Bytes) → Bytes → DatapointStore × Bool → Ecu × Option Bytes
confirmed yes_reply no_reply w = (view w.0, if w.1 then some yes_reply else some no_reply)

confirmed-write :
    (r n : Bytes) (s : DatapointStore) (k : ℕ) (v : Bytes)
    → confirmed r n (write s k v)
      ≡ (if known s k then (assign (view s) k v, some r) else (view s, some n))
confirmed-write r n s k v =
    rw (view-write s k v, write-known s k v)
      (elim (Bool-cases (known s k)) [ inl e ↦ rw e refl | inr e ↦ rw e refl ])

write_reply-viewed :
    (hi lo : ℕ) (w : DatapointStore × Bool)
    → viewed (write_reply hi lo w)
      ≡ confirmed
          (0x6e ∷ hi ∷ lo ∷ [])
          (negative_response sid_write_data_by_id nrc_request_out_of_range)
          w
write_reply-viewed hi lo (s, true) = refl
write_reply-viewed hi lo (s, false) = refl

s77_reply-viewed :
    (c1 c2 : ℕ) (w : DatapointStore × Bool)
    → viewed (s77_reply c1 c2 w)
      ≡ confirmed
          (0x77 ∷ c1 ∷ c2 ∷ 0x44 ∷ [])
          (negative_response sid_service77 nrc_request_out_of_range)
          w
s77_reply-viewed c1 c2 (s, true) = refl
s77_reply-viewed c1 c2 (s, false) = refl

-- `if` on the way out of a view.
viewed-if :
    (b : Bool) (x y : DatapointStore × Option Bytes)
    → viewed (if b then x else y) ≡ (if b then viewed x else viewed y)
viewed-if true x y = refl
viewed-if false x y = refl

handle_read_data_by_id_lem :
    (s : DatapointStore) (sid hi lo : ℕ) (rest : Bytes)
    → lo < 256
    → handle_read_data_by_id (sid ∷ hi ∷ lo ∷ rest) s
      ≡ (s, some (read_reply hi lo (read s (did_of hi lo))))
unfolding handle_read_data_by_id
handle_read_data_by_id_lem s sid hi lo rest h =
    rw (request_did_lem sid hi lo rest h, ltb-false (suc (suc (suc (length rest)))) 3 (omega arith))
      (elim (Option-cases (read s (did_of hi lo))) [ inl e ↦ rw e refl | inr (v, e) ↦ rw e refl ])

handle_write_data_by_id_lem :
    (protected : List ℕ) (s : DatapointStore) (sid hi lo b : ℕ) (bs : Bytes)
    → lo < 256
    → handle_write_data_by_id protected (sid ∷ hi ∷ lo ∷ b ∷ bs) s ≡ (
        if contains (did_of hi lo) protected
        then (s, some (negative_response sid_write_data_by_id nrc_conditions_not_correct))
        else write_reply hi lo (write s (did_of hi lo) (b ∷ bs)))
unfolding handle_write_data_by_id
handle_write_data_by_id_lem protected s sid hi lo b bs h =
    rw
      (
        request_did_lem sid hi lo (b ∷ bs) h,
        ltb-false (suc (suc (suc (suc (length bs))))) 4 (omega arith),
      )
      refl

write-refines :
    (protected : List ℕ) (s : DatapointStore) (sid hi lo b : ℕ) (bs : Bytes)
    → lo < 256
    → viewed (handle_write_data_by_id protected (sid ∷ hi ∷ lo ∷ b ∷ bs) s)
      ≡ serve_request protected (view s) (write_did hi lo (b ∷ bs))
unfolding serve_request
write-refines protected s sid hi lo b bs h =
    ap viewed (handle_write_data_by_id_lem protected s sid hi lo b bs h)
    ∙ viewed-if (contains (did_of hi lo) protected) _ _
    ∙ ap
        (λ r.
          if contains (did_of hi lo) protected
          then (view s, some (negative_response sid_write_data_by_id nrc_conditions_not_correct))
          else r)
        (write_reply-viewed hi lo (write s (did_of hi lo) (b ∷ bs)) ∙ confirmed-write _ _ s _ _)

-- The choice of the service, on both sides.
uds-by_service :
    (protected : List ℕ) (s : DatapointStore) (sid : ℕ) (rest : Bytes) (r w : Request)
    → (sid ≡ sid_read_data_by_id
        → viewed (handle_read_data_by_id (sid ∷ rest) s) ≡ serve_request protected (view s) r)
    → (sid ≡ sid_write_data_by_id
        → viewed (handle_write_data_by_id protected (sid ∷ rest) s)
          ≡ serve_request protected (view s) w)
    → viewed (handle_uds protected (sid ∷ rest) s)
      ≡ serve_request protected (view s) (by_service sid r w)
unfolding handle_uds
uds-by_service protected s sid rest r w reads writes =
    elim (Bool-cases (sid == sid_read_data_by_id)) [
      | inl e ↦ rw e (reads (ground arith))
      | inr e ↦ elim (Bool-cases (sid == sid_write_data_by_id)) [
        | inl e' ↦ rw (e, e') (writes (ground arith))
        | inr e' ↦ rw (e, e') (unfold serve_request in refl)
      ]
    ]

-- Seen through its store, the UDS handler answers every payload of bytes as the specification of a
-- device does, and changes what clients see as the specification does.
pub handle_uds-refines :
    (protected : List ℕ) (payload : Bytes) (s : DatapointStore)
    → All IsByte payload
    → (view (handle_uds protected payload s).0, (handle_uds protected payload s).1)
      ≡ serve_payload protected (view s) on_uds payload
unfolding parse_uds
handle_uds-refines protected [] s h = unfold handle_uds serve_request in refl
handle_uds-refines protected (sid ∷ []) s h =
    uds-by_service protected s sid [] (too_short sid) (too_short sid)
      (λ e. unfold handle_read_data_by_id serve_request in rw e refl)
      (λ e. unfold handle_write_data_by_id serve_request in rw e refl)
handle_uds-refines protected (sid ∷ hi ∷ []) s h =
    uds-by_service protected s sid (hi ∷ []) (too_short sid) (too_short sid)
      (λ e. unfold handle_read_data_by_id serve_request in rw e refl)
      (λ e. unfold handle_write_data_by_id serve_request in rw e refl)
handle_uds-refines protected (sid ∷ hi ∷ lo ∷ []) s h =
    uds-by_service protected s sid (hi ∷ lo ∷ []) (read_did hi lo) (too_short sid)
      (λ e. unfold serve_request in ap viewed (handle_read_data_by_id_lem s sid hi lo [] h.1.1.0))
      (λ e. unfold handle_write_data_by_id serve_request in rw e refl)
handle_uds-refines protected (sid ∷ hi ∷ lo ∷ b ∷ bs) s h =
    uds-by_service protected s sid (hi ∷ lo ∷ b ∷ bs) (read_did hi lo) (write_did hi lo (b ∷ bs))
      (λ e.
        unfold serve_request in ap viewed (handle_read_data_by_id_lem s sid hi lo (b ∷ bs) h.1.1.0))
      (λ e. write-refines protected s sid hi lo b bs h.1.1.0)

service77-fields :
    (protected : List ℕ) (s : DatapointStore) (rest : Bytes)
    → All IsByte rest
    → viewed (handle_service77 (sid_service77 ∷ rest) s)
      ≡ serve_request protected (view s) (parse_fields rest)
unfolding handle_service77 parse_fields serve_request
service77-fields protected s [] h = refl
service77-fields protected s (c1 ∷ []) h = refl
service77-fields protected s (c1 ∷ c2 ∷ []) h = refl
service77-fields protected s (c1 ∷ c2 ∷ k1 ∷ []) h = refl
service77-fields protected s (c1 ∷ c2 ∷ k1 ∷ k2 ∷ []) h = refl
service77-fields protected s (c1 ∷ c2 ∷ k1 ∷ k2 ∷ k3 ∷ []) h = refl
service77-fields protected s (c1 ∷ c2 ∷ k1 ∷ k2 ∷ k3 ∷ lo ∷ []) h = refl
service77-fields protected s (c1 ∷ c2 ∷ k1 ∷ k2 ∷ k3 ∷ lo ∷ hi ∷ []) h = refl
service77-fields protected s (c1 ∷ c2 ∷ k1 ∷ k2 ∷ k3 ∷ lo ∷ hi ∷ b ∷ bs) h =
    let (low, (high, (first, others))) = h.1.1.1.1.1 in
    ap viewed (handle_service77-write s c1 c2 k1 k2 k3 lo hi b bs low first)
    ∙ s77_reply-viewed c1 c2 (write s (did_of hi lo) (tail_data (b ∷ bs)))
    ∙ confirmed-write _ _ s _ _

-- The Service 77 handler through its store, on every payload of bytes.
pub handle_service77-viewed :
    (protected : List ℕ) (payload : Bytes) (s : DatapointStore)
    → All IsByte payload
    → (view (handle_service77 payload s).0, (handle_service77 payload s).1)
      ≡ serve_payload protected (view s) on_s77 payload
unfolding parse_service77
handle_service77-viewed protected [] s h = unfold handle_service77 serve_request in refl
handle_service77-viewed protected (sid ∷ rest) s h = elim (Bool-cases (sid == sid_service77)) [
  | inl e ↦
      let same : sid ≡ sid_service77 = ground arith in
      rw same (service77-fields protected s rest h.1)
  | inr e ↦ rw e (unfold handle_service77 serve_request in rw e refl)
]
