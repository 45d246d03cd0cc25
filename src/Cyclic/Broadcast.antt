-- ===== src/Cyclic/Broadcast.antt =====
-- What the broadcasts of simulator/cyclic.py tell a listener.
use e3on_canserver.Base.{
  Exc, value_error, index_error, assertion_error, incomplete_read, key_error, file_not_found,
  os_error, type_error, attribute_error, overflow_error, Result, ok, err, ℕ, ◌≤◌, ◌<◌, ◌≡◌, refl,
  inl, inr, none, some, List, [], ◌∷◌, ◌++◌, map, Option-cases, length,
}
use e3on_canserver.Isotp.{Bytes}
use e3on_canserver.Datastore.{DatapointStore, read}
use e3on_canserver.Bus.{Message}
use e3on_canserver.Collect.{segment_collect}
use e3on_canserver.Collect.Decode.{decode}
use e3on_canserver.Collect.Messages.{decode-segment_collect, segment_collect-err}
use e3on_canserver.Cyclic.{
  LocalTime, raw, localtime, encode_value, CyclicMessage, send_segmented, cyclic_send, run_message,
}

send_segmented-ok :
    (tx_id : ℕ) (r : Result (List Bytes))
    → ((e : Exc) → r ≡ err e → e ≡ value_error)
    → (sent : List Message) × (send_segmented tx_id r ≡ ok sent)
unfolding send_segmented
send_segmented-ok tx_id (ok frames) h = (map (λ f. (tx_id, f)) frames, refl)
send_segmented-ok tx_id (err value_error) h = ([], refl)
send_segmented-ok tx_id (err index_error) h = cc (h index_error refl)
send_segmented-ok tx_id (err assertion_error) h = cc (h assertion_error refl)
send_segmented-ok tx_id (err incomplete_read) h = cc (h incomplete_read refl)
send_segmented-ok tx_id (err key_error) h = cc (h key_error refl)
send_segmented-ok tx_id (err file_not_found) h = cc (h file_not_found refl)
send_segmented-ok tx_id (err os_error) h = cc (h os_error refl)
send_segmented-ok tx_id (err type_error) h = cc (h type_error refl)
send_segmented-ok tx_id (err attribute_error) h = cc (h attribute_error refl)
send_segmented-ok tx_id (err overflow_error) h = cc (h overflow_error refl)

cyclic_send-ok :
    (tx_id : ℕ) (msg : CyclicMessage) (s : DatapointStore) (now : LocalTime)
    → msg.did < 65536
    → (sent : List Message) × (cyclic_send tx_id msg s now ≡ ok sent)
unfolding cyclic_send
cyclic_send-ok tx_id msg s now h = elim (Option-cases (encode_value msg.encoder msg.did s now)) [
  | inl skip ↦ ([], rw (skip, cyclic_send))
  | inr (payload, e) ↦
      let (sent, fine) =
        send_segmented-ok tx_id (segment_collect msg.did payload)
          (λ x raised. ((segment_collect-err msg.did payload x h).0 raised).0) in
      (sent, rw (e, cyclic_send) fine)
]

-- A broadcast task with a 16-bit identifier never ends by an error, whatever the store holds and
-- whatever the encoder gives: it always has something, or nothing, to send.
pub run_message-ok :
    (tx_id : ℕ) (msg : CyclicMessage) (moments : List (DatapointStore × LocalTime))
    → msg.did < 65536
    → (sent : List Message) × (run_message tx_id msg moments ≡ ok sent)
unfolding run_message
run_message-ok tx_id msg [] h = ([], refl)
run_message-ok tx_id msg ((s, now) ∷ moments) h =
    let (sent, e) = cyclic_send-ok tx_id msg s now h in
    let (later, e') = run_message-ok tx_id msg moments h in (sent ++ later, rw (e, e'))

-- What a message of a cyclic task has to show: a configured value, else the value in the store at
-- that moment, or the time of day in three bytes.
pub data Shows (msg : CyclicMessage) (s : DatapointStore) (now : LocalTime) : Bytes → Type 0 where
  configured : (value : Bytes) → msg.encoder ≡ raw (some value) → Shows msg s now value
  stored :
      (value : Bytes) → msg.encoder ≡ raw none → read s msg.did ≡ some value → Shows msg s now value
  clock : msg.encoder ≡ localtime → Shows msg s now (now.tm_hour ∷ now.tm_min ∷ now.tm_sec ∷ [])

encode_value-Shows :
    (msg : CyclicMessage) (s : DatapointStore) (now : LocalTime) (value : Bytes)
    → Shows msg s now value
    → encode_value msg.encoder msg.did s now ≡ some value
unfolding encode_value
encode_value-Shows msg s now value (configured _ e) = rw e refl
encode_value-Shows msg s now value (stored _ e found) = rw e found
encode_value-Shows msg s now _ (clock e) = rw e refl

-- At each moment a task with a value of 1 to 255 bytes to show, the configured one, the one in the
-- store, or the time of day, broadcasts, all on its own CAN-ID, frames that a listener decodes to
-- the identifier and that value.
pub decode-cyclic_send :
    (tx_id : ℕ) (msg : CyclicMessage) (s : DatapointStore) (now : LocalTime) (value : Bytes)
    → msg.did < 65536
    → Shows msg s now value
    → 1 ≤ length value
    → length value ≤ 255
    → (frames : List Bytes) × (cyclic_send tx_id msg s now ≡ ok (map (λ f. (tx_id, f)) frames))
      × (decode frames ≡ some (msg.did, value))
unfolding cyclic_send
decode-cyclic_send tx_id msg s now value h shown h1 h2 =
    let e : encode_value msg.encoder msg.did s now ≡ some value =
      encode_value-Shows msg s now value shown in
    let (frames, made, decoded) = decode-segment_collect msg.did value h h1 h2 in
    (frames, rw (e, cyclic_send) (rw made), decoded)
