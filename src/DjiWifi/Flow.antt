-- ===== src/DjiWifi/Flow.antt =====
-- protocol/dji_wifi.py: the status that the Pocket sends, and its acknowledgement.
use openframetap.Bytes.{to_little, from_little}
use openframetap.DjiWifi.{
  truncated_status, truncated_status_prefix, invalid_send_window, not_device_status,
  last_sent_outside, status_payload_mismatch, device_status, ambiguous_window, operator_status,
  EnvelopeError, format_nibble_value, flow_status_length, BasicHeader, parse_basic, encode_basic,
}
use openframetap.Prelude.{
  [], err, drop, take, not, Result, ℕ, List, length, ◌||◌, ltb, ok, leb, reject_if, ◌>>◌, ◌>>=◌,
  ◌==◌, none, some, ◌∷◌, ◌%◌, true, ◌-◌, ◌++◌, ◌+◌, if◌then◌else◌, Option,
}

-- `DjiWifiSequenceWindow`
pub record SequenceWindow : Type 0 where
  pub start : ℕ
  pub end : ℕ
  pub reserved : List ℕ

-- `DjiWifiFlowStatus`
pub record FlowStatus : Type 0 where
  pub basic : BasicHeader
  pub range_1 : SequenceWindow
  pub range_2 : SequenceWindow
  pub range_3 : SequenceWindow
  pub payload_length : ℕ
  pub payload : List ℕ

abbrev pub window : List ℕ → ℕ → SequenceWindow
window raw offset = record {
  start = from_little (take 2 (drop offset raw));
  end = from_little (take 2 (drop (offset + 2) raw));
  reserved = take 4 (drop (offset + 4) raw);
}

-- the status of a raw datagram that has been cut to its length
unfoldable pub status_of : BasicHeader → List ℕ → Result EnvelopeError FlowStatus
status_of basic raw = do
  let payload_length = from_little (take 2 (drop 32 raw))
  reject_if (not (basic.total_length == flow_status_length + payload_length))
      status_payload_mismatch
  ok (record {
    basic = basic;
    range_1 = window raw 8;
    range_2 = window raw 16;
    range_3 = window raw 24;
    payload_length = payload_length;
    payload = drop flow_status_length raw;
  })

unfoldable pub parse_status : List ℕ → Result EnvelopeError FlowStatus
unfolding status_of
parse_status raw = do
  basic ← parse_basic raw
  reject_if (not (basic.wh_type == device_status)) not_device_status
  reject_if (ltb basic.total_length flow_status_length) truncated_status_prefix
  reject_if (ltb (length raw) basic.total_length) (truncated_status basic.total_length (length raw))
  status_of basic (take basic.total_length raw)

unfoldable pub operator_peer_sequence : FlowStatus → Option ℕ
operator_peer_sequence s =
    if not (s.range_3.start == s.range_3.end) then none else some s.range_3.end

-- `(a - b) & 0xFFFF`
abbrev pub word_difference : ℕ → ℕ → ℕ
word_difference a b = (a + (65536 - b % 65536)) % 65536

abbrev pub processed : ℕ → List ℕ
processed sequence = (to_little 2 sequence ++ to_little 2 sequence) ++ 0 ∷ 0 ∷ 0 ∷ 0 ∷ []

abbrev pub acknowledgement_header : FlowStatus → BasicHeader
acknowledgement_header s = record {
  total_length = flow_status_length;
  format_nibble = format_nibble_value;
  session_id = s.basic.session_id;
  transport_sequence = 0;
  wh_type = operator_status;
  checksum = 0;
  checksum_valid = true;
}

-- the acknowledgement of a known peer sequence
unfoldable pub acknowledge : FlowStatus → ℕ → ℕ → Result EnvelopeError (List ℕ)
acknowledge s last_sent peer_sequence = do
  reject_if (not (leb last_sent 0xFFFF)) last_sent_outside
  let outstanding = word_difference last_sent peer_sequence
  reject_if (leb 0x8000 outstanding || not (outstanding % 8 == 0)) invalid_send_window
  header ← encode_basic (acknowledgement_header s)
  ok (
      header
      ++ processed s.range_1.end
      ++ processed s.range_2.end
      ++ (to_little 2 peer_sequence ++ to_little 2 last_sent ++ 0 ∷ 0 ∷ 0 ∷ 0 ∷ [])
      ++ 0 ∷ 0 ∷ [])

abbrev pub or_ambiguous :
    Option ℕ → (ℕ → Result EnvelopeError (List ℕ)) → Result EnvelopeError (List ℕ)
or_ambiguous none go = err ambiguous_window
or_ambiguous (some peer_sequence) go = go peer_sequence

unfoldable pub encode_operator_flow_ack : FlowStatus → ℕ → Result EnvelopeError (List ℕ)
unfolding operator_peer_sequence acknowledge
encode_operator_flow_ack s last_sent =
    or_ambiguous (operator_peer_sequence s) (λ peer_sequence. acknowledge s last_sent peer_sequence)
