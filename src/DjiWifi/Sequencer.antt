-- ===== src/DjiWifi/Sequencer.antt =====
-- protocol/dji_wifi.py: `DjiWifiOperatorSequencer`, which numbers the outgoing envelopes.
use openframetap.DjiWifi.{peer_sequence_outside, counter_outside, EnvelopeError}
use openframetap.DjiWifi.Envelope.{Envelope, operator_command}
use openframetap.Prelude.{
  bit_or, bit_and, ok, not, err, Bool, ℕ, Result, List, true, false, ◌||◌, ◌==◌, ◌+◌, leb,
  if◌then◌else◌,
}
use openframetap.DjiWifi.Flow.{word_difference}

pub record Sequencer : Type 0 where
  pub session_id : ℕ
  pub next_transport_sequence : ℕ
  pub peer_sequence : ℕ
  pub next_message_counter : ℕ

-- the state once `operator_command` has returned or raised
abbrev pub advance :
    Sequencer → Result EnvelopeError Envelope → Sequencer × Result EnvelopeError Envelope
advance s (err e) = (s, err e)
advance s (ok envelope) = (
  record s {
    next_transport_sequence = bit_and (s.next_transport_sequence + 8) 0xFFFF;
    next_message_counter = bit_and (s.next_message_counter + 1) 0xFF;
  },
  ok envelope,
)

-- The state is kept when an error is raised.
unfoldable pub build : Sequencer → List ℕ → Sequencer × Result EnvelopeError Envelope
build s payload =
    if not (leb s.next_message_counter 0xFF)
    then (s, err counter_outside)
    else advance s (
        operator_command payload s.session_id s.next_transport_sequence s.peer_sequence
          (bit_or 0x0100 s.next_message_counter))

unfoldable pub observe_peer_sequence : Sequencer → ℕ → Sequencer × Result EnvelopeError Bool
observe_peer_sequence s sequence =
    if not (leb sequence 0xFFFF)
    then (s, err peer_sequence_outside)
    else let delta = word_difference sequence s.peer_sequence in
      if delta == 0 || leb 0x8000 delta
      then (s, ok false)
      else (record s { peer_sequence = sequence }, ok true)
