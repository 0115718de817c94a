-- ===== src/Reassembly.antt =====
-- protocol/reassembly.py: DUML frames out of a stream cut at arbitrary places.
pub mod Scan
pub mod Split
pub mod Head
pub mod Marker
pub mod Refines
pub mod Streams
pub mod Encoded
use openframetap.Prelude.{
  ℕ, zero, suc, ◌+◌, Bool, true, false, not, ◌&&◌, Option, none, some, List, [], ◌∷◌, ◌++◌, ◌==◌,
  ltb, leb, if◌then◌else◌, length, get_or, take, drop, Result, ok, err, ◌>>=◌, map_err,
}
use openframetap.Crc.{crc8_dji}
use openframetap.Duml.{
  DumlFrame, DumlDecodeError, magic, min_frame_length, max_frame_length, declared_length,
  decode_duml_frame,
}

pub record ReassemblyStats : Type 0 where
  pub bytes_in : ℕ
  pub frames_ok : ℕ
  pub crc8_failures : ℕ
  pub crc16_failures : ℕ
  pub invalid_lengths : ℕ
  pub discarded_bytes : ℕ
  pub truncated_fragments : ℕ

pub data EventKind : Type 0 where
  error frame : EventKind

pub data DiscardReason : Type 0 where
  garbage_before_magic invalid_length crc8_mismatch crc16_mismatch truncated_at_end : DiscardReason

pub record ReassemblyEvent : Type 0 where
  pub kind : EventKind
  pub raw : List ℕ
  pub decoded : Option DumlFrame
  pub reason : Option DiscardReason

-- `DumlStreamReassembler`
pub record Reassembler : Type 0 where
  pub buffer : List ℕ
  pub stats : ReassemblyStats

abbrev pub fresh : Reassembler
fresh = record {
  buffer = [];
  stats = record {
    bytes_in = 0;
    frames_ok = 0;
    crc8_failures = 0;
    crc16_failures = 0;
    invalid_lengths = 0;
    discarded_bytes = 0;
    truncated_fragments = 0;
  };
}

-- an index counted from one octet further on
abbrev pub one_later : Option ℕ → Option ℕ
one_later none = none
one_later (some i) = some (suc i)

-- `buffer.find(MAGIC)`
unfoldable pub find_magic : List ℕ → Option ℕ
find_magic [] = none
find_magic (b ∷ rest) = if b == magic then some 0 else one_later (find_magic rest)

-- One turn of the `while` loop: the state and the events it leaves, and whether the loop goes on.
pub record Turn : Type 0 where
  pub state : Reassembler
  pub events : List ReassemblyEvent
  pub again : Bool

abbrev rejected : List ℕ → Option DumlFrame → DiscardReason → ReassemblyEvent
rejected raw decoded reason = record {
  kind = error;
  raw = raw;
  decoded = decoded;
  reason = some reason;
}

-- The turn once the candidate has been decoded: its second checksum decides.
judge_candidate : Reassembler → List ReassemblyEvent → ℕ → DumlFrame → Turn
judge_candidate s events total decoded =
    let candidate = take total s.buffer in
    let stats = s.stats in
    if not decoded.crc16_valid
    then record {
      state = record {
        buffer = drop 1 s.buffer;
        stats = record stats { crc16_failures = stats.crc16_failures + 1 };
      };
      events = events ++ rejected candidate (some decoded) crc16_mismatch ∷ [];
      again = true;
    }
    else record {
      state = record {
        buffer = drop total s.buffer;
        stats = record stats { frames_ok = stats.frames_ok + 1 };
      };
      events =
          events
          ++ record { kind = frame; raw = candidate; decoded = some decoded; reason = none } ∷ [];
      again = true;
    }

-- A turn that rejects the first octet alone, and reports four.
skip_head : Reassembler → List ReassemblyEvent → ReassemblyStats → DiscardReason → Turn
skip_head s events stats reason = record {
  state = record { buffer = drop 1 s.buffer; stats = stats };
  events = events ++ rejected (take 4 s.buffer) none reason ∷ [];
  again = true;
}

-- The turn once the buffer begins with the magic octet.
pub inspect_head : Reassembler → List ReassemblyEvent → Result DumlDecodeError Turn
unfolding skip_head
inspect_head s events =
    let stats = s.stats in
    let total = declared_length s.buffer in
    if ltb (length s.buffer) 4
    then ok (record { state = s; events = events; again = false })
    else if not (leb min_frame_length total && leb total max_frame_length)
    then ok (
        skip_head s events (record stats { invalid_lengths = stats.invalid_lengths + 1 })
          invalid_length)
    else if not (crc8_dji (take 3 s.buffer) == get_or s.buffer 3 0)
    then ok (
        skip_head s events (record stats { crc8_failures = stats.crc8_failures + 1 }) crc8_mismatch)
    else if ltb (length s.buffer) total
    then ok (record { state = s; events = events; again = false })
    else do
      decoded ← decode_duml_frame (take total s.buffer) false
      ok (judge_candidate s events total decoded)

-- The whole body: what stands before the magic octet is discarded first.
discard_garbage : Reassembler → Option ℕ → Result DumlDecodeError Turn
unfolding inspect_head
discard_garbage s none =
    let stats = s.stats in
    ok (record {
      state = record {
        buffer = [];
        stats = record stats { discarded_bytes = stats.discarded_bytes + length s.buffer };
      };
      events = rejected s.buffer none garbage_before_magic ∷ [];
      again = false;
    })
discard_garbage s (some zero) = inspect_head s []
discard_garbage s (some (suc marker)) =
    let stats = s.stats in
    inspect_head
      (record {
        buffer = drop (suc marker) s.buffer;
        stats = record stats { discarded_bytes = stats.discarded_bytes + suc marker };
      })
      (rejected (take (suc marker) s.buffer) none garbage_before_magic ∷ [])

pub turn : Reassembler → Result DumlDecodeError Turn
unfolding discard_garbage find_magic
turn s = discard_garbage s (find_magic s.buffer)

-- The model's own outcome: the decoder raised, or the rounds given ran out.
pub data FeedError : Type 0 where
  raised : DumlDecodeError → FeedError
  out_of_rounds : FeedError

-- `while self._buffer`, within the rounds given: the last state, and the events in order.
drain : ℕ → Reassembler → Result FeedError (Reassembler × List ReassemblyEvent)
unfolding turn
drain zero s = err out_of_rounds
drain (suc rounds) s = if length s.buffer == 0 then ok (s, []) else do
  t ← map_err raised (turn s)
  let more = drain rounds t.state
  if t.again then more >>= (λ (s', events). ok (s', t.events ++ events)) else ok (t.state, t.events)

-- A turn that goes on removes an octet, so one round more than there are octets is enough.
unfoldable pub feed : Reassembler → List ℕ → Result FeedError (Reassembler × List ReassemblyEvent)
unfolding drain judge_candidate
feed s chunk =
    let stats = s.stats in
    let buffer = s.buffer ++ chunk in
    drain (suc (length buffer)) (record {
      buffer = buffer;
      stats = record stats { bytes_in = stats.bytes_in + length chunk };
    })

unfoldable pub finish : Reassembler → Reassembler × List ReassemblyEvent
finish s =
    let stats = s.stats in
    if length s.buffer == 0 then (s, []) else (
      record {
        buffer = [];
        stats = record stats { truncated_fragments = stats.truncated_fragments + 1 };
      },
      rejected s.buffer none truncated_at_end ∷ [],
    )
