-- ===== src/Collector.antt =====
-- analysis/dji_wifi_media.py: DjiWifiMediaCollector, which puts captured fragments together offline.
pub mod Feed
pub mod Weights
pub mod Conserves
use openframetap.Prelude.{
  ℕ, zero, suc, Bool, true, false, Option, none, some, List, [], ◌∷◌, ◌++◌, ◌==◌, if◌then◌else◌,
  not, ◌+◌, ◌&&◌, ◌||◌, ltb, leb, length, drop, bit_and, Result, ok, err, reject_if, ◌>>◌,
}
use openframetap.Floats.{Floats, nought}
use openframetap.Bytes.{same_bytes}
use openframetap.Dicts.{lookup, has, store}
use openframetap.Media.{
  MediaFragment, AccessUnitHeader, MediaError, parse_access_unit, is_access_unit_start,
  retransmission_generation, access_unit_header_length, media_magic,
}

-- `annex_b_nal_types`: the type of each unit behind the octets 0, 0, 1
unfoldable pub annex_b_nal_types : List ℕ → List ℕ
annex_b_nal_types [] = []
annex_b_nal_types (zero ∷ zero ∷ suc zero ∷ unit ∷ rest) =
    bit_and unit 0x1F ∷ annex_b_nal_types rest
annex_b_nal_types (octet ∷ rest) = annex_b_nal_types rest

-- `MediaFragmentObservation`
pub record Observation (W : Type 0) : Type 0 where
  pub packet_index : ℕ
  pub capture_timestamp : W
  pub fragment : MediaFragment

-- `_Assembly`
pub record Assembly (W : Type 0) : Type 0 where
  pub start : Observation W
  pub header : AccessUnitHeader
  pub fragments : List (ℕ × Observation W)
  pub duplicate_count : ℕ
  pub conflicting_duplicate_count : ℕ
  pub retransmission_generations : List (ℕ × ℕ)

-- counter[key] += 1
abbrev pub counted : Option ℕ → ℕ
counted none = 0
counted (some n) = n

abbrev pub count_up : List (ℕ × ℕ) → ℕ → List (ℕ × ℕ)
count_up counter key = store counter key (suc (counted (lookup counter key)))

pub record ReconstructedFrame (W : Type 0) : Type 0 where
  pub packet_index : ℕ
  pub capture_timestamp : W
  pub frame_id : ℕ
  pub fragment_count : ℕ
  pub frame_flags : List ℕ
  pub declared_length : ℕ
  pub metadata_raw : List ℕ
  pub timestamp_ms_candidate : ℕ
  pub bitstream : List ℕ
  pub missing_fragments : List ℕ
  pub duplicate_count : ℕ
  pub conflicting_duplicate_count : ℕ
  pub retransmission_generations : List (ℕ × ℕ)

-- `complete`, `length_valid` and `nal_types`
abbrev pub is_empty : List ℕ → Bool
is_empty [] = true
is_empty (n ∷ ns) = false

unfoldable pub is_complete : {W : Type 0} → ReconstructedFrame W → Bool
is_complete frame = is_empty frame.missing_fragments

unfoldable pub length_valid : {W : Type 0} → ReconstructedFrame W → Bool
unfolding is_complete
length_valid frame = is_complete frame && length frame.bitstream == frame.declared_length

unfoldable pub nal_types : {W : Type 0} → ReconstructedFrame W → List ℕ
unfolding length_valid annex_b_nal_types
nal_types frame = if length_valid frame then annex_b_nal_types frame.bitstream else []

-- sorted(set(values)): a value takes its place unless it is there
abbrev pub add_sorted : ℕ → List ℕ → List ℕ
add_sorted n [] = n ∷ []
add_sorted n (m ∷ ms) =
    let rest = add_sorted n ms in
    if ltb n m then n ∷ m ∷ ms else if n == m then m ∷ ms else m ∷ rest

module _ {W : Type 0} where
  abbrev pub flags_of : List (ℕ × Observation W) → List ℕ
  flags_of [] = []
  flags_of ((index, seen) ∷ rest) = add_sorted seen.fragment.frame_flags (flags_of rest)

  -- the indexes from n on that no fragment has, and the payloads of the others
  abbrev pub missing_from : List (ℕ × Observation W) → ℕ → ℕ → List ℕ
  missing_from fragments n zero = []
  missing_from fragments n (suc more) =
      let rest = missing_from fragments (suc n) more in if has fragments n then rest else n ∷ rest

  abbrev pub payload_of : Option (Observation W) → List ℕ
  payload_of none = []
  payload_of (some seen) = seen.fragment.payload

  abbrev pub payloads_from : List (ℕ × Observation W) → ℕ → ℕ → List ℕ
  payloads_from fragments n zero = []
  payloads_from fragments n (suc more) =
      payload_of (lookup fragments n) ++ payloads_from fragments (suc n) more

  -- `_finalize`
  unfoldable pub finalize : Assembly W → ReconstructedFrame W
  finalize a =
      let count = a.start.fragment.fragment_count in
      record {
        packet_index = a.start.packet_index;
        capture_timestamp = a.start.capture_timestamp;
        frame_id = a.start.fragment.frame_id;
        fragment_count = count;
        frame_flags = flags_of a.fragments;
        declared_length = a.header.declared_length;
        metadata_raw = a.header.metadata_raw;
        timestamp_ms_candidate = a.header.timestamp_ms_candidate;
        bitstream = drop access_unit_header_length (payloads_from a.fragments 0 count);
        missing_fragments = missing_from a.fragments 0 count;
        duplicate_count = a.duplicate_count;
        conflicting_duplicate_count = a.conflicting_duplicate_count;
        retransmission_generations = a.retransmission_generations;
      }

  -- sorted(frames, key=packet_index), which is stable
  abbrev pub insert_frame :
      ReconstructedFrame W → List (ReconstructedFrame W) → List (ReconstructedFrame W)
  insert_frame frame [] = frame ∷ []
  insert_frame frame (other ∷ rest) =
      let later = insert_frame frame rest in
      if leb frame.packet_index other.packet_index then frame ∷ other ∷ rest else other ∷ later

  unfoldable pub sort_frames : List (ReconstructedFrame W) → List (ReconstructedFrame W)
  sort_frames [] = []
  sort_frames (frame ∷ rest) = insert_frame frame (sort_frames rest)

  abbrev pub finalize_all : List (ℕ × Assembly W) → List (ReconstructedFrame W)
  finalize_all [] = []
  finalize_all ((id, a) ∷ rest) = finalize a ∷ finalize_all rest
