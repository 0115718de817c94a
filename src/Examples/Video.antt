-- ===== src/Examples/Video.antt =====
-- video/normal_stream.py on concrete fragments.
use openframetap.Prelude.{
  ◌+◌, ◌==◌, ◌||◌, ℕ, zero, suc, true, none, some, List, [], ◌∷◌, ◌≡◌, ◌≢◌, refl, ok, err, arith,
  All, inl, inr, ◌⊎◌, length, ◌<◌, ◌≤◌,
}
use openframetap.Floats.{ℤ, pos}
use openframetap.Bytes.{IsBytes, from_little, same_bytes}
use openframetap.Media.{MediaFragment, AccessUnitHeader, parse_access_unit}
use openframetap.Video.{new_assembler, feed_fragment, feed_datagram, missing_part}
use openframetap.Video.Gathers.{Frame, IsOf, IsShort}
use openframetap.Video.Reassembles.{IsUnit}
use openframetap.Video.Bounded.{IsHeld}
use openframetap.Video.Traces.{after, answers, brought, Arrives, feed-reassembles}
use openframetap.Video.Runs.{fed_all, feed_datagram-bounded}
use openframetap.Media.{is_access_unit_start}
use openframetap.Collector.{Observation}
use openframetap.Collector.Feed.{Collector, new_collector, finish_frames}
use openframetap.Collector.Weights.{sent}
use openframetap.Collector.Conserves.{HasLength, collect_all, finish_frames-conserves}
use openframetap.Examples.Safety.{thousandths}

abbrev first_part : List ℕ
first_part = 0 ∷ 0 ∷ 1 ∷ 0xFF ∷ 5 ∷ 0 ∷ 0 ∷ 0 ∷ 9 ∷ 9 ∷ 9 ∷ 9 ∷ 7 ∷ 1 ∷ 0 ∷ 0 ∷ 0x65 ∷ 0x88 ∷ []

abbrev two_parts : ℕ → List ℕ
two_parts zero = first_part
two_parts (suc n) = 0x84 ∷ 0x21 ∷ 0xA0 ∷ []

abbrev frame : Frame
frame = record { key = 41; count = 2; part = two_parts }

abbrev fragment : ℕ → ℕ → List ℕ → MediaFragment
fragment id index payload = record {
  basic = record {
    total_length = 20;
    format_nibble = 8;
    session_id = 0x1234;
    transport_sequence = 8;
    wh_type = 2;
    checksum = 0;
    checksum_valid = true;
  };
  transport_metadata = [];
  frame_id = id;
  fragment_count = 2;
  fragment_index = index;
  frame_flags = 0;
  reserved_19 = 0;
  payload = payload;
}

-- the second part twice, with a fragment of another frame between
abbrev arrivals : List (MediaFragment × ℤ)
arrivals =
    (fragment 41 1 (two_parts 1), pos 1000)
    ∷ (fragment 42 0 (1 ∷ 2 ∷ []), pos 1000)
    ∷ (fragment 41 1 (two_parts 1), pos 1400)
    ∷ []

abbrev Times : ℤ → Type 0
Times t = (t ≡ pos 1000) ⊎ (t ≡ pos 1400)

Times-IsShort : IsShort frame Times
Times-IsShort now since (inl e) (inl g) = rw (e, g) refl
Times-IsShort now since (inl e) (inr g) = rw (e, g) refl
Times-IsShort now since (inr e) (inl g) = rw (e, g) refl
Times-IsShort now since (inr e) (inr g) = rw (e, g) refl

abbrev unit_header : AccessUnitHeader
unit_header = record {
  magic = 0 ∷ 0 ∷ 1 ∷ 0xFF ∷ [];
  declared_length = 5;
  metadata_raw = 9 ∷ 9 ∷ 9 ∷ 9 ∷ [];
  timestamp_ms_candidate = 263;
}

frame-IsUnit : IsUnit frame unit_header
unfolding parse_access_unit from_little same_bytes
frame-IsUnit = record { parsed = refl; exact = refl }

second-IsOf : IsOf frame (fragment 41 1 (two_parts 1))
second-IsOf = record { same_key = refl; same_count = refl; inside = omega arith; payload = refl }

first-IsOf : IsOf frame (fragment 41 0 first_part)
first-IsOf = record { same_key = refl; same_count = refl; inside = omega arith; payload = refl }

all_but_first : (i : ℕ) → i < 2 → (brought 41 i arrivals || 0 == i) ≡ true
all_but_first zero l = refl
all_but_first (suc zero) l = refl
all_but_first (suc (suc i)) l = absurd (omega arith)

arrivals-Arrives : All (Arrives frame Times) arrivals
arrivals-Arrives = (
  (inl refl, λ _. second-IsOf),
  ((inl refl, λ e. absurd (cc e)), ((inr refl, λ _. second-IsOf), tt)),
)

feed-reassembles_example :
    All (λ r. r ≡ ok none) (answers 41 arrivals new_assembler)
    × ((feed_fragment (fragment 41 0 first_part) (pos 1400) (after arrivals new_assembler)).1
        ≡ ok (some (0x65 ∷ 0x88 ∷ 0x84 ∷ 0x21 ∷ 0xA0 ∷ [], 263)))
feed-reassembles_example =
    feed-reassembles frame Times Times-IsShort 0 (omega arith) arrivals new_assembler
      (fragment 41 0 first_part) (pos 1400) unit_header frame-IsUnit refl refl arrivals-Arrives
      first-IsOf (inr refl) refl refl all_but_first

abbrev garbage : List ℕ
garbage = 1 ∷ 2 ∷ 3 ∷ []

garbage-IsBytes : IsBytes garbage
garbage-IsBytes = (omega arith, (omega arith, (omega arith, tt)))

feed_datagram-bounded_example :
    (length (fed_all ((garbage, pos 1000) ∷ []) new_assembler).pending ≤ 256)
    × All
        (λ entry. (length entry.1.parts < entry.1.count) × (entry.1.count ≤ 64))
        (fed_all ((garbage, pos 1000) ∷ []) new_assembler).pending
    × IsHeld (fed_all ((garbage, pos 1000) ∷ []) new_assembler).continuation
    × ((feed_datagram garbage (pos 1400) (fed_all ((garbage, pos 1000) ∷ []) new_assembler)).1
        ≢ err missing_part)
feed_datagram-bounded_example =
    feed_datagram-bounded ((garbage, pos 1000) ∷ []) garbage (pos 1400) (garbage-IsBytes, tt)
      garbage-IsBytes

abbrev seen : ℕ → ℤ → MediaFragment → Observation ℤ
seen index time captured = record {
  packet_index = index;
  capture_timestamp = time;
  fragment = captured;
}

-- a part before the start of its frame, the start, the part again, and a fragment of no frame
abbrev captured : List (Observation ℤ)
captured =
    seen 1 (pos 1000) (fragment 41 1 (two_parts 1))
    ∷ seen 2 (pos 1100) (fragment 41 0 first_part)
    ∷ seen 3 (pos 1200) (fragment 41 1 (two_parts 1))
    ∷ seen 4 (pos 1300) (fragment 77 1 (5 ∷ []))
    ∷ []

abbrev collector : Collector ℤ
collector = record {
  orphan_window_seconds = pos 2000;
  active = [];
  pending = [];
  completed = [];
  orphan_fragment_count = 0;
  bogus_start_fragment_count = 0;
}

collector-made : new_collector (pos 2000) ≡ ok collector
unfolding new_collector
collector-made = refl

captured-HasLength : All HasLength captured
unfolding is_access_unit_start same_bytes from_little
captured-HasLength =
    (λ e. absurd (cc e), (λ e. omega arith, (λ e. absurd (cc e), (λ e. absurd (cc e), tt))))

finish_frames-conserves_example :
    (b : Collector ℤ) × (collect_all captured collector ≡ ok b)
    × (sent (finish_frames b).1 + (finish_frames b).0.orphan_fragment_count ≡ 4)
finish_frames-conserves_example =
    finish_frames-conserves (pos 2000) collector captured collector-made captured-HasLength
