-- ===== src/Examples/Protocol.antt =====
-- protocol/crc.py, protocol/duml.py and protocol/reassembly.py on concrete frames.
use openframetap.Prelude.{
  ◌∙◌, take, drop, ℕ, ◌≡◌, ◌≢◌, refl, List, [], ◌∷◌, ◌++◌, ok, true, inr, arith, All,
}
use openframetap.Crc.{crc16_dji, crc8_dji, crc, crc16_parameters}
use openframetap.Crc.Detect.{crc-detects, crc16-IsSound}
use openframetap.Duml.{
  declared_length, frame_of, DumlFields, DumlFrame, encode_duml_frame, decode_duml_frame,
}
use openframetap.Duml.RoundTrip.{Carries, decode-encode}
use openframetap.Duml.Reencode.{fields_of, encode-decode}
use openframetap.Reassembly.{fresh, feed, ReassemblyEvent, Reassembler}
use openframetap.Reassembly.Streams.{feed-append, feed-IsValidFrame, IsValidFrame}
use openframetap.Reassembly.Scan.{crc16_matches, verdict, scan}
use openframetap.Bytes.{to_little, from_little, first_outside, IsBytes}
use openframetap.Reassembly.Head.{frames_of}
use openframetap.Reassembly.Refines.{feed-scan}
use openframetap.Reassembly.Split.{scan_all}
use openframetap.Reassembly.Encoded.{feed-frames}

abbrev sample : DumlFields
sample = record {
  sender = 2;
  receiver = 4;
  sequence = 0x1234;
  flags = 0x40;
  cmd_set = 4;
  cmd_id = 0x14;
  payload = 0x10 ∷ 0x27 ∷ [];
  version = 1;
}

abbrev sample_frame : List ℕ
sample_frame = 85 ∷ 15 ∷ 4 ∷ 162 ∷ 2 ∷ 4 ∷ 18 ∷ 52 ∷ 64 ∷ 4 ∷ 20 ∷ 16 ∷ 39 ∷ 5 ∷ 73 ∷ []

sample-encodes : encode_duml_frame sample ≡ ok sample_frame
unfolding encode_duml_frame first_outside crc8_dji to_little crc16_dji
sample-encodes = refl

crc-detects_example : crc crc16_parameters (1 ∷ 2 ∷ 3 ∷ []) ≢ crc crc16_parameters (1 ∷ 7 ∷ 3 ∷ [])
crc-detects_example =
    crc-detects crc16_parameters crc16-IsSound (1 ∷ []) (3 ∷ []) 2 7 (omega arith, tt)
      (omega arith, tt) (omega arith) (omega arith) (omega arith)

decode-encode_example :
    (d : DumlFrame) × (decode_duml_frame (sample_frame ++ 0x99 ∷ []) true ≡ ok d)
    × Carries sample d
    × (d.raw ≡ sample_frame)
decode-encode_example = decode-encode sample sample_frame (0x99 ∷ []) true sample-encodes (inr refl)

abbrev sample_decoded : DumlFrame
sample_decoded = frame_of 15 sample_frame

sample_frame-IsBytes : IsBytes sample_frame
sample_frame-IsBytes = omega arith

encode-decode_example : encode_duml_frame (fields_of sample_decoded) ≡ ok sample_frame
unfolding decode_duml_frame declared_length frame_of crc8_dji from_little crc16_dji
encode-decode_example =
    encode-decode sample_frame sample_decoded sample_frame-IsBytes refl refl refl

-- A stray octet, and the frame in two pieces.
abbrev first_chunk : List ℕ
first_chunk = 7 ∷ take 9 sample_frame

abbrev second_chunk : List ℕ
second_chunk = drop 9 sample_frame

feed-append_example :
    (r : Reassembler × List ReassemblyEvent) × (q : Reassembler × List ReassemblyEvent)
    × (p : Reassembler × List ReassemblyEvent) × (feed fresh first_chunk ≡ ok r)
    × (feed r.0 second_chunk ≡ ok q)
    × (feed fresh (first_chunk ++ second_chunk) ≡ ok p)
    × (frames_of p.1 ≡ frames_of r.1 ++ frames_of q.1)
    × (p.0.buffer ≡ q.0.buffer)
feed-append_example = feed-append fresh first_chunk second_chunk

feed-scan_example :
    (r : Reassembler × List ReassemblyEvent) × (feed fresh (7 ∷ sample_frame) ≡ ok r)
    × (frames_of r.1 ≡ (scan_all (fresh.buffer ++ 7 ∷ sample_frame)).0)
    × (r.0.buffer ≡ (scan_all (fresh.buffer ++ 7 ∷ sample_frame)).1)
feed-scan_example = feed-scan fresh (7 ∷ sample_frame)

abbrev sample_fed : Reassembler × List ReassemblyEvent
sample_fed = (feed-scan fresh (7 ∷ sample_frame)).0

feed-IsValidFrame_example : All IsValidFrame (frames_of sample_fed.1)
feed-IsValidFrame_example =
    feed-IsValidFrame fresh (7 ∷ sample_frame) sample_fed (feed-scan fresh (7 ∷ sample_frame)).1

feed-frames_example :
    (r : Reassembler × List ReassemblyEvent) × (feed fresh (sample_frame ++ sample_frame ++ [])
      ≡ ok r)
    × (frames_of r.1 ≡ sample_frame ∷ sample_frame ∷ [])
    × (r.0.buffer ≡ [])
feed-frames_example =
    feed-frames (sample ∷ sample ∷ []) (sample_frame ∷ sample_frame ∷ [])
      (sample-encodes, (sample-encodes, tt))

-- The sample is found behind a stray octet, and decodes.
feed-finds : frames_of sample_fed.1 ≡ sample_frame ∷ []
unfolding scan verdict declared_length crc16_matches crc8_dji from_little crc16_dji
feed-finds = let (r, d, frames, left) = feed-scan fresh (7 ∷ sample_frame) in frames ∙ refl
