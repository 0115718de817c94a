-- ===== src/Media.antt =====
-- protocol/dji_wifi_media.py: the fragments of video that the camera sends over Wi-Fi.
pub mod Fragments
use openframetap.DjiWifi.{BasicHeader, EnvelopeError, parse_basic, format_nibble_value}
use openframetap.Prelude.{
  drop, take, ◌^◌, ok, ◌/◌, not, ltb, length, ◌+◌, reject_if, map_err, leb, ◌>>◌, ◌>>=◌, ◌&&◌,
  get_or, [], ◌∷◌, ◌==◌, ◌*◌, bit_and, Result, ℕ, List, Bool,
}
use openframetap.Bytes.{from_little, same_bytes}

abbrev pub media_type : ℕ
media_type = 0x02

abbrev pub outer_header_length : ℕ
outer_header_length = 20

abbrev pub access_unit_header_length : ℕ
access_unit_header_length = 16

abbrev pub media_magic : List ℕ
media_magic = 0x00 ∷ 0x00 ∷ 0x01 ∷ 0xFF ∷ []

-- `DjiWifiMediaError`, one constructor for each message, and the error of the basic header.
pub data MediaError : Type 0 where
  header_error : EnvelopeError → MediaError
  not_media invalid_checksum truncated_header length_mismatch zero_count : MediaError
  unexpected_format : ℕ → MediaError
  count_exceeds_index_space truncated_access_unit invalid_magic zero_length : MediaError
  index_outside_count : ℕ → ℕ → MediaError

-- `DjiWifiMediaFragment`
pub record MediaFragment : Type 0 where
  pub basic : BasicHeader
  pub transport_metadata : List ℕ
  pub frame_id : ℕ
  pub fragment_count : ℕ
  pub fragment_index : ℕ
  pub frame_flags : ℕ
  pub reserved_19 : ℕ
  pub payload : List ℕ

abbrev pub count_of : List ℕ → ℕ
count_of raw = bit_and (get_or raw 17 0) 0x7F

abbrev pub index_of : List ℕ → ℕ
index_of raw = 2 * bit_and (get_or raw 18 0) 0x1F + get_or raw 17 0 / 2 ^ 7

-- `parse` once the basic header has been read
unfoldable pub fragment_of : BasicHeader → List ℕ → Result MediaError MediaFragment
fragment_of basic raw = do
  reject_if (not (basic.wh_type == media_type)) not_media
  reject_if (not (basic.format_nibble == format_nibble_value))
      (unexpected_format basic.format_nibble)
  reject_if (not basic.checksum_valid) invalid_checksum
  reject_if (ltb basic.total_length outer_header_length) truncated_header
  reject_if (not (length raw == basic.total_length)) length_mismatch
  reject_if (count_of raw == 0) zero_count
  reject_if (ltb 64 (count_of raw)) count_exceeds_index_space
  reject_if (leb (count_of raw) (index_of raw)) (index_outside_count (index_of raw) (count_of raw))
  ok (record {
    basic = basic;
    transport_metadata = take 8 (drop 8 raw);
    frame_id = get_or raw 16 0;
    fragment_count = count_of raw;
    fragment_index = index_of raw;
    frame_flags = bit_and (get_or raw 18 0) 0xE0;
    reserved_19 = get_or raw 19 0;
    payload = drop outer_header_length raw;
  })

unfoldable pub parse_fragment : List ℕ → Result MediaError MediaFragment
unfolding fragment_of
parse_fragment raw = do basic ← map_err header_error (parse_basic raw); fragment_of basic raw

unfoldable pub retransmission_generation : MediaFragment → ℕ
retransmission_generation f = bit_and f.basic.transport_sequence 0x07

unfoldable pub is_access_unit_start : MediaFragment → Bool
is_access_unit_start f =
    f.fragment_index == 0
    && leb access_unit_header_length (length f.payload)
    && same_bytes (take 4 f.payload) media_magic

-- `DjiWifiMediaAccessUnitHeader`
pub record AccessUnitHeader : Type 0 where
  pub magic : List ℕ
  pub declared_length : ℕ
  pub metadata_raw : List ℕ
  pub timestamp_ms_candidate : ℕ

unfoldable pub parse_access_unit : List ℕ → Result MediaError AccessUnitHeader
parse_access_unit raw = do
  reject_if (ltb (length raw) access_unit_header_length) truncated_access_unit
  reject_if (not (same_bytes (take 4 raw) media_magic)) invalid_magic
  let declared_length = from_little (take 4 (drop 4 raw))
  reject_if (declared_length == 0) zero_length
  ok (record {
    magic = take 4 raw;
    declared_length = declared_length;
    metadata_raw = take 4 (drop 8 raw);
    timestamp_ms_candidate = from_little (take 4 (drop 12 raw));
  })
