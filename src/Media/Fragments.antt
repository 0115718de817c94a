-- ===== src/Media/Fragments.antt =====
-- protocol/dji_wifi_media.py: what an accepted fragment guarantees, and what its start offers.
use openframetap.Media.{
  fragment_of, index_of, count_of, media_magic, MediaFragment, parse_fragment, is_access_unit_start,
  parse_access_unit, AccessUnitHeader,
}
use openframetap.Prelude.{
  le→ltb, false, ◌==◌, length-drop, leb, ap, ◌&&◌, arith, Bool, inl, inr, bit_and, Result-cases,
  length, ◌/◌, ◌+◌, ◌*◌, ◌%◌, ◌≤◌, ◌≢◌, ◌<◌, drop, take, get_or, ok, ℕ, true, ◌≡◌, List,
}
use openframetap.Bytes.{same_bytes-eq, same_bytes, from_little}
use openframetap.DjiWifi.{parse_basic, BasicHeader}
use openframetap.Bits.{bit_and_top_three, bit_and_mask}

-- What the guards of the parser have let pass.
record Accepted (raw : List ℕ) (f : MediaFragment) : Type 0 where
  sum : f.basic.checksum_valid ≡ true
  least : 20 ≤ f.basic.total_length
  exact : length raw ≡ f.basic.total_length
  count : f.fragment_count ≡ count_of raw
  most : count_of raw ≤ 64
  index : f.fragment_index ≡ index_of raw
  within : index_of raw < count_of raw
  flags : f.frame_flags ≡ bit_and (get_or raw 18 0) 0xE0
  payload : f.payload ≡ drop 20 raw
  frame : f.frame_id ≡ get_or raw 16 0

fragment_of-Accepted :
    (basic : BasicHeader) (raw : List ℕ) (f : MediaFragment)
    → fragment_of basic raw ≡ ok f
    → Accepted raw f
unfolding fragment_of
fragment_of-Accepted basic raw f e = ground arith

parse_fragment-Accepted :
    (raw : List ℕ) (f : MediaFragment) → parse_fragment raw ≡ ok f → Accepted raw f
unfolding parse_fragment
parse_fragment-Accepted raw f e = elim (Result-cases (parse_basic raw)) [
  | inr (bad, failed) ↦ cc (rw failed at e)
  | inl (basic, parsed) ↦ fragment_of-Accepted basic raw f (rw parsed at e)
]

pub parse_fragment-frame_id :
    (raw : List ℕ) (f : MediaFragment) → parse_fragment raw ≡ ok f → f.frame_id ≡ get_or raw 16 0
parse_fragment-frame_id raw f e = (parse_fragment-Accepted raw f e).frame

-- A fragment that is accepted from octets has its index below its count, which is from one to
-- sixty-four, and a valid checksum. Its count, its index and its flags determine the two octets they
-- are spread over, and its payload is all of the datagram behind the header of twenty.
pub parse_fragment_sound :
    (raw : List ℕ) (f : MediaFragment)
    → parse_fragment raw ≡ ok f
    → get_or raw 17 0 < 256
    → get_or raw 18 0 < 256
    → (f.fragment_index < f.fragment_count)
      × (f.fragment_count ≤ 64)
      × (f.basic.checksum_valid ≡ true)
      × (get_or raw 17 0 ≡ f.fragment_index % 2 * 128 + f.fragment_count)
      × (get_or raw 18 0 ≡ f.frame_flags + f.fragment_index / 2)
      × (f.payload ≡ drop 20 raw)
      × (20 + length f.payload ≡ f.basic.total_length)
      × (length raw ≡ f.basic.total_length)
unfolding parse_fragment
parse_fragment_sound raw f e b17 b18 =
    let a : Accepted raw f = parse_fragment-Accepted raw f e in
    let low : bit_and (get_or raw 17 0) 0x7F ≡ get_or raw 17 0 % 128 = bit_and_mask 7 _ in
    let part : bit_and (get_or raw 18 0) 0x1F ≡ get_or raw 18 0 % 32 = bit_and_mask 5 _ in
    let high : bit_and (get_or raw 18 0) 0xE0 ≡ get_or raw 18 0 / 32 * 32 =
      bit_and_top_three (get_or raw 18 0) b18 in
    (
      omega (arith, a),
      omega (arith, a),
      a.sum,
      omega (arith, a.count, a.index, low, part, b17),
      omega (arith, a.flags, a.index, high, part, b17, b18),
      a.payload,
      omega (arith, a.exact, a.least, ap length a.payload, length-drop 20 raw),
      a.exact,
    )

-- The start of an access unit always has a header to parse, unless the length it declares is zero.
pub parse_access_unit-start :
    (f : MediaFragment)
    → is_access_unit_start f ≡ true
    → from_little (take 4 (drop 4 f.payload)) ≢ 0
    → (h : AccessUnitHeader) × (parse_access_unit f.payload ≡ ok h)
      × (h.magic ≡ media_magic)
      × (0 < h.declared_length)
unfolding is_access_unit_start parse_access_unit
parse_access_unit-start f e some_length =
    let (long, first) = begins f.payload (f.fragment_index == 0) e in
    (
      record {
        magic = take 4 f.payload;
        declared_length = from_little (take 4 (drop 4 f.payload));
        metadata_raw = take 4 (drop 8 f.payload);
        timestamp_ms_candidate = from_little (take 4 (drop 12 f.payload));
      },
      rw (le→ltb (length f.payload) 16 long, first, nonzero _ some_length),
      same_bytes-eq _ _ first,
      omega (arith, some_length),
    )
  where
    begins :
        (p : List ℕ) (b : Bool)
        → (b && leb 16 (length p) && same_bytes (take 4 p) media_magic) ≡ true
        → (16 ≤ length p) × (same_bytes (take 4 p) media_magic ≡ true)
    begins p b h = ground arith

    nonzero : (n : ℕ) → n ≢ 0 → (n == 0) ≡ false
    nonzero n h = ground arith
