-- ===== src/Reassembly/Scan.antt =====
-- What a reassembler promises: the frames of a stream and the octets left over, one octet at a
-- time, with no counters and no reports.
use openframetap.Prelude.{
  take-append_within, length-append, get_or-append_within, ltb→le, le→leb, ◌⊎◌, le→ltb, ℕ, zero,
  suc, ◌+◌, ◌-◌, ◌≤◌, ◌≡◌, Bool, true, false, not, ◌&&◌, List, [], ◌∷◌, ◌++◌, arith, ◌==◌, ltb, leb,
  if◌then◌else◌, length, get_or, take, drop, Bool-cases, inl, inr,
}
use openframetap.Bytes.{from_little}
use openframetap.Crc.{crc8_dji, crc16_dji}
use openframetap.Duml.{magic, min_frame_length, max_frame_length, declared_length}

-- What octets that begin with the magic one are: too few to tell, no frame, or a frame of a length.
pub data Verdict : Type 0 where
  wait skip : Verdict
  accept : ℕ → Verdict

unfoldable pub crc16_matches : List ℕ → Bool
crc16_matches raw = from_little (drop (length raw - 2) raw) == crc16_dji (take (length raw - 2) raw)

unfoldable pub verdict : List ℕ → Verdict
verdict buffer =
    let total = declared_length buffer in
    if ltb (length buffer) 4
    then wait
    else if not (leb min_frame_length total && leb total max_frame_length)
    then skip
    else if not (crc8_dji (take 3 buffer) == get_or buffer 3 0)
    then skip
    else if ltb (length buffer) total
    then wait
    else if crc16_matches (take total buffer)
    then accept total
    else skip

-- The frames, in order, and the octets that are kept, within the rounds given.
unfoldable pub scan : ℕ → List ℕ → List (List ℕ) × List ℕ
scan zero buffer = ([], buffer)
scan (suc rounds) [] = ([], [])
scan (suc rounds) (x ∷ xs) = elim (x == magic) [
  | false ↦ scan rounds xs
  | true ↦ elim (verdict (x ∷ xs)) [
    | wait ↦ ([], x ∷ xs)
    | skip ↦ scan rounds xs
    | accept total ↦
        let (frames, rest) = scan rounds (drop total (x ∷ xs)) in
        (take total (x ∷ xs) ∷ frames, rest)
  ]
]

-- The four ways of a round.
module _ (n x : ℕ) (xs : List ℕ) where
  pub scan_other : (x == magic) ≡ false → scan (suc n) (x ∷ xs) ≡ scan n xs
  unfolding scan
  scan_other e = rw (e, scan)

  module _ (first : (x == magic) ≡ true) where
    pub scan_wait : verdict (x ∷ xs) ≡ wait → scan (suc n) (x ∷ xs) ≡ ([], x ∷ xs)
    unfolding scan
    scan_wait v = rw (first, v, scan)

    pub scan_skip : verdict (x ∷ xs) ≡ skip → scan (suc n) (x ∷ xs) ≡ scan n xs
    unfolding scan
    scan_skip v = rw (first, v, scan)

    pub scan-accept :
        (total : ℕ)
        → verdict (x ∷ xs) ≡ accept total
        → scan (suc n) (x ∷ xs) ≡ (
          take total (x ∷ xs) ∷ (scan n (drop total (x ∷ xs))).0,
          (scan n (drop total (x ∷ xs))).1,
        )
    unfolding scan
    scan-accept total v = rw (first, v, scan)

-- The facts that make octets a frame.
pub record Framed (buffer : List ℕ) (total : ℕ) : Type 0 where
  pub long : 4 ≤ length buffer
  pub declared : declared_length buffer ≡ total
  pub least : min_frame_length ≤ total
  pub most : total ≤ max_frame_length
  pub crc8 : (crc8_dji (take 3 buffer) == get_or buffer 3 0) ≡ true
  pub room : total ≤ length buffer
  pub crc16 : crc16_matches (take total buffer) ≡ true

pub verdict-accept :
    (buffer : List ℕ) (total : ℕ) → verdict buffer ≡ accept total → Framed buffer total
unfolding verdict
verdict-accept buffer total e = ground arith

pub Framed-verdict :
    {buffer : List ℕ} {total : ℕ} → Framed buffer total → verdict buffer ≡ accept total
unfolding verdict
Framed-verdict {buffer} {total} f = rw (
  le→ltb _ _ f.long,
  f.declared,
  le→leb _ _ f.least,
  le→leb _ _ f.most,
  f.crc8,
  le→ltb _ _ f.room,
  f.crc16,
)

pub declared_length-append :
    (buffer more : List ℕ)
    → 4 ≤ length buffer
    → declared_length (buffer ++ more) ≡ declared_length buffer
unfolding declared_length
declared_length-append buffer more l = rw (
  get_or-append_within buffer more 1 0 (omega arith),
  get_or-append_within buffer more 2 0 (omega arith),
)

-- Octets that follow change no verdict but `wait`.
pub verdict-append :
    (buffer more : List ℕ) → (verdict buffer ≡ wait) ⊎ (verdict (buffer ++ more) ≡ verdict buffer)
unfolding verdict
verdict-append buffer more = elim (Bool-cases (ltb (length buffer) 4)) [
  | inl short ↦ inl (rw short)
  | inr long ↦
      let l : 4 ≤ length buffer = ltb→le _ _ long in
      let l' : length (buffer ++ more) ≡ length buffer + length more = length-append buffer more in
      let same = declared_length-append buffer more l in
      let third = take-append_within buffer more 3 (omega arith) in
      let fourth = get_or-append_within buffer more 3 0 (omega arith) in
      elim (Bool-cases (ltb (length buffer) (declared_length buffer))) [
        | inl cut ↦ rw (same, third, fourth) (ground (arith, l', cut, long))
        | inr room ↦ inr (
            rw (
              same,
              third,
              fourth,
              l',
              long,
              room,
              le→ltb (length buffer + length more) 4 (omega arith),
              le→ltb (length buffer + length more) (declared_length buffer)
                  (omega (arith, ltb→le _ _ room)),
              take-append_within buffer more (declared_length buffer) (ltb→le _ _ room),
            ))
      ]
]
