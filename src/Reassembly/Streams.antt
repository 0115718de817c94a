-- ===== src/Reassembly/Streams.antt =====
-- What `feed` of protocol/reassembly.py reports: cuts do not matter, and every frame is valid.
use openframetap.Crc.{crc8_dji}
use openframetap.Prelude.{
  take-append_within, get_or-append_within, take-append-drop, subst⁻¹, subst, length-take, ap₂,
  ==_iff, ℕ, zero, suc, ◌≡◌, sym, ap, ◌∙◌, true, false, List, [], ◌∷◌, ◌++◌, arith, ◌==◌, length,
  get_or, take, drop, Bool-cases, inl, inr, ok, append_assoc, All,
}
use openframetap.Duml.{frame_of, DumlFrame, decode_duml_frame, magic}
use openframetap.Reassembly.{Reassembler, ReassemblyEvent, feed}
use openframetap.Reassembly.Scan.{
  verdict, scan, Framed, verdict-accept, scan_other, scan_wait, scan_skip, scan-accept,
}
use openframetap.Reassembly.Split.{scan_all, scan_all-append, Verdict-cases}
use openframetap.Reassembly.Head.{frames_of, candidate_decodes, crc16_valid-frame_of}
use openframetap.Reassembly.Refines.{feed-scan}

-- Two chunks fed one after the other give the frames, and leave the octets, of both fed at once,
-- whatever the state: where the notifications cut the stream does not matter.
pub feed-append :
    (s : Reassembler) (first second : List ℕ)
    → (r : Reassembler × List ReassemblyEvent) × (q : Reassembler × List ReassemblyEvent)
      × (p : Reassembler × List ReassemblyEvent) × (feed s first ≡ ok r)
      × (feed r.0 second ≡ ok q)
      × (feed s (first ++ second) ≡ ok p)
      × (frames_of p.1 ≡ frames_of r.1 ++ frames_of q.1)
      × (p.0.buffer ≡ q.0.buffer)
feed-append s first second =
    let (r, dr, fr, br) = feed-scan s first in
    let (q, dq, fq, bq) = feed-scan r.0 second in
    let (p, dp, fp, bp) = feed-scan s (first ++ second) in
    let start = s.buffer ++ first in
    let whole : scan_all (s.buffer ++ (first ++ second)) ≡ (
      (scan_all start).0 ++ (scan_all (r.0.buffer ++ second)).0,
      (scan_all (r.0.buffer ++ second)).1,
    ) =
      ap scan_all (sym (append_assoc s.buffer first second))
      ∙ scan_all-append start second
      ∙ ap
          (λ (t : List ℕ).
            ((scan_all start).0 ++ (scan_all (t ++ second)).0, (scan_all (t ++ second)).1))
          (sym br) in
    (
      r,
      q,
      p,
      dr,
      dq,
      dp,
      fp ∙ ap (λ (t : List (List ℕ) × List ℕ). t.0) whole ∙ ap₂ ◌++◌ (sym fr) (sym fq),
      bp ∙ ap (λ (t : List (List ℕ) × List ℕ). t.1) whole ∙ sym bq,
    )

-- Octets that decode, with nothing left over, to a frame with two valid checksums.
pub IsValidFrame : List ℕ → Type 0
IsValidFrame raw =
    (d : DumlFrame) × (decode_duml_frame raw false ≡ ok d)
    × (d.crc8_valid ≡ true)
    × (d.crc16_valid ≡ true)

crc8_frame : (b : List ℕ) (n : ℕ) → Framed b n → (frame_of n (take n b)).crc8_valid ≡ true
unfolding frame_of
crc8_frame b n g =
    let raw = take n b in
    let exact : length raw ≡ n = omega (arith, length-take n b, g.room) in
    let whole : raw ++ drop n b ≡ b = take-append-drop n b in
    let fourth : get_or b 3 0 ≡ get_or raw 3 0 =
      ap (λ t. get_or t 3 0) (sym whole)
      ∙ get_or-append_within raw (drop n b) 3 0 (omega (arith, exact, g.least)) in
    let three : take 3 b ≡ take 3 raw =
      ap (take 3) (sym whole)
      ∙ take-append_within raw (drop n b) 3 (omega (arith, exact, g.least)) in
    (==_iff (get_or raw 3 0) (crc8_dji (take 3 raw))).1 (
      sym fourth ∙ sym ((==_iff (crc8_dji (take 3 b)) (get_or b 3 0)).0 g.crc8) ∙ ap crc8_dji three)

Framed-IsValidFrame :
    (buffer : List ℕ) (total : ℕ)
    → get_or buffer 0 0 ≡ magic
    → Framed buffer total
    → IsValidFrame (take total buffer)
unfolding IsValidFrame
Framed-IsValidFrame buffer total first f = (
  frame_of total (take total buffer),
  candidate_decodes buffer total first f.declared f.least f.most f.room,
  crc8_frame buffer total f,
  crc16_valid-frame_of total (take total buffer) ∙ f.crc16,
)

scan-IsValidFrame : (n : ℕ) (buffer : List ℕ) → All IsValidFrame (scan n buffer).0
unfolding scan
scan-IsValidFrame zero buffer = tt
scan-IsValidFrame (suc n) [] = tt
scan-IsValidFrame (suc n) (x ∷ xs) = elim (Bool-cases (x == magic)) [
  | inr e ↦ rw (scan_other n x xs e) (scan-IsValidFrame n xs)
  | inl e ↦ elim (Verdict-cases (verdict (x ∷ xs))) [
    | inl v ↦ rw (scan_wait n x xs e v) tt
    | inr (inl v) ↦ rw (scan_skip n x xs e v) (scan-IsValidFrame n xs)
    | inr (inr (total, v)) ↦ rw (scan-accept n x xs e total v) (
      Framed-IsValidFrame (x ∷ xs) total ((==_iff x magic).0 e) (verdict-accept (x ∷ xs) total v),
      scan-IsValidFrame n (drop total (x ∷ xs)),
    )
  ]
]

-- Every frame that is reported, whatever was fed before, decodes with nothing left over, and both
-- its checksums are valid.
pub feed-IsValidFrame :
    (s : Reassembler) (chunk : List ℕ) (r : Reassembler × List ReassemblyEvent)
    → feed s chunk ≡ ok r
    → All IsValidFrame (frames_of r.1)
feed-IsValidFrame s chunk r e =
    let (q, d, frames, left) = feed-scan s chunk in
    let same : q ≡ r = cc in
    subst (λ (t : Reassembler × List ReassemblyEvent). All IsValidFrame (frames_of t.1)) same
      (subst⁻¹ (All IsValidFrame) frames
        (scan-IsValidFrame (length (s.buffer ++ chunk)) (s.buffer ++ chunk)))
