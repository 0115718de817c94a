-- ===== src/Reassembly/Encoded.antt =====
-- protocol/reassembly.py on a stream of frames that protocol/duml.py encoded.
use openframetap.Crc.{crc8_dji}
use openframetap.Prelude.{
  append-nil, take_all, ◌&&◌, ltb, ap₂, ==_iff, ℕ, zero, suc, ◌≤◌, ◌≡◌, refl, sym, ap, ◌∙◌, true,
  false, List, [], ◌∷◌, ◌++◌, arith, length, get_or, take, inl, inr, length-append, ok, take-append,
  drop-append,
}
use openframetap.Duml.{
  declared_length, frame_of, DumlFrame, DumlFields, decode_duml_frame, encode_duml_frame, magic,
}
use openframetap.Duml.Shape.{Accepted, decode-Accepted}
use openframetap.Duml.RoundTrip.{decode-encode}
use openframetap.Duml.Wire.{wire, encode_inverted}
use openframetap.Reassembly.{Reassembler, ReassemblyEvent, fresh, feed}
use openframetap.Reassembly.Scan.{
  accept, verdict, scan, Framed, Framed-verdict, verdict-append, scan-accept, crc16_matches,
}
use openframetap.Reassembly.Head.{frames_of, crc16_valid-frame_of}
use openframetap.Reassembly.Refines.{feed-scan}

-- Octets that the decoder takes, all of them and with valid checksums, pass the tests of a turn.
Framed-whole :
    (raw : List ℕ) (d : DumlFrame)
    → Accepted raw false d
    → (frame_of (length raw) raw).crc8_valid ≡ true
    → (frame_of (length raw) raw).crc16_valid ≡ true
    → declared_length raw ≡ length raw
    → Framed raw (length raw)
unfolding frame_of
Framed-whole raw d acc v8 v16 exact = record {
  long = acc.long;
  declared = exact;
  least = omega (arith, exact, acc.least);
  most = omega (arith, exact, acc.most);
  crc8 =
      (==_iff (crc8_dji (take 3 raw)) (get_or raw 3 0)).1
        (sym ((==_iff (get_or raw 3 0) (crc8_dji (take 3 raw))).0 v8));
  room = omega arith;
  crc16 =
      ap crc16_matches (take_all raw (length raw) (omega arith))
      ∙ sym (crc16_valid-frame_of (length raw) raw)
      ∙ v16;
}

encoded-Framed :
    (f : DumlFields) (raw : List ℕ) → encode_duml_frame f ≡ ok raw → Framed raw (length raw)
encoded-Framed f raw e =
    let (d, dec, carries, same) = decode-encode f raw [] false e (inl refl) in
    let acc : Accepted raw false d =
      decode-Accepted raw false d
        (ap (λ t. decode_duml_frame t false) (sym (append-nil raw)) ∙ dec) in
    let exact : declared_length raw ≡ length raw =
      whole_length (declared_length raw) (length raw) acc.room acc.cut in
    let shape : d ≡ frame_of (length raw) raw =
      acc.frame
      ∙ ap (λ t. frame_of t (take t raw)) exact
      ∙ ap (frame_of (length raw)) (take_all raw (length raw) (omega arith)) in
    Framed-whole raw d acc (ap (λ (t : DumlFrame). t.crc8_valid) (sym shape) ∙ carries.crc8_valid)
      (ap (λ (t : DumlFrame). t.crc16_valid) (sym shape) ∙ carries.crc16_valid) exact
  where
    whole_length : (m n : ℕ) → m ≤ n → (ltb m n && true) ≡ false → m ≡ n
    whole_length m n h cut = ground arith

-- A frame at the head of a buffer is accepted, whatever follows it.
scan-Framed :
    (raw rest : List ℕ) (n : ℕ)
    → get_or raw 0 0 ≡ magic
    → Framed raw (length raw)
    → scan (suc n) (raw ++ rest) ≡ (raw ∷ (scan n rest).0, (scan n rest).1)
scan-Framed [] rest n first f = absurd (omega (arith, f.long))
scan-Framed (x ∷ xs) rest n first f =
    let v : verdict (x ∷ xs) ≡ accept (length (x ∷ xs)) = Framed-verdict f in
    let v' : verdict ((x ∷ xs) ++ rest) ≡ accept (length (x ∷ xs)) =
      elim (verdict-append (x ∷ xs) rest) [ inl w ↦ cc | inr same ↦ same ∙ v ] in
    scan-accept n x (xs ++ rest) ((==_iff x magic).1 first) (length (x ∷ xs)) v'
    ∙ ap₂ (λ a b. (a ∷ (scan n b).0, (scan n b).1))
        (take-append (x ∷ xs) rest (length (x ∷ xs)) refl)
        (drop-append (x ∷ xs) rest (length (x ∷ xs)) refl)

-- The images of the encoder, one for each of the frames.
abbrev pub Encodings : List DumlFields → List (List ℕ) → Type 0
Encodings [] [] = Unit
Encodings (f ∷ fs) (raw ∷ raws) = (encode_duml_frame f ≡ ok raw) × Encodings fs raws
Encodings _ _ = ⊥

abbrev pub joined : List (List ℕ) → List ℕ
joined [] = []
joined (raw ∷ raws) = raw ++ joined raws

scan-joined :
    (fs : List DumlFields) (raws : List (List ℕ)) (n : ℕ)
    → Encodings fs raws
    → length (joined raws) ≤ n
    → scan n (joined raws) ≡ (raws, [])
unfolding scan
scan-joined [] [] zero e h = refl
scan-joined [] [] (suc n) e h = refl
scan-joined [] (raw ∷ raws) n e h = absurd e
scan-joined (f ∷ fs) [] n e h = absurd e
scan-joined (f ∷ fs) (raw ∷ raws) zero e h =
    absurd (omega (arith, length-append raw (joined raws), (encoded-Framed f raw e.0).long))
scan-joined (f ∷ fs) (raw ∷ raws) (suc n) e h =
    let framed = encoded-Framed f raw e.0 in
    let image : raw ≡ wire f = (encode_inverted f raw e.0).image in
    let rest =
      scan-joined fs raws n e.1 (omega (arith, length-append raw (joined raws), framed.long)) in
    scan-Framed raw (joined raws) n (ap (λ t. get_or t 0 0) image) framed
    ∙ ap (λ (t : List (List ℕ) × List ℕ). (raw ∷ t.0, t.1)) rest

-- A stream of encoded frames, fed to a fresh reassembler, comes out frame by frame as it was
-- encoded, and no octet is kept.
pub feed-frames :
    (fs : List DumlFields) (raws : List (List ℕ))
    → Encodings fs raws
    → (r : Reassembler × List ReassemblyEvent) × (feed fresh (joined raws) ≡ ok r)
      × (frames_of r.1 ≡ raws)
      × (r.0.buffer ≡ [])
feed-frames fs raws e =
    let (r, d, frames, left) = feed-scan fresh (joined raws) in
    let all = scan-joined fs raws (length (joined raws)) e (omega arith) in
    (r, d, frames ∙ ap (λ t. t.0) all, left ∙ ap (λ t. t.1) all)
