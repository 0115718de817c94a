-- ===== src/Reassembly/Head.antt =====
-- One turn of `feed` in protocol/reassembly.py on a buffer that begins with the magic octet.
use openframetap.Prelude.{
  ltb→le, ◌&&◌, take_all, le→ltb, get_or-append_within, take-append-drop, length-take, append-nil,
  ℕ, ◌+◌, ◌≤◌, ◌≡◌, refl, sym, ap, ◌∙◌, true, false, List, [], ◌∷◌, ◌++◌, arith, ◌==◌, ltb, leb,
  length, get_or, take, drop, Bool-cases, inl, inr, ok, Option, none, some,
}
use openframetap.Crc.{crc8_dji}
use openframetap.Duml.{DumlFrame, magic, declared_length, decode_duml_frame, frame_of}
use openframetap.Duml.Shape.{decode_accepts}
use openframetap.Reassembly.{
  crc16_mismatch, crc8_mismatch, invalid_length, skip_head, rejected, DiscardReason, Reassembler,
  ReassemblyEvent, error, frame, Turn, inspect_head, judge_candidate,
}
use openframetap.Reassembly.Scan.{
  declared_length-append, Verdict, wait, skip, accept, verdict, crc16_matches,
}

-- The raw octets of the frames among the events.
unfoldable pub frames_of : List ReassemblyEvent → List (List ℕ)
frames_of [] = []
frames_of (e ∷ rest) = elim e.kind [ error ↦ frames_of rest | frame ↦ e.raw ∷ frames_of rest ]

pub frames_of-append :
    (xs ys : List ReassemblyEvent) → frames_of (xs ++ ys) ≡ frames_of xs ++ frames_of ys
unfolding frames_of
frames_of-append [] ys = refl
frames_of-append (e ∷ xs) ys = ground (arith, frames_of-append xs ys)

-- The octets of a frame are decoded with no error.
pub candidate_decodes :
    (buffer : List ℕ) (total : ℕ)
    → get_or buffer 0 0 ≡ magic
    → declared_length buffer ≡ total
    → 13 ≤ total
    → total ≤ 1023
    → total ≤ length buffer
    → decode_duml_frame (take total buffer) false ≡ ok (frame_of total (take total buffer))
candidate_decodes buffer total first declared least most room =
    decode_accepts raw false total (omega (arith, exact)) first' declared' least most
      (omega (arith, exact)) (rw (exact, le→ltb total total (omega arith)))
    ∙ ap (λ t. ok (frame_of total t)) (take_all raw total (omega (arith, exact)))
  where
    raw : List ℕ
    raw = take total buffer

    exact : length raw ≡ total
    exact = omega (arith, length-take total buffer)

    whole : raw ++ drop total buffer ≡ buffer
    whole = take-append-drop total buffer

    first' : get_or raw 0 0 ≡ magic
    first' =
        sym (get_or-append_within raw (drop total buffer) 0 0 (omega (arith, exact)))
        ∙ ap (λ t. get_or t 0 0) whole
        ∙ first

    declared' : declared_length raw ≡ total
    declared' =
        sym (declared_length-append raw (drop total buffer) (omega (arith, exact)))
        ∙ ap declared_length whole
        ∙ declared

-- What a turn makes of a buffer that begins with the magic octet.
pub record Waits (s : Reassembler) (events : List ReassemblyEvent) (t : Turn) : Type 0 where
  pub stops : t.again ≡ false
  pub keeps : t.state ≡ s
  pub quiet : t.events ≡ events

pub record Skips (s : Reassembler) (events : List ReassemblyEvent) (t : Turn) : Type 0 where
  pub goes_on : t.again ≡ true
  pub buffer : t.state.buffer ≡ drop 1 s.buffer
  pub quiet : frames_of t.events ≡ frames_of events

pub record Accepts (s : Reassembler) (events : List ReassemblyEvent) (total : ℕ) (t : Turn)
    : Type 0 where
  pub goes_on : t.again ≡ true
  pub buffer : t.state.buffer ≡ drop total s.buffer
  pub emits : frames_of t.events ≡ frames_of events ++ take total s.buffer ∷ []

abbrev pub Outcome : Reassembler → List ReassemblyEvent → Verdict → Turn → Type 0
Outcome s events wait t = Waits s events t
Outcome s events skip t = Skips s events t
Outcome s events (accept total) t = Accepts s events total t

quiet-append :
    (events : List ReassemblyEvent) (e : ReassemblyEvent)
    → e.kind ≡ error
    → frames_of (events ++ e ∷ []) ≡ frames_of events
unfolding frames_of
quiet-append events e k =
    frames_of-append events (e ∷ []) ∙ rw (k, frames_of) (append-nil (frames_of events))

pub crc16_valid-frame_of :
    (total : ℕ) (raw : List ℕ) → (frame_of total raw).crc16_valid ≡ crc16_matches raw
unfolding frame_of crc16_matches
crc16_valid-frame_of total raw = refl

judge-Skips :
    (s : Reassembler) (events : List ReassemblyEvent) (total : ℕ) (d : DumlFrame)
    → d.crc16_valid ≡ false
    → Skips s events (judge_candidate s events total d)
unfolding judge_candidate
judge-Skips s events total d e = simp e (record {
  goes_on = refl;
  buffer = refl;
  quiet = quiet-append events (rejected (take total s.buffer) (some d) crc16_mismatch) refl;
})

judge-Accepts :
    (s : Reassembler) (events : List ReassemblyEvent) (total : ℕ) (d : DumlFrame)
    → d.crc16_valid ≡ true
    → Accepts s events total (judge_candidate s events total d)
unfolding judge_candidate frames_of
judge-Accepts s events total d e = simp e (record {
  goes_on = refl;
  buffer = refl;
  emits =
      frames_of-append events
        (record { kind = frame; raw = take total s.buffer; decoded = some d; reason = none } ∷ []);
})

-- The head of the buffer is treated as its verdict says, and the decoder never raises.
pub inspect_head-Outcome :
    (s : Reassembler) (events : List ReassemblyEvent)
    → get_or s.buffer 0 0 ≡ magic
    → (t : Turn) × (inspect_head s events ≡ ok t) × Outcome s events (verdict s.buffer) t
unfolding inspect_head verdict
inspect_head-Outcome s events first =
    let buffer = s.buffer in
    let total = declared_length buffer in
    let stopped : Turn = record { state = s; events = events; again = false } in
    elim (Bool-cases (ltb (length buffer) 4)) [
      | inl short ↦
          (stopped, rw short, rw short (record { stops = refl; keeps = refl; quiet = refl }))
      | inr long ↦ elim (Bool-cases (leb 13 total && leb total 1023)) [
        | inr range ↦ (
          skip_head s events (record (s.stats) { invalid_lengths = s.stats.invalid_lengths + 1 })
              invalid_length,
          rw (long, range),
          rw (long, range)
              (record {
                goes_on = refl;
                buffer = refl;
                quiet = skipped (take 4 buffer) none invalid_length;
              }),
        )
        | inl range ↦ elim (Bool-cases (crc8_dji (take 3 buffer) == get_or buffer 3 0)) [
          | inr crc8 ↦ (
            skip_head s events (record (s.stats) { crc8_failures = s.stats.crc8_failures + 1 })
                crc8_mismatch,
            rw (long, range, crc8),
            rw (long, range, crc8)
                (record {
                  goes_on = refl;
                  buffer = refl;
                  quiet = skipped (take 4 buffer) none crc8_mismatch;
                }),
          )
          | inl crc8 ↦ elim (Bool-cases (ltb (length buffer) total)) [
            | inl cut ↦ (
              stopped,
              rw (long, range, crc8, cut),
              rw (long, range, crc8, cut) (record { stops = refl; keeps = refl; quiet = refl }),
            )
            | inr room ↦
                let d = frame_of total (take total buffer) in
                let dec : decode_duml_frame (take total buffer) false ≡ ok d =
                  candidate_decodes buffer total first refl (in_range total range).0
                    (in_range total range).1 (ltb→le _ _ room) in
                let valid = crc16_valid-frame_of total (take total buffer) in
                elim (Bool-cases (crc16_matches (take total buffer))) [
                  | inr crc16 ↦ (
                    judge_candidate s events total d,
                    rw (long, range, crc8, room, dec),
                    rw (long, range, crc8, room, crc16)
                        (judge-Skips s events total d (valid ∙ crc16)),
                  )
                  | inl crc16 ↦ (
                    judge_candidate s events total d,
                    rw (long, range, crc8, room, dec),
                    rw (long, range, crc8, room, crc16)
                        (judge-Accepts s events total d (valid ∙ crc16)),
                  )
                ]
          ]
        ]
      ]
    ]
  where
    in_range : (n : ℕ) → (leb 13 n && leb n 1023) ≡ true → (13 ≤ n) × (n ≤ 1023)
    in_range n h = ground arith

    skipped :
        (raw : List ℕ) (decoded : Option DumlFrame) (why : DiscardReason)
        → frames_of (events ++ rejected raw decoded why ∷ []) ≡ frames_of events
    skipped raw decoded why = quiet-append events (rejected raw decoded why) refl
