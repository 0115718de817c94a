-- ===== src/Reassembly/Refines.antt =====
-- protocol/reassembly.py refines the plain scan: `feed` always returns, and its frames and its
-- buffer are those of the scan.
use openframetap.Prelude.{
  subst⁻¹, subst, ap₂, ==_iff, ℕ, zero, suc, ◌+◌, ◌-◌, ◌≤◌, ◌<◌, ◌≡◌, refl, sym, ap, ◌∙◌, true,
  false, List, [], ◌∷◌, ◌++◌, arith, ◌==◌, length, get_or, take, drop, Bool-cases, inl, inr,
  length-drop, ok, none, Option-cases,
}
use openframetap.Duml.{magic}
use openframetap.Reassembly.{
  rejected, garbage_before_magic, Reassembler, ReassemblyEvent, Turn, find_magic, turn,
  discard_garbage, drain, feed,
}
use openframetap.Reassembly.Scan.{
  verdict-accept, scan-accept, scan_skip, scan_wait, Verdict, wait, skip, accept, verdict, scan,
}
use openframetap.Reassembly.Split.{scan_rounds, scan_all, Verdict-cases}
use openframetap.Reassembly.Marker.{scan-none, find-Found, turn_found, Found}
use openframetap.Reassembly.Head.{frames_of, frames_of-append, Outcome, inspect_head-Outcome}

-- What a scan makes of octets that begin with the magic one.
abbrev by_verdict : ℕ → List ℕ → Verdict → List (List ℕ) × List ℕ
by_verdict n buffer wait = ([], buffer)
by_verdict n buffer skip = scan n (drop 1 buffer)
by_verdict n buffer (accept total) =
    (take total buffer ∷ (scan n (drop total buffer)).0, (scan n (drop total buffer)).1)

scan_first :
    (n : ℕ) (buffer : List ℕ)
    → get_or buffer 0 0 ≡ magic
    → scan (suc n) buffer ≡ by_verdict n buffer (verdict buffer)
scan_first n [] e = absurd (omega arith)
scan_first n (x ∷ xs) e =
    let m : (x == magic) ≡ true = (==_iff x magic).1 e in
    elim (Verdict-cases (verdict (x ∷ xs))) [
      | inl v ↦ rw v (scan_wait n x xs m v)
      | inr (inl v) ↦ rw v (scan_skip n x xs m v)
      | inr (inr (total, v)) ↦ rw v (scan-accept n x xs m total v)
    ]

module _ (n : ℕ) (s : Reassembler) (full : (length s.buffer == 0) ≡ false) (t : Turn) where
  drain_stop : turn s ≡ ok t → t.again ≡ false → drain (suc n) s ≡ ok (t.state, t.events)
  unfolding drain
  drain_stop e a = rw (full, e, a)

  drain_more :
      (r : Reassembler × List ReassemblyEvent)
      → turn s ≡ ok t
      → t.again ≡ true
      → drain n t.state ≡ ok r
      → drain (suc n) s ≡ ok (r.0, t.events ++ r.1)
  unfolding drain
  drain_more r e a d = rw (full, e, a, d)

-- The loop returns, with the frames and the buffer that are given.
abbrev Returns : ℕ → Reassembler → List (List ℕ) × List ℕ → Type 0
Returns rounds s expected =
    (r : Reassembler × List ReassemblyEvent) × (drain rounds s ≡ ok r)
    × (frames_of r.1 ≡ expected.0)
    × (r.0.buffer ≡ expected.1)

-- A round of the loop that goes on, with the rest of the loop.
goes_on :
    (n : ℕ) (s : Reassembler) (t : Turn)
    → (length s.buffer == 0) ≡ false
    → turn s ≡ ok t
    → t.again ≡ true
    → (expected : List (List ℕ) × List ℕ) (first : List (List ℕ)) → frames_of t.events ≡ first
    → (r : Reassembler × List ReassemblyEvent) → drain n t.state ≡ ok r
    → frames_of r.1 ≡ expected.0
    → r.0.buffer ≡ expected.1
    → Returns (suc n) s (first ++ expected.0, expected.1)
goes_on n s t full e a expected first quiet r d frames left = (
  (r.0, t.events ++ r.1),
  drain_more n s full t r e a d,
  frames_of-append t.events r.1 ∙ ap₂ ◌++◌ quiet frames,
  left,
)

scan_zero : (buffer : List ℕ) → scan 0 buffer ≡ ([], buffer)
unfolding scan
scan_zero buffer = refl

drain_empty :
    (n : ℕ) (s : Reassembler) → (length s.buffer == 0) ≡ true → drain (suc n) s ≡ ok (s, [])
unfolding drain
drain_empty n s empty = rw empty

-- With no magic octet everything is discarded.
turn_missing :
    (n : ℕ) (s : Reassembler)
    → (length s.buffer == 0) ≡ false
    → find_magic s.buffer ≡ none
    → {expected : List (List ℕ) × List ℕ} → ([], []) ≡ expected
    → Returns (suc n) s expected
unfolding drain frames_of
turn_missing n s full missing same =
    let stats = s.stats in
    subst (Returns (suc n) s) same (
      (
        record {
          buffer = [];
          stats = record stats { discarded_bytes = stats.discarded_bytes + length s.buffer };
        },
        rejected s.buffer none garbage_before_magic ∷ [],
      ),
      rw (full, missing, discard_garbage),
      refl,
      refl,
    )

-- A scan of what a turn leaves, in as many rounds as the scan of the whole has left.
rescanned :
    (k : ℕ) (left dropped : List ℕ)
    → left ≡ dropped
    → length dropped ≤ k
    → scan_all left ≡ scan k dropped
rescanned k left dropped e h =
    ap scan_all e ∙ scan_rounds (length dropped) k dropped (omega arith) h

-- A turn at the magic octet, and the rest of the loop after it.
decided :
    (n k : ℕ) (s s1 : Reassembler) (events : List ReassemblyEvent) (t : Turn) (v : Verdict)
    → (length s.buffer == 0) ≡ false
    → turn s ≡ ok t
    → frames_of events ≡ []
    → length s1.buffer ≤ suc k
    → suc k ≤ n
    → 0 < length s1.buffer
    → verdict s1.buffer ≡ v
    → Outcome s1 events v t
    → ((s' : Reassembler) → length s'.buffer < n → Returns n s' (scan_all s'.buffer))
    → Returns (suc n) s (by_verdict k s1.buffer v)
decided n k s s1 events t wait full e quiet fits enough some_octet v out rec = (
  (t.state, t.events),
  drain_stop n s full t e out.stops,
  ap frames_of out.quiet ∙ quiet,
  ap (λ (q : Reassembler). q.buffer) out.keeps,
)
decided n k s s1 events t skip full e quiet fits enough some_octet v out rec =
    let l : length (drop 1 s1.buffer) ≤ k = omega (arith, length-drop 1 s1.buffer) in
    let l' : length t.state.buffer ≤ k = rw (out.buffer) l in
    let (r, d, frames, left) = rec t.state (omega arith) in
    subst (Returns (suc n) s) (rescanned k t.state.buffer (drop 1 s1.buffer) out.buffer l) (
      goes_on n s t full e out.goes_on (scan_all t.state.buffer) [] (out.quiet ∙ quiet) r d frames
        left)
decided n k s s1 events t (accept total) full e quiet fits enough some_octet v out rec =
    let b = s1.buffer in
    let l : length (drop total b) ≤ k =
      omega (arith, length-drop total b, verdict-accept b total v) in
    let l' : length t.state.buffer ≤ k = rw (out.buffer) l in
    let (r, d, frames, left) = rec t.state (omega arith) in
    subst (λ (q : List (List ℕ) × List ℕ). Returns (suc n) s (take total b ∷ q.0, q.1))
      (rescanned k t.state.buffer (drop total b) out.buffer l)
      (goes_on n s t full e out.goes_on (scan_all t.state.buffer) (take total b ∷ [])
        (out.emits ∙ ap (λ q. q ++ take total b ∷ []) quiet) r d frames left)

-- With a round for each octet and one more, the loop returns the frames and octets of the scan.
drain-scan :
    (rounds : ℕ) (s : Reassembler) → length s.buffer < rounds → Returns rounds s (scan_all s.buffer)
unfolding frames_of
drain-scan zero s h = absurd (omega arith)
drain-scan (suc n) s h = elim (Bool-cases (length s.buffer == 0)) [
  | inl empty ↦
      let none_left : length s.buffer ≡ 0 = (==_iff _ _).0 empty in
      let nothing : scan_all s.buffer ≡ ([], s.buffer) =
        ap (λ t. scan t s.buffer) none_left ∙ scan_zero s.buffer in
      ((s, []), drain_empty n s empty, ap (λ t. t.0) (sym nothing), ap (λ t. t.1) (sym nothing))
  | inr full ↦ elim (Option-cases (find_magic s.buffer)) [
    | inl missing ↦
        let dropped = scan-none (length s.buffer) s.buffer (omega arith) missing in
        turn_missing n s full missing (sym dropped)
    | inr (marker, found) ↦
        let f : Found s.buffer marker = find-Found s.buffer marker found in
        let (s1, events, same, kept, quiet) = turn_found s marker found in
        let first : get_or s1.buffer 0 0 ≡ magic = ap (λ t. get_or t 0 0) kept ∙ f.first in
        let (t, step, out) = inspect_head-Outcome s1 events first in
        let k = length s.buffer - 1 in
        let size : length s.buffer ≡ suc k = omega (arith, f.within) in
        let scanned : scan_all s.buffer ≡ by_verdict k s1.buffer (verdict s1.buffer) =
          f.same (length s.buffer) (omega arith)
          ∙ ap₂ scan size (sym kept)
          ∙ scan_first k s1.buffer first in
        subst⁻¹ (Returns (suc n) s) scanned (
          decided n k s s1 events t (verdict s1.buffer) full (same ∙ step) quiet
            (rw kept (omega (arith, length-drop marker s.buffer))) (omega arith)
            (rw kept (omega (arith, f.within, length-drop marker s.buffer))) refl out
            (drain-scan n))
  ]
]

-- Feeding any chunk returns, for every state: the decoder's guards never fire. The frames that it
-- reports, and the octets that it keeps, are those of the scan of the kept octets and the chunk.
pub feed-scan :
    (s : Reassembler) (chunk : List ℕ)
    → (r : Reassembler × List ReassemblyEvent) × (feed s chunk ≡ ok r)
      × (frames_of r.1 ≡ (scan_all (s.buffer ++ chunk)).0)
      × (r.0.buffer ≡ (scan_all (s.buffer ++ chunk)).1)
unfolding feed
feed-scan s chunk = drain-scan (suc (length (s.buffer ++ chunk))) _ (omega arith)
