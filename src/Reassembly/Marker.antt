-- ===== src/Reassembly/Marker.antt =====
-- protocol/reassembly.py: the search for the magic octet, and what stands before it.
use openframetap.Prelude.{
  ==_iff, ℕ, zero, suc, ◌+◌, ◌≤◌, ◌<◌, ◌≡◌, refl, ◌∙◌, false, List, [], ◌∷◌, arith, ◌==◌, length,
  get_or, take, drop, Bool-cases, inl, inr, length-drop, Option, none, some,
}
use openframetap.Duml.{magic}
use openframetap.Reassembly.{
  rejected, garbage_before_magic, one_later, Reassembler, ReassemblyEvent, find_magic, turn,
  inspect_head, discard_garbage,
}
use openframetap.Reassembly.Scan.{scan, scan_other}
use openframetap.Reassembly.Split.{scan_rounds}
use openframetap.Reassembly.Head.{frames_of}

-- With no magic octet, a scan drops everything.
pub scan-none :
    (n : ℕ) (buffer : List ℕ)
    → length buffer ≤ n
    → find_magic buffer ≡ none
    → scan n buffer ≡ ([], [])
unfolding scan find_magic
scan-none zero [] h e = refl
scan-none (suc n) [] h e = refl
scan-none zero (x ∷ xs) h e = absurd (omega arith)
scan-none (suc n) (x ∷ xs) h e = elim (Bool-cases (x == magic)) [
  | inl m ↦ cc (rw m at e)
  | inr m ↦ scan_other n x xs m ∙ scan-none n xs (omega arith) (later (find_magic xs) (rw m at e))
]
  where
    later : (o : Option ℕ) → one_later o ≡ none → o ≡ none
    later none h = refl
    later (some i) h = cc

-- The octets from the first magic one on.
pub record Found (buffer : List ℕ) (marker : ℕ) : Type 0 where
  pub first : get_or (drop marker buffer) 0 0 ≡ magic
  pub within : marker < length buffer
  pub same : (n : ℕ) → length buffer ≤ n → scan n buffer ≡ scan n (drop marker buffer)

passes :
    (x : ℕ) (xs : List ℕ) (marker : ℕ)
    → (x == magic) ≡ false
    → Found xs marker
    → (n : ℕ) → length (x ∷ xs) ≤ n
    → scan n (x ∷ xs) ≡ scan n (drop (suc marker) (x ∷ xs))
passes x xs marker m f zero h = absurd (omega arith)
passes x xs marker m f (suc n) h =
    scan_other n x xs m
    ∙ f.same n (omega arith)
    ∙ scan_rounds n (suc n) (drop marker xs) (omega (arith, length-drop marker xs))
        (omega (arith, length-drop marker xs))

pub find-Found :
    (buffer : List ℕ) (marker : ℕ) → find_magic buffer ≡ some marker → Found buffer marker
unfolding find_magic
find-Found [] marker e = cc
find-Found (x ∷ xs) zero e = elim (Bool-cases (x == magic)) [
  | inl m ↦ record { first = (==_iff x magic).0 m; within = omega arith; same = λ n h. refl }
  | inr m ↦ absurd (not_zero (find_magic xs) (rw m at e))
]
  where
    not_zero : (o : Option ℕ) → one_later o ≡ some 0 → ⊥
    not_zero none h = cc
    not_zero (some i) h = cc
find-Found (x ∷ xs) (suc marker) e = elim (Bool-cases (x == magic)) [
  | inl m ↦ cc (rw m at e)
  | inr m ↦
      let f : Found xs marker = find-Found xs marker (earlier (find_magic xs) (rw m at e)) in
      record { first = f.first; within = omega (arith, f.within); same = passes x xs marker m f }
]
  where
    earlier : (o : Option ℕ) → one_later o ≡ some (suc marker) → o ≡ some marker
    earlier none h = cc
    earlier (some i) h = cc

-- A buffer with a magic octet is treated from that octet on.
pub turn_found :
    (s : Reassembler) (marker : ℕ)
    → find_magic s.buffer ≡ some marker
    → (s1 : Reassembler) × (events : List ReassemblyEvent) × (turn s ≡ inspect_head s1 events)
      × (s1.buffer ≡ drop marker s.buffer)
      × (frames_of events ≡ [])
unfolding turn frames_of
turn_found s zero e = (s, [], rw (e, discard_garbage), refl, refl)
turn_found s (suc marker) e =
    let stats = s.stats in
    (
      record {
        buffer = drop (suc marker) s.buffer;
        stats = record stats { discarded_bytes = stats.discarded_bytes + suc marker };
      },
      rejected (take (suc marker) s.buffer) none garbage_before_magic ∷ [],
      rw (e, discard_garbage),
      refl,
      refl,
    )
