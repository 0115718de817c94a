-- ===== src/Att/Chunks.antt =====
-- protocol/framing.py and protocol/sequence.py: the chunks of a frame are the frame, and each number
-- is taken in turn.
use openframetap.Att.{take_next, chunks, split_for_att, SequenceCounter, take_many}
use openframetap.Prelude.{
  suc, refl, zero, [], take-append-drop, ◌∙◌, bit_and, le→ltb, length-drop, get_or, ◌-◌, ◌%◌,
  length-take, drop, ap, ◌+◌, take, ok, arith, ◌≡◌, ◌++◌, length, All, ◌≤◌, ◌∷◌, ◌<◌, ℕ, List,
}
use openframetap.Bits.{bit_and_mask}

abbrev pub concat : List (List ℕ) → List ℕ
concat [] = []
concat (chunk ∷ rest) = chunk ++ concat rest

-- A chunk that fits in the size, and is not empty.
abbrev pub Fits : ℕ → List ℕ → Type 0
Fits size chunk = (0 < length chunk) × (length chunk ≤ size)

-- All chunks but the last are as long as permitted.
abbrev pub Full : ℕ → List (List ℕ) → Type 0
Full size [] = Unit
Full size (chunk ∷ []) = Unit
Full size (chunk ∷ next ∷ rest) = (length chunk ≡ size) × Full size (next ∷ rest)

module _ (size : ℕ) (some_size : 0 < size) where
  chunks-concat : (turns : ℕ) (xs : List ℕ) → length xs ≤ turns → concat (chunks turns size xs) ≡ xs
  unfolding chunks
  chunks-concat zero [] h = refl
  chunks-concat zero (x ∷ xs) h = absurd (omega arith)
  chunks-concat (suc n) [] h = refl
  chunks-concat (suc n) (x ∷ xs) h =
      ap (λ t. take size (x ∷ xs) ++ t)
        (chunks-concat n (drop size (x ∷ xs)) (omega (arith, length-drop size (x ∷ xs))))
      ∙ take-append-drop size (x ∷ xs)

  chunks-Fits : (turns : ℕ) (xs : List ℕ) → All (Fits size) (chunks turns size xs)
  unfolding chunks
  chunks-Fits zero xs = tt
  chunks-Fits (suc n) [] = tt
  chunks-Fits (suc n) (x ∷ xs) = (
    (omega (arith, length-take size (x ∷ xs)), omega (arith, length-take size (x ∷ xs))),
    chunks-Fits n (drop size (x ∷ xs)),
  )

  -- Chunks of what is left behind a first chunk: if there are any, the first one was full.
  Full-first :
      (chunk : List ℕ) (turns : ℕ) (rest : List ℕ)
      → (0 < length rest → length chunk ≡ size)
      → Full size (chunks turns size rest)
      → Full size (chunk ∷ chunks turns size rest)
  unfolding chunks
  Full-first chunk zero rest h f = tt
  Full-first chunk (suc n) [] h f = tt
  Full-first chunk (suc n) (x ∷ xs) h f = (h (omega arith), f)

  chunks-Full : (turns : ℕ) (xs : List ℕ) → Full size (chunks turns size xs)
  unfolding chunks
  chunks-Full zero xs = tt
  chunks-Full (suc n) [] = tt
  chunks-Full (suc n) (x ∷ xs) =
      Full-first (take size (x ∷ xs)) n (drop size (x ∷ xs))
        (λ h. omega (arith, length-take size (x ∷ xs), length-drop size (x ∷ xs), h))
        (chunks-Full n (drop size (x ∷ xs)))

-- With an MTU of at least four, the chunks of any octets join to these octets. None is empty, none
-- is longer than the MTU less three, and all but the last are exactly so long.
pub split_for_att-chunks :
    (octets : List ℕ) (mtu : ℕ)
    → 4 ≤ mtu
    → (cut : List (List ℕ)) × (split_for_att octets mtu ≡ ok cut)
      × (concat cut ≡ octets)
      × All (Fits (mtu - 3)) cut
      × Full (mtu - 3) cut
unfolding split_for_att
split_for_att-chunks octets mtu h = (
  chunks (length octets) (mtu - 3) octets,
  rw (le→ltb mtu 4 h),
  chunks-concat (mtu - 3) (omega arith) (length octets) octets (omega arith),
  chunks-Fits (mtu - 3) (omega arith) (length octets) octets,
  chunks-Full (mtu - 3) (omega arith) (length octets) octets,
)

-- From a counter on, the value taken after so many others is the first one and their count, wrapped
-- at sixteen bits; the counter afterwards has wrapped in the same way.
pub take_many-wraps :
    (n : ℕ) (c : SequenceCounter)
    → c.next ≤ 0xFFFF
    → ((take_many n c).0.next ≡ (c.next + n) % 65536)
      × (length (take_many n c).1 ≡ n)
      × ((i : ℕ) → i < n → get_or (take_many n c).1 i 0 ≡ (c.next + i) % 65536)
unfolding take_many take_next
take_many-wraps zero c h = (omega arith, refl, λ i l. absurd (omega arith))
take_many-wraps (suc n) c h =
    let next : bit_and (c.next + 1) 0xFFFF ≡ (c.next + 1) % 65536 = bit_and_mask 16 (c.next + 1) in
    let (last, count, values) =
      take_many-wraps n (record { next = bit_and (c.next + 1) 0xFFFF }) (omega arith) in
    (omega arith, omega arith, λ i l. at_index i l values)
  where
    at_index :
        (i : ℕ)
        → i < suc n
        → ((j : ℕ)
            → j < n
            → get_or (take_many n (record { next = bit_and (c.next + 1) 0xFFFF })).1 j 0
              ≡ (bit_and (c.next + 1) 0xFFFF + j) % 65536)
        → get_or (c.next ∷ (take_many n (record { next = bit_and (c.next + 1) 0xFFFF })).1) i 0
          ≡ (c.next + i) % 65536
    at_index zero l values = omega arith
    at_index (suc j) l values =
        values j (omega arith) ∙ rw (bit_and_mask 16 (c.next + 1)) (omega arith)
