-- ===== src/Att.antt =====
-- protocol/framing.py and protocol/sequence.py: frames cut for the attribute protocol, and the
-- wrapping sequence counter.
pub mod Chunks
use openframetap.Prelude.{
  zero, ◌-◌, length, drop, take, ok, leb, ◌∷◌, not, ltb, suc, reject_if, ◌>>◌, [], bit_and, Result,
  List, ℕ, ◌+◌,
}

-- `ValueError`s of both modules
pub data AttError : Type 0 where
  mtu_too_small initial_outside : AttError

-- The slices at every multiple of the size, for as many turns as there are octets at most.
unfoldable pub chunks : ℕ → ℕ → List ℕ → List (List ℕ)
chunks zero size octets = []
chunks (suc turns) size [] = []
chunks (suc turns) size (x ∷ xs) = take size (x ∷ xs) ∷ chunks turns size (drop size (x ∷ xs))

unfoldable pub split_for_att : List ℕ → ℕ → Result AttError (List (List ℕ))
unfolding chunks
split_for_att octets mtu = do
  reject_if (ltb mtu 4) mtu_too_small
  ok (chunks (length octets) (mtu - 3) octets)

-- `SequenceCounter`
pub record SequenceCounter : Type 0 where
  pub next : ℕ

unfoldable pub new_counter : ℕ → Result AttError SequenceCounter
new_counter initial = do
  reject_if (not (leb initial 0xFFFF)) initial_outside
  ok (record { next = initial })

unfoldable pub take_next : SequenceCounter → SequenceCounter × ℕ
take_next c = (record { next = bit_and (c.next + 1) 0xFFFF }, c.next)

-- the values of so many calls, and the counter after them
unfoldable pub take_many : ℕ → SequenceCounter → SequenceCounter × List ℕ
unfolding take_next
take_many zero c = (c, [])
take_many (suc n) c =
    let (c1, value) = take_next c in let (c2, values) = take_many n c1 in (c2, value ∷ values)
