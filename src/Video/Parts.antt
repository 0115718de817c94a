-- ===== src/Video/Parts.antt =====
-- video/normal_stream.py: the parts of a group, of which none is missing when it is full.
use openframetap.Prelude.{
  zero, suc, ℕ, true, false, some, List, [], ◌==◌, ◌≡◌, refl, ap, Bool-cases, Option-cases, inl,
  inr, arith, All, length, ◌<◌, ◌≤◌, ◌+◌, ◌++◌,
}
use openframetap.Media.{MediaFragment}
use openframetap.Dicts.{lookup, has, store, is_some}
use openframetap.Dicts.Laws.{All-store}
use openframetap.Dicts.Distinct.{
  Distinct, store-Distinct, length-covered, covered-le, covered_some_missing,
}
use openframetap.Video.{Group, join_parts}

-- What a fragment guarantees that has been parsed from octets.
pub record IsFragment (fragment : MediaFragment) : Type 0 where
  pub octet : fragment.frame_id < 256
  pub inside : fragment.fragment_index < fragment.fragment_count
  pub most : fragment.fragment_count ≤ 64

pub record IsGroup (parts : List (ℕ × List ℕ)) (count : ℕ) : Type 0 where
  pub distinct : Distinct parts
  pub within : All (λ part. part.0 < count) parts
  pub few : count ≤ 64

pub stored-IsGroup :
    {W : Type 0} (fragment : MediaFragment) (item : Group W)
    → IsFragment fragment
    → IsGroup item.parts item.count
    → item.count ≡ fragment.fragment_count
    → IsGroup (store item.parts fragment.fragment_index fragment.payload) item.count
stored-IsGroup fragment item is g c = record {
  distinct = store-Distinct item.parts fragment.fragment_index fragment.payload g.distinct;
  within =
      All-store (λ part. part.0 < item.count) item.parts fragment.fragment_index fragment.payload
        g.within (omega (arith, is.inside, c));
  few = g.few;
}

-- A group that is not full has fewer parts than its count.
pub below :
    (parts : List (ℕ × List ℕ)) (count : ℕ)
    → IsGroup parts count
    → (length parts == count) ≡ false
    → length parts < count
below parts count g x =
    ground (arith, length-covered parts count g.distinct g.within, covered-le parts count)

-- In a full group no part is missing.
pub none_missing :
    {W : Type 0} (item : Group W)
    → IsGroup item.parts item.count
    → length item.parts ≡ item.count
    → (i : ℕ) → i < item.count
    → has item.parts i ≡ true
none_missing item g full i l = elim (Bool-cases (has item.parts i)) [
  | inl e ↦ e
  | inr e ↦ absurd (
      omega (
        arith,
        full,
        length-covered item.parts item.count g.distinct g.within,
        covered_some_missing item.parts item.count i l e,
      ))
]

pub join_parts-total :
    (parts : List (ℕ × List ℕ)) (n more total : ℕ)
    → total ≡ n + more
    → ((i : ℕ) → i < total → has parts i ≡ true)
    → (raw : List ℕ) × (join_parts parts n more ≡ some raw)
join_parts-total parts n zero total e h = ([], refl)
join_parts-total parts n (suc more) total e h = elim (Option-cases (lookup parts n)) [
  | inl missing ↦
      let no : has parts n ≡ false = ap is_some missing in absurd (cc (no, h n (omega arith)))
  | inr (part, there) ↦
      let (raw, rest) = join_parts-total parts (suc n) more total (omega arith) h in
      (part ++ raw, rw (there, rest) refl)
]
