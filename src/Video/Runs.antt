-- ===== src/Video/Runs.antt =====
-- video/normal_stream.py: the assembler after any datagrams.
use openframetap.Prelude.{
  subst⁻¹, ==_iff, ℕ, List, [], ◌∷◌, ◌==◌, ◌≡◌, ◌≢◌, refl, Bool-cases, Option-cases, Result-cases,
  inl, inr, ok, err, arith, All, All-imp, All-get_or, length, ◌<◌, ◌≤◌, get_or,
}
use openframetap.Floats.{Floats}
use openframetap.Bytes.{IsBytes}
use openframetap.Media.{MediaFragment, parse_fragment}
use openframetap.Media.Fragments.{parse_fragment_sound, parse_fragment-frame_id}
use openframetap.Dicts.{lookup, has, store}
use openframetap.Dicts.Laws.{All-store, All-lookup}
use openframetap.Dicts.Distinct.{store-Distinct, length-covered, covered-le}
use openframetap.Video.{
  Assembler, Group, missing_part, new_assembler, forget, add_stat, conflicts, gather, or_new,
  feed_fragment, feed_datagram,
}
use openframetap.Video.Parts.{IsFragment, IsGroup}
use openframetap.Video.Bounded.{
  IsOpen, IsHeld, IsBounded, IsSafe, forget-IsBounded, settle-IsBounded, gather_part-IsSafe,
}

parsed-IsFragment :
    (raw : List ℕ) (fragment : MediaFragment)
    → IsBytes raw
    → parse_fragment raw ≡ ok fragment
    → IsFragment fragment
parsed-IsFragment raw fragment bytes e =
    let at : (i : ℕ) → get_or raw i 0 < 256 =
      λ i. All-get_or (λ b. b < 256) raw i 0 (omega arith) bytes in
    let sound = parse_fragment_sound raw fragment e (at 17) (at 18) in
    record {
      octet = subst⁻¹ (λ n. n < 256) (parse_fragment-frame_id raw fragment e) (at 16);
      inside = sound.0;
      most = sound.1;
    }

module _ {W : Type 0} ⦃f : Floats W⦄ where
  gather-IsSafe :
      (fragment : MediaFragment) (now : W) (item : Group W) (a : Assembler W)
      → IsFragment fragment
      → IsGroup item.parts item.count
      → IsBounded a
      → IsSafe (gather fragment now item a)
  unfolding gather
  gather-IsSafe fragment now item a is g h =
      elim (Bool-cases (item.count == fragment.fragment_count)) [
        | inl x ↦ rw x (
            gather_part-IsSafe fragment now item a (lookup item.parts fragment.fragment_index) is g
              ((==_iff _ _).0 x) refl h)
        | inr x ↦ rw x (
          settle-IsBounded fragment.frame_id now (add_stat 1 conflicts a)
              (record { groups = h.groups; keys = h.keys; continuation = h.continuation }),
          λ y. cc y,
        )
      ]

  or_new-IsOpen :
      (fragment : MediaFragment) (now : W) (a : Assembler W)
      → IsFragment fragment
      → IsBounded a
      → IsOpen (fragment.frame_id, or_new fragment now (lookup a.pending fragment.frame_id))
  or_new-IsOpen fragment now a is h = elim (Option-cases (lookup a.pending fragment.frame_id)) [
    | inl e ↦ rw e (record {
      octet = is.octet;
      group = record { distinct = tt; within = tt; few = is.most };
      short = omega (arith, is.inside);
    })
    | inr (item, e) ↦ rw e (All-lookup IsOpen a.pending fragment.frame_id item h.groups e)
  ]

  feed_fragment-IsSafe :
      (fragment : MediaFragment) (now : W) (a : Assembler W)
      → IsFragment fragment
      → IsBounded a
      → IsSafe (feed_fragment fragment now a)
  unfolding feed_fragment
  feed_fragment-IsSafe fragment now a is bounded =
      let b = forget now a in
      let h : IsBounded b = forget-IsBounded now a bounded in
      let item = or_new fragment now (lookup b.pending fragment.frame_id) in
      let i : IsOpen (fragment.frame_id, item) = or_new-IsOpen fragment now b is h in
      elim (Bool-cases (has b.finished fragment.frame_id)) [
        | inl x ↦
            rw x (
              record { groups = h.groups; keys = h.keys; continuation = h.continuation },
              λ y. cc y,
            )
        | inr x ↦ rw x (
            gather-IsSafe fragment now item
              (record b { pending = store b.pending fragment.frame_id item }) is i.group
              (record {
                groups = All-store IsOpen b.pending fragment.frame_id item h.groups i;
                keys = store-Distinct b.pending fragment.frame_id item h.keys;
                continuation = h.continuation;
              }))
      ]

  feed_datagram-IsSafe :
      (raw : List ℕ) (now : W) (a : Assembler W)
      → IsBytes raw
      → IsBounded a
      → IsSafe (feed_datagram raw now a)
  unfolding feed_datagram
  feed_datagram-IsSafe raw now a bytes h = elim (Result-cases (parse_fragment raw)) [
    | inl (fragment, e) ↦
        rw e (feed_fragment-IsSafe fragment now a (parsed-IsFragment raw fragment bytes e) h)
    | inr (bad, e) ↦ rw e (h, λ y. cc y)
  ]

  unfoldable pub fed_all : List (List ℕ × W) → Assembler W → Assembler W
  fed_all [] a = a
  fed_all ((raw, now) ∷ rest) a = fed_all rest (feed_datagram raw now a).0

  fed_all-IsBounded :
      (ins : List (List ℕ × W)) (a : Assembler W)
      → All (λ input. IsBytes input.0) ins
      → IsBounded a
      → IsBounded (fed_all ins a)
  unfolding fed_all
  fed_all-IsBounded [] a bytes h = h
  fed_all-IsBounded ((raw, now) ∷ rest) a bytes h =
      fed_all-IsBounded rest (feed_datagram raw now a).0 bytes.1
        (feed_datagram-IsSafe raw now a bytes.0 h).0

  -- Whatever datagrams a new assembler has been fed, at whatever times, it holds at most 256 groups,
  -- each with fewer parts than its count, which is at most 64, and a continuation that is shorter
  -- than the length it waits for, which is at most two million. Feeding it another datagram never
  -- fails for a part that is missing: it can raise the error of the parser only.
  pub feed_datagram-bounded :
      (ins : List (List ℕ × W)) (raw : List ℕ) (now : W)
      → All (λ input. IsBytes input.0) ins
      → IsBytes raw
      → (length (fed_all ins new_assembler).pending ≤ 256)
        × All
            (λ entry. (length entry.1.parts < entry.1.count) × (entry.1.count ≤ 64))
            (fed_all ins new_assembler).pending
        × IsHeld (fed_all ins new_assembler).continuation
        × ((feed_datagram raw now (fed_all ins new_assembler)).1 ≢ err missing_part)
  feed_datagram-bounded ins raw now bytes more =
      let a : Assembler W = fed_all ins new_assembler in
      let h : IsBounded a =
        fed_all-IsBounded ins new_assembler bytes
          (record { groups = tt; keys = tt; continuation = tt }) in
      let small : All (λ entry. entry.0 < 256) a.pending =
        All-imp IsOpen (λ entry. entry.0 < 256) (λ entry o. o.octet) a.pending h.groups in
      (
        omega (arith, length-covered a.pending 256 h.keys small, covered-le a.pending 256),
        All-imp IsOpen (λ entry. (length entry.1.parts < entry.1.count) × (entry.1.count ≤ 64))
            (λ entry o. (o.short, o.group.few)) a.pending h.groups,
        h.continuation,
        (feed_datagram-IsSafe raw now a more h).1,
      )
