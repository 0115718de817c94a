-- ===== src/Collector/Conserves.antt =====
-- analysis/dji_wifi_media.py: no captured fragment is lost, and none is counted twice.
use openframetap.Prelude.{
  subst, suc, true, Option, none, some, List, [], ◌∷◌, ◌++◌, ◌==◌, ◌≡◌, ◌≢◌, refl, ap, ◌∙◌,
  Bool-cases, inl, inr, arith, ◌+◌, length, length-append, All, take, drop, Result, ok, ◌>>◌, ◌&&◌,
}
use openframetap.Floats.{nought, Floats}
use openframetap.Bytes.{from_little}
use openframetap.Media.{AccessUnitHeader, MediaError, is_access_unit_start}
use openframetap.Media.Fragments.{parse_access_unit-start}
use openframetap.Dicts.{lookup, store}
use openframetap.Dicts.Sums.{sum_of, sum_of-store_new, sum_of-store_old}
use openframetap.Collector.{Observation, Assembly, finalize, finalize_all}
use openframetap.Collector.Feed.{
  Collector, new_collector, add_fragment, new_assembly, expire_orphans, adopt, begin_assembly,
  is_repeat, is_near, feed_start, keep_pending, feed_other, collect, finish_frames,
}
use openframetap.Collector.Weights.{
  weight, sent, held, held_in, sent-append, sent-sort_frames, sent-finalize_all,
  add_fragment-weight, expire_orphans-held, adopt-weight,
}

module _ {W : Type 0} ⦃f : Floats W⦄ where
  begun-weight :
      (start : Observation W) (header : AccessUnitHeader) (c : Collector W)
      → weight (adopt c start c.pending (add_fragment start (new_assembly start header))).0
          + length (adopt c start c.pending (add_fragment start (new_assembly start header))).1
        ≡ suc (length c.pending)
  begun-weight start header c = omega (
    arith,
    adopt-weight c start c.pending (add_fragment start (new_assembly start header)),
    add_fragment-weight start (new_assembly start header),
  )

  begin_assembly-held_new :
      (start : Observation W) (header : AccessUnitHeader) (c : Collector W)
      → lookup c.active start.fragment.frame_id ≡ none
      → held (begin_assembly start header c) ≡ suc (held c)
  unfolding held begin_assembly
  begin_assembly-held_new start header c e = omega (
    arith,
    begun-weight start header c,
    sum_of-store_new weight c.active start.fragment.frame_id
        (adopt c start c.pending (add_fragment start (new_assembly start header))).0 e,
  )

  begin_assembly-held_old :
      (start : Observation W) (header : AccessUnitHeader) (c : Collector W) (current : Assembly W)
      → lookup c.active start.fragment.frame_id ≡ some current
      → held (
          begin_assembly start header
            (record c { completed = c.completed ++ (finalize current ∷ []) }))
        ≡ suc (held c)
  unfolding held begin_assembly finalize
  begin_assembly-held_old start header c current e = omega (
    arith,
    begun-weight start header (record c { completed = c.completed ++ (finalize current ∷ []) }),
    sent-append c.completed (finalize current ∷ []),
    sum_of-store_old weight c.active start.fragment.frame_id
        (adopt (record c { completed = c.completed ++ (finalize current ∷ []) }) start c.pending
          (add_fragment start (new_assembly start header))).0
        current e,
  )

  added-held :
      (seen : Observation W) (c : Collector W) (current : Assembly W)
      → lookup c.active seen.fragment.frame_id ≡ some current
      → held
          (record c { active = store c.active seen.fragment.frame_id (add_fragment seen current) })
        ≡ suc (held c)
  unfolding held
  added-held seen c current e = omega (
    arith,
    add_fragment-weight seen current,
    sum_of-store_old weight c.active seen.fragment.frame_id (add_fragment seen current) current e,
  )

  keep_pending-held :
      (seen : Observation W) (c : Collector W) → held (keep_pending seen c) ≡ suc (held c)
  unfolding held
  keep_pending-held seen c = omega (arith, length-append c.pending (seen ∷ []))

  feed_start-held :
      (seen : Observation W) (header : AccessUnitHeader) (c : Collector W) (o : Option (Assembly W))
      → lookup c.active seen.fragment.frame_id ≡ o
      → held (feed_start seen header c o) ≡ suc (held c)
  feed_start-held seen header c none e = begin_assembly-held_new seen header c e
  feed_start-held seen header c (some current) e = elim (Bool-cases (is_repeat c seen current)) [
    | inl x ↦ rw x (added-held seen c current e)
    | inr x ↦ rw x (begin_assembly-held_old seen header c current e)
  ]

  feed_other-held :
      (seen : Observation W) (c : Collector W) (o : Option (Assembly W))
      → lookup c.active seen.fragment.frame_id ≡ o
      → held (feed_other seen c o) ≡ suc (held c)
  feed_other-held seen c none e = keep_pending-held seen c
  feed_other-held seen c (some a) e =
      elim (Bool-cases (
        a.start.fragment.fragment_count == seen.fragment.fragment_count
        && is_near c seen.capture_timestamp a.start.capture_timestamp)) [
          | inl x ↦ rw x (added-held seen c a e)
          | inr x ↦ rw x (keep_pending-held seen c)
        ]

  -- The fragment does not start an access unit of length zero.
  abbrev pub HasLength : Observation W → Type 0
  HasLength seen =
      is_access_unit_start seen.fragment ≡ true
      → from_little (take 4 (drop 4 seen.fragment.payload)) ≢ 0

  collect-held :
      (seen : Observation W) (c : Collector W)
      → HasLength seen
      → ((collect seen c).1 ≡ ok tt) × (held (collect seen c).0 ≡ suc (held c))
  unfolding collect
  collect-held seen c long =
      let b = expire_orphans seen.capture_timestamp c in
      let same : held b ≡ held c = expire_orphans-held seen.capture_timestamp c in
      elim (Bool-cases (is_access_unit_start seen.fragment)) [
        | inl e ↦
            let (header, parsed, magic, positive) =
              parse_access_unit-start seen.fragment e (long e) in
            rw (e, parsed)
              (
                refl,
                feed_start-held seen header b (lookup b.active seen.fragment.frame_id) refl
                    ∙ ap (λ n. suc n) same,
              )
        | inr e ↦ rw e (
          refl,
          feed_other-held seen b (lookup b.active seen.fragment.frame_id) refl
              ∙ ap (λ n. suc n) same,
        )
      ]

  -- `feed` of one fragment after the other, up to the first that raises
  unfoldable pub collect_all : List (Observation W) → Collector W → Result MediaError (Collector W)
  unfolding collect
  collect_all [] c = ok c
  collect_all (seen ∷ rest) c = (collect seen c).1 >> collect_all rest (collect seen c).0

  collect_all-held :
      (all : List (Observation W)) (c : Collector W)
      → All HasLength all
      → (b : Collector W) × (collect_all all c ≡ ok b) × (held b ≡ held c + length all)
  unfolding collect_all
  collect_all-held [] c long = (c, refl, omega arith)
  collect_all-held (seen ∷ rest) c long =
      let one = collect-held seen c long.0 in
      let (b, done, sum) = collect_all-held rest (collect seen c).0 long.1 in
      (b, rw one.0 done, omega (arith, sum, one.1))

  new_collector-held : (window : W) (c : Collector W) → new_collector window ≡ ok c → held c ≡ 0
  unfolding new_collector held held_in
  new_collector-held window c made = elim (Bool-cases (f.le window nought)) [
    | inl e ↦ absurd (cc (rw e at made))
    | inr e ↦ let same = rw e at made in subst (λ r. held_in r ≡ 0) same refl
  ]

  ends :
      (b : Collector W)
      → held b
        ≡ sent b.completed + sum_of weight b.active + length b.pending + b.orphan_fragment_count
  unfolding held
  ends b = refl

  -- A new collector takes any fragments, in any order and at any times, unless one starts an access
  -- unit of length zero. At the end each fragment is accounted for once: the transmissions that the
  -- frames count, with the orphans, are as many as the fragments that were fed.
  pub finish_frames-conserves :
      (window : W) (c : Collector W) (all : List (Observation W))
      → new_collector window ≡ ok c
      → All HasLength all
      → (b : Collector W) × (collect_all all c ≡ ok b)
        × (sent (finish_frames b).1 + (finish_frames b).0.orphan_fragment_count ≡ length all)
  unfolding finish_frames
  finish_frames-conserves window c all made long =
      let (b, done, sum) = collect_all-held all c long in
      let start : held c ≡ 0 = new_collector-held window c made in
      (
        b,
        done,
        omega (
          arith,
          sum,
          start,
          ends b,
          sent-sort_frames (b.completed ++ finalize_all b.active),
          sent-append b.completed (finalize_all b.active),
          sent-finalize_all b.active,
        ),
      )
