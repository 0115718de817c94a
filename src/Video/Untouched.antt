-- ===== src/Video/Untouched.antt =====
-- video/normal_stream.py: what the steps of `feed` do to the groups and to the finished keys.
use openframetap.Prelude.{
  length, subst⁻¹, ℕ, false, Option, none, some, List, ◌==◌, ◌≡◌, refl, ap, ◌∙◌, Bool-cases, inl,
  inr, ok, err, Result, arith,
}
use openframetap.Floats.{Floats}
use openframetap.Media.{MediaFragment, AccessUnitHeader, MediaError, parse_access_unit}
use openframetap.Dicts.{lookup, has, store, keep_if}
use openframetap.Dicts.Laws.{lookup-store_ne, lookup-remove_ne}
use openframetap.Video.{
  conflicts, Assembler, Group, Continuation, forget, expire_held, add_stat, is_current,
  is_remembered, settle, extend, start_with, start_parsed, start_unit, continue_or_start,
  after_join, complete, gather_part, gather, or_new, admit, feed_fragment, fragments,
}
use openframetap.Bytes.{same_bytes}

module _ {W : Type 0} ⦃f : Floats W⦄ where
  expire_held-keeps :
      (now : W) (c : Option (Continuation W)) (a : Assembler W)
      → ((expire_held now c a).pending ≡ a.pending) × ((expire_held now c a).finished ≡ a.finished)
  expire_held-keeps now none a = (refl, refl)
  expire_held-keeps now (some c) a = ground arith

  pub forget-pending :
      (now : W) (a : Assembler W) → (forget now a).pending ≡ keep_if (is_current now) a.pending
  unfolding forget
  forget-pending now a =
      ap (keep_if (is_current now))
        (expire_held-keeps now a.continuation (add_stat 1 fragments a)).0

  pub forget-finished :
      (now : W) (a : Assembler W) → (forget now a).finished ≡ keep_if (is_remembered now) a.finished
  unfolding forget
  forget-finished now a =
      ap (keep_if (is_remembered now))
        (expire_held-keeps now a.continuation (add_stat 1 fragments a)).1

  -- The groups and the finished keys are the same.
  abbrev pub Same : Assembler W → Assembler W → Type 0
  Same a b = (b.pending ≡ a.pending) × (b.finished ≡ a.finished)

  extend-Same :
      (key : ℕ) (item : Group W) (raw : List ℕ) (c : Continuation W) (a : Assembler W)
      → Same a (extend key item raw c a).0
  unfolding extend
  extend-Same key item raw c a = ground arith

  start_with-Same :
      (key : ℕ) (now : W) (item : Group W) (raw : List ℕ) (a : Assembler W) (h : AccessUnitHeader)
      → Same a (start_with key now item raw a h).0
  start_with-Same key now item raw a h = ground arith

  start_parsed-Same :
      (key : ℕ) (now : W) (item : Group W) (raw : List ℕ) (a : Assembler W)
      (r : Result MediaError AccessUnitHeader)
      → Same a (start_parsed key now item raw a r).0
  start_parsed-Same key now item raw a (err e) = (refl, refl)
  start_parsed-Same key now item raw a (ok h) = start_with-Same key now item raw a h

  pub continue_or_start-Same :
      (key : ℕ) (now : W) (item : Group W) (raw : List ℕ) (a : Assembler W)
      (c : Option (Continuation W))
      → Same a (continue_or_start key now item raw a c).0
  unfolding start_unit
  continue_or_start-Same key now item raw a none =
      start_parsed-Same key now item raw a (parse_access_unit raw)
  continue_or_start-Same key now item raw a (some c) = ground (
    arith,
    extend-Same key item raw c (record a { continuation = none }),
    start_parsed-Same key now item raw _ (parse_access_unit raw),
  )

  after_join-Same :
      (key : ℕ) (now : W) (item : Group W) (a : Assembler W) (raw : Option (List ℕ))
      → Same a (after_join key now item a raw).0
  after_join-Same key now item a none = (refl, refl)
  after_join-Same key now item a (some raw) =
      continue_or_start-Same key now item raw a a.continuation

  -- What the assembler holds under a key.
  abbrev pub Untouched : ℕ → Assembler W → Assembler W → Type 0
  Untouched key a b =
      (lookup b.pending key ≡ lookup a.pending key)
      × (lookup b.finished key ≡ lookup a.finished key)

  module _ (key other : ℕ) (differ : (other == key) ≡ false) where
    settle-Untouched : (now : W) (a : Assembler W) → Untouched key a (settle other now a)
    unfolding settle
    settle-Untouched now a = (
      lookup-remove_ne a.pending other key differ,
      lookup-store_ne a.finished other key now differ,
    )

    complete-Untouched :
        (now : W) (item : Group W) (a : Assembler W) → Untouched key a (complete other now item a).0
    unfolding complete
    complete-Untouched now item a =
        let same = after_join-Same other now item (settle other now a) _ in
        let settled = settle-Untouched now a in
        (ap (λ d. lookup d key) same.0 ∙ settled.0, ap (λ d. lookup d key) same.1 ∙ settled.1)

    stored-Untouched :
        (item : Group W) (a : Assembler W)
        → Untouched key a (record a { pending = store a.pending other item })
    stored-Untouched item a = (lookup-store_ne a.pending other key item differ, refl)

    then-Untouched :
        (a b c : Assembler W) → Untouched key a b → Untouched key b c → Untouched key a c
    then-Untouched a b c p q = (q.0 ∙ p.0, q.1 ∙ p.1)

    module _ (fragment : MediaFragment) (ours : fragment.frame_id ≡ other) (now : W) where
      complete_of :
          (item : Group W) (a : Assembler W)
          → Untouched key a (complete fragment.frame_id now item a).0
      complete_of item a =
          subst⁻¹ (λ k. Untouched key a (complete k now item a).0) ours
            (complete-Untouched now item a)

      settle_of : (a : Assembler W) → Untouched key a (settle fragment.frame_id now a)
      settle_of a = subst⁻¹ (λ k. Untouched key a (settle k now a)) ours (settle-Untouched now a)

      stored_of :
          (item : Group W) (a : Assembler W)
          → Untouched key a (record a { pending = store a.pending fragment.frame_id item })
      stored_of item a =
          subst⁻¹ (λ k. Untouched key a (record a { pending = store a.pending k item })) ours
            (stored-Untouched item a)

      gather_part-Untouched :
          (item : Group W) (a : Assembler W) (part : Option (List ℕ))
          → Untouched key a (gather_part fragment now item a part).0
      gather_part-Untouched item a (some part) =
          elim (Bool-cases (same_bytes part fragment.payload)) [
            | inl e ↦ rw e (refl, refl)
            | inr e ↦ rw e (settle_of (add_stat 1 conflicts a))
          ]
      gather_part-Untouched item a none =
          let parts = store item.parts fragment.fragment_index fragment.payload in
          let grown : Group W = record item { parts = parts } in
          let b : Assembler W = record a { pending = store a.pending fragment.frame_id grown } in
          elim (Bool-cases (length parts == item.count)) [
            | inl e ↦ rw e (
                then-Untouched a b (complete fragment.frame_id now grown b).0 (stored_of grown a)
                  (complete_of grown b))
            | inr e ↦ rw e (stored_of grown a)
          ]

      gather-Untouched :
          (item : Group W) (a : Assembler W) → Untouched key a (gather fragment now item a).0
      unfolding gather
      gather-Untouched item a = elim (Bool-cases (item.count == fragment.fragment_count)) [
        | inl e ↦ rw e (gather_part-Untouched item a (lookup item.parts fragment.fragment_index))
        | inr e ↦ rw e (settle_of (add_stat 1 conflicts a))
      ]

      admit-Untouched : (a : Assembler W) → Untouched key a (admit fragment now a).0
      admit-Untouched a =
          let item = or_new fragment now (lookup a.pending fragment.frame_id) in
          let b : Assembler W = record a { pending = store a.pending fragment.frame_id item } in
          elim (Bool-cases (has a.finished fragment.frame_id)) [
            | inl e ↦ rw e (refl, refl)
            | inr e ↦ rw e (
                then-Untouched a b (gather fragment now item b).0 (stored_of item a)
                  (gather-Untouched item b))
          ]

  -- A fragment of one frame does not touch another frame, but for what has expired.
  pub feed-Untouched :
      (key : ℕ) (fragment : MediaFragment) (now : W) (a : Assembler W)
      → (fragment.frame_id == key) ≡ false
      → Untouched key (forget now a) (feed_fragment fragment now a).0
  unfolding feed_fragment
  feed-Untouched key fragment now a differ =
      admit-Untouched key fragment.frame_id differ fragment refl now (forget now a)
