-- ===== src/Video/Bounded.antt =====
-- video/normal_stream.py: what the assembler can hold, and that no part is missing when it joins them.
use openframetap.Prelude.{
  subst⁻¹, ℕ, Option, none, some, List, ◌==◌, ◌≡◌, ◌≢◌, refl, Bool-cases, inl, inr, ok, err, Result,
  arith, All, length, ◌<◌, ◌≤◌, ==_iff, not, ◌&&◌, length-drop,
}
use openframetap.Floats.{Floats}
use openframetap.Bytes.{same_bytes}
use openframetap.Media.{MediaFragment, AccessUnitHeader, MediaError, parse_access_unit}
use openframetap.Dicts.{lookup, store}
use openframetap.Dicts.Laws.{remove-store, All-store, All-remove, All-keep_if}
use openframetap.Dicts.Distinct.{Distinct, store-Distinct, remove-Distinct, keep_if-Distinct}
use openframetap.Video.{
  continuation_gap, conflicts, begins_unit, Assembler, Group, Continuation, Fed, missing_part,
  forget, expire_held, add_stat, is_current, is_expired, settle, extend, start_with, start_parsed,
  start_unit, continue_or_start, complete, gather_part, fragments,
}
use openframetap.Video.Untouched.{Same, forget-pending, continue_or_start-Same}
use openframetap.Video.Parts.{
  IsFragment, IsGroup, stored-IsGroup, below, none_missing, join_parts-total,
}

module _ {W : Type 0} where
  -- a group that waits for a part
  pub record IsOpen (entry : ℕ × Group W) : Type 0 where
    pub octet : entry.0 < 256
    pub group : IsGroup entry.1.parts entry.1.count
    pub short : length entry.1.parts < entry.1.count

  -- A continuation waits for octets of a unit of at most two million.
  abbrev pub IsHeld : Option (Continuation W) → Type 0
  IsHeld none = Unit
  IsHeld (some c) = (length c.held < c.declared) × (c.declared ≤ 2000000)

  pub record IsBounded (a : Assembler W) : Type 0 where
    pub groups : All IsOpen a.pending
    pub keys : Distinct a.pending
    pub continuation : IsHeld a.continuation

  -- What `feed` leaves and returns: it may raise the error of the parser only.
  abbrev pub IsSafe : Fed W → Type 0
  IsSafe (a, r) = IsBounded a × (r ≢ err missing_part)

module _ {W : Type 0} ⦃f : Floats W⦄ where
  expire_held-IsHeld :
      (now : W) (c : Option (Continuation W)) (a : Assembler W)
      → IsHeld c
      → a.continuation ≡ c
      → IsHeld (expire_held now c a).continuation
  expire_held-IsHeld now none a h e = subst⁻¹ IsHeld e tt
  expire_held-IsHeld now (some c) a h e = elim (Bool-cases (is_expired now c.begun)) [
    | inl x ↦ rw x tt
    | inr x ↦ rw x (subst⁻¹ IsHeld e h)
  ]

  pub forget-IsBounded : (now : W) (a : Assembler W) → IsBounded a → IsBounded (forget now a)
  unfolding forget
  forget-IsBounded now a h = record {
    groups =
        subst⁻¹ (All IsOpen) (forget-pending now a)
          (All-keep_if IsOpen (is_current now) a.pending h.groups);
    keys =
        subst⁻¹ Distinct (forget-pending now a)
          (keep_if-Distinct (is_current now) a.pending h.keys);
    continuation =
        expire_held-IsHeld now a.continuation (add_stat 1 fragments a) h.continuation refl;
  }

  pub settle-IsBounded :
      (key : ℕ) (now : W) (a : Assembler W) → IsBounded a → IsBounded (settle key now a)
  unfolding settle
  settle-IsBounded key now a h = record {
    groups = All-remove IsOpen a.pending key h.groups;
    keys = remove-Distinct a.pending key h.keys;
    continuation = h.continuation;
  }

  -- The continuation that a complete group leaves.
  abbrev Leaves : Fed W → Type 0
  Leaves (a, r) = IsHeld a.continuation × (r ≢ err missing_part)

  extend-Leaves :
      (key : ℕ) (item : Group W) (raw : List ℕ) (c : Continuation W) (a : Assembler W)
      → c.declared ≤ 2000000
      → a.continuation ≡ none
      → Leaves (extend key item raw c a)
  unfolding extend
  extend-Leaves key item raw c a h e = ground arith

  start_with-Leaves :
      (key : ℕ) (now : W) (item : Group W) (raw : List ℕ) (a : Assembler W) (h : AccessUnitHeader)
      → a.continuation ≡ none
      → Leaves (start_with key now item raw a h)
  start_with-Leaves key now item raw a h e = ground (arith, length-drop 16 raw)

  start_parsed-Leaves :
      (key : ℕ) (now : W) (item : Group W) (raw : List ℕ) (a : Assembler W)
      (r : Result MediaError AccessUnitHeader)
      → a.continuation ≡ none
      → Leaves (start_parsed key now item raw a r)
  start_parsed-Leaves key now item raw a (err e) n = (subst⁻¹ IsHeld n tt, λ x. cc x)
  start_parsed-Leaves key now item raw a (ok h) n = start_with-Leaves key now item raw a h n

  continue_or_start-Leaves :
      (key : ℕ) (now : W) (item : Group W) (raw : List ℕ) (a : Assembler W)
      (c : Option (Continuation W))
      → a.continuation ≡ c
      → IsHeld c
      → Leaves (continue_or_start key now item raw a c)
  unfolding start_unit
  continue_or_start-Leaves key now item raw a none e h =
      start_parsed-Leaves key now item raw a (parse_access_unit raw) e
  continue_or_start-Leaves key now item raw a (some c) e h =
      elim (Bool-cases (key == c.next_id && not (begins_unit raw))) [
        | inl x ↦ rw x (extend-Leaves key item raw c (record a { continuation = none }) h.1 refl)
        | inr x ↦ rw x (
            start_parsed-Leaves key now item raw
              (add_stat 1 continuation_gap (record a { continuation = none }))
              (parse_access_unit raw) refl)
      ]

  settle_stored-IsBounded :
      (key : ℕ) (now : W) (grown : Group W) (a : Assembler W)
      → IsBounded a
      → IsBounded (settle key now (record a { pending = store a.pending key grown }))
  unfolding settle
  settle_stored-IsBounded key now grown a h =
      let gone = remove-store a.pending key grown in
      record {
        groups = subst⁻¹ (All IsOpen) gone (All-remove IsOpen a.pending key h.groups);
        keys = subst⁻¹ Distinct gone (remove-Distinct a.pending key h.keys);
        continuation = h.continuation;
      }

  -- The groups, the keys and the continuation, apart.
  from_parts :
      (a : Assembler W) (fed : Fed W) → Same a fed.0 → IsBounded a → Leaves fed → IsSafe fed
  from_parts a fed same h l = (
    record {
      groups = subst⁻¹ (All IsOpen) same.0 h.groups;
      keys = subst⁻¹ Distinct same.0 h.keys;
      continuation = l.0;
    },
    l.1,
  )

  complete-IsSafe :
      (key : ℕ) (now : W) (item : Group W) (a : Assembler W)
      → IsGroup item.parts item.count
      → length item.parts ≡ item.count
      → IsBounded (settle key now a)
      → IsSafe (complete key now item a)
  unfolding complete
  complete-IsSafe key now item a g full h =
      let b : Assembler W = settle key now a in
      let (raw, together) =
        join_parts-total item.parts 0 item.count item.count (omega arith)
          (none_missing item g full) in
      rw together (
        from_parts b (continue_or_start key now item raw b b.continuation)
          (continue_or_start-Same key now item raw b b.continuation) h
          (continue_or_start-Leaves key now item raw b b.continuation refl h.continuation))

  pub gather_part-IsSafe :
      (fragment : MediaFragment) (now : W) (item : Group W) (a : Assembler W)
      (part : Option (List ℕ))
      → IsFragment fragment
      → IsGroup item.parts item.count
      → item.count ≡ fragment.fragment_count
      → lookup item.parts fragment.fragment_index ≡ part
      → IsBounded a
      → IsSafe (gather_part fragment now item a part)
  gather_part-IsSafe fragment now item a (some part) is g c e h =
      elim (Bool-cases (same_bytes part fragment.payload)) [
        | inl x ↦
            rw x (
              record { groups = h.groups; keys = h.keys; continuation = h.continuation },
              λ y. cc y,
            )
        | inr x ↦ rw x (
          settle-IsBounded fragment.frame_id now (add_stat 1 conflicts a)
              (record { groups = h.groups; keys = h.keys; continuation = h.continuation }),
          λ y. cc y,
        )
      ]
  gather_part-IsSafe fragment now item a none is g c e h =
      let parts = store item.parts fragment.fragment_index fragment.payload in
      let grown : Group W = record item { parts = parts } in
      let pending = store a.pending fragment.frame_id grown in
      let b : Assembler W = record a { pending = pending } in
      let g' : IsGroup parts item.count = stored-IsGroup fragment item is g c in
      elim (Bool-cases (length parts == item.count)) [
        | inl x ↦ rw x (
            complete-IsSafe fragment.frame_id now grown b g' ((==_iff _ _).0 x)
              (settle_stored-IsBounded fragment.frame_id now grown a h))
        | inr x ↦ rw x (
          record {
            groups =
                All-store IsOpen a.pending fragment.frame_id grown h.groups
                  (record { octet = is.octet; group = g'; short = below parts item.count g' x });
            keys = store-Distinct a.pending fragment.frame_id grown h.keys;
            continuation = h.continuation;
          },
          λ y. cc y,
        )
      ]
