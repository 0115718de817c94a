-- ===== src/Video/Reassembles.antt =====
-- video/normal_stream.py: an access unit comes out of its fragments, once, when the last one comes.
use openframetap.Prelude.{
  ℕ, true, false, none, some, List, ◌==◌, ◌≡◌, ap, ◌∙◌, sym, Option-cases, inl, inr, ok, ◌||◌,
  arith, length, drop, ◌<◌, ◌-◌, ==_refl, subst,
}
use openframetap.Floats.{Floats}
use openframetap.Media.{MediaFragment, AccessUnitHeader, parse_access_unit}
use openframetap.Dicts.{lookup, has, store, is_some}
use openframetap.Dicts.Laws.{All-lookup}
use openframetap.Video.{
  Assembler, Group, TimedUnit, settle, join_parts, complete, gather_part, gather, or_new, admit,
}
use openframetap.Video.Gathers.{
  Frame, IsOf, Holds, ArePartsOf, parts_from, join_parts-whole, continued-unit,
}
use openframetap.Video.Steps.{Item, or_new-Item, grown, grown-Grown, whole}

-- The access unit that the parts of a frame make, with its header.
pub record IsUnit (frame : Frame) (header : AccessUnitHeader) : Type 0 where
  pub parsed : parse_access_unit (parts_from frame.part 0 frame.count) ≡ ok header
  pub exact : length (parts_from frame.part 0 frame.count) - 16 ≡ header.declared_length

abbrev pub unit_of : Frame → AccessUnitHeader → TimedUnit
unit_of frame header =
    (drop 16 (parts_from frame.part 0 frame.count), header.timestamp_ms_candidate)

module _ {W : Type 0} ⦃f : Floats W⦄ (frame : Frame) (Window : W → Type 0) where
  complete-unit :
      (key : ℕ) (now : W) (item : Group W) (a : Assembler W) (header : AccessUnitHeader)
      → IsUnit frame header
      → item.count ≡ frame.count
      → ((i : ℕ) → i < frame.count → lookup item.parts i ≡ some (frame.part i))
      → (complete key now item a).1 ≡ ok (some (unit_of frame header))
  unfolding complete
  complete-unit key now item a header u c all =
      let together : join_parts item.parts 0 item.count
          ≡ some (parts_from frame.part 0 frame.count) =
        rw c (join_parts-whole item.parts frame.part 0 frame.count frame.count (omega arith) all) in
      let b : Assembler W = settle key now a in
      rw together (
        continued-unit key now item (parts_from frame.part 0 frame.count) b header b.continuation
          u.parsed u.exact)

  has-part :
      (parts : List (ℕ × List ℕ)) (i : ℕ)
      → ArePartsOf frame parts
      → has parts i ≡ true
      → lookup parts i ≡ some (frame.part i)
  has-part parts i valid there = elim (Option-cases (lookup parts i)) [
    | inl e ↦ let missing : has parts i ≡ false = ap is_some e in absurd (cc (missing, there))
    | inr (p, e) ↦
        e ∙ ap some (All-lookup (λ item. item.1 ≡ frame.part item.0) parts i p valid.right e)
  ]

  module _ (fragment : MediaFragment) (ours : IsOf frame fragment) (now : W) (w : Window now)
      (header : AccessUnitHeader) (u : IsUnit frame header) where
    all_there :
        (parts : List (ℕ × List ℕ)) (valid : ArePartsOf frame parts)
        → ((i : ℕ) → i < frame.count → (has parts i || fragment.fragment_index == i) ≡ true)
        → (i : ℕ) → i < frame.count
        → has (grown frame Window fragment ours parts valid) i ≡ true
    all_there parts valid all i l =
        (grown-Grown frame Window fragment ours parts valid).more_has i ∙ all i l

    gather_part-unit :
        (item : Group W) (a : Assembler W)
        → ArePartsOf frame item.parts
        → has item.parts fragment.fragment_index ≡ false
        → item.count ≡ frame.count
        → ((i : ℕ) → i < frame.count → (has item.parts i || fragment.fragment_index == i) ≡ true)
        → (gather_part fragment now item a (lookup item.parts fragment.fragment_index)).1
          ≡ ok (some (unit_of frame header))
    unfolding grown
    gather_part-unit item a valid new c all =
        let more = grown frame Window fragment ours item.parts valid in
        let there = all_there item.parts valid all in
        let full : (length more == item.count) ≡ true =
          rw (c, whole frame Window fragment ours item.parts valid there) (==_refl frame.count) in
        let g = (grown-Grown frame Window fragment ours item.parts valid).valid in
        let unseen : lookup item.parts fragment.fragment_index ≡ none =
          elim (Option-cases (lookup item.parts fragment.fragment_index)) [
            | inl e ↦ e
            | inr (p, e) ↦
                let found : has item.parts fragment.fragment_index ≡ true = ap is_some e in
                absurd (cc (found, new))
          ] in
        rw (unseen, full)
          (complete-unit fragment.frame_id now (record item { parts = more })
            (record a {
              pending = store a.pending fragment.frame_id (record item { parts = more });
            })
            header u c (λ i l. has-part more i g (there i l)))

    pub admit-unit :
        (a : Assembler W) (parts : List (ℕ × List ℕ))
        → ArePartsOf frame parts
        → has parts fragment.fragment_index ≡ false
        → ((i : ℕ) → i < frame.count → (has parts i || fragment.fragment_index == i) ≡ true)
        → Holds frame Window a parts
        → (admit fragment now a).1 ≡ ok (some (unit_of frame header))
    unfolding gather
    admit-unit a parts valid new all h =
        let item = or_new fragment now (lookup a.pending fragment.frame_id) in
        let i : Item frame Window parts item =
          or_new-Item frame Window fragment now a parts ours w h in
        let back = sym i.same in
        let unseen : has a.finished fragment.frame_id ≡ false =
          rw ours.same_key (ap is_some h.unfinished) in
        let counted : (item.count == fragment.fragment_count) ≡ true =
          rw (i.counted, ours.same_count) (==_refl frame.count) in
        rw (unseen, counted)
          (gather_part-unit item (record a { pending = store a.pending fragment.frame_id item })
            (subst (ArePartsOf frame) back valid)
            (subst (λ p. has p fragment.fragment_index ≡ false) back new) i.counted
            (subst
              (λ p. (n : ℕ) → n < frame.count → (has p n || fragment.fragment_index == n) ≡ true)
              back all))
