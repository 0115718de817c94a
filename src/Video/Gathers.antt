-- ===== src/Video/Gathers.antt =====
-- video/normal_stream.py: the steps of `feed` on the fragments of one frame, which arrive within the
-- time for which a frame is kept.
use openframetap.Prelude.{
  ℕ, zero, suc, Bool, true, false, Option, none, some, List, [], ◌++◌, ◌==◌, ◌≡◌, refl, ap, ◌∙◌,
  sym, Bool-cases, inl, inr, ok, not, ◌||◌, arith, All, length, drop, ◌<◌, ◌+◌, ◌-◌, ==_iff,
  ==_refl, ◌⊎◌, subst,
}
use openframetap.Floats.{Floats}
use openframetap.Media.{MediaFragment, AccessUnitHeader, parse_access_unit}
use openframetap.Dicts.{lookup, has, store, is_some}
use openframetap.Dicts.Laws.{lookup-store, lookup-store_ne, lookup-keep_if, lookup-keep_if-none}
use openframetap.Dicts.Distinct.{Distinct}
use openframetap.Video.{
  Assembler, Group, Continuation, forget, is_current, is_remembered, is_expired, start_unit,
  continue_or_start, join_parts, begins_unit,
}
use openframetap.Video.Untouched.{forget-pending, forget-finished}

-- What a dictionary has after an update.
pub has-store :
    (d : List (ℕ × List ℕ)) (k : ℕ) (v : List ℕ) (i : ℕ) → has (store d k v) i ≡ (has d i || k == i)
has-store d k v i = elim (Bool-cases (k == i)) [
  | inl e ↦
      let same : k ≡ i = (==_iff k i).0 e in
      let found : has (store d k v) i ≡ true =
        ap is_some (subst (λ j. lookup (store d k v) j ≡ some v) same (lookup-store d k v)) in
      rw (found, e) (sym (or-true (has d i)))
  | inr e ↦ rw (e, lookup-store_ne d k i v e) (sym (or-false (has d i)))
]
  where
    or-true : (b : Bool) → (b || true) ≡ true
    or-true true = refl
    or-true false = refl

    or-false : (b : Bool) → (b || false) ≡ b
    or-false true = refl
    or-false false = refl

-- The parts from index n on, one after the other.
abbrev pub parts_from : (ℕ → List ℕ) → ℕ → ℕ → List ℕ
parts_from part n zero = []
parts_from part n (suc more) = part n ++ parts_from part (suc n) more

pub join_parts-whole :
    (parts : List (ℕ × List ℕ)) (part : ℕ → List ℕ) (n more total : ℕ)
    → total ≡ n + more
    → ((i : ℕ) → i < total → lookup parts i ≡ some (part i))
    → join_parts parts n more ≡ some (parts_from part n more)
join_parts-whole parts part n zero total e h = refl
join_parts-whole parts part n (suc more) total e h =
    let rest : join_parts parts (suc n) more ≡ some (parts_from part (suc n) more) =
      join_parts-whole parts part (suc n) more total (omega arith) h in
    rw (h n (omega arith), rest) refl

parse_access_unit-begins :
    (raw : List ℕ) (h : AccessUnitHeader) → parse_access_unit raw ≡ ok h → begins_unit raw ≡ true
unfolding parse_access_unit
parse_access_unit-begins raw h e = ground arith

-- A frame: its key, how many parts it has, and the parts.
pub record Frame : Type 0 where
  pub key : ℕ
  pub count : ℕ
  pub part : ℕ → List ℕ

-- The fragment belongs to the frame.
pub record IsOf (frame : Frame) (fragment : MediaFragment) : Type 0 where
  pub same_key : fragment.frame_id ≡ frame.key
  pub same_count : fragment.fragment_count ≡ frame.count
  pub inside : fragment.fragment_index < frame.count
  pub payload : fragment.payload ≡ frame.part fragment.fragment_index

-- Parts of a frame, no two for the same index.
pub record ArePartsOf (frame : Frame) (parts : List (ℕ × List ℕ)) : Type 0 where
  pub distinct : Distinct parts
  pub within : All (λ item. item.0 < frame.count) parts
  pub right : All (λ item. item.1 ≡ frame.part item.0) parts

module _ {W : Type 0} ⦃f : Floats W⦄ where
  started-unit :
      (key : ℕ) (now : W) (item : Group W) (raw : List ℕ) (a : Assembler W) (h : AccessUnitHeader)
      → parse_access_unit raw ≡ ok h
      → length raw - 16 ≡ h.declared_length
      → (start_unit key now item raw a).1 ≡ ok (some (drop 16 raw, h.timestamp_ms_candidate))
  unfolding start_unit
  started-unit key now item raw a h e l = rw (e, l, ==_refl h.declared_length) refl

  -- whatever continuation is held
  pub continued-unit :
      (key : ℕ) (now : W) (item : Group W) (raw : List ℕ) (a : Assembler W) (h : AccessUnitHeader)
      (c : Option (Continuation W))
      → parse_access_unit raw ≡ ok h
      → length raw - 16 ≡ h.declared_length
      → (continue_or_start key now item raw a c).1
        ≡ ok (some (drop 16 raw, h.timestamp_ms_candidate))
  continued-unit key now item raw a h none e l = started-unit key now item raw a h e l
  continued-unit key now item raw a h (some c) e l =
      rw (parse_access_unit-begins raw h e) (elim (Bool-cases (key == c.next_id)) [
        | inl s ↦ rw s (started-unit key now item raw _ h e l)
        | inr s ↦ rw s (started-unit key now item raw _ h e l)
      ])

  module _ (frame : Frame) (Window : W → Type 0) where
    -- The assembler holds these parts of the frame, or nothing of it yet.
    pub record Holds (a : Assembler W) (parts : List (ℕ × List ℕ)) : Type 0 where
      pub unfinished : lookup a.finished frame.key ≡ none
      pub waiting :
          ((lookup a.pending frame.key ≡ none) × (parts ≡ []))
          ⊎ ((item : Group W) × (lookup a.pending frame.key ≡ some item)
              × (item.count ≡ frame.count)
              × (item.parts ≡ parts)
              × Window item.started)

    -- Within the window, nothing expires.
    abbrev pub IsShort : Type 0
    IsShort = (now since : W) → Window now → Window since → is_expired now since ≡ false

    pub forget-Holds :
        (now : W) (a : Assembler W) (parts : List (ℕ × List ℕ))
        → IsShort
        → Window now
        → Holds a parts
        → Holds (forget now a) parts
    forget-Holds now a parts recent w h = record {
      unfinished =
          ap (λ d. lookup d frame.key) (forget-finished now a)
          ∙ lookup-keep_if-none (is_remembered now) a.finished frame.key h.unfinished;
      waiting = elim h.waiting [
        | inl (e, none_yet) ↦ inl (
          ap (λ d. lookup d frame.key) (forget-pending now a)
              ∙ lookup-keep_if-none (is_current now) a.pending frame.key e,
          none_yet,
        )
        | inr (item, e, c, p, s) ↦ inr (
          item,
          ap (λ d. lookup d frame.key) (forget-pending now a)
              ∙ lookup-keep_if (is_current now) a.pending frame.key item e
                  (ap not (recent now item.started w s)),
          c,
          p,
          s,
        )
      ];
    }
