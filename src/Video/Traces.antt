-- ===== src/Video/Traces.antt =====
-- video/normal_stream.py: fragments of many frames in the order in which they arrive.
use openframetap.Prelude.{
  ℕ, Bool, true, false, Option, none, some, List, [], ◌∷◌, ◌==◌, ◌≡◌, refl, ap, ◌∙◌, sym,
  Bool-cases, inl, inr, ok, Result, ◌&&◌, ◌||◌, arith, All, ◌<◌, if◌then◌else◌,
}
use openframetap.Floats.{Floats}
use openframetap.Media.{MediaFragment, AccessUnitHeader}
use openframetap.Dicts.{lookup, has}
use openframetap.Video.{Assembler, AssemblerError, TimedUnit, forget, admit, feed_fragment}
use openframetap.Video.Untouched.{feed-Untouched}
use openframetap.Video.Gathers.{Frame, IsOf, Holds, IsShort, ArePartsOf, forget-Holds}
use openframetap.Video.Steps.{Kept, admit-Kept}
use openframetap.Video.Reassembles.{IsUnit, unit_of, admit-unit}

or_assoc : (a b c : Bool) → ((a || b) || c) ≡ (a || (b || c))
or_assoc true b c = refl
or_assoc false b c = refl

and_false : (a b c : Bool) → a ≡ true → ((a && b) || c) ≡ false → (b ≡ false) × (c ≡ false)
and_false a b c h e = ground arith

-- Some fragment with this index has arrived for the key.
abbrev pub brought {ℓ} : {W : Type ℓ} → ℕ → ℕ → List (MediaFragment × W) → Bool
brought key i [] = false
brought key i ((fragment, now) ∷ rest) =
    (fragment.frame_id == key && fragment.fragment_index == i) || brought key i rest

module _ {W : Type 0} ⦃f : Floats W⦄ where
  unfoldable pub after : List (MediaFragment × W) → Assembler W → Assembler W
  after [] a = a
  after ((fragment, now) ∷ rest) a = after rest (feed_fragment fragment now a).0

  -- what `feed` returns for the fragments with this key
  unfoldable pub answers :
      ℕ → List (MediaFragment × W) → Assembler W → List (Result AssemblerError (Option TimedUnit))
  answers key [] a = []
  answers key ((fragment, now) ∷ rest) a =
      let fed = feed_fragment fragment now a in
      let later = answers key rest fed.0 in
      if fragment.frame_id == key then fed.1 ∷ later else later

  module _ (frame : Frame) (Window : W → Type 0) where
    -- Whatever arrives is in time, and what has the key of the frame belongs to it.
    abbrev pub Arrives : MediaFragment × W → Type 0
    Arrives (fragment, now) =
        Window now × ((fragment.frame_id == frame.key) ≡ true → IsOf frame fragment)

    -- After some fragments, but not the last one, the parts that came are kept.
    record Waits (parts : List (ℕ × List ℕ)) (ins : List (MediaFragment × W)) (a : Assembler W)
        : Type 0 where
      nothing : All (λ r. r ≡ ok none) (answers frame.key ins a)
      more : List (ℕ × List ℕ)
      holds : Holds frame Window (after ins a) more
      valid : ArePartsOf frame more
      more_has : (i : ℕ) → has more i ≡ (has parts i || brought frame.key i ins)

    other-Holds :
        (fragment : MediaFragment) (now : W) (a : Assembler W) (parts : List (ℕ × List ℕ))
        → (fragment.frame_id == frame.key) ≡ false
        → Holds frame Window (forget now a) parts
        → Holds frame Window (feed_fragment fragment now a).0 parts
    other-Holds fragment now a parts other h =
        let same = feed-Untouched frame.key fragment now a other in
        record {
          unfinished = same.1 ∙ h.unfinished;
          waiting = elim h.waiting [
            | inl (e, p) ↦ inl (same.0 ∙ e, p)
            | inr (item, e, c, p, t) ↦ inr (item, same.0 ∙ e, c, p, t)
          ];
        }

    module _ (recent : IsShort frame Window) (last : ℕ) (l : last < frame.count) where
      trace-Waits :
          (ins : List (MediaFragment × W)) (a : Assembler W) (parts : List (ℕ × List ℕ))
          → All Arrives ins
          → ArePartsOf frame parts
          → has parts last ≡ false
          → brought frame.key last ins ≡ false
          → Holds frame Window a parts
          → Waits parts ins a
      unfolding after answers feed_fragment
      trace-Waits [] a parts arrives valid missing not_yet h = record {
        nothing = tt;
        more = parts;
        holds = h;
        valid = valid;
        more_has = λ i. or-false (has parts i);
      }
        where
          or-false : (b : Bool) → b ≡ (b || false)
          or-false true = refl
          or-false false = refl
      trace-Waits ((fragment, now) ∷ rest) a parts arrives valid missing not_yet h =
          let b = forget now a in
          let kept_all = forget-Holds frame Window now a parts recent arrives.0.0 h in
          elim (Bool-cases (fragment.frame_id == frame.key)) [
            | inl own ↦
                let ours : IsOf frame fragment = arrives.0.1 own in
                let tests = and_false _ _ _ own not_yet in
                let k : Kept frame Window parts fragment.fragment_index (admit fragment now b) =
                  admit-Kept frame Window fragment ours now last l tests.0 b parts arrives.0.0 valid
                    missing kept_all in
                let gone : has k.more last ≡ false =
                  k.growth.more_has last
                  ∙ ap (λ x. x || fragment.fragment_index == last) missing
                  ∙ tests.0 in
                let r : Waits k.more rest (admit fragment now b).0 =
                  trace-Waits rest (admit fragment now b).0 k.more arrives.1 k.growth.valid gone
                    tests.1 k.holds in
                record {
                  nothing = rw own (k.nothing, r.nothing);
                  more = r.more;
                  holds = r.holds;
                  valid = r.valid;
                  more_has = λ i.
                      r.more_has i
                      ∙ ap (λ x. x || brought frame.key i rest) (k.growth.more_has i)
                      ∙ or_assoc (has parts i) (fragment.fragment_index == i)
                          (brought frame.key i rest)
                      ∙ sym (
                          ap
                            (λ x.
                              has parts i
                              || ((x && fragment.fragment_index == i) || brought frame.key i rest))
                            own);
                }
            | inr other ↦
                let later : brought frame.key last rest ≡ false = rw other at not_yet in
                let r : Waits parts rest (admit fragment now b).0 =
                  trace-Waits rest (admit fragment now b).0 parts arrives.1 valid missing later
                    (other-Holds fragment now a parts other kept_all) in
                record {
                  nothing = rw other r.nothing;
                  more = r.more;
                  holds = r.holds;
                  valid = r.valid;
                  more_has = λ i. rw other (r.more_has i);
                }
          ]

      -- Fragments of many frames arrive in any order, with repetitions. All arrive within a time in
      -- which nothing expires, and those with one key belong to one frame, of which the assembler
      -- knows nothing before. Let each fragment of the frame but the last one be among them. Then
      -- none of them returns an access unit for the key, none raises, and the last fragment, when it
      -- comes, returns the access unit that the parts make in the order of their indexes, without
      -- its header of sixteen octets, and its timestamp. The header must declare the true length.
      pub feed-reassembles :
          (ins : List (MediaFragment × W)) (a : Assembler W) (fragment : MediaFragment) (now : W)
          (header : AccessUnitHeader)
          → IsUnit frame header
          → lookup a.pending frame.key ≡ none
          → lookup a.finished frame.key ≡ none
          → All Arrives ins
          → IsOf frame fragment
          → Window now
          → fragment.fragment_index ≡ last
          → brought frame.key last ins ≡ false
          → ((i : ℕ) → i < frame.count → (brought frame.key i ins || last == i) ≡ true)
          → All (λ r. r ≡ ok none) (answers frame.key ins a)
            × ((feed_fragment fragment now (after ins a)).1 ≡ ok (some (unit_of frame header)))
      unfolding feed_fragment
      feed-reassembles ins a fragment now header u no_group no_end arrives ours w is_last new all =
          let r : Waits [] ins a =
            trace-Waits ins a [] arrives (record { distinct = tt; within = tt; right = tt }) refl
              new (record { unfinished = no_end; waiting = inl (no_group, refl) }) in
          let b : Assembler W = after ins a in
          (
            r.nothing,
            admit-unit frame Window fragment ours now w header u (forget now b) r.more r.valid
                (rw is_last (r.more_has last ∙ new))
                (λ i small. rw is_last (ap (λ x. x || last == i) (r.more_has i) ∙ all i small))
                (forget-Holds frame Window now b r.more recent w r.holds),
          )
