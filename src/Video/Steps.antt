-- ===== src/Video/Steps.antt =====
-- video/normal_stream.py: a step of `feed` on a fragment of the frame that is looked at.
use openframetap.Prelude.{
  ℕ, Bool, true, false, none, some, List, ◌==◌, ◌≡◌, refl, ap, ◌∙◌, sym, Bool-cases, Option-cases,
  inl, inr, ok, ◌||◌, arith, length, ◌<◌, ==_iff, ==_refl, subst,
}
use openframetap.Floats.{Floats}
use openframetap.Bytes.{same_bytes, same_bytes_refl}
use openframetap.Media.{MediaFragment}
use openframetap.Dicts.{lookup, has, store, is_some}
use openframetap.Dicts.Laws.{lookup-store, All-store, All-lookup}
use openframetap.Dicts.Distinct.{
  covered, store-Distinct, length-covered, covered_some_missing, covered_all,
}
use openframetap.Video.{Assembler, Group, Fed, gather_part, gather, or_new, admit}
use openframetap.Video.Gathers.{Frame, IsOf, Holds, ArePartsOf, has-store}

module _ {W : Type 0} ⦃f : Floats W⦄ (frame : Frame) (Window : W → Type 0) where
  -- the item of `pending` for a fragment, new or old
  pub record Item (parts : List (ℕ × List ℕ)) (item : Group W) : Type 0 where
    pub counted : item.count ≡ frame.count
    pub same : item.parts ≡ parts
    pub started : Window item.started

  pub or_new-Item :
      (fragment : MediaFragment) (now : W) (a : Assembler W) (parts : List (ℕ × List ℕ))
      → IsOf frame fragment
      → Window now
      → Holds frame Window a parts
      → Item parts (or_new fragment now (lookup a.pending fragment.frame_id))
  or_new-Item fragment now a parts ours w h = elim h.waiting [
    | inl (e, none_yet) ↦
        rw (ours.same_key, e)
          (record { counted = ours.same_count; same = sym none_yet; started = w })
    | inr (item, e, c, p, s) ↦ rw (ours.same_key, e) (record { counted = c; same = p; started = s })
  ]

  -- What a step makes of the parts.
  pub record Grown (parts : List (ℕ × List ℕ)) (index : ℕ) (more : List (ℕ × List ℕ)) : Type 0 where
    pub valid : ArePartsOf frame more
    pub more_has : (i : ℕ) → has more i ≡ (has parts i || index == i)

  module _ (fragment : MediaFragment) (ours : IsOf frame fragment) (parts : List (ℕ × List ℕ))
      (valid : ArePartsOf frame parts) where
    unfoldable pub grown : List (ℕ × List ℕ)
    grown = store parts fragment.fragment_index fragment.payload

    pub grown-Grown : Grown parts fragment.fragment_index grown
    unfolding grown
    grown-Grown = record {
      valid = record {
        distinct = store-Distinct parts fragment.fragment_index fragment.payload valid.distinct;
        within =
            All-store (λ item. item.0 < frame.count) parts fragment.fragment_index fragment.payload
              valid.within ours.inside;
        right =
            All-store (λ item. item.1 ≡ frame.part item.0) parts fragment.fragment_index
              fragment.payload valid.right ours.payload;
      };
      more_has = has-store parts fragment.fragment_index fragment.payload;
    }

    -- a fragment that came before
    repeated-Grown :
        has parts fragment.fragment_index ≡ true → Grown parts fragment.fragment_index parts
    repeated-Grown there = record {
      valid = valid;
      more_has = λ i. elim (Bool-cases (fragment.fragment_index == i)) [
        | inl e ↦
            let same : fragment.fragment_index ≡ i = (==_iff fragment.fragment_index i).0 e in
            let here : has parts i ≡ true = subst (λ j. has parts j ≡ true) same there in
            rw here refl
        | inr e ↦ rw e (or-false (has parts i))
      ];
    }
      where
        or-false : (b : Bool) → b ≡ (b || false)
        or-false true = refl
        or-false false = refl

    incomplete :
        (last : ℕ)
        → last < frame.count
        → has parts last ≡ false
        → (fragment.fragment_index == last) ≡ false
        → (length grown == frame.count) ≡ false
    incomplete last l missing other =
        let lacks : has grown last ≡ false =
          grown-Grown.more_has last
          ∙ ap (λ b. b || fragment.fragment_index == last) missing
          ∙ other in
        let g = grown-Grown.valid in
        let few : covered grown frame.count < frame.count =
          covered_some_missing grown frame.count last l lacks in
        let size : length grown ≡ covered grown frame.count =
          length-covered grown frame.count g.distinct g.within in
        ground (arith, few, size)

    pub whole : ((i : ℕ) → i < frame.count → has grown i ≡ true) → length grown ≡ frame.count
    whole all =
        let g = grown-Grown.valid in
        length-covered grown frame.count g.distinct g.within ∙ covered_all grown frame.count all

  -- Until the last fragment comes, a fragment of the frame gives nothing and its part is kept.
  pub record Kept (before : List (ℕ × List ℕ)) (index : ℕ) (fed : Fed W) : Type 0 where
    pub nothing : fed.1 ≡ ok none
    pub more : List (ℕ × List ℕ)
    pub holds : Holds frame Window fed.0 more
    pub growth : Grown before index more

  module _ (fragment : MediaFragment) (ours : IsOf frame fragment) (now : W) where
    unfoldable pub stored : Group W → Assembler W → Assembler W
    stored item a = record a { pending = store a.pending fragment.frame_id item }

    pub stored-Holds :
        (item : Group W) (a : Assembler W) (more : List (ℕ × List ℕ))
        → lookup a.finished frame.key ≡ none
        → Item more item
        → Holds frame Window (stored item a) more
    unfolding stored
    stored-Holds item a more u i = record {
      unfinished = u;
      waiting = inr (
        item,
        subst (λ k. lookup (store a.pending k item) frame.key ≡ some item) (sym ours.same_key)
            (lookup-store a.pending frame.key item),
        i.counted,
        i.same,
        i.started,
      );
    }

    module _ (last : ℕ) (l : last < frame.count)
        (other : (fragment.fragment_index == last) ≡ false) where
      gather_part-Kept :
          (item : Group W) (a : Assembler W)
          → ArePartsOf frame item.parts
          → has item.parts last ≡ false
          → lookup a.finished frame.key ≡ none
          → Item item.parts item
          → Holds frame Window a item.parts
          → Kept item.parts fragment.fragment_index
              (gather_part fragment now item a (lookup item.parts fragment.fragment_index))
      unfolding stored grown
      gather_part-Kept item a valid missing u i h =
          elim (Option-cases (lookup item.parts fragment.fragment_index)) [
            | inr (part, there) ↦
                let right : part ≡ frame.part fragment.fragment_index =
                  All-lookup (λ entry. entry.1 ≡ frame.part entry.0) item.parts
                    fragment.fragment_index part valid.right there in
                let same : part ≡ fragment.payload = right ∙ sym ours.payload in
                let equal : same_bytes part fragment.payload ≡ true =
                  rw same (same_bytes_refl fragment.payload) in
                rw (there, equal)
                  (record {
                    nothing = refl;
                    more = item.parts;
                    holds = record { unfinished = h.unfinished; waiting = h.waiting };
                    growth = repeated-Grown fragment ours item.parts valid (ap is_some there);
                  })
            | inl new ↦
                let more = grown fragment ours item.parts valid in
                let short : (length more == item.count) ≡ false =
                  rw i.counted (incomplete fragment ours item.parts valid last l missing other) in
                rw (new, short)
                  (record {
                    nothing = refl;
                    more = more;
                    holds =
                        stored-Holds (record item { parts = more }) a more u
                          (record { counted = i.counted; same = refl; started = i.started });
                    growth = grown-Grown fragment ours item.parts valid;
                  })
          ]

      -- the whole step, after what has expired
      pub admit-Kept :
          (a : Assembler W) (parts : List (ℕ × List ℕ))
          → Window now
          → ArePartsOf frame parts
          → has parts last ≡ false
          → Holds frame Window a parts
          → Kept parts fragment.fragment_index (admit fragment now a)
      unfolding gather stored
      admit-Kept a parts w valid missing h =
          let item = or_new fragment now (lookup a.pending fragment.frame_id) in
          let i : Item parts item = or_new-Item fragment now a parts ours w h in
          let i' : Item item.parts item = record {
            counted = i.counted;
            same = refl;
            started = i.started;
          } in
          let kept : Kept item.parts fragment.fragment_index (
              gather_part fragment now item (stored item a)
                (lookup item.parts fragment.fragment_index)) =
            gather_part-Kept item (stored item a) (subst (ArePartsOf frame) (sym i.same) valid)
              (subst (λ p. has p last ≡ false) (sym i.same) missing) h.unfinished i'
              (stored-Holds item a item.parts h.unfinished i') in
          let unseen : has a.finished fragment.frame_id ≡ false =
            rw ours.same_key (ap is_some h.unfinished) in
          let counted : (item.count == fragment.fragment_count) ≡ true =
            rw (i.counted, ours.same_count) (==_refl frame.count) in
          rw (unseen, counted)
            (subst
              (λ p. Kept p fragment.fragment_index (
                gather_part fragment now item (stored item a)
                  (lookup item.parts fragment.fragment_index)))
              i.same kept)
