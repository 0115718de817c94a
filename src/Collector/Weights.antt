-- ===== src/Collector/Weights.antt =====
-- analysis/dji_wifi_media.py: how many fragments a collector and its parts account for.
use openframetap.Prelude.{
  ℕ, suc, Option, none, some, List, [], ◌∷◌, ◌++◌, ◌≡◌, refl, ◌∙◌, Bool-cases, Option-cases, inl,
  inr, arith, ◌+◌, length, leb, Result, ok, err,
}
use openframetap.Floats.{Floats}
use openframetap.Bytes.{same_bytes}
use openframetap.Media.{retransmission_generation}
use openframetap.Dicts.{lookup}
use openframetap.Dicts.Sums.{sum_of, sum_of-store_new, sum_of-store_old}
use openframetap.Collector.{
  Observation, Assembly, ReconstructedFrame, finalize, finalize_all, sort_frames, insert_frame,
  count_up,
}
use openframetap.Collector.Feed.{
  Collector, CollectorError, add_seen, add_fragment, retain, expire_orphans, is_awaited, adopt,
}

abbrev pub total : List (ℕ × ℕ) → ℕ
total = sum_of (λ n. n)

total-count_up :
    (counter : List (ℕ × ℕ)) (key : ℕ) → total (count_up counter key) ≡ suc (total counter)
total-count_up counter key = elim (Option-cases (lookup counter key)) [
  | inl e ↦ rw e (omega (arith, sum_of-store_new (λ n. n) counter key 1 e))
  | inr (n, e) ↦ rw e (omega (arith, sum_of-store_old (λ n. n) counter key (suc n) n e))
]

module _ {W : Type 0} where
  -- how many fragments went into an assembly, or into frames
  abbrev pub weight : Assembly W → ℕ
  weight a = total a.retransmission_generations

  abbrev pub sent : List (ReconstructedFrame W) → ℕ
  sent [] = 0
  sent (frame ∷ rest) = total frame.retransmission_generations + sent rest

  pub sent-append : (xs ys : List (ReconstructedFrame W)) → sent (xs ++ ys) ≡ sent xs + sent ys
  sent-append [] ys = omega arith
  sent-append (x ∷ xs) ys = omega (arith, sent-append xs ys)

  sent-insert_frame :
      (x : ReconstructedFrame W) (xs : List (ReconstructedFrame W))
      → sent (insert_frame x xs) ≡ total x.retransmission_generations + sent xs
  sent-insert_frame x [] = refl
  sent-insert_frame x (y ∷ ys) = elim (Bool-cases (leb x.packet_index y.packet_index)) [
    | inl e ↦ rw e refl
    | inr e ↦ rw e (omega (arith, sent-insert_frame x ys))
  ]

  pub sent-sort_frames : (xs : List (ReconstructedFrame W)) → sent (sort_frames xs) ≡ sent xs
  unfolding sort_frames
  sent-sort_frames [] = refl
  sent-sort_frames (x ∷ xs) =
      omega (arith, sent-insert_frame x (sort_frames xs), sent-sort_frames xs)

  pub sent-finalize_all :
      (active : List (ℕ × Assembly W)) → sent (finalize_all active) ≡ sum_of weight active
  unfolding finalize
  sent-finalize_all [] = refl
  sent-finalize_all ((id, a) ∷ rest) = omega (arith, sent-finalize_all rest)

  -- every fragment that a collector has been fed
  unfoldable pub held : Collector W → ℕ
  held c = sent c.completed + sum_of weight c.active + length c.pending + c.orphan_fragment_count

  unfoldable pub held_in : Result CollectorError (Collector W) → ℕ
  unfolding held
  held_in (ok c) = held c
  held_in (err e) = 0

module _ {W : Type 0} ⦃f : Floats W⦄ where
  add_seen-weight :
      (seen : Observation W) (a : Assembly W) (o : Option (Observation W))
      → weight (add_seen seen a o) ≡ weight a
  add_seen-weight seen a none = refl
  add_seen-weight seen a (some previous) =
      elim (Bool-cases (same_bytes previous.fragment.payload seen.fragment.payload)) [
        | inl e ↦ rw e refl
        | inr e ↦ rw e refl
      ]

  pub add_fragment-weight :
      (seen : Observation W) (a : Assembly W) → weight (add_fragment seen a) ≡ suc (weight a)
  unfolding add_fragment
  add_fragment-weight seen a =
      add_seen-weight seen _ (lookup a.fragments seen.fragment.fragment_index)
      ∙ total-count_up a.retransmission_generations (retransmission_generation seen.fragment)

  retain-length :
      (window now : W) (pending : List (Observation W))
      → length (retain window now pending).0 + (retain window now pending).1 ≡ length pending
  retain-length window now [] = refl
  retain-length window now (seen ∷ rest) =
      elim (Bool-cases (f.lt window (f.sub now seen.capture_timestamp))) [
        | inl e ↦ rw e (omega (arith, retain-length window now rest))
        | inr e ↦ rw e (omega (arith, retain-length window now rest))
      ]

  pub expire_orphans-held : (now : W) (c : Collector W) → held (expire_orphans now c) ≡ held c
  unfolding held expire_orphans
  expire_orphans-held now c = omega (arith, retain-length c.orphan_window_seconds now c.pending)

  pub adopt-weight :
      (c : Collector W) (start : Observation W) (pending : List (Observation W)) (a : Assembly W)
      → weight (adopt c start pending a).0 + length (adopt c start pending a).1
        ≡ weight a + length pending
  adopt-weight c start [] a = refl
  adopt-weight c start (seen ∷ rest) a = elim (Bool-cases (is_awaited c start seen)) [
    | inl e ↦
        rw e (
          omega
            (arith, adopt-weight c start rest (add_fragment seen a), add_fragment-weight seen a))
    | inr e ↦ rw e (omega (arith, adopt-weight c start rest a))
  ]
