-- ===== src/Dicts/Sums.antt =====
-- The sum of a measure over the values of a dictionary, and how an update changes it.
use openframetap.Prelude.{ℕ, none, some, List, [], ◌∷◌, ◌==◌, ◌≡◌, Bool-cases, inl, inr, arith, ◌+◌}
use openframetap.Dicts.{lookup, store}

module _ {ℓ} {V : Type ℓ} (measure : V → ℕ) where
  abbrev pub sum_of : List (ℕ × V) → ℕ
  sum_of [] = 0
  sum_of ((k, v) ∷ d) = measure v + sum_of d

  pub sum_of-store_new :
      (d : List (ℕ × V)) (k : ℕ) (v : V)
      → lookup d k ≡ none
      → sum_of (store d k v) ≡ sum_of d + measure v
  sum_of-store_new [] k v h = omega arith
  sum_of-store_new ((i, w) ∷ d) k v h = elim (Bool-cases (i == k)) [
    | inl e ↦ let found : some w ≡ none = rw e at h in absurd (cc found)
    | inr e ↦
        let later : lookup d k ≡ none = rw e at h in
        rw e (omega (arith, sum_of-store_new d k v later))
  ]

  pub sum_of-store_old :
      (d : List (ℕ × V)) (k : ℕ) (v old : V)
      → lookup d k ≡ some old
      → sum_of (store d k v) + measure old ≡ sum_of d + measure v
  sum_of-store_old [] k v old h = absurd (cc h)
  sum_of-store_old ((i, w) ∷ d) k v old h = elim (Bool-cases (i == k)) [
    | inl e ↦
        let found : some w ≡ some old = rw e at h in
        let same : w ≡ old = cc found in rw (e, same) (omega arith)
    | inr e ↦
        let later : lookup d k ≡ some old = rw e at h in
        rw e (omega (arith, sum_of-store_old d k v old later))
  ]
