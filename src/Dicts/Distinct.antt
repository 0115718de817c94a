-- ===== src/Dicts/Distinct.antt =====
-- The keys of a dictionary are distinct, so a dictionary with keys below a number has at most so many
-- items, and just so many if none is missing.
use openframetap.Prelude.{
  ◌⊎◌, ◌∙◌, subst, ℕ, zero, suc, Bool, true, false, none, List, [], ◌∷◌, ◌==◌, if◌then◌else◌, ◌≡◌,
  refl, Bool-cases, inl, inr, All, ==_iff, arith, ◌<◌, ◌≤◌, ◌+◌, length, ap,
}
use openframetap.Dicts.{lookup, store, remove, keep_if, has, is_some}
use openframetap.Dicts.Laws.{lookup-store_ne, lookup-remove_ne, lookup-keep_if-none}

module _ {ℓ} {V : Type ℓ} where
  abbrev pub Distinct : List (ℕ × V) → Type ℓ
  Distinct [] = Unit
  Distinct ((k, v) ∷ d) = (lookup d k ≡ none) × Distinct d

  -- how many of the first n keys are there
  abbrev pub covered : List (ℕ × V) → ℕ → ℕ
  covered d zero = 0
  covered d (suc n) = (if has d n then 1 else 0) + covered d n

  covered-nil : (d : List (ℕ × V)) (n : ℕ) → length d ≡ 0 → covered d n ≡ 0
  covered-nil d zero e = refl
  covered-nil [] (suc n) e = omega (arith, covered-nil [] n refl)
  covered-nil (item ∷ d) (suc n) e = absurd (omega arith)

  pub covered-le : (d : List (ℕ × V)) (n : ℕ) → covered d n ≤ n
  covered-le d zero = omega arith
  covered-le d (suc n) = elim (Bool-cases (has d n)) [
    | inl e ↦ rw e (omega (arith, covered-le d n))
    | inr e ↦ rw e (omega (arith, covered-le d n))
  ]

  pub covered_all :
      (d : List (ℕ × V)) (n : ℕ) → ((i : ℕ) → i < n → has d i ≡ true) → covered d n ≡ n
  covered_all d zero h = refl
  covered_all d (suc n) h =
      rw (h n (omega arith)) (omega (arith, covered_all d n λ i l. h i (omega arith)))

  pub covered_some_missing :
      (d : List (ℕ × V)) (n i : ℕ) → i < n → has d i ≡ false → covered d n < n
  covered_some_missing d zero i l h = absurd (omega arith)
  covered_some_missing d (suc n) i l h = elim (Bool-cases (has d n)) [
    | inr e ↦ rw e (omega (arith, covered-le d n))
    | inl e ↦ rw e (omega (arith, covered_some_missing d n i (other (Bool-cases (i == n)) e) h))
  ]
    where
      other : ((i == n) ≡ true) ⊎ ((i == n) ≡ false) → has d n ≡ true → i < n
      other (inr u) e = ground arith
      other (inl u) e =
          let same : i ≡ n = (==_iff i n).0 u in
          let there : has d i ≡ true = rw same e in absurd (cc (there, h))

  beyond : (d : List (ℕ × V)) (k : ℕ) (v : V) (n : ℕ) → n ≤ k → covered ((k, v) ∷ d) n ≡ covered d n
  beyond d k v zero l = refl
  beyond d k v (suc n) l =
      let e : (k == n) ≡ false = ground arith in
      let rest : covered ((k, v) ∷ d) n ≡ covered d n = beyond d k v n (omega arith) in
      rw (e, rest) refl

  one_more :
      (d : List (ℕ × V)) (k : ℕ) (v : V) (n : ℕ)
      → lookup d k ≡ none
      → k < n
      → covered ((k, v) ∷ d) n ≡ suc (covered d n)
  one_more d k v zero h l = absurd (omega arith)
  one_more d k v (suc n) h l = elim (Bool-cases (k == n)) [
    | inl e ↦
        let same : k ≡ n = (==_iff k n).0 e in
        let none_there : has d n ≡ false = ap is_some (subst (λ i. lookup d i ≡ none) same h) in
        let rest : covered ((k, v) ∷ d) n ≡ covered d n = beyond d k v n (omega arith) in
        rw (e, rest, none_there) (omega arith)
    | inr e ↦
        let rest : covered ((k, v) ∷ d) n ≡ suc (covered d n) = one_more d k v n h (ground arith) in
        rw (e, rest) (omega arith)
  ]

  pub length-covered :
      (d : List (ℕ × V)) (n : ℕ) → Distinct d → All (λ item. item.0 < n) d → length d ≡ covered d n
  length-covered [] n h l = omega (arith, covered-nil [] n refl)
  length-covered ((k, v) ∷ d) n h l =
      omega (arith, one_more d k v n h.0 l.0, length-covered d n h.1 l.1)

  pub store-Distinct : (d : List (ℕ × V)) (k : ℕ) (v : V) → Distinct d → Distinct (store d k v)
  store-Distinct [] k v h = (refl, tt)
  store-Distinct ((i, w) ∷ d) k v h = elim (Bool-cases (i == k)) [
    | inl e ↦ rw e h
    | inr e ↦ rw e (lookup-store_ne d k i v (ground arith) ∙ h.0, store-Distinct d k v h.1)
  ]

  pub keep_if-Distinct :
      (test : V → Bool) (d : List (ℕ × V)) → Distinct d → Distinct (keep_if test d)
  keep_if-Distinct test [] h = tt
  keep_if-Distinct test ((i, w) ∷ d) h = elim (Bool-cases (test w)) [
    | inl e ↦ rw e (lookup-keep_if-none test d i h.0, keep_if-Distinct test d h.1)
    | inr e ↦ rw e (keep_if-Distinct test d h.1)
  ]

  pub remove-Distinct : (d : List (ℕ × V)) (k : ℕ) → Distinct d → Distinct (remove d k)
  remove-Distinct [] k h = tt
  remove-Distinct ((i, w) ∷ d) k h = elim (Bool-cases (i == k)) [
    | inl e ↦ rw e h.1
    | inr e ↦ rw e (lookup-remove_ne d k i (ground arith) ∙ h.0, remove-Distinct d k h.1)
  ]

  pub lookup-remove : (d : List (ℕ × V)) (k : ℕ) → Distinct d → lookup (remove d k) k ≡ none
  lookup-remove [] k h = refl
  lookup-remove ((i, w) ∷ d) k h = elim (Bool-cases (i == k)) [
    | inl e ↦ rw e (subst (λ j. lookup d j ≡ none) ((==_iff i k).0 e) h.0)
    | inr e ↦ rw (e, e) (lookup-remove d k h.1)
  ]
