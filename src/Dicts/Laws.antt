-- ===== src/Dicts/Laws.antt =====
-- What a lookup finds after an update of a dictionary, and what holds of all of its items.
use openframetap.Prelude.{
  ap, subst⁻¹, subst, ℕ, Bool, true, false, none, some, List, [], ◌∷◌, ◌==◌, ◌≡◌, refl, Bool-cases,
  inl, inr, All, ==_iff, ==_refl,
}
use openframetap.Dicts.{lookup, store, remove, keep_if}

module _ {ℓ} {V : Type ℓ} where
  pub lookup-store : (d : List (ℕ × V)) (k : ℕ) (v : V) → lookup (store d k v) k ≡ some v
  lookup-store [] k v = rw (==_refl k) refl
  lookup-store ((i, w) ∷ d) k v = elim (Bool-cases (i == k)) [
    | inl e ↦ rw (e, e) refl
    | inr e ↦ rw (e, e) (lookup-store d k v)
  ]

  pub lookup-store_ne :
      (d : List (ℕ × V)) (k j : ℕ) (v : V) → (k == j) ≡ false → lookup (store d k v) j ≡ lookup d j
  lookup-store_ne [] k j v n = rw n refl
  lookup-store_ne ((i, w) ∷ d) k j v n = elim (Bool-cases (i == k)) [
    | inl e ↦ let same : i ≡ k = (==_iff i k).0 e in rw (e, same, n) refl
    | inr e ↦ rw e (elim (Bool-cases (i == j)) [
      | inl f ↦ rw f refl
      | inr f ↦ rw f (lookup-store_ne d k j v n)
    ])
  ]

  pub lookup-remove_ne :
      (d : List (ℕ × V)) (k j : ℕ) → (k == j) ≡ false → lookup (remove d k) j ≡ lookup d j
  lookup-remove_ne [] k j n = refl
  lookup-remove_ne ((i, w) ∷ d) k j n = elim (Bool-cases (i == k)) [
    | inl e ↦ let same : i ≡ k = (==_iff i k).0 e in rw (e, same, n) refl
    | inr e ↦
        rw e (elim (Bool-cases (i == j)) [
          | inl f ↦ rw f refl
          | inr f ↦ rw f (lookup-remove_ne d k j n)
        ])
  ]

  pub remove-store : (d : List (ℕ × V)) (k : ℕ) (v : V) → remove (store d k v) k ≡ remove d k
  remove-store [] k v = rw (==_refl k) refl
  remove-store ((i, w) ∷ d) k v = elim (Bool-cases (i == k)) [
    | inl e ↦ rw (e, e) refl
    | inr e ↦ rw (e, e) (ap (λ t. (i, w) ∷ t) (remove-store d k v))
  ]

  -- an item that passes the test stays
  pub lookup-keep_if :
      (test : V → Bool) (d : List (ℕ × V)) (k : ℕ) (v : V)
      → lookup d k ≡ some v
      → test v ≡ true
      → lookup (keep_if test d) k ≡ some v
  lookup-keep_if test [] k v h t = cc h
  lookup-keep_if test ((i, w) ∷ d) k v h t = elim (Bool-cases (i == k)) [
    | inl e ↦
        let found : some w ≡ some v = rw e at h in
        let same : w ≡ v = cc found in rw (same, t, e) refl
    | inr e ↦
        let later : lookup d k ≡ some v = rw e at h in
        elim (Bool-cases (test w)) [
          | inl t1 ↦ rw (t1, e) (lookup-keep_if test d k v later t)
          | inr t1 ↦ rw t1 (lookup-keep_if test d k v later t)
        ]
  ]

  pub lookup-keep_if-none :
      (test : V → Bool) (d : List (ℕ × V)) (k : ℕ)
      → lookup d k ≡ none
      → lookup (keep_if test d) k ≡ none
  lookup-keep_if-none test [] k h = refl
  lookup-keep_if-none test ((i, w) ∷ d) k h = elim (Bool-cases (i == k)) [
    | inl e ↦ let found : some w ≡ none = rw e at h in absurd (cc found)
    | inr e ↦
        let later : lookup d k ≡ none = rw e at h in
        elim (Bool-cases (test w)) [
          | inl t1 ↦ rw (t1, e) (lookup-keep_if-none test d k later)
          | inr t1 ↦ rw t1 (lookup-keep_if-none test d k later)
        ]
  ]

  module _ {κ} (P : ℕ × V → Type κ) where
    pub All-store : (d : List (ℕ × V)) (k : ℕ) (v : V) → All P d → P (k, v) → All P (store d k v)
    All-store [] k v h p = (p, tt)
    All-store ((i, w) ∷ d) k v h p = elim (Bool-cases (i == k)) [
      | inl e ↦ rw e (subst⁻¹ (λ n. P (n, v)) ((==_iff i k).0 e) p, h.1)
      | inr e ↦ rw e (h.0, All-store d k v h.1 p)
    ]

    pub All-remove : (d : List (ℕ × V)) (k : ℕ) → All P d → All P (remove d k)
    All-remove [] k h = tt
    All-remove ((i, w) ∷ d) k h = elim (Bool-cases (i == k)) [
      | inl e ↦ rw e h.1
      | inr e ↦ rw e (h.0, All-remove d k h.1)
    ]

    pub All-keep_if : (test : V → Bool) (d : List (ℕ × V)) → All P d → All P (keep_if test d)
    All-keep_if test [] h = tt
    All-keep_if test ((i, w) ∷ d) h = elim (Bool-cases (test w)) [
      | inl e ↦ rw e (h.0, All-keep_if test d h.1)
      | inr e ↦ rw e (All-keep_if test d h.1)
    ]

    pub All-lookup : (d : List (ℕ × V)) (k : ℕ) (v : V) → All P d → lookup d k ≡ some v → P (k, v)
    All-lookup [] k v h e = absurd (cc e)
    All-lookup ((i, w) ∷ d) k v h e = elim (Bool-cases (i == k)) [
      | inl s ↦
          let found : some w ≡ some v = rw s at e in
          let same : w ≡ v = cc found in
          subst (λ n. P (n, v)) ((==_iff i k).0 s) (subst (λ u. P (i, u)) same h.0)
      | inr s ↦ All-lookup d k v h.1 (rw s at e)
    ]
