-- ===== src/Reassembly/Split.antt =====
-- Where a stream is cut into chunks does not change its frames (protocol/reassembly.py).
use openframetap.Prelude.{
  ap₂, ℕ, zero, suc, ◌+◌, ◌≤◌, ◌≡◌, refl, sym, ap, ◌∙◌, List, [], ◌∷◌, ◌++◌, arith, ◌==◌, length,
  take, drop, Bool-cases, inl, inr, ◌⊎◌, length-append, length-drop, take-append_within,
  drop-append_within,
}
use openframetap.Duml.{magic}
use openframetap.Reassembly.Scan.{
  scan-accept, scan_skip, scan_wait, scan_other, Verdict, wait, skip, accept, verdict, scan,
  verdict-accept, verdict-append,
}

pub Verdict-cases : (v : Verdict) → (v ≡ wait) ⊎ ((v ≡ skip) ⊎ ((total : ℕ) × (v ≡ accept total)))
Verdict-cases wait = inl refl
Verdict-cases skip = inr (inl refl)
Verdict-cases (accept total) = inr (inr (total, refl))

-- An accepted frame takes at least one octet of the rest.
shorter :
    (x : ℕ) (xs : List ℕ) (total n : ℕ)
    → verdict (x ∷ xs) ≡ accept total
    → length (x ∷ xs) ≤ suc n
    → length (drop total (x ∷ xs)) ≤ n
shorter x xs total n e h =
    omega (arith, verdict-accept (x ∷ xs) total e, length-drop total (x ∷ xs))

-- Any number of rounds that is at least the number of octets gives one result.
pub scan_rounds :
    (n m : ℕ) (buffer : List ℕ)
    → length buffer ≤ n
    → length buffer ≤ m
    → scan n buffer ≡ scan m buffer
unfolding scan
scan_rounds zero zero [] p q = refl
scan_rounds zero (suc m) [] p q = refl
scan_rounds (suc n) zero [] p q = refl
scan_rounds (suc n) (suc m) [] p q = refl
scan_rounds zero m (x ∷ xs) p q = absurd (omega arith)
scan_rounds (suc n) zero (x ∷ xs) p q = absurd (omega arith)
scan_rounds (suc n) (suc m) (x ∷ xs) p q = elim (Bool-cases (x == magic)) [
  | inr e ↦
      scan_other n x xs e
      ∙ scan_rounds n m xs (omega arith) (omega arith)
      ∙ sym (scan_other m x xs e)
  | inl e ↦ elim (Verdict-cases (verdict (x ∷ xs))) [
    | inl v ↦ scan_wait n x xs e v ∙ sym (scan_wait m x xs e v)
    | inr (inl v) ↦
        scan_skip n x xs e v
        ∙ scan_rounds n m xs (omega arith) (omega arith)
        ∙ sym (scan_skip m x xs e v)
    | inr (inr (total, v)) ↦
        scan-accept n x xs e total v
        ∙ ap (λ (r : List (List ℕ) × List ℕ). (take total (x ∷ xs) ∷ r.0, r.1))
            (scan_rounds n m (drop total (x ∷ xs)) (shorter x xs total n v p)
              (shorter x xs total m v q))
        ∙ sym (scan-accept m x xs e total v)
  ]
]

-- The result of a scan with as many rounds as octets.
abbrev pub scan_all : List ℕ → List (List ℕ) × List ℕ
scan_all buffer = scan (length buffer) buffer

-- The frames of the first chunk, then those of what it left over and the second chunk.
abbrev in_turn : List (List ℕ) × List ℕ → List ℕ → ℕ → List (List ℕ) × List ℕ
in_turn r more m = (r.0 ++ (scan m (r.1 ++ more)).0, (scan m (r.1 ++ more)).1)

scan-append_rounds :
    (n k m : ℕ) (buffer more : List ℕ)
    → length buffer ≤ n
    → length buffer + length more ≤ k
    → length buffer + length more ≤ m
    → scan k (buffer ++ more) ≡ in_turn (scan n buffer) more m
unfolding scan
scan-append_rounds zero k m [] more p q r = scan_rounds k m more (omega arith) (omega arith)
scan-append_rounds (suc n) k m [] more p q r = scan_rounds k m more (omega arith) (omega arith)
scan-append_rounds zero k m (x ∷ xs) more p q r = absurd (omega arith)
scan-append_rounds (suc n) zero m (x ∷ xs) more p q r = absurd (omega arith)
scan-append_rounds (suc n) (suc k) m (x ∷ xs) more p q r = elim (Bool-cases (x == magic)) [
  | inr e ↦
      scan_other k x (xs ++ more) e
      ∙ scan-append_rounds n k m xs more (omega arith) (omega arith) (omega arith)
      ∙ ap (λ t. in_turn t more m) (sym (scan_other n x xs e))
  | inl e ↦ elim (Verdict-cases (verdict (x ∷ xs))) [
    | inl v ↦
        scan_rounds (suc k) m (x ∷ (xs ++ more)) (omega (arith, length-append xs more))
          (omega (arith, length-append xs more))
        ∙ ap (λ t. in_turn t more m) (sym (scan_wait n x xs e v))
    | inr (inl v) ↦
        scan_skip k x (xs ++ more) e (kept v (λ w. cc))
        ∙ scan-append_rounds n k m xs more (omega arith) (omega arith) (omega arith)
        ∙ ap (λ t. in_turn t more m) (sym (scan_skip n x xs e v))
    | inr (inr (total, v)) ↦
        let room : total ≤ length (x ∷ xs) = (verdict-accept (x ∷ xs) total v).room in
        let left : length (drop total (x ∷ xs)) ≤ n = shorter x xs total n v p in
        scan-accept k x (xs ++ more) e total (kept v (λ w. cc))
        ∙ ap₂ (λ (f : List ℕ) (t : List ℕ). (f ∷ (scan k t).0, (scan k t).1))
            (take-append_within (x ∷ xs) more total room)
            (drop-append_within (x ∷ xs) more total room)
        ∙ ap (λ (t : List (List ℕ) × List ℕ). (take total (x ∷ xs) ∷ t.0, t.1))
            (scan-append_rounds n k m (drop total (x ∷ xs)) more left
              (omega (arith, length-drop total (x ∷ xs), verdict-accept (x ∷ xs) total v))
              (omega (arith, length-drop total (x ∷ xs), verdict-accept (x ∷ xs) total v)))
        ∙ ap (λ t. in_turn t more m) (sym (scan-accept n x xs e total v))
  ]
]
  where
    kept : {w : Verdict} → verdict (x ∷ xs) ≡ w → (w ≡ wait → ⊥) → verdict (x ∷ (xs ++ more)) ≡ w
    kept v ne = elim (verdict-append (x ∷ xs) more) [
      | inl h ↦ absurd (ne (sym v ∙ h))
      | inr h ↦ h ∙ v
    ]

-- A scan leaves no more octets than it was given.
left-le : (n : ℕ) (buffer : List ℕ) → length (scan n buffer).1 ≤ length buffer
unfolding scan
left-le zero buffer = omega arith
left-le (suc n) [] = omega arith
left-le (suc n) (x ∷ xs) = elim (Bool-cases (x == magic)) [
  | inr e ↦ rw (scan_other n x xs e) (omega (arith, left-le n xs))
  | inl e ↦ elim (Verdict-cases (verdict (x ∷ xs))) [
    | inl v ↦ rw (scan_wait n x xs e v) (omega arith)
    | inr (inl v) ↦ rw (scan_skip n x xs e v) (omega (arith, left-le n xs))
    | inr (inr (total, v)) ↦
        rw (scan-accept n x xs e total v)
          (omega (arith, left-le n (drop total (x ∷ xs)), length-drop total (x ∷ xs)))
  ]
]

-- The frames of two chunks together are those of the first, followed by those of what it left over
-- and the second; and the same octets are left.
pub scan_all-append :
    (buffer more : List ℕ)
    → scan_all (buffer ++ more) ≡ (
      (scan_all buffer).0 ++ (scan_all ((scan_all buffer).1 ++ more)).0,
      (scan_all ((scan_all buffer).1 ++ more)).1,
    )
scan_all-append buffer more =
    let rest = (scan_all buffer).1 ++ more in
    let fits : length rest ≤ length buffer + length more =
      omega (arith, left-le (length buffer) buffer, length-append (scan_all buffer).1 more) in
    scan-append_rounds (length buffer) (length (buffer ++ more)) (length buffer + length more)
      buffer more (omega arith) (omega (arith, length-append buffer more)) (omega arith)
    ∙ ap (λ (t : List (List ℕ) × List ℕ). ((scan_all buffer).0 ++ t.0, t.1))
        (scan_rounds (length buffer + length more) (length rest) rest fits (omega arith))
