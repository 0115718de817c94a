-- ===== src/Dicts.antt =====
-- Python's `dict` with numbers as keys: an association list in the order of insertion.
pub mod Laws
pub mod Distinct
pub mod Sums
use openframetap.Prelude.{
  ℕ, Bool, true, false, Option, none, some, List, [], ◌∷◌, ◌==◌, if◌then◌else◌, not,
}

module _ {ℓ} {V : Type ℓ} where
  -- items.get(key)
  abbrev pub lookup : List (ℕ × V) → ℕ → Option V
  lookup [] key = none
  lookup ((k, v) ∷ items) key = if k == key then some v else lookup items key

  -- key in items
  abbrev pub is_some : Option V → Bool
  is_some none = false
  is_some (some v) = true

  abbrev pub has : List (ℕ × V) → ℕ → Bool
  has items key = is_some (lookup items key)

  -- items[key] = value
  abbrev pub store : List (ℕ × V) → ℕ → V → List (ℕ × V)
  store [] key value = (key, value) ∷ []
  store ((k, v) ∷ items) key value =
      if k == key then (k, value) ∷ items else (k, v) ∷ store items key value

  -- del items[key]
  abbrev pub remove : List (ℕ × V) → ℕ → List (ℕ × V)
  remove [] key = []
  remove ((k, v) ∷ items) key = if k == key then items else (k, v) ∷ remove items key

  -- {k: v for k, v in items.items() if test(v)}
  abbrev pub keep_if : (V → Bool) → List (ℕ × V) → List (ℕ × V)
  keep_if test [] = []
  keep_if test ((k, v) ∷ items) =
      let rest = keep_if test items in if test v then (k, v) ∷ rest else rest
