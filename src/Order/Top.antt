-- ===== src/Order/Top.antt =====
-- What a move to the top does to an order.
use rabbit_maximizer.Prelude.{
  ℕ, suc, ◌≡◌, refl, true, Option, none, some, not, List, [], ◌∷◌, ◌==◌, if◌then◌else◌, keep, count, Bool-cases, inl, inr,
  arith,
}
use rabbit_maximizer.Order.{to_top}

abbrev pub later_position : Option ℕ → Option ℕ
later_position none = none
later_position (some n) = some (suc n)

-- Where an id stands first in an order.
abbrev pub position : ℕ → List ℕ → Option ℕ
position id [] = none
position id (x ∷ xs) = if x == id then some 0 else later_position (position id xs)

abbrev pub others : ℕ → List ℕ → List ℕ
others id = keep (λ oid. not (oid == id))

others-count :
    (j id : ℕ) (xs : List ℕ)
    → count (λ x. x == j) (others id xs) ≡ (if j == id then 0 else count (λ x. x == j) xs)
others-count j id [] = ground arith
others-count j id (x ∷ xs) = ground (arith, others-count j id xs)

others-again : (id : ℕ) (xs : List ℕ) → others id (others id xs) ≡ others id xs
others-again id [] = refl
others-again id (x ∷ xs) = elim (Bool-cases (x == id)) [
  | inl q ↦ rw q (others-again id xs)
  | inr q ↦ rw (q, q, others-again id xs) refl
]

-- Where the id stands once in the order, the order with the id moved to the top begins with the
-- id, holds every id as often as before, and keeps the order of the others.
pub to_top-order :
    (id : ℕ) (order : List ℕ)
    → count (λ x. x == id) order ≡ 1
    → (position id (to_top id order) ≡ some 0)
      × ((j : ℕ) → count (λ x. x == j) (to_top id order) ≡ count (λ x. x == j) order)
      × (others id (to_top id order) ≡ others id order)
to_top-order id order once =
    let self : (id == id) ≡ true = ground arith in
    (
      rw self refl,
      λ j. ground (arith, others-count j id order, once),
      rw (others-again id order) (rw self refl),
    )
