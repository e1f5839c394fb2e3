-- ===== src/Order/Examples.antt =====
-- Moves of small orders.
use rabbit_maximizer.Prelude.{some, ℕ, ◌≡◌, refl, not, [], ◌∷◌, ◌==◌, keep, count}
use rabbit_maximizer.Order.{
  up, down, moved_order, to_top, includes, move_all, move_at, swap_unless_selected,
}
use rabbit_maximizer.Order.Top.{to_top-order, others, position}
use rabbit_maximizer.Order.Moves.{moved_order-count, moved_order-keep}

moved_up : moved_order up (3 ∷ 4 ∷ []) (1 ∷ 2 ∷ 3 ∷ 4 ∷ []) ≡ 1 ∷ 3 ∷ 4 ∷ 2 ∷ []
unfolding moved_order move_all move_at swap_unless_selected
moved_up = refl

moved_down : moved_order down (1 ∷ 3 ∷ []) (1 ∷ 2 ∷ 3 ∷ []) ≡ 2 ∷ 1 ∷ 3 ∷ []
unfolding moved_order move_all move_at swap_unless_selected
moved_down = refl

moved_order-count_example :
    count (λ x. x == 2) (moved_order up (3 ∷ 4 ∷ []) (1 ∷ 2 ∷ 3 ∷ 4 ∷ []))
    ≡ count (λ x. x == 2) (1 ∷ 2 ∷ 3 ∷ 4 ∷ [])
moved_order-count_example = moved_order-count (λ x. x == 2) up (3 ∷ 4 ∷ []) (1 ∷ 2 ∷ 3 ∷ 4 ∷ [])

moved_order-keep_example :
    (keep (includes (3 ∷ [])) (moved_order up (3 ∷ []) (1 ∷ 2 ∷ 3 ∷ []))
      ≡ keep (includes (3 ∷ [])) (1 ∷ 2 ∷ 3 ∷ []))
    × (keep (λ id. not (includes (3 ∷ []) id)) (moved_order up (3 ∷ []) (1 ∷ 2 ∷ 3 ∷ []))
        ≡ keep (λ id. not (includes (3 ∷ []) id)) (1 ∷ 2 ∷ 3 ∷ []))
moved_order-keep_example = moved_order-keep up (3 ∷ []) (1 ∷ 2 ∷ 3 ∷ [])

to_top-order_example :
    (position 3 (to_top 3 (1 ∷ 2 ∷ 3 ∷ [])) ≡ some 0)
    × ((j : ℕ)
      → count (λ x. x == j) (to_top 3 (1 ∷ 2 ∷ 3 ∷ [])) ≡ count (λ x. x == j) (1 ∷ 2 ∷ 3 ∷ []))
    × (others 3 (to_top 3 (1 ∷ 2 ∷ 3 ∷ [])) ≡ others 3 (1 ∷ 2 ∷ 3 ∷ []))
to_top-order_example = to_top-order 3 (1 ∷ 2 ∷ 3 ∷ []) refl
