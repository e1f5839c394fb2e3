-- ===== src/Order/Moves.antt =====
-- What the moves of ids do to an order: nothing is lost, and neither the moved items nor the
-- others change places among themselves.
use rabbit_maximizer.Prelude.{
  ℕ, zero, suc, ◌≡◌, refl, sym, ap, ◌∙◌, Bool, true, false, not, Option, none, some, List, [], ◌∷◌,
  ◌==◌, ◌&&◌, ==_iff, keep, count, All, All-append_one, Option-cases, Bool-cases, inl, inr, arith,
}
use rabbit_maximizer.Order.{
  MoveDirection, up, down, swap_at, get_elem?, index_of, includes, swap_unless_selected, move_at,
  move_all, insert, sort, index_leq, reverse, sorted_selected, moved_order,
}

swap_at-count : (p : ℕ → Bool) (i : ℕ) (xs : List ℕ) → count p (swap_at i xs) ≡ count p xs
swap_at-count p i [] = refl
swap_at-count p i (x ∷ []) = refl
swap_at-count p zero (x ∷ y ∷ xs) = omega arith
swap_at-count p (suc i) (x ∷ y ∷ xs) = omega (arith, swap_at-count p i (y ∷ xs))

-- Two neighbours of which at most one passes may change places unseen.
swap_at-keep :
    (p : ℕ → Bool) (i : ℕ) (xs : List ℕ) (a b : ℕ)
    → get_elem? i xs ≡ some a
    → get_elem? (suc i) xs ≡ some b
    → (p a && p b) ≡ false
    → keep p (swap_at i xs) ≡ keep p xs
swap_at-keep p i [] a b g h k = refl
swap_at-keep p i (x ∷ []) a b g h k = refl
swap_at-keep p zero (x ∷ y ∷ xs) a b g h k =
    let e : x ≡ a = cc in
    let e' : y ≡ b = cc in
    elim (Bool-cases (p a)) [
      | inl q ↦ let n : p b ≡ false = ground arith in rw (e, e', q, n) refl
      | inr q ↦ rw (e, e', q) refl
    ]
swap_at-keep p (suc i) (x ∷ y ∷ xs) a b g h k = rw (swap_at-keep p i (y ∷ xs) a b g h k) refl

index_of-get : (id : ℕ) (xs : List ℕ) (i : ℕ) → index_of id xs ≡ some i → get_elem? i xs ≡ some id
index_of-get id [] i h = absurd (cc)
index_of-get id (x ∷ xs) zero h = elim (Bool-cases (x == id)) [
  | inl q ↦ ap some ((==_iff x id).0 q)
  | inr q ↦ elim (Option-cases (index_of id xs)) [
    | inl n ↦ ground arith
    | inr (j, n) ↦ ground arith
  ]
]
index_of-get id (x ∷ xs) (suc i) h = elim (Bool-cases (x == id)) [
  | inl q ↦ ground arith
  | inr q ↦ elim (Option-cases (index_of id xs)) [
    | inl n ↦ ground arith
    | inr (j, n) ↦
        let e : some (suc j) ≡ some (suc i) = sym (rw (q, n) refl) ∙ h in
        index_of-get id xs i (n ∙ cc)
  ]
]

-- The order that a turn of the loop gives has the same ids in it.
swap_unless_selected-count :
    (p : ℕ → Bool) (selected : List ℕ) (i : ℕ) (neighbor : Option ℕ) (order : List ℕ)
    → count p (swap_unless_selected selected i neighbor order) ≡ count p order
unfolding swap_unless_selected
swap_unless_selected-count p selected i none order = refl
swap_unless_selected-count p selected i (some n) order = elim (Bool-cases (includes selected n)) [
  | inl q ↦ rw q refl
  | inr q ↦ rw q (swap_at-count p i order)
]

move_at-count :
    (p : ℕ → Bool) (direction : MoveDirection) (selected : List ℕ) (at : Option ℕ) (order : List ℕ)
    → count p (move_at direction selected at order) ≡ count p order
unfolding move_at
move_at-count p direction selected none order = refl
move_at-count p up selected (some zero) order = refl
move_at-count p up selected (some (suc i)) order =
    swap_unless_selected-count p selected i (get_elem? i order) order
move_at-count p down selected (some i) order =
    swap_unless_selected-count p selected i (get_elem? (suc i) order) order

move_all-count :
    (p : ℕ → Bool) (direction : MoveDirection) (selected ids order : List ℕ)
    → count p (move_all direction selected ids order) ≡ count p order
unfolding move_all
move_all-count p direction selected [] order = refl
move_all-count p direction selected (id ∷ ids) order =
    move_all-count p direction selected ids _
    ∙ move_at-count p direction selected (index_of id order) order

-- As many ids pass a test after a move as before it: no id is lost, added or doubled.
pub moved_order-count :
    (p : ℕ → Bool) (direction : MoveDirection) (selected order : List ℕ)
    → count p (moved_order direction selected order) ≡ count p order
unfolding moved_order
moved_order-count p direction selected order =
    move_all-count p direction selected (sorted_selected direction selected order) order

-- A test that tells the selected ids from the others, or the others from them.
abbrev pub Separates : List ℕ → (ℕ → Bool) → Type 0
Separates selected p =
    (a b : ℕ)
    → includes selected a ≡ true
    → includes selected b ≡ false
    → ((p a && p b) ≡ false) × ((p b && p a) ≡ false)

swap_up-keep :
    (p : ℕ → Bool) (selected : List ℕ) (i id : ℕ) (neighbor : Option ℕ) (order : List ℕ)
    → Separates selected p
    → includes selected id ≡ true
    → get_elem? i order ≡ neighbor
    → get_elem? (suc i) order ≡ some id
    → keep p (swap_unless_selected selected i neighbor order) ≡ keep p order
unfolding swap_unless_selected
swap_up-keep p selected i id none order s k g h = refl
swap_up-keep p selected i id (some n) order s k g h = elim (Bool-cases (includes selected n)) [
  | inl q ↦ rw q refl
  | inr q ↦ rw q (swap_at-keep p i order n id g h (s id n k q).1)
]

swap_down-keep :
    (p : ℕ → Bool) (selected : List ℕ) (i id : ℕ) (neighbor : Option ℕ) (order : List ℕ)
    → Separates selected p
    → includes selected id ≡ true
    → get_elem? i order ≡ some id
    → get_elem? (suc i) order ≡ neighbor
    → keep p (swap_unless_selected selected i neighbor order) ≡ keep p order
unfolding swap_unless_selected
swap_down-keep p selected i id none order s k g h = refl
swap_down-keep p selected i id (some n) order s k g h = elim (Bool-cases (includes selected n)) [
  | inl q ↦ rw q refl
  | inr q ↦ rw q (swap_at-keep p i order id n g h (s id n k q).0)
]

move_at-keep :
    (p : ℕ → Bool) (direction : MoveDirection) (selected : List ℕ) (id : ℕ) (at : Option ℕ)
    (order : List ℕ)
    → Separates selected p
    → includes selected id ≡ true
    → index_of id order ≡ at
    → keep p (move_at direction selected at order) ≡ keep p order
unfolding move_at
move_at-keep p direction selected id none order s k g = refl
move_at-keep p up selected id (some zero) order s k g = refl
move_at-keep p up selected id (some (suc i)) order s k g =
    swap_up-keep p selected i id _ order s k refl (index_of-get id order (suc i) g)
move_at-keep p down selected id (some i) order s k g =
    swap_down-keep p selected i id _ order s k (index_of-get id order i g) refl

move_all-keep :
    (p : ℕ → Bool) (direction : MoveDirection) (selected ids order : List ℕ)
    → Separates selected p
    → All (λ id. includes selected id ≡ true) ids
    → keep p (move_all direction selected ids order) ≡ keep p order
unfolding move_all
move_all-keep p direction selected [] order s k = refl
move_all-keep p direction selected (id ∷ ids) order s k =
    move_all-keep p direction selected ids _ s k.1
    ∙ move_at-keep p direction selected id _ order s k.0 refl

module _ (P : ℕ → Type 0) (leq : ℕ → ℕ → Bool) where
  insert-All : (a : ℕ) (xs : List ℕ) → P a → All P xs → All P (insert leq a xs)
  insert-All a [] h k = (h, tt)
  insert-All a (x ∷ xs) h k = elim (Bool-cases (leq a x)) [
    | inl q ↦ rw q (h, k)
    | inr q ↦ rw q (k.0, insert-All a xs h k.1)
  ]

  sort-All : (xs : List ℕ) → All P xs → All P (sort leq xs)
  sort-All [] k = tt
  sort-All (x ∷ xs) k = insert-All x (sort leq xs) k.0 (sort-All xs k.1)

reverse-All : (P : ℕ → Type 0) (xs : List ℕ) → All P xs → All P (reverse xs)
reverse-All P [] k = tt
reverse-All P (x ∷ xs) k = All-append_one P (reverse xs) x (reverse-All P xs k.1) k.0

includes-wider :
    (x : ℕ) (xs ys : List ℕ)
    → All (λ id. includes xs id ≡ true) ys
    → All (λ id. includes (x ∷ xs) id ≡ true) ys
includes-wider x xs [] k = tt
includes-wider x xs (y ∷ ys) k = (ground (arith, k.0), includes-wider x xs ys k.1)

includes_self : (xs : List ℕ) → All (λ id. includes xs id ≡ true) xs
includes_self [] = tt
includes_self (x ∷ xs) = (ground arith, includes-wider x xs xs (includes_self xs))

sorted_selected-selected :
    (direction : MoveDirection) (selected order : List ℕ)
    → All (λ id. includes selected id ≡ true) (sorted_selected direction selected order)
sorted_selected-selected up selected order =
    sort-All _ (index_leq order) selected (includes_self selected)
sorted_selected-selected down selected order =
    reverse-All _ _ (sort-All _ (index_leq order) selected (includes_self selected))

-- A move up or down keeps the order of the selected ids among themselves and the order of the
-- others among themselves.
pub moved_order-keep :
    (direction : MoveDirection) (selected order : List ℕ)
    → (keep (includes selected) (moved_order direction selected order)
        ≡ keep (includes selected) order)
      × (keep (λ id. not (includes selected id)) (moved_order direction selected order)
          ≡ keep (λ id. not (includes selected id)) order)
unfolding moved_order
moved_order-keep direction selected order = (
  move_all-keep (includes selected) direction selected _ order (λ a b h k. ground arith)
      (sorted_selected-selected direction selected order),
  move_all-keep (λ id. not (includes selected id)) direction selected _ order
      (λ a b h k. ground arith) (sorted_selected-selected direction selected order),
)
