-- ===== src/Order.antt =====
-- QueueOrderRepository (src/db/queueOrderRepository.ts) with utils/uuidLookup.ts: the effective
-- order of the active rows, and the moves that the dashboard asks for.
pub mod Moves
pub mod Top
pub mod Operations
mod Examples
use rabbit_maximizer.Prelude.{
  ℕ, zero, suc, String, Bool, true, false, not, Option, none, some, List, [], ◌∷◌, ◌++◌, map, ◌==◌,
  ltb, leb, ◌&&◌, str_eq, if◌then◌else◌, keep, find, any, length, is_some,
}
use rabbit_maximizer.Domain.{is_active, is_resolved}
use rabbit_maximizer.Schema.{ReviewQueue, QueueOrder, Db}
use rabbit_maximizer.Store.{
  M, ok, err, ◌>>=◌, ◌>>◌, return, throw, known_request, p2025, record_not_found,
  queue_item_not_pending, orders_item, has_id, create_order, with_prisma_error_handling,
  typed_error,
}

pub data MoveDirection : Type 0 where
  up down : MoveDirection

-- `orderBy` on a nullable column: `nulls: 'last'` for the position, SQLite's nulls first for the id.
abbrev pub id_leq : Option ℕ → Option ℕ → Bool
id_leq none b = true
id_leq (some a) none = false
id_leq (some a) (some b) = leb a b

abbrev pub position_leq : Option ℕ → Option ℕ → Option ℕ → Option ℕ → Bool
position_leq none none i j = id_leq i j
position_leq none (some b) i j = false
position_leq (some a) none i j = true
position_leq (some a) (some b) i j = if a == b then id_leq i j else ltb a b

abbrev pub position_of : Option QueueOrder → Option ℕ
position_of none = none
position_of (some o) = o.position

abbrev pub order_id_of : Option QueueOrder → Option ℕ
order_id_of none = none
order_id_of (some o) = some o.id

-- `include: { queueOrder: true }`.
abbrev pub order_of : List QueueOrder → ReviewQueue → Option QueueOrder
order_of orders r = find (orders_item r.id) orders

abbrev pub row_leq : List QueueOrder → ReviewQueue → ReviewQueue → Bool
row_leq orders r s =
    position_leq (position_of (order_of orders r)) (position_of (order_of orders s))
      (order_id_of (order_of orders r)) (order_id_of (order_of orders s))

module _ {A : Type 0} (leq : A → A → Bool) where
  abbrev pub insert : A → List A → List A
  insert a [] = a ∷ []
  insert a (x ∷ xs) = if leq a x then a ∷ x ∷ xs else x ∷ insert a xs

  -- Rows with equal keys stay in the order in which the table holds them.
  abbrev pub sort : List A → List A
  sort [] = []
  sort (x ∷ xs) = insert x (sort xs)

abbrev pub is_in_effective_order : ReviewQueue → Bool
is_in_effective_order r = is_active r.status

unfoldable pub read_effective_order : Db → List ReviewQueue
read_effective_order db =
    keep (λ r. is_some r.pull_request_id)
      (sort (row_leq db.queue_order) (keep is_in_effective_order db.review_queue))

-- `new Map(items.map((item) => [item.uuid, item.id])).get(uuid)`: a later entry replaces an earlier.
abbrev pub uuid_to_id : List ReviewQueue → String → Option ℕ
uuid_to_id [] uuid = none
uuid_to_id (x ∷ xs) uuid = elim (uuid_to_id xs uuid) [
  | some id ↦ some id
  | none ↦ if str_eq x.uuid uuid then some x.id else none
]

abbrev pub resolve_uuids_to_ids : List ReviewQueue → List String → List ℕ
resolve_uuids_to_ids items [] = []
resolve_uuids_to_ids items (u ∷ us) = elim (uuid_to_id items u) [
  | none ↦ resolve_uuids_to_ids items us
  | some id ↦ id ∷ resolve_uuids_to_ids items us
]

abbrev pub find_by_uuid : List ReviewQueue → String → Option ReviewQueue
find_by_uuid items uuid = find (λ r. str_eq r.uuid uuid) items

-- `[...new Set(uuids)]`.
abbrev pub distinct : List String → List String
distinct [] = []
distinct (u ∷ us) = u ∷ keep (λ v. not (str_eq v u)) (distinct us)

-- `indexOf`; -1 is `none`.
abbrev pub index_of : ℕ → List ℕ → Option ℕ
index_of id [] = none
index_of id (x ∷ xs) =
    if x == id then some 0 else elim (index_of id xs) [ none ↦ none | some i ↦ some (suc i) ]

abbrev pub get_elem? {ℓ} : {A : Type ℓ} → ℕ → List A → Option A
get_elem? i [] = none
get_elem? zero (x ∷ xs) = some x
get_elem? (suc i) (x ∷ xs) = get_elem? i xs

abbrev pub includes : List ℕ → ℕ → Bool
includes xs id = any (λ x. x == id) xs

-- The exchange of the elements at `i` and `i + 1`.
abbrev pub swap_at : ℕ → List ℕ → List ℕ
swap_at i [] = []
swap_at i (x ∷ []) = x ∷ []
swap_at zero (x ∷ y ∷ xs) = y ∷ x ∷ xs
swap_at (suc i) (x ∷ y ∷ xs) = x ∷ swap_at i (y ∷ xs)

-- The exchange of the elements at `i` and `i + 1`, unless the neighbour is missing or selected too.
unfoldable pub swap_unless_selected : List ℕ → ℕ → Option ℕ → List ℕ → List ℕ
swap_unless_selected selected i none order = order
swap_unless_selected selected i (some neighbor) order =
    if includes selected neighbor then order else swap_at i order

-- One turn of the loop of `moveItems` on the id found at `idx`.
unfoldable pub move_at : MoveDirection → List ℕ → Option ℕ → List ℕ → List ℕ
unfolding swap_unless_selected
move_at direction selected none order = order
move_at up selected (some zero) order = order
move_at up selected (some (suc i)) order = swap_unless_selected selected i (get_elem? i order) order
move_at down selected (some i) order =
    swap_unless_selected selected i (get_elem? (suc i) order) order

unfoldable pub move_all : MoveDirection → List ℕ → List ℕ → List ℕ → List ℕ
unfolding move_at
move_all direction selected [] order = order
move_all direction selected (id ∷ ids) order =
    move_all direction selected ids (move_at direction selected (index_of id order) order)

abbrev pub index_leq : List ℕ → ℕ → ℕ → Bool
index_leq order a b = id_leq (index_of a order) (index_of b order)

abbrev pub reverse : List ℕ → List ℕ
reverse [] = []
reverse (x ∷ xs) = reverse xs ++ x ∷ []

abbrev pub sorted_selected : MoveDirection → List ℕ → List ℕ → List ℕ
sorted_selected up selected order = sort (index_leq order) selected
sorted_selected down selected order = reverse (sort (index_leq order) selected)

-- The order of ids that `moveItems` computes.
unfoldable pub moved_order : MoveDirection → List ℕ → List ℕ → List ℕ
unfolding move_all
moved_order direction selected order =
    move_all direction selected (sorted_selected direction selected order) order

abbrev pub to_top : ℕ → List ℕ → List ℕ
to_top id order = id ∷ keep (λ oid. not (oid == id)) order
