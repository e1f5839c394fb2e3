-- ===== src/Order/Operations.antt =====
-- QueueOrderRepository.moveItems, moveToTop and normalizePositionsToOrder.
use rabbit_maximizer.Prelude.{
  ℕ, suc, String, Bool, Option, none, some, List, [], ◌∷◌, map, ◌==◌, if◌then◌else◌, keep, find,
  any,
}
use rabbit_maximizer.Domain.{is_resolved}
use rabbit_maximizer.Schema.{ReviewQueue, QueueOrder}
use rabbit_maximizer.Store.{
  M, ok, err, ◌>>=◌, ◌>>◌, return, throw, known_request, p2025, record_not_found,
  queue_item_not_pending, has_id, create_order, with_prisma_error_handling,
}
use rabbit_maximizer.Order.{
  MoveDirection, order_of, is_in_effective_order, read_effective_order, resolve_uuids_to_ids,
  find_by_uuid, distinct, includes, moved_order, to_top,
}

abbrev pub set_position : ℕ → (QueueOrder → Bool) → Option ℕ → List QueueOrder → List QueueOrder
set_position now p position =
    map (λ o. if p o then record o { position = position; updated_at = now } else o)

abbrev pub has_order_id : ℕ → QueueOrder → Bool
has_order_id i o = o.id == i

-- `qoIds`: the order rows of the active items.
abbrev pub order_ids : List QueueOrder → List ReviewQueue → List ℕ
order_ids orders [] = []
order_ids orders (r ∷ rs) = elim (order_of orders r) [
  | none ↦ order_ids orders rs
  | some o ↦ o.id ∷ order_ids orders rs
]

-- `queueOrder.update` by id.
unfoldable pub update_order : ℕ → ℕ → ℕ → M (Unit {0})
update_order now id position db =
    if any (has_order_id id) db.queue_order
    then ok (
      tt,
      record db { queue_order = set_position now (has_order_id id) (some position) db.queue_order },
    )
    else err (known_request p2025)

-- The position of one item, by the order row that it had when the loop began.
unfoldable pub assign_position : ℕ → ℕ → ℕ → Option QueueOrder → M (Unit {0})
unfolding update_order
assign_position now id position none = create_order now id (some position)
assign_position now id position (some o) =
    with_prisma_error_handling (update_order now o.id position)

unfoldable pub assign_item : ℕ → List QueueOrder → ℕ → Option ReviewQueue → M (Unit {0})
unfolding assign_position
assign_item now orders position none = return tt
assign_item now orders position (some r) = assign_position now r.id position (order_of orders r)

-- The loop of `normalizePositionsToOrder` from the index `i` on.
unfoldable pub assign_positions : ℕ → List QueueOrder → List ReviewQueue → ℕ → List ℕ → M (Unit {0})
unfolding assign_item
assign_positions now orders items i [] = return tt
assign_positions now orders items i (id ∷ ids) =
    assign_item now orders (suc i) (find (has_id id) items)
    >> assign_positions now orders items (suc i) ids

unfoldable pub normalize_positions_to_order : ℕ → List ℕ → M (Unit {0})
normalize_positions_to_order now ordered_ids db =
    let items = keep is_in_effective_order db.review_queue in
    assign_positions now db.queue_order items 0 ordered_ids (record db {
      queue_order =
          set_position now (λ o. includes (order_ids db.queue_order items) o.id) none
            db.queue_order;
    })

abbrev pub ids_of : List ReviewQueue → List ℕ
ids_of = map (λ r. r.id)

unfoldable pub move_selected : ℕ → MoveDirection → List ReviewQueue → List ℕ → M (List ReviewQueue)
move_selected now direction ordered [] db = ok (ordered, db)
move_selected now direction ordered (id ∷ ids) db =
    (normalize_positions_to_order now (moved_order direction (id ∷ ids) (ids_of ordered))
        >>= λ _ db'. ok (read_effective_order db', db'))
      db

unfoldable pub move_items : ℕ → List String → MoveDirection → M (List ReviewQueue)
unfolding move_selected
move_items now uuids direction db =
    let ordered = read_effective_order db in
    move_selected now direction ordered (resolve_uuids_to_ids ordered (distinct uuids)) db

-- The item that is moved, read back; where the source asserts that it is there, `none` is no error.
unfoldable pub move_found :
    ℕ → String → List ReviewQueue → Option ReviewQueue → M (Option ReviewQueue)
move_found now uuid ordered none = throw record_not_found
move_found now uuid ordered (some item) =
    normalize_positions_to_order now (to_top item.id (ids_of ordered)) >>= λ _ db'.
    ok (find_by_uuid (read_effective_order db') uuid, db')

unfoldable pub move_raw_to_top : ℕ → String → Option ReviewQueue → M (Option ReviewQueue)
unfolding move_found
move_raw_to_top now uuid none db = throw record_not_found db
move_raw_to_top now uuid (some raw_item) db =
    if is_resolved raw_item.status
    then err queue_item_not_pending
    else move_found now uuid (read_effective_order db) (find_by_uuid (read_effective_order db) uuid)
        db

unfoldable pub move_to_top : ℕ → String → M (Option ReviewQueue)
unfolding move_raw_to_top
move_to_top now uuid db = move_raw_to_top now uuid (find_by_uuid db.review_queue uuid) db
