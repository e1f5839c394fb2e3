-- ===== src/Queue/Reads.antt =====
-- The reads of QueueRepository (src/db/queueRepository.ts), which the routes and the scheduler use.
pub mod Pages
use rabbit_maximizer.Prelude.{
  ℕ, Bool, true, false, Option, none, some, List, [], ◌∷◌, ◌&&◌, leb, keep, find, count, length,
}
use rabbit_maximizer.Domain.{
  CommentId, same_comment, Resolution, skipped, is_pending, is_retriggered, is_resolved,
}
use rabbit_maximizer.Schema.{ReviewQueue, Db}
use rabbit_maximizer.Order.{sort}
use rabbit_maximizer.Github.{take, drop}

abbrev pub by_id : ReviewQueue → ReviewQueue → Bool
by_id r s = leb r.id s.id

abbrev pub last_updated_first : ReviewQueue → ReviewQueue → Bool
last_updated_first r s = leb s.updated_at r.updated_at

abbrev pub last_created_first : ReviewQueue → ReviewQueue → Bool
last_created_first r s = leb s.created_at r.created_at

abbrev pub head_row : List ReviewQueue → Option ReviewQueue
head_row [] = none
head_row (r ∷ rows) = some r

pub record PaginatedResult : Type 0 where
  pub items : List ReviewQueue
  pub total : ℕ

-- No two rows have one source comment.
unfoldable pub find_by_source_comment_id : CommentId → Db → Option ReviewQueue
find_by_source_comment_id id db = find (λ r. same_comment r.source_comment_id id) db.review_queue

unfoldable pub get_pending_queue : Db → List ReviewQueue
get_pending_queue db = sort by_id (keep (λ r. is_pending r.status) db.review_queue)

unfoldable pub get_activity_list : ℕ → ℕ → ℕ → Db → PaginatedResult
get_activity_list since skip size db = record {
  items =
      take size
        (drop skip (sort last_updated_first (keep (λ r. leb since r.updated_at) db.review_queue)));
  total = count (λ r. leb since r.updated_at) db.review_queue;
}

unfoldable pub get_oldest_pending : Db → Option ReviewQueue
get_oldest_pending db = head_row (sort by_id (keep (λ r. is_pending r.status) db.review_queue))

unfoldable pub get_all : ℕ → ℕ → Db → PaginatedResult
get_all skip size db = record {
  items = take size (drop skip (sort by_id db.review_queue));
  total = length db.review_queue;
}

-- A status that no row has counts 0.
pub record CountsByStatus : Type 0 where
  pub pending_count : ℕ
  pub retriggered_count : ℕ
  pub resolved_count : ℕ

unfoldable pub get_counts_by_status : Db → CountsByStatus
get_counts_by_status db = record {
  pending_count = count (λ r. is_pending r.status) db.review_queue;
  retriggered_count = count (λ r. is_retriggered r.status) db.review_queue;
  resolved_count = count (λ r. is_resolved r.status) db.review_queue;
}

abbrev pub max_skipped_items : ℕ
max_skipped_items = 50

abbrev pub is_skipped_resolution : Option Resolution → Bool
is_skipped_resolution (some skipped) = true
is_skipped_resolution _ = false

abbrev pub is_skipped : ReviewQueue → Bool
is_skipped r = is_resolved r.status && is_skipped_resolution r.resolution

unfoldable pub get_skipped_items : Db → List ReviewQueue
get_skipped_items db =
    take max_skipped_items (sort last_created_first (keep is_skipped db.review_queue))
