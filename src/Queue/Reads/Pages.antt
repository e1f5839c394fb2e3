-- ===== src/Queue/Reads/Pages.antt =====
-- The pages of the reads fit together, and the counts by status are those of the whole table.
use rabbit_maximizer.Prelude.{
  ℕ, ◌+◌, ◌≡◌, refl, sym, List, [], ◌∷◌, ◌++◌, leb, keep, count, length, if◌then◌else◌, arith,
}
use rabbit_maximizer.Domain.{
  QueueStatus, pending, retriggered, resolved, is_pending, is_retriggered, is_resolved,
}
use rabbit_maximizer.Schema.{ReviewQueue, Db}
use rabbit_maximizer.Order.{sort}
use rabbit_maximizer.Github.{take, drop}
use rabbit_maximizer.Github.Pages.{drop-add}
use rabbit_maximizer.Github.Search.Limits.{take-add}
use rabbit_maximizer.Queue.Reads.{
  by_id, last_updated_first, get_activity_list, get_all, get_counts_by_status,
}

take-pages :
    (skip size more : ℕ) (rows : List ReviewQueue)
    → take size (drop skip rows) ++ take more (drop (skip + size) rows)
      ≡ take (size + more) (drop skip rows)
take-pages skip size more rows =
    rw (drop-add skip size rows) (sym (take-add size more (drop skip rows)))

one_status :
    (s : QueueStatus)
    → (if is_pending s then 1 else 0)
        + (if is_retriggered s then 1 else 0)
        + (if is_resolved s then 1 else 0)
      ≡ 1
one_status pending = refl
one_status retriggered = refl
one_status resolved = refl

counts-total :
    (rows : List ReviewQueue)
    → count (λ r. is_pending r.status) rows
        + count (λ r. is_retriggered r.status) rows
        + count (λ r. is_resolved r.status) rows
      ≡ length rows
counts-total [] = refl
counts-total (r ∷ rows) = omega (arith, counts-total rows, one_status r.status)

pub reads-pages :
    (since skip size more : ℕ) (db : Db)
    → ((get_all skip size db).items ++ (get_all (skip + size) more db).items
        ≡ (get_all skip (size + more) db).items)
      × ((get_activity_list since skip size db).items
            ++ (get_activity_list since (skip + size) more db).items
          ≡ (get_activity_list since skip (size + more) db).items)
      × ((get_counts_by_status db).pending_count
            + (get_counts_by_status db).retriggered_count
            + (get_counts_by_status db).resolved_count
          ≡ (get_all skip size db).total)
unfolding get_all get_activity_list get_counts_by_status
reads-pages since skip size more db = (
  take-pages skip size more (sort by_id db.review_queue),
  take-pages skip size more
      (sort last_updated_first (keep (λ r. leb since r.updated_at) db.review_queue)),
  counts-total db.review_queue,
)
