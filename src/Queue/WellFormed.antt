-- ===== src/Queue/WellFormed.antt =====
-- What holds of the queue tables between two transactions, and the changes of rows that keep it.
use rabbit_maximizer.Prelude.{
  ℕ, String, ◌≤◌, ◌<◌, ◌≡◌, sym, subst, Bool, true, false, Option, none, some, List, Memᴰ, ◌&&◌,
  eq_iff, if◌then◌else◌, All, All-map, any, count, count-map_mono, clash_free-count, is_some,
  Bool-cases, inl, inr, arith, All-of_count-le_one,
}
use rabbit_maximizer.Domain.{is_active, is_resolved, is_pending}
use rabbit_maximizer.Schema.{ReviewQueue, QueueOrder, Db, clash, for_pr, unique_ok}
use rabbit_maximizer.Store.{change, has_id, orders_item}

-- The row is an active one of the pull request; the row of an exempt id does not count.
abbrev pub exempt : Option ℕ → ReviewQueue → Bool
exempt none r = false
exempt (some i) r = has_id i r

abbrev pub active_for : Option ℕ → String → ℕ → ReviewQueue → Bool
active_for ex repo pr r = if exempt ex r then false else is_active r.status && for_pr repo pr r

-- A resolved row says when and how it was resolved.
abbrev pub IsStamped : ReviewQueue → Type 0
IsStamped r =
    is_resolved r.status ≡ true → (is_some r.resolved_at ≡ true) × (is_some r.resolution ≡ true)

abbrev pub IsOrdered : List QueueOrder → ReviewQueue → Type 0
IsOrdered orders r = any (orders_item r.id) orders ≡ true

-- `active`: a pull request has at most one active row, the row of the exempt id left out.
pub record IsSound (ex : Option ℕ) (db : Db) : Type 0 where
  pub table : unique_ok db.review_queue ≡ true
  pub active : (repo : String) (pr : ℕ) → count (active_for ex repo pr) db.review_queue ≤ 1
  pub stamped : All IsStamped db.review_queue
  pub ordered : All (IsOrdered db.queue_order) db.review_queue
  pub fresh : All (λ r. r.id < db.next_id) db.review_queue
  pub single : (i : ℕ) → count (orders_item i) db.queue_order ≤ 1

abbrev pub WellFormed : Db → Type 0
WellFormed = IsSound none

-- A change of the rows that pass `p`, of which `H` is known, that makes none active.
pub record IsQuiet (H : ReviewQueue → Type 0) (ex ex' : Option ℕ) (p : ReviewQueue → Bool)
    (f : ReviewQueue → ReviewQueue) : Type 0 where
  pub same_id : (r : ReviewQueue) → (f r).id ≡ r.id
  pub stamps : (r : ReviewQueue) → IsStamped r → IsStamped (f r)
  pub quiet :
      (r : ReviewQueue)
      → H r
      → (repo : String) (pr : ℕ) → active_for ex' repo pr (if p r then f r else r) ≡ true
      → active_for ex repo pr r ≡ true

module _ (p : ReviewQueue → Bool) (f : ReviewQueue → ReviewQueue) where
  abbrev changed : ReviewQueue → ReviewQueue
  changed r = if p r then f r else r

  changed_keeps :
      (P : ReviewQueue → Type 0)
      → ((r : ReviewQueue) → P r → P (f r))
      → (r : ReviewQueue) → P r
      → P (changed r)
  changed_keeps P h r k = elim (Bool-cases (p r)) [ inl e ↦ rw e (h r k) | inr e ↦ rw e k ]

  -- All of the invariant but the part on active rows.
  pub change-parts :
      (ex ex' : Option ℕ) (db : Db)
      → ((r : ReviewQueue) → (f r).id ≡ r.id)
      → ((r : ReviewQueue) → IsStamped r → IsStamped (f r))
      → unique_ok (change p f db.review_queue) ≡ true
      → IsSound ex db
      → ((repo : String) (pr : ℕ) → count (active_for ex' repo pr) (change p f db.review_queue) ≤ 1)
      → IsSound ex' (record db { review_queue = change p f db.review_queue })
  change-parts ex ex' db same stamps u v a = record {
    table = u;
    active = a;
    stamped = All-map IsStamped changed db.review_queue (changed_keeps IsStamped stamps) v.stamped;
    ordered =
        All-map (IsOrdered db.queue_order) changed db.review_queue
          (changed_keeps (IsOrdered db.queue_order)
            (λ r k. subst (λ i. any (orders_item i) db.queue_order ≡ true) (sym (same r)) k))
          v.ordered;
    fresh =
        All-map (λ r. r.id < db.next_id) changed db.review_queue
          (changed_keeps (λ r. r.id < db.next_id) (λ r k. rw (same r) k)) v.fresh;
    single = v.single;
  }

  pub change-IsSound :
      (H : ReviewQueue → Type 0) (ex ex' : Option ℕ) (db : Db)
      → IsQuiet H ex ex' p f
      → All H db.review_queue
      → unique_ok (change p f db.review_queue) ≡ true
      → IsSound ex db
      → IsSound ex' (record db { review_queue = change p f db.review_queue })
  change-IsSound H ex ex' db q h u v = change-parts ex ex' db q.same_id q.stamps u v λ repo pr.
      omega (
        arith,
        count-map_mono H (active_for ex' repo pr) (active_for ex repo pr) changed db.review_queue
            (λ r k. q.quiet r k repo pr) h,
        v.active repo pr,
      )

-- The primary key and the other unique columns, as counts.
pub count-has_id-le :
    (i : ℕ) (rows : List ReviewQueue) → unique_ok rows ≡ true → count (has_id i) rows ≤ 1
unfolding unique_ok
count-has_id-le i rows u = clash_free-count clash (has_id i) rows (λ a b h k. ground arith) u

-- What is known of a row of the table is known of every row with its id.
pub All-same_id :
    (Q : ReviewQueue → Type 0) (rows : List ReviewQueue) {r : ReviewQueue}
    → unique_ok rows ≡ true
    → Memᴰ r rows
    → Q r
    → All (λ s. has_id r.id s ≡ true → Q s) rows
All-same_id Q rows {r = r} u m k =
    All-of_count-le_one Q (has_id r.id) rows (count-has_id-le r.id rows u) m (ground arith) k

pub count-pending-le :
    (repo : String) (pr : ℕ) (rows : List ReviewQueue)
    → unique_ok rows ≡ true
    → count (λ r. for_pr repo pr r && is_pending r.status) rows ≤ 1
unfolding unique_ok
count-pending-le repo pr rows u =
    clash_free-count clash (λ r. for_pr repo pr r && is_pending r.status) rows
      (λ a b h k. ground (
        arith,
        eq_iff a.repo_full_name repo,
        eq_iff b.repo_full_name repo,
        eq_iff a.repo_full_name b.repo_full_name,
      ))
      u
