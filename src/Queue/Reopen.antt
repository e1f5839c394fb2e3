-- ===== src/Queue/Reopen.antt =====
-- Rows that become pending again, and the methods of `Marks` with an error path.
use rabbit_maximizer.Prelude.{
  ℕ, String, ◌≤◌, ◌≡◌, refl, ap, subst, Bool, true, false, Option, none, some, List, [], ◌∷◌, ◌++◌,
  Memᴰ, ◌==◌, if◌then◌else◌, All, any, any-count, count, count-append_one, count-map_mono,
  count-map-le_of, any-append_one, Bool-cases, inl, inr, arith, ==_iff,
}
use rabbit_maximizer.Domain.{CommentId, Resolution}
use rabbit_maximizer.Schema.{ReviewQueue, QueueOrder, Db, for_pr, unique_ok}
use rabbit_maximizer.Store.{
  Env, ◌>>=◌, return, Error, change, has_id, orders_item, update, update_many, create_order,
  order_row, with_prisma_error_handling, unique_constraint_violation, record_not_found,
}
use rabbit_maximizer.Queue.Rules.{Holds, failed, done, Holds-bind, Holds-typed, Holds-catch}
use rabbit_maximizer.Queue.WellFormed.{
  active_for, IsOrdered, IsSound, WellFormed, IsQuiet, change-parts, All-same_id, count-has_id-le,
}
use rabbit_maximizer.Queue.Marks.{
  resolve_row, reopen_row, ReopenStaleRetriggeredOptions, ensure_order, still_retriggered,
  reopen_stale_retriggered, mark_resolved_by_uuid, CommentDetails, not_found_is_undefined,
  resolve_collided, reschedule_conflict, reschedule_row, reschedule,
}
use rabbit_maximizer.Queue.Keeps.{
  Anything, All-Anything, resolve_row-IsQuiet, IsMinor-IsQuiet, update-WellFormed,
  update_many-WellFormed,
}

-- An order row more: its item had none.
module _ (o : QueueOrder) (orders : List QueueOrder) where
  pub orders_keep :
      (rows : List ReviewQueue)
      → All (IsOrdered orders) rows
      → All (IsOrdered (orders ++ o ∷ [])) rows
  orders_keep [] h = tt
  orders_keep (r ∷ rows) h = (any-append_one (orders_item r.id) orders o h.0, orders_keep rows h.1)

  pub orders_single :
      any (orders_item o.queue_item_id) orders ≡ false
      → ((i : ℕ) → count (orders_item i) orders ≤ 1)
      → (i : ℕ) → count (orders_item i) (orders ++ o ∷ []) ≤ 1
  orders_single e h i = elim (Bool-cases (o.queue_item_id == i)) [
    | inl q ↦ omega (arith, count-append_one (orders_item i) orders o, none_yet q, ap weight q)
    | inr q ↦ omega (arith, count-append_one (orders_item i) orders o, h i, ap weight q)
  ]
    where
      weight : Bool → ℕ
      weight b = if b then 1 else 0

      none_yet : (o.queue_item_id == i) ≡ true → count (orders_item i) orders ≡ 0
      none_yet q =
          subst (λ k. count (orders_item k) orders ≡ 0) ((==_iff o.queue_item_id i).0 q)
            (any-count (orders_item o.queue_item_id) orders e)

pub ensure_order-IsSound :
    (ex : Option ℕ) (now item : ℕ) (db : Db)
    → IsSound ex db
    → Holds
        (λ _ db'. IsSound ex db' × (db'.review_queue ≡ db.review_queue))
        (ensure_order now item db)
unfolding ensure_order create_order
ensure_order-IsSound ex now item db v = elim (Bool-cases (any (orders_item item) db.queue_order)) [
  | inl e ↦ rw e (done _ _ (v, refl))
  | inr e ↦ rw e (
      done _ _ (
        record {
          table = v.table;
          active = v.active;
          stamped = v.stamped;
          ordered =
              orders_keep (order_row now item none db.next_order_id) db.queue_order _ v.ordered;
          fresh = v.fresh;
          single =
              orders_single (order_row now item none db.next_order_id) db.queue_order e v.single;
        },
        refl,
      ))
]

-- The row at hand was the only one of its pull request that could be active.
abbrev pub IsIdle : Option ℕ → ReviewQueue → List ReviewQueue → Type 0
IsIdle ex x rows =
    (repo : String) (pr : ℕ) → for_pr repo pr x ≡ true → count (active_for ex repo pr) rows ≡ 0

pub reopen-IsSound :
    (ex : Option ℕ) (now : ℕ) (opts : ReopenStaleRetriggeredOptions) (x : ReviewQueue) (db : Db)
    → Memᴰ x db.review_queue
    → IsIdle ex x db.review_queue
    → unique_ok (change (has_id x.id) (reopen_row now opts) db.review_queue) ≡ true
    → IsSound ex db
    → IsSound ex
        (record db { review_queue = change (has_id x.id) (reopen_row now opts) db.review_queue })
reopen-IsSound ex now opts x db m idle u v =
    change-parts (has_id x.id) (reopen_row now opts) ex ex db (λ r. refl) (λ r k e. absurd (cc)) u v
      λ repo pr. elim (Bool-cases (for_pr repo pr x)) [
        | inl e ↦ omega (
          arith,
          count-map-le_of Anything (active_for ex repo pr) (active_for ex repo pr) (has_id x.id)
              (λ r. if has_id x.id r then reopen_row now opts r else r) db.review_queue
              (λ r h k. ground arith) (All-Anything _),
          count-has_id-le x.id db.review_queue v.table,
          idle repo pr e,
        )
        | inr e ↦ omega (
          arith,
          count-map_mono (λ r. has_id x.id r ≡ true → for_pr repo pr r ≡ false)
              (active_for ex repo pr) (active_for ex repo pr)
              (λ r. if has_id x.id r then reopen_row now opts r else r) db.review_queue
              (λ r h k. ground (arith, h))
              (All-same_id (λ r. for_pr repo pr r ≡ false) db.review_queue v.table m e),
          v.active repo pr,
        )
      ]

-- A retriggered row was active before it became pending.
reopen_retriggered-IsQuiet :
    (id now : ℕ) (opts : ReopenStaleRetriggeredOptions)
    → IsQuiet Anything none none (still_retriggered id) (reopen_row now opts)
reopen_retriggered-IsQuiet id now opts = record {
  same_id = λ r. refl;
  stamps = λ r k e. absurd (cc);
  quiet = λ r h repo pr e. ground arith;
}

pub reopen_stale_retriggered-WellFormed :
    (env : Env) (id : ℕ) (opts : ReopenStaleRetriggeredOptions) (db : Db)
    → WellFormed db
    → Holds (λ _. WellFormed) (reopen_stale_retriggered env id opts db)
unfolding reopen_stale_retriggered
reopen_stale_retriggered-WellFormed env id opts db v =
    Holds-bind (update_many (still_retriggered id) (reopen_row env.now opts)) _ db
      (update_many-WellFormed Anything _ _ db (reopen_retriggered-IsQuiet id env.now opts)
        (All-Anything _) v)
      λ n db' w. elim (Bool-cases (n == 0)) [
        | inl e ↦ rw e (done _ _ w)
        | inr e ↦ rw e (
            Holds-bind (ensure_order env.now id) _ db' (ensure_order-IsSound none env.now id db' w)
              (λ _ db'' k. done _ _ k.0))
      ]

not_found_is_undefined-WellFormed :
    (env : Env) (e : Error) (db : Db)
    → WellFormed db
    → Holds (λ _. WellFormed) (not_found_is_undefined env e db)
unfolding not_found_is_undefined
not_found_is_undefined-WellFormed env record_not_found db v = done _ _ v
not_found_is_undefined-WellFormed env _ db v = failed _

pub mark_resolved_by_uuid-WellFormed :
    (env : Env) (uuid : String) (resolution : Resolution) (db : Db)
    → WellFormed db
    → Holds (λ _. WellFormed) (mark_resolved_by_uuid env uuid resolution db)
unfolding mark_resolved_by_uuid
mark_resolved_by_uuid-WellFormed env uuid resolution db v =
    Holds-catch
      (with_prisma_error_handling (update _ (resolve_row env.now resolution)) >>= λ row.
        return (some row))
      (not_found_is_undefined env) db
      (Holds-bind (with_prisma_error_handling (update _ _)) _ db
        (Holds-typed _ db (
          update-WellFormed Anything _ _ db (resolve_row-IsQuiet none _ _ resolution)
            (All-Anything _) v))
        (λ r db' k. done _ _ k))
      (λ e _. not_found_is_undefined-WellFormed env e db v)

resolve_collided-WellFormed :
    (env : Env) (id : ℕ) (e : Error) (existing : Option ReviewQueue) (db : Db)
    → WellFormed db
    → Holds (λ _. WellFormed) (resolve_collided env id e existing db)
unfolding resolve_collided
resolve_collided-WellFormed env id e none db v = failed _
resolve_collided-WellFormed env id e (some existing) db v =
    Holds-bind (update _ _) _ db
      (update-WellFormed Anything _ _ db (resolve_row-IsQuiet none _ _ _) (All-Anything _) v)
      (λ r db' k. done _ _ k)

reschedule_conflict-WellFormed :
    (env : Env) (id : ℕ) (comment : CommentId) (e : Error) (db : Db)
    → WellFormed db
    → Holds (λ _. WellFormed) (reschedule_conflict env id comment e db)
unfolding reschedule_conflict
reschedule_conflict-WellFormed env id comment unique_constraint_violation db v =
    resolve_collided-WellFormed env id _ _ db v
reschedule_conflict-WellFormed env id comment _ db v = failed _

pub reschedule-WellFormed :
    (env : Env) (id : ℕ) (source : CommentDetails) (original_url : Option String) (db : Db)
    → WellFormed db
    → Holds (λ _. WellFormed) (reschedule env id source original_url db)
unfolding reschedule
reschedule-WellFormed env id source original_url db v =
    Holds-catch
      (with_prisma_error_handling (update (has_id id) (reschedule_row env source original_url)))
      (reschedule_conflict env id source.comment_id) db
      (Holds-typed (update _ _) db (
        update-WellFormed Anything _ _ db (IsMinor-IsQuiet none _ _ (λ r. refl)) (All-Anything _)
          v))
      (λ e _. reschedule_conflict-WellFormed env id source.comment_id e db v)
