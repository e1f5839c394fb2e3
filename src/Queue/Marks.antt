-- ===== src/Queue/Marks.antt =====
-- The methods of QueueRepository that change one row, or one status, of `review_queue`.
use rabbit_maximizer.Prelude.{
  ℕ, ◌+◌, ◌-◌, String, Bool, true, false, Option, none, some, ◌==◌, ◌&&◌, ltb, str_eq, opt_str_eq,
  if◌then◌else◌, any,
}
use rabbit_maximizer.Domain.{
  pending, retriggered, resolved, Resolution, review_completed, failed, SkipReason, CommentId,
  same_comment, is_pending, is_retriggered, is_resolved,
}
use rabbit_maximizer.Schema.{ReviewQueue}
use rabbit_maximizer.Store.{
  Env, M, ◌>>=◌, ◌>>◌, return, throw, catch, Error, unique_constraint_violation, record_not_found,
  with_prisma_error_handling, update, update_many, create_order, has_id, orders_item,
}

-- `undefined` in an update leaves the column as it is.
abbrev pub or_keep : Option String → Option String → Option String
or_keep none old = old
or_keep (some v) old = some v

-- `data: { status: resolved, resolution, resolved_at: new Date() }`.
abbrev pub resolve_row : ℕ → Resolution → ReviewQueue → ReviewQueue
resolve_row now resolution r = record r {
  status = resolved;
  resolution = some resolution;
  resolved_at = some now;
  updated_at = now;
}

pub record ReopenStaleRetriggeredOptions : Type 0 where
  pub pr_title : String
  pub coderabbit_run_id : Option String
  pub cooldown_until : Option ℕ

-- The data with which a row becomes pending again; `attempts` is not among it.
abbrev pub reopen_row : ℕ → ReopenStaleRetriggeredOptions → ReviewQueue → ReviewQueue
reopen_row now opts r = record r {
  status = pending;
  resolution = none;
  resolved_at = none;
  pr_title = opts.pr_title;
  source_comment_run_id = opts.coderabbit_run_id;
  cooldown_until = opts.cooldown_until;
  last_skipped_at = none;
  last_skip_reason = none;
  retrigger_skip_count = 0;
  updated_at = now;
}

-- `findUnique` of the item's order row, and `create` where it is missing.
unfoldable pub ensure_order : ℕ → ℕ → M (Unit {0})
unfolding create_order
ensure_order now item db =
    if any (orders_item item) db.queue_order then ok_unit db else create_order now item none db
  where
    ok_unit : M (Unit {0})
    ok_unit = return tt

-- `where: { id, status: retriggered }`.
abbrev pub still_retriggered : ℕ → ReviewQueue → Bool
still_retriggered id r = has_id id r && is_retriggered r.status

pub record CommentDetails : Type 0 where
  pub comment_id : CommentId
  pub comment_url : String
  pub coderabbit_run_id : Option String

-- `{ lt: cutoff }` on a nullable date: a null passes no comparison.
abbrev pub dated_before : ℕ → Option ℕ → Bool
dated_before cutoff none = false
dated_before cutoff (some t) = ltb t cutoff

module _ (env : Env) where
  open env use {now, find_first}

  unfoldable pub mark_retriggered : ℕ → ℕ → String → Option String → Option String → M ReviewQueue
  mark_retriggered id cooldown_until retrigger_comment_url coderabbit_run_id run_id =
      with_prisma_error_handling (
        update (has_id id) λ r. record r {
          status = retriggered;
          retriggered_at = some now;
          retrigger_comment_url = some retrigger_comment_url;
          run_id = or_keep run_id r.run_id;
          source_comment_run_id = or_keep coderabbit_run_id r.source_comment_run_id;
          cooldown_until = some cooldown_until;
          updated_at = now;
        })

  unfoldable pub mark_retrigger_skipped : ℕ → SkipReason → M Bool
  mark_retrigger_skipped id reason = do
    count ←
        update_many (λ r. has_id id r && is_pending r.status)
          λ r. record r {
            last_skipped_at = some now;
            last_skip_reason = some reason;
            retrigger_skip_count = r.retrigger_skip_count + 1;
            updated_at = now;
          }
    return (count == 1)

  unfoldable pub mark_resolved : ℕ → Resolution → M ReviewQueue
  mark_resolved id resolution =
      with_prisma_error_handling (update (has_id id) (resolve_row now resolution))

  unfoldable pub mark_resolved_if_still_retriggered : ℕ → Resolution → M Bool
  mark_resolved_if_still_retriggered id resolution = do
    count ← update_many (still_retriggered id) (resolve_row now resolution)
    return (count == 1)

  unfoldable pub adopt_run_if_still_retriggered : ℕ → Option String → String → M Bool
  adopt_run_if_still_retriggered id expected_run_id adopted_run_id = do
    count ←
        update_many
          (λ r. still_retriggered id r && opt_str_eq r.source_comment_run_id expected_run_id)
          λ r. record r {
            source_comment_run_id = some adopted_run_id;
            retriggered_at = some now;
            updated_at = now;
          }
    return (count == 1)

  reopened : ℕ → ℕ → M Bool
  unfolding ensure_order
  reopened id count = if count == 0 then return false else (ensure_order now id >> return true)

  unfoldable pub reopen_stale_retriggered : ℕ → ReopenStaleRetriggeredOptions → M Bool
  unfolding reopened
  reopen_stale_retriggered id opts = do
    count ← update_many (still_retriggered id) (reopen_row now opts)
    reopened id count

  unfoldable pub not_found_is_undefined : Error → M (Option ReviewQueue)
  not_found_is_undefined record_not_found = return none
  not_found_is_undefined e = throw e

  unfoldable pub mark_resolved_by_uuid : String → Resolution → M (Option ReviewQueue)
  unfolding not_found_is_undefined
  mark_resolved_by_uuid uuid resolution =
      catch
        (with_prisma_error_handling (update (λ r. str_eq r.uuid uuid) (resolve_row now resolution))
          >>= λ row. return (some row))
        not_found_is_undefined

  unfoldable pub resolve_collided : ℕ → Error → Option ReviewQueue → M ReviewQueue
  resolve_collided id e none = throw e
  resolve_collided id e (some existing) =
      update (has_id id) (resolve_row now review_completed) >>= λ _. return existing

  unfoldable pub reschedule_conflict : ℕ → CommentId → Error → M ReviewQueue
  unfolding resolve_collided
  reschedule_conflict id comment unique_constraint_violation db =
      resolve_collided id unique_constraint_violation
        (find_first.apply (λ r. same_comment r.source_comment_id comment && is_resolved r.status)
          db.review_queue)
        db
  reschedule_conflict id comment e db = throw e db

  abbrev pub reschedule_row : CommentDetails → Option String → ReviewQueue → ReviewQueue
  reschedule_row source original_url r = record r {
    attempts = r.attempts + 1;
    source_comment_id = source.comment_id;
    source_comment_url = source.comment_url;
    source_comment_run_id = source.coderabbit_run_id;
    original_source_comment_url = or_keep original_url r.original_source_comment_url;
    retriggered_at = some now;
    updated_at = now;
  }

  unfoldable pub reschedule : ℕ → CommentDetails → Option String → M ReviewQueue
  unfolding reschedule_conflict
  reschedule id source original_url =
      catch (with_prisma_error_handling (update (has_id id) (reschedule_row source original_url)))
        (reschedule_conflict id source.comment_id)

  unfoldable pub backoff : ℕ → M ReviewQueue
  backoff id = with_prisma_error_handling (
      update (has_id id) λ r. record r {
        attempts = r.attempts + 1;
        status = retriggered;
        retriggered_at = some now;
        updated_at = now;
      })

  -- `retriggered_at: { lt: cutoff }`; no date is before the epoch, where `-` stops.
  abbrev pub is_stale_retriggered : ℕ → ReviewQueue → Bool
  is_stale_retriggered max_age_ms r =
      is_retriggered r.status && dated_before (now - max_age_ms) r.retriggered_at

  unfoldable pub resolve_stale_retriggered : ℕ → M ℕ
  resolve_stale_retriggered max_age_ms =
      update_many (is_stale_retriggered max_age_ms) (resolve_row now failed)

  unfoldable pub increment_attempts : ℕ → ℕ → M (Unit {0})
  increment_attempts id attempts =
      update (has_id id) (λ r. record r { attempts = attempts; updated_at = now }) >>= λ _.
      return tt
