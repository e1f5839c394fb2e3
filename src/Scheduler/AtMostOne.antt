-- ===== src/Scheduler/AtMostOne.antt =====
-- A tick posts one retrigger at most.
use rabbit_maximizer.Prelude.{
  ℕ, suc, ◌+◌, ◌≤◌, Option, none, some, List, [], ◌∷◌, leb, length, Bool-cases, inl, inr, arith,
}
use rabbit_maximizer.Domain.{
  SkipReason, cooldown, settling, pr_merged, pr_closed_without_merge, failed, stale_comment,
}
use rabbit_maximizer.Schema.{ReviewQueue}
use rabbit_maximizer.Store.{Error}
use rabbit_maximizer.Queue.Marks.{resolve_stale_retriggered, mark_resolved, mark_retrigger_skipped}
use rabbit_maximizer.Queue.Requests.{is_cooling}
use rabbit_maximizer.SystemState.{set_last_scheduler_tick_at}
use rabbit_maximizer.Service.{
  Setting, World, T, ◌>>=◌, ◌>>◌, return, transact, catch, PrData, is_terminal_http_status,
}
use rabbit_maximizer.Scheduler.Recording.{
  resolve_with_event, reschedule_with_cooldown, fail_or_back_off, count_attempt,
}
use rabbit_maximizer.Scheduler.Trigger.{
  TriggerError, RabbitResult, triggered, rejected, retrigger_item_not_pending,
  retrigger_stale_comment_skip, retrigger_stale_comment_replacement_deleted,
  stale_comment_rescheduled, trigger,
}
use rabbit_maximizer.Scheduler.Selection.{
  Selection, candidate, deferred, none_due, Scan, scanned, skip_candidate, within_budget, judge, fetch_state,
  is_settling, scan, eligible_items, select_next_eligible_item, is_pr_merged,
  is_pr_closed_without_merge,
}
use rabbit_maximizer.Scheduler.Tick.{
  EnrichedItem, prune_items, prune, settle_rejected, settle, recover, process_item, act_on,
  is_held_back, look_for_item, attempt_tick, execute_tick, status_of,
}
use rabbit_maximizer.Scheduler.Posts.{Posts, Posts-transact, Posts-catch, Posts-bind}
use rabbit_maximizer.Scheduler.TriggerPosts.{Posts-if, trigger-Posts}

module _ (s : Setting) where
  settle_rejected-Posts :
      (item : ReviewQueue) (e : TriggerError) → Posts 0 (settle_rejected s item e)
  unfolding settle_rejected
  settle_rejected-Posts item retrigger_item_not_pending = λ w. omega arith
  settle_rejected-Posts item (stale_comment_rescheduled source original_url earliest) =
      Posts-transact (reschedule_with_cooldown s item source original_url earliest)
  settle_rejected-Posts item retrigger_stale_comment_skip =
      Posts-bind 0 0 (transact (mark_resolved s.env item.id stale_comment)) (λ _. return tt)
        (Posts-transact (mark_resolved s.env item.id stale_comment)) (λ _ w. omega arith)
  settle_rejected-Posts item retrigger_stale_comment_replacement_deleted =
      Posts-transact (fail_or_back_off s item)

  settle-Posts : (item : ReviewQueue) (r : RabbitResult) → Posts 0 (settle s item r)
  unfolding settle
  settle-Posts item (rejected e) = settle_rejected-Posts item e
  settle-Posts item (triggered url) = Posts-transact (count_attempt s item)

  recover-Posts : (item : ReviewQueue) (e : Error) → Posts 0 (recover s item e)
  unfolding recover
  recover-Posts item e =
      Posts-if 0 (is_terminal_http_status (status_of s e)) _ _
        (Posts-transact (resolve_with_event s item failed "dismissed"))
        (Posts-transact (fail_or_back_off s item))

  process_item-Posts : (item : ReviewQueue) → Posts 1 (process_item s item)
  unfolding process_item
  process_item-Posts item =
      Posts-catch 1 (trigger s item >>= settle s item) (recover s item)
        (Posts-bind 1 0 (trigger s item) (settle s item) (trigger-Posts s item) (settle-Posts item))
        (recover-Posts item)

  act_on-Posts : (found : Selection) → Posts 1 (act_on s found)
  unfolding act_on
  act_on-Posts deferred = λ w. omega arith
  act_on-Posts none_due = λ w. omega arith
  act_on-Posts (candidate item) = process_item-Posts item

  within_budget-Posts :
      (fetches : ℕ) (rest : T Scan) → Posts 0 rest → Posts 0 (within_budget s fetches rest)
  within_budget-Posts fetches rest h =
      Posts-if 0 (leb s.cfg.max_pr_state_fetches_per_tick fetches) (scanned deferred fetches) rest
        (λ w. omega arith) h

  judge-Posts :
      (item : ReviewQueue) (fetches : ℕ) (p : Option PrData) (rest : T Scan)
      → Posts 0 rest
      → Posts 0 (judge s item fetches p rest)
  unfolding judge
  judge-Posts item fetches none rest h = within_budget-Posts fetches rest h
  judge-Posts item fetches (some p) rest h =
      Posts-if 0 (is_pr_merged p) _ _
        (Posts-bind 0 0 (transact (resolve_with_event s item pr_merged "dismissed"))
          (λ _. within_budget s fetches rest)
          (Posts-transact (resolve_with_event s item pr_merged "dismissed"))
          (λ _. within_budget-Posts fetches rest h))
        (Posts-if 0 (is_pr_closed_without_merge p) _ _
          (Posts-bind 0 0 (transact (resolve_with_event s item pr_closed_without_merge "dismissed"))
            (λ _. within_budget s fetches rest)
            (Posts-transact (resolve_with_event s item pr_closed_without_merge "dismissed"))
            (λ _. within_budget-Posts fetches rest h))
          (λ w. omega arith))

  skip_candidate-Posts :
      (item : ReviewQueue) (reason : SkipReason) → Posts 0 (skip_candidate s item reason)
  unfolding skip_candidate
  skip_candidate-Posts item reason =
      Posts-bind 0 0 (transact (mark_retrigger_skipped s.env item.id reason)) (λ _. return tt)
        (Posts-transact (mark_retrigger_skipped s.env item.id reason)) (λ _ w. omega arith)

  fetch_state-Posts : (item : ReviewQueue) → Posts 0 (fetch_state s item)
  unfolding fetch_state
  fetch_state-Posts item w = omega arith

  scan-Posts : (items : List ReviewQueue) (fetches : ℕ) → Posts 0 (scan s items fetches)
  unfolding scan
  scan-Posts [] fetches = λ w. omega arith
  scan-Posts (item ∷ items) fetches =
      Posts-if 0 (is_cooling s.env.now item.cooldown_until) _ _
        (Posts-bind 0 0 (skip_candidate s item cooldown) (λ _. scan s items fetches)
          (skip_candidate-Posts item cooldown) (λ _. scan-Posts items fetches))
        (Posts-if 0 (is_settling s item) _ _
          (Posts-bind 0 0 (skip_candidate s item settling) (λ _. scan s items fetches)
            (skip_candidate-Posts item settling) (λ _. scan-Posts items fetches))
          (Posts-bind 0 0 (fetch_state s item)
            (λ p. judge s item (suc fetches) p (scan s items (suc fetches)))
            (fetch_state-Posts item)
            (λ p. judge-Posts item (suc fetches) p (scan s items (suc fetches))
              (scan-Posts items (suc fetches)))))

  select-Posts : Posts 0 (select_next_eligible_item s)
  unfolding select_next_eligible_item
  select-Posts w = scan-Posts (eligible_items s w.db) 0 w

  look_for_item-Posts : Posts 1 (look_for_item s)
  unfolding look_for_item
  look_for_item-Posts w = elim (Bool-cases (is_held_back s w.db)) [
    | inl h ↦ rw h (omega arith)
    | inr h ↦ rw h (
        Posts-bind 0 1 (select_next_eligible_item s) (λ found. act_on s found.outcome) select-Posts
          (λ found. act_on-Posts found.outcome) w)
  ]

  prune_items-Posts : (es : List EnrichedItem) → Posts 0 (prune_items s es)
  unfolding prune_items
  prune_items-Posts [] = λ w. omega arith
  prune_items-Posts (e ∷ es) =
      Posts-bind 0 0
        (catch (transact (resolve_with_event s e.item e.outcome "dismissed")) (λ _. return tt))
        (λ _. prune_items s es)
        (Posts-catch 0 (transact (resolve_with_event s e.item e.outcome "dismissed"))
          (λ _. return tt) (Posts-transact (resolve_with_event s e.item e.outcome "dismissed"))
          (λ _ w. omega arith))
        (λ _. prune_items-Posts es)

  prune-Posts : Posts 0 (prune s)
  unfolding prune
  prune-Posts w = prune_items-Posts _ w

  -- A tick posts one retrigger at most, also where a transaction or a request fails on the way.
  pub execute_tick-at_most_one :
      (w : World) → length (execute_tick s w).1.posts ≤ length w.posts + 1
  unfolding execute_tick attempt_tick
  execute_tick-at_most_one =
      Posts-bind 1 0 (attempt_tick s)
        (λ _. catch (transact (set_last_scheduler_tick_at s.env.now s.env.now)) (λ _. return tt))
        (Posts-catch 1
          (do
            prune s
            _ ← transact (resolve_stale_retriggered s.env s.cfg.max_retrigger_age_ms)
            look_for_item s)
          (λ _. return tt)
          (Posts-bind 0 1 (prune s) _ prune-Posts (λ _.
            Posts-bind 0 1 (transact (resolve_stale_retriggered s.env s.cfg.max_retrigger_age_ms))
              (λ _. look_for_item s)
              (Posts-transact (resolve_stale_retriggered s.env s.cfg.max_retrigger_age_ms))
              (λ _. look_for_item-Posts)))
          (λ _ w. omega arith))
        (λ _.
          Posts-catch 0 (transact (set_last_scheduler_tick_at s.env.now s.env.now)) (λ _. return tt)
            (Posts-transact (set_last_scheduler_tick_at s.env.now s.env.now)) (λ _ w. omega arith))
