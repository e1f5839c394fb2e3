-- ===== src/Scheduler/Tick.antt =====
-- Scheduler.executeTick (src/scheduler.ts), and Pruner.prune with PruneEvaluator.evaluate, which
-- every tick begins with (src/Pruner.ts, src/PruneEvaluator.ts).
use rabbit_maximizer.Prelude.{
  ℕ, ◌+◌, ◌*◌, ◌^◌, Bool, true, false, Option, none, some, List, [], ◌∷◌, ltb, leb, if◌then◌else◌,
  keep,
}
use rabbit_maximizer.Domain.{
  Resolution, pr_merged, pr_closed_without_merge, failed, stale_comment, is_active,
}
use rabbit_maximizer.Schema.{ReviewQueue, PullRequest, Db}
use rabbit_maximizer.Store.{Error, github}
use rabbit_maximizer.Queue.Marks.{mark_resolved, resolve_stale_retriggered}
use rabbit_maximizer.Order.{sort}
use rabbit_maximizer.PullRequests.{find_pending_acknowledgement, requested}
use rabbit_maximizer.SystemState.{
  is_scheduler_paused, get_next_review_available_at, set_last_scheduler_tick_at,
}
use rabbit_maximizer.Service.{
  Setting, T, ◌>>=◌, ◌>>◌, return, transact, catch, is_terminal_http_status, PrData,
}
use rabbit_maximizer.Scheduler.Recording.{
  resolve_with_event, reschedule_with_cooldown, fail_or_back_off, count_attempt,
}
use rabbit_maximizer.Scheduler.Trigger.{
  TriggerError, RabbitResult, triggered, rejected, retrigger_item_not_pending,
  retrigger_stale_comment_skip, retrigger_stale_comment_replacement_deleted,
  stale_comment_rescheduled, trigger,
}
use rabbit_maximizer.Scheduler.Selection.{
  Selection, candidate, deferred, none_due, is_pr_merged, is_pr_closed_without_merge,
  state_or_undefined, select_next_eligible_item,
}

-- computeSchedulerBackoff.ts
abbrev pub compute_scheduler_backoff : ℕ → ℕ → ℕ → ℕ
compute_scheduler_backoff attempts base_ms max_ms =
    let wait = base_ms * 2 ^ attempts in if leb wait max_ms then wait else max_ms

-- EnrichedItem: an item with the resolution that its outcome, merged or closed, calls for.
pub record EnrichedItem : Type 0 where
  pub item : ReviewQueue
  pub outcome : Resolution

abbrev pub outcome_of : Option PrData → Option Resolution
outcome_of none = none
outcome_of (some p) =
    if is_pr_merged p
    then some pr_merged
    else if is_pr_closed_without_merge p
    then some pr_closed_without_merge
    else none

module _ (s : Setting) where
  open s use {env, client, cfg}

  -- PruneEvaluator.evaluate; the batches of five keep the order of the items.
  abbrev pub evaluate : List ReviewQueue → List EnrichedItem
  evaluate [] = []
  evaluate (item ∷ items) =
      let rest = evaluate items in
      elim (outcome_of
        (state_or_undefined (client.get_pr_state item.repo_full_name item.pr_number))) [
          | none ↦ rest
          | some outcome ↦ record { item = item; outcome = outcome } ∷ rest
        ]

  -- Each item in a transaction of its own; an error is logged, and the next item follows.
  unfoldable pub prune_items : List EnrichedItem → T (Unit {0})
  prune_items [] = return tt
  prune_items (e ∷ es) =
      catch (transact (resolve_with_event s e.item e.outcome "dismissed")) (λ _. return tt)
      >> prune_items es

  -- getActiveQueue: the active rows by id.
  abbrev pub get_active_queue : Db → List ReviewQueue
  get_active_queue db = sort (λ a b. leb a.id b.id) (keep (λ r. is_active r.status) db.review_queue)

  unfoldable pub prune : T (Unit {0})
  unfolding prune_items
  prune w = prune_items (evaluate (get_active_queue w.db)) w

  unfoldable pub settle_rejected : ReviewQueue → TriggerError → T (Unit {0})
  settle_rejected item retrigger_item_not_pending = return tt
  settle_rejected item (stale_comment_rescheduled source original_url earliest) =
      transact (reschedule_with_cooldown s item source original_url earliest)
  settle_rejected item retrigger_stale_comment_skip =
      transact (mark_resolved env item.id stale_comment) >>= λ _. return tt
  settle_rejected item retrigger_stale_comment_replacement_deleted =
      transact (fail_or_back_off s item)

  unfoldable pub settle : ReviewQueue → RabbitResult → T (Unit {0})
  unfolding settle_rejected
  settle item (rejected e) = settle_rejected item e
  settle item (triggered _) = transact (count_attempt s item)

  abbrev pub status_of : Error → Option ℕ
  status_of (github status) = status
  status_of _ = none

  unfoldable pub recover : ReviewQueue → Error → T (Unit {0})
  recover item e =
      if is_terminal_http_status (status_of e)
      then transact (resolve_with_event s item failed "dismissed")
      else transact (fail_or_back_off s item)

  unfoldable pub process_item : ReviewQueue → T (Unit {0})
  unfolding settle recover
  process_item item = catch (trigger s item >>= settle item) (recover item)

  unfoldable pub act_on : Selection → T (Unit {0})
  unfolding process_item
  act_on deferred = return tt
  act_on none_due = return tt
  act_on (candidate item) = process_item item

  abbrev pub awaits_answer : Option PullRequest → Bool
  awaits_answer none = false
  awaits_answer (some p) =
      ltb env.now (requested p.last_review_requested_at + cfg.retrigger_spacing_ms)

  abbrev pub cools_down : Option ℕ → Bool
  cools_down none = false
  cools_down (some t) = ltb env.now t

  -- The reasons for which a tick stops before it looks for an item.
  abbrev pub is_held_back : Db → Bool
  is_held_back db =
      if is_scheduler_paused db
      then true
      else if awaits_answer (find_pending_acknowledgement db)
      then true
      else cools_down (get_next_review_available_at db)

  unfoldable pub look_for_item : T (Unit {0})
  unfolding act_on
  look_for_item w =
      if is_held_back w.db
      then return tt w
      else (select_next_eligible_item s >>= λ found. act_on found.outcome) w

  -- The `try` of the tick; before an item is selected, an error ends the tick and is logged.
  unfoldable pub attempt_tick : T (Unit {0})
  unfolding look_for_item
  attempt_tick =
      catch
        (do
          prune
          _ ← transact (resolve_stale_retriggered env cfg.max_retrigger_age_ms)
          look_for_item)
        (λ _. return tt)

  -- `finally`: the heartbeat, whose own error is logged.
  unfoldable pub execute_tick : T (Unit {0})
  unfolding attempt_tick
  execute_tick =
      attempt_tick >> catch (transact (set_last_scheduler_tick_at env.now env.now)) (λ _. return tt)
