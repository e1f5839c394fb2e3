-- ===== src/Scheduler/Selection.antt =====
-- Scheduler.selectNextEligibleItem with skipCandidate and resolveTerminalCandidate
-- (src/scheduler.ts), and the tests of src/github/prStateUtils.ts.
pub mod Candidate
pub mod Fetched
use rabbit_maximizer.Prelude.{
  ℕ, suc, ◌+◌, Bool, true, false, not, Option, none, some, List, [], ◌∷◌, ◌++◌, ◌&&◌, ltb, leb,
  if◌then◌else◌, keep, is_some,
}
use rabbit_maximizer.Domain.{
  Resolution, pr_merged, pr_closed_without_merge, SkipReason, cooldown, settling, is_pending,
}
use rabbit_maximizer.Schema.{ReviewQueue, Db}
use rabbit_maximizer.Store.{Error, Result, ok, Env}
use rabbit_maximizer.Queue.Marks.{mark_retrigger_skipped}
use rabbit_maximizer.Queue.Requests.{is_cooling}
use rabbit_maximizer.Order.{read_effective_order}
use rabbit_maximizer.Service.{
  Response, answered, refused, PrData, GithubClient, Settings, Setting, World, T, ◌>>=◌, ◌>>◌,
  return, transact, reads,
}
use rabbit_maximizer.Scheduler.Recording.{resolve_with_event}

abbrev pub is_pr_merged : PrData → Bool
is_pr_merged p = p.is_closed && is_some p.merged_at

abbrev pub is_pr_closed_without_merge : PrData → Bool
is_pr_closed_without_merge p = p.is_closed && not (is_some p.merged_at)

-- PRStateFetcher.fetch: a refusal is logged and reads as `undefined`.
abbrev pub state_or_undefined : Response PrData → Option PrData
state_or_undefined (answered p) = some p
state_or_undefined (refused _) = none

-- SelectNextEligibleOutcome.
pub data Selection : Type 0 where
  candidate : ReviewQueue → Selection
  deferred none_due : Selection

-- The outcome with the count of states fetched that the scan keeps.
pub record Scan : Type 0 where
  pub outcome : Selection
  pub fetches : ℕ

abbrev pub scanned : Selection → ℕ → T Scan
scanned outcome fetches = return (record { outcome = outcome; fetches = fetches })

module _ (s : Setting) where
  open s use {env, client, cfg}

  unfoldable pub skip_candidate : ReviewQueue → SkipReason → T (Unit {0})
  skip_candidate item reason =
      transact (mark_retrigger_skipped env item.id reason) >>= λ _. return tt

  -- The next candidate, unless the states fetched reach the budget of the tick.
  abbrev pub within_budget : ℕ → T Scan → T Scan
  within_budget fetches rest =
      if leb cfg.max_pr_state_fetches_per_tick fetches then scanned deferred fetches else rest

  unfoldable pub judge : ReviewQueue → ℕ → Option PrData → T Scan → T Scan
  judge item fetches none rest = within_budget fetches rest
  judge item fetches (some p) rest =
      if is_pr_merged p
      then (transact (resolve_with_event s item pr_merged "dismissed")
          >> within_budget fetches rest)
      else if is_pr_closed_without_merge p
      then (transact (resolve_with_event s item pr_closed_without_merge "dismissed")
          >> within_budget fetches rest)
      else scanned (candidate item) fetches

  -- The request is made, whatever its answer.
  unfoldable pub fetch_state : ReviewQueue → T (Option PrData)
  fetch_state item w = (
    ok (state_or_undefined (client.get_pr_state item.repo_full_name item.pr_number)),
    record w {
      fetched =
          w.fetched
          ++ record { repo_of_fetch = item.repo_full_name; pr_of_fetch = item.pr_number } ∷ [];
    },
  )

  -- `Date.now() - created_at < retriggerSpacingMs`.
  abbrev pub is_settling : ReviewQueue → Bool
  is_settling item = ltb env.now (item.created_at + cfg.retrigger_spacing_ms)

  unfoldable pub scan : List ReviewQueue → ℕ → T Scan
  unfolding skip_candidate fetch_state judge
  scan [] fetches = scanned none_due fetches
  scan (item ∷ items) fetches =
      if is_cooling env.now item.cooldown_until
      then (skip_candidate item cooldown >> scan items fetches)
      else if is_settling item
      then (skip_candidate item settling >> scan items fetches)
      else (fetch_state item >>= λ p. judge item (suc fetches) p (scan items (suc fetches)))

  abbrev pub eligible_items : Db → List ReviewQueue
  eligible_items db = keep (λ item. is_pending item.status) (read_effective_order db)

  unfoldable pub select_next_eligible_item : T Scan
  unfolding scan
  select_next_eligible_item w = scan (eligible_items w.db) 0 w
