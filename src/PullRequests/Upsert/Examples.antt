-- ===== src/PullRequests/Upsert/Examples.antt =====
-- A pull request that is registered, and one that was closed, reopened and merged.
use rabbit_maximizer.Prelude.{◌≡◌, refl, none, some, [], ◌∷◌, arith}
use rabbit_maximizer.Domain.{merged, open_pr}
use rabbit_maximizer.Schema.{PullRequest, Db}
use rabbit_maximizer.Store.{ok, err, check_constraint_violation}
use rabbit_maximizer.Samples.{waiting}
use rabbit_maximizer.Queue.Rules.{Holds}
use rabbit_maximizer.Queue.Traces.{empty_db}
use rabbit_maximizer.PullRequests.Upsert.{
  UpsertPullRequestData, Upserted, pr_keys_ok, find_by_repo_and_pr, upsert_pr,
}
use rabbit_maximizer.PullRequests.Upsert.Registered.{IsRegistered}
use rabbit_maximizer.PullRequests.Upsert.Found.{IsUpserted, upsert_pr-find, upsert_pr-reopened}
use rabbit_maximizer.PullRequests.Upsert.Others.{upsert_pr-others}

abbrev one_row : Db
one_row = record empty_db { pull_request = waiting ∷ []; next_pr_id = 4 }

one_row-IsRegistered : IsRegistered one_row
unfolding pr_keys_ok
one_row-IsRegistered = record { keys = refl; dates = refl; fresh = (omega arith, tt) }

abbrev opened : UpsertPullRequestData
opened = record {
  pr_title = some "Fix";
  pr_state = open_pr;
  author_login = some "b";
  merged_at = none;
  closed_at = none;
  head_sha = some "abc";
  head_committed_at = some 90;
}

upsert_pr-find_example :
    (u : Upserted) × (db' : Db) × (upsert_pr 100 "p-9" "o/r" 8 opened one_row ≡ ok (u, db'))
    × IsUpserted 100 "p-9" "o/r" 8 opened 4 none u db'
upsert_pr-find_example =
    upsert_pr-find 100 "p-9" "o/r" 8 opened one_row one_row-IsRegistered refl refl

upsert_pr-others_example :
    Holds
      (λ _ db'. find_by_repo_and_pr "o/r" 7 db' ≡ some waiting)
      (upsert_pr 100 "p-9" "o/r" 8 opened one_row)
upsert_pr-others_example =
    upsert_pr-others 100 "p-9" "o/r" 8 opened "o/r" 7 refl one_row one_row-IsRegistered

abbrev reopened : PullRequest
reopened = record waiting { closed_at = some 60 }

abbrev merging : UpsertPullRequestData
merging = record opened { pr_state = merged; merged_at = some 95 }

upsert_pr-reopened_example :
    upsert_pr 100 "p-9" "o/r" 7 merging (record one_row { pull_request = reopened ∷ [] })
    ≡ err check_constraint_violation
upsert_pr-reopened_example =
    upsert_pr-reopened 100 "p-9" "o/r" 7 merging (record one_row { pull_request = reopened ∷ [] })
      reopened refl refl refl
