-- ===== src/PullRequests/Examples.antt =====
-- Two pull requests of which one awaits its acknowledgement.
use rabbit_maximizer.Prelude.{◌≤◌, ◌≡◌, refl, true, none, some, [], ◌∷◌, Memᴰ, All}
use rabbit_maximizer.Schema.{PullRequest, Db}
use rabbit_maximizer.Samples.{waiting}
use rabbit_maximizer.Queue.Traces.{empty_db}
use rabbit_maximizer.PullRequests.{
  awaits_acknowledgement, requested, find_pending_acknowledgement, find_tracked_prs,
}
use rabbit_maximizer.PullRequests.Acknowledgement.{find_pending_acknowledgement-lem}

abbrev answered_pr : PullRequest
answered_pr = record waiting {
  id = 4;
  uuid = "p-4";
  pr_number = 8;
  last_review_requested_at = some 30;
}

abbrev two_requests : Db
two_requests = record empty_db { pull_request = answered_pr ∷ waiting ∷ [] }

find_pending_acknowledgement-lem_example :
    Memᴰ waiting two_requests.pull_request
    × (awaits_acknowledgement waiting ≡ true)
    × All
        (λ q.
          awaits_acknowledgement q ≡ true
          → requested waiting.last_review_requested_at ≤ requested q.last_review_requested_at)
        two_requests.pull_request
unfolding find_pending_acknowledgement
find_pending_acknowledgement-lem_example =
    find_pending_acknowledgement-lem two_requests waiting refl

abbrev tracked_pr : PullRequest
tracked_pr = record waiting {
  last_coderabbit_acknowledged_at = none;
  last_coderabbit_review_at = none;
}

abbrev tracked_later : PullRequest
tracked_later = record tracked_pr { id = 4; last_review_requested_at = some 900 }

abbrev reviewed_pr : PullRequest
reviewed_pr = record tracked_pr { id = 5; last_coderabbit_review_at = some 40 }

-- The one that was reviewed comes first, and the later request before the earlier.
tracked_example :
    find_tracked_prs
      (record empty_db { pull_request = tracked_pr ∷ tracked_later ∷ reviewed_pr ∷ waiting ∷ [] })
    ≡ reviewed_pr ∷ tracked_later ∷ tracked_pr ∷ []
unfolding find_tracked_prs
tracked_example = refl
