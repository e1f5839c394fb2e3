-- ===== src/Discovery/Examples.antt =====
-- A pull request that is scanned and stale at once.
use rabbit_maximizer.Prelude.{◌≡◌, [], ◌∷◌, count}
use rabbit_maximizer.Discovery.{
  ScannedPr, StaleOpenPr, has_pull_request_id, merge_by_pull_request_id,
}
use rabbit_maximizer.Discovery.Merged.{merge_by_pull_request_id-count}

abbrev scanned : ScannedPr
scanned = record { repo_full_name = "o/r"; pr_number = 7; pull_request_id = 3; pr_title = "Add" }

abbrev stale : StaleOpenPr
stale = record { id = 3; repo_full_name = "o/r"; pr_number = 7; title = "Add" }

merge_by_pull_request_id-count_example :
    count (has_pull_request_id 3) (merge_by_pull_request_id (scanned ∷ []) (stale ∷ [])) ≡ 1
merge_by_pull_request_id-count_example =
    merge_by_pull_request_id-count 3 (scanned ∷ []) (stale ∷ [])
