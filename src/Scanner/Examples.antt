-- ===== src/Scanner/Examples.antt =====
-- A scan that registers one pull request and closes another.
use rabbit_maximizer.Prelude.{◌≡◌, refl, none, some, [], ◌∷◌, All, arith}
use rabbit_maximizer.Domain.{closed}
use rabbit_maximizer.Store.{ok}
use rabbit_maximizer.Samples.{waiting}
use rabbit_maximizer.Queue.Traces.{empty_db}
use rabbit_maximizer.PullRequests.Upsert.{
  pr_keys_ok, find_by_pr_state, upsert_pr, create_pr, record_sha_observation, update_found,
}
use rabbit_maximizer.SystemState.{get_state, set_state}
use rabbit_maximizer.Github.Text.{split_repo, pr_state_from_github_value}
use rabbit_maximizer.PullRequests.Upsert.Registered.{IsRegistered}
use rabbit_maximizer.Service.{answered, World, transact}
use rabbit_maximizer.Scanner.{DiscoveredPr, ScanSetting, ScanResult, scan}
use rabbit_maximizer.Scanner.Scanned.{IsOpen}
use rabbit_maximizer.Scanner.Reported.{scan-AllOpen}

abbrev discovered_pr : DiscoveredPr
discovered_pr = record {
  repo_full_name = "o/r";
  pr_number = 8;
  pr_title = "Fix";
  author_login = "b";
}

abbrev one_open : ScanSetting
one_open = record {
  now = 100;
  interval_sec = 60;
  list_open_prs = answered (discovered_pr ∷ []);
  get_pr_head_sha = λ _ _. answered "abc";
  get_commit_committed_at = λ _ _. answered 90;
  get_pr_state =
      λ _ _. answered (record { state = "closed"; merged_at = none; closed_at = some 95 });
  new_uuid = λ _ _. "p-9";
}

abbrev one_known : World
one_known = record {
  db = record empty_db { pull_request = waiting ∷ []; next_pr_id = 4 };
  posts = [];
  fetched = [];
}

one_known-IsRegistered : IsRegistered one_known.db
unfolding pr_keys_ok
one_known-IsRegistered = record { keys = refl; dates = refl; fresh = (omega arith, tt) }

scan-AllOpen_example :
    (r : ScanResult) × ((scan one_open one_known).0 ≡ ok r)
    × IsRegistered (scan one_open one_known).1.db
    × All (IsOpen (scan one_open one_known).1.db) r.scanned_prs
scan-AllOpen_example = scan-AllOpen one_open one_known one_known-IsRegistered

scan-reported :
    (scan one_open one_known).0
    ≡ ok (record {
      opened = 1;
      updated = 0;
      scanned_prs =
          record { repo_full_name = "o/r"; pr_number = 8; pull_request_id = 4; pr_title = "Fix" }
          ∷ [];
    })
unfolding scan get_state transact set_state split_repo upsert_pr create_pr record_sha_observation
    find_by_pr_state pr_state_from_github_value update_found
scan-reported = refl

scan-closed :
    find_by_pr_state closed (scan one_open one_known).1.db
    ≡ record waiting { pr_state = closed; closed_at = some 95; updated_at = 100 } ∷ []
unfolding scan get_state transact set_state split_repo upsert_pr create_pr record_sha_observation
    find_by_pr_state pr_state_from_github_value update_found
scan-closed = refl
