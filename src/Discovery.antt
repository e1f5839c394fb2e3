-- ===== src/Discovery.antt =====
-- mergeByPullRequestId (src/utils/mergeByPullRequestId.ts): the pull requests that are checked
-- directly, the scanned ones first, each once.
pub mod Merged
mod Examples
use rabbit_maximizer.Prelude.{ℕ, String, Bool, List, [], ◌∷◌, ◌++◌, ◌==◌, any, if◌then◌else◌}

pub record ScannedPr : Type 0 where
  pub repo_full_name : String
  pub pr_number : ℕ
  pub pull_request_id : ℕ
  pub pr_title : String

pub record StaleOpenPr : Type 0 where
  pub id : ℕ
  pub repo_full_name : String
  pub pr_number : ℕ
  pub title : String

pub record DirectCheckPr : Type 0 where
  pub repo_full_name : String
  pub pr_number : ℕ
  pub pull_request_id : ℕ
  pub pr_title : String

abbrev pub of_scanned : ScannedPr → DirectCheckPr
of_scanned p = record {
  repo_full_name = p.repo_full_name;
  pr_number = p.pr_number;
  pull_request_id = p.pull_request_id;
  pr_title = p.pr_title;
}

abbrev pub of_stale : StaleOpenPr → DirectCheckPr
of_stale p = record {
  repo_full_name = p.repo_full_name;
  pr_number = p.pr_number;
  pull_request_id = p.id;
  pr_title = p.title;
}

abbrev pub has_pull_request_id : ℕ → DirectCheckPr → Bool
has_pull_request_id id p = p.pull_request_id == id

-- One turn of the loops; the ids seen are those of what is merged so far.
abbrev pub push_unseen : List DirectCheckPr → DirectCheckPr → List DirectCheckPr
push_unseen acc p = if any (has_pull_request_id p.pull_request_id) acc then acc else acc ++ p ∷ []

unfoldable pub merge_scanned : List DirectCheckPr → List ScannedPr → List DirectCheckPr
merge_scanned acc [] = acc
merge_scanned acc (p ∷ ps) = merge_scanned (push_unseen acc (of_scanned p)) ps

unfoldable pub merge_stale : List DirectCheckPr → List StaleOpenPr → List DirectCheckPr
merge_stale acc [] = acc
merge_stale acc (p ∷ ps) = merge_stale (push_unseen acc (of_stale p)) ps

unfoldable pub merge_by_pull_request_id : List ScannedPr → List StaleOpenPr → List DirectCheckPr
unfolding merge_scanned merge_stale
merge_by_pull_request_id scanned stale = merge_stale (merge_scanned [] scanned) stale
