-- ===== src/PullRequests/Upsert.antt =====
-- PullRequestRepository.upsert with recordShaObservation, and the reads by repository and number
-- and by state.
pub mod Registered
pub mod Found
pub mod Others
pub mod Written
mod Examples
use rabbit_maximizer.Prelude.{
  ℕ, suc, String, Bool, true, false, not, Option, none, some, List, [], ◌∷◌, ◌++◌, map, ◌==◌, ◌&&◌,
  ◌||◌, str_eq, if◌then◌else◌, keep, find, any, is_some, clash_free,
}
use rabbit_maximizer.Domain.{PrState, closed, merged, open_pr}
use rabbit_maximizer.Schema.{PullRequest, PullRequestSha, Db}
use rabbit_maximizer.Store.{
  M, ok, err, ◌>>=◌, ◌>>◌, return, known_request, p2002, p2025, check_constraint_violation,
  with_prisma_error_handling,
}
use rabbit_maximizer.PullRequests.{has_pr_id, change_prs}

-- `prState` is always given; a field that is left out is `none`.
pub record UpsertPullRequestData : Type 0 where
  pub pr_title : Option String
  pub pr_state : PrState
  pub author_login : Option String
  pub merged_at : Option ℕ
  pub closed_at : Option ℕ
  pub head_sha : Option String
  pub head_committed_at : Option ℕ

abbrev pub or_value {ℓ} : {A : Type ℓ} → Option A → A → A
or_value none old = old
or_value (some v) old = v

-- A column is written where the data has a value for it.
abbrev pub or_column {ℓ} : {A : Type ℓ} → Option A → Option A → Option A
or_column none old = old
or_column (some v) old = some v

abbrev pub is_pr : String → ℕ → PullRequest → Bool
is_pr repo pr p = str_eq p.repo_full_name repo && p.pr_number == pr

-- The columns that `updateData` names.
abbrev pub patch_pr : ℕ → UpsertPullRequestData → PullRequest → PullRequest
patch_pr now d p = record p {
  title = or_value d.pr_title p.title;
  pr_state = d.pr_state;
  author_login = or_value d.author_login p.author_login;
  merged_at = or_column d.merged_at p.merged_at;
  closed_at = or_column d.closed_at p.closed_at;
  head_sha = or_column d.head_sha p.head_sha;
  head_committed_at = or_column d.head_committed_at p.head_committed_at;
  updated_at = now;
}

abbrev pub new_pr : ℕ → String → String → ℕ → UpsertPullRequestData → ℕ → PullRequest
new_pr now uuid repo pr d id = record {
  id = id;
  uuid = uuid;
  repo_full_name = repo;
  pr_number = pr;
  title = or_value d.pr_title "<unknown>";
  author_login = or_value d.author_login "<unknown>";
  pr_state = d.pr_state;
  merged_at = d.merged_at;
  closed_at = d.closed_at;
  first_seen_at = now;
  first_review_limit_at = none;
  last_review_limit_at = none;
  last_review_requested_at = none;
  last_coderabbit_review_at = none;
  last_review_url = none;
  last_review_state = none;
  last_coderabbit_acknowledged_at = none;
  head_sha = d.head_sha;
  reviewed_head_sha = none;
  head_committed_at = d.head_committed_at;
  retrigger_count = 0;
  review_count = 0;
  created_at = now;
  updated_at = now;
}

-- `CHECK ("merged_at" IS NULL OR "closed_at" IS NULL)` of the migration.
abbrev pub dates_ok : PullRequest → Bool
dates_ok p = not (is_some p.merged_at && is_some p.closed_at)

-- Two rows that the keys of `pull_request` keep apart.
abbrev pub pr_clash : PullRequest → PullRequest → Bool
pr_clash p q = p.id == q.id || str_eq p.uuid q.uuid || is_pr q.repo_full_name q.pr_number p

unfoldable pub pr_keys_ok : List PullRequest → Bool
pr_keys_ok rows = clash_free pr_clash rows

-- A statement that leaves the table with a row that fails the CHECK, or with two rows of one key,
-- fails and changes nothing.
unfoldable pub commit_prs : List PullRequest → M (Unit {0})
unfolding pr_keys_ok
commit_prs rows db =
    if any (λ p. not (dates_ok p)) rows
    then err check_constraint_violation
    else (if pr_keys_ok rows
        then ok (tt, record db { pull_request = rows })
        else err (known_request p2002))

-- `pullRequest.update` of the row that was found.
unfoldable pub update_found : ℕ → UpsertPullRequestData → ℕ → M (Unit {0})
unfolding commit_prs
update_found now d id db =
    if any (has_pr_id id) db.pull_request
    then commit_prs (change_prs (has_pr_id id) (patch_pr now d) db.pull_request) db
    else err (known_request p2025)

unfoldable pub create_pr : ℕ → String → String → ℕ → UpsertPullRequestData → M ℕ
unfolding commit_prs
create_pr now uuid repo pr d db =
    let id = db.next_pr_id in
    (commit_prs (db.pull_request ++ new_pr now uuid repo pr d id ∷ []) >>= λ _ db'.
    ok (id, record db' { next_pr_id = suc id }))
      db

abbrev pub is_observation : ℕ → String → PullRequestSha → Bool
is_observation id sha o = o.pull_request_id == id && str_eq o.sha sha

abbrev pub new_observation : ℕ → ℕ → String → ℕ → PullRequestSha
new_observation now pull_request_id sha id = record {
  id = id;
  pull_request_id = pull_request_id;
  sha = sha;
  first_observed_at = now;
  last_observed_at = now;
}

abbrev pub touch_observation : ℕ → ℕ → String → Db → Db
touch_observation now id sha db = record db {
  pull_request_sha =
      map (λ o. if is_observation id sha o then record o { last_observed_at = now } else o)
        db.pull_request_sha;
}

abbrev pub add_observation : ℕ → ℕ → String → Db → Db
add_observation now id sha db = record db {
  pull_request_sha = db.pull_request_sha ++ new_observation now id sha db.next_sha_id ∷ [];
  next_sha_id = suc db.next_sha_id;
}

-- `pullRequestSha.upsert`.
unfoldable pub upsert_sha : ℕ → ℕ → String → M (Unit {0})
upsert_sha now id sha db =
    if any (is_observation id sha) db.pull_request_sha
    then ok (tt, touch_observation now id sha db)
    else ok (tt, add_observation now id sha db)

unfoldable pub record_sha_observation : ℕ → ℕ → Option String → M (Unit {0})
unfolding upsert_sha with_prisma_error_handling
record_sha_observation now id none = return tt
record_sha_observation now id (some sha) = with_prisma_error_handling (upsert_sha now id sha)

pub record Upserted : Type 0 where
  pub id : ℕ
  pub created : Bool

unfoldable pub upsert_found_pr :
    ℕ → String → String → ℕ → UpsertPullRequestData → Option PullRequest → M Upserted
upsert_found_pr now uuid repo pr d (some existing) = do
  with_prisma_error_handling (update_found now d existing.id)
  record_sha_observation now existing.id d.head_sha
  return (record { id = existing.id; created = false })
upsert_found_pr now uuid repo pr d none = do
  id ← create_pr now uuid repo pr d
  record_sha_observation now id d.head_sha
  return (record { id = id; created = true })

-- `findUnique` by the repository and the number.
abbrev pub find_by_repo_and_pr : String → ℕ → Db → Option PullRequest
find_by_repo_and_pr repo pr db = find (is_pr repo pr) db.pull_request

unfoldable pub upsert_pr : ℕ → String → String → ℕ → UpsertPullRequestData → M Upserted
unfolding upsert_found_pr
upsert_pr now uuid repo pr d db =
    upsert_found_pr now uuid repo pr d (find_by_repo_and_pr repo pr db) db

abbrev pub same_state : PrState → PrState → Bool
same_state closed closed = true
same_state merged merged = true
same_state open_pr open_pr = true
same_state _ _ = false

unfoldable pub find_by_pr_state : PrState → Db → List PullRequest
find_by_pr_state state db = keep (λ p. same_state p.pr_state state) db.pull_request
