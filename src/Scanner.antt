-- ===== src/Scanner.antt =====
-- PrScanner (src/prScanner.ts): the open pull requests are registered, and those that GitHub no
-- longer lists as open are closed.
mod Runs
pub mod Scanned
mod Steps
pub mod Reported
pub mod State
mod Examples
use rabbit_maximizer.Prelude.{
  ℕ, ◌+◌, ◌*◌, String, Bool, true, false, not, Option, none, some, List, [], ◌∷◌, ◌++◌, ◌==◌, ◌&&◌,
  ltb, str_eq, opt_str_eq, any, is_some, if◌then◌else◌,
}
use rabbit_maximizer.Domain.{PrState, closed, merged, open_pr}
use rabbit_maximizer.Schema.{PullRequest, Db}
use rabbit_maximizer.Store.{invalid_repo, unexpected_switch_default}
use rabbit_maximizer.SystemState.{
  get_state, set_state, last_scan_started_at, last_scan_completed_at,
}
use rabbit_maximizer.PullRequests.Upsert.{
  UpsertPullRequestData, Upserted, upsert_pr, or_value, find_by_repo_and_pr, find_by_pr_state,
}
use rabbit_maximizer.Github.Text.{RepoName, split_repo, pr_state_from_github_value}
use rabbit_maximizer.Service.{
  Response, World, T, ◌>>=◌, ◌>>◌, return, throw, transact, reads, catch, answer,
}
use rabbit_maximizer.Discovery.{ScannedPr}

pub record DiscoveredPr : Type 0 where
  pub repo_full_name : String
  pub pr_number : ℕ
  pub pr_title : String
  pub author_login : String

-- PRState: the state is GitHub's text.
pub record GithubState : Type 0 where
  pub state : String
  pub merged_at : Option ℕ
  pub closed_at : Option ℕ

-- What a scan asks of GitHub, its clock, its interval, and the uuid that a new row gets.
pub record ScanSetting : Type 0 where
  pub now : ℕ
  pub interval_sec : ℕ
  pub list_open_prs : Response (List DiscoveredPr)
  pub get_pr_head_sha : RepoName → ℕ → Response String
  pub get_commit_committed_at : RepoName → String → Response ℕ
  pub get_pr_state : String → ℕ → Response GithubState
  pub new_uuid : String → ℕ → String

pub record ScanResult : Type 0 where
  pub opened : ℕ
  pub updated : ℕ
  pub scanned_prs : List ScannedPr

abbrev pub nothing_scanned : ScanResult
nothing_scanned = record { opened = 0; updated = 0; scanned_prs = [] }

-- `elapsedMs < intervalMs`, where a clock that went back counts as too early.
abbrev pub is_too_early : ℕ → ℕ → Option ℕ → Bool
is_too_early now interval_ms none = false
is_too_early now interval_ms (some completed) = ltb now (completed + interval_ms)

abbrev pub head_of : Option PullRequest → Option String
head_of none = none
head_of (some p) = p.head_sha

abbrev pub open_data : DiscoveredPr → String → Option ℕ → UpsertPullRequestData
open_data pr head_sha head_committed_at = record {
  pr_title = some pr.pr_title;
  pr_state = open_pr;
  author_login = some pr.author_login;
  merged_at = none;
  closed_at = none;
  head_sha = some head_sha;
  head_committed_at = head_committed_at;
}

abbrev pub closing_data : PrState → Option ℕ → Option ℕ → UpsertPullRequestData
closing_data state merged_at closed_at = record {
  pr_title = none;
  pr_state = state;
  author_login = none;
  merged_at = merged_at;
  closed_at = closed_at;
  head_sha = none;
  head_committed_at = none;
}

abbrev pub scanned_of : DiscoveredPr → Upserted → ScannedPr
scanned_of pr u = record {
  repo_full_name = pr.repo_full_name;
  pr_number = pr.pr_number;
  pull_request_id = u.id;
  pr_title = pr.pr_title;
}

abbrev pub tally : DiscoveredPr → Upserted → ScanResult → ScanResult
tally pr u r = record {
  opened = r.opened + (if u.created then 1 else 0);
  updated = r.updated + (if u.created then 0 else 1);
  scanned_prs = r.scanned_prs ++ scanned_of pr u ∷ [];
}

-- `discoveredKeys.has(key)`; the number stands after the last `#` of a key.
abbrev pub is_discovered : List DiscoveredPr → PullRequest → Bool
is_discovered discovered p =
    any (λ d. str_eq d.repo_full_name p.repo_full_name && d.pr_number == p.pr_number) discovered

abbrev pub is_closed_state : GithubState → Bool
is_closed_state g = str_eq g.state "closed"

module _ (s : ScanSetting) where
  open s use {
    now, interval_sec, list_open_prs, get_pr_head_sha, get_commit_committed_at, get_pr_state,
    new_uuid,
  }

  abbrev pub upsert_at : String → ℕ → UpsertPullRequestData → T Upserted
  upsert_at repo pr d = transact (upsert_pr now (new_uuid repo pr) repo pr d)

  -- One commit fetch per push: the date is asked for where the head is another one.
  unfoldable pub head_committed_at : RepoName → Option PullRequest → String → T (Option ℕ)
  head_committed_at name existing head =
      if opt_str_eq (head_of existing) (some head)
      then return none
      else answer (get_commit_committed_at name head) >>= λ t. return (some t)

  unfoldable pub register_named : DiscoveredPr → Option RepoName → T Upserted
  unfolding head_committed_at
  register_named pr none = throw invalid_repo
  register_named pr (some name) = do
    head ← answer (get_pr_head_sha name pr.pr_number)
    existing ← reads (find_by_repo_and_pr pr.repo_full_name pr.pr_number)
    committed_at ← head_committed_at name existing head
    upsert_at pr.repo_full_name pr.pr_number (open_data pr head committed_at)

  unfoldable pub register : DiscoveredPr → T Upserted
  unfolding register_named
  register pr = register_named pr (split_repo pr.repo_full_name)

  -- What fails for one pull request is logged, and the next one follows.
  unfoldable pub register_all : List DiscoveredPr → ScanResult → T ScanResult
  unfolding register
  register_all [] r = return r
  register_all (pr ∷ prs) r =
      catch (register pr >>= λ u. return (tally pr u r)) (λ _. return r) >>= register_all prs

  unfoldable pub close_by_state : PullRequest → GithubState → T ℕ
  close_by_state p g =
      if is_closed_state g && is_some g.merged_at
      then (upsert_at p.repo_full_name p.pr_number (closing_data merged g.merged_at none) >>= λ _.
          return 1)
      else if is_closed_state g
      then (upsert_at p.repo_full_name p.pr_number
            (closing_data closed none (some (or_value g.closed_at 0)))
          >>= λ _. return 1)
      else return 0

  abbrev pub known_state : GithubState → Option PrState → T GithubState
  known_state g none = throw unexpected_switch_default
  known_state g (some _) = return g

  unfoldable pub close : PullRequest → T ℕ
  unfolding close_by_state
  close p = do
    g ← answer (get_pr_state p.repo_full_name p.pr_number)
    _ ← known_state g (pr_state_from_github_value g.state)
    close_by_state p g

  unfoldable pub close_missing : List DiscoveredPr → List PullRequest → ℕ → T ℕ
  unfolding close
  close_missing discovered [] n = return n
  close_missing discovered (p ∷ ps) n =
      (if is_discovered discovered p
        then return n
        else catch (close p >>= λ k. return (n + k)) (λ _. return n))
      >>= close_missing discovered ps

  unfoldable pub scan_discovered : List DiscoveredPr → T ScanResult
  unfolding register_all close_missing
  scan_discovered discovered = do
    r ← register_all discovered nothing_scanned
    open_prs ← reads (find_by_pr_state open_pr)
    _ ← close_missing discovered open_prs 0
    catch (transact (set_state now last_scan_completed_at now)) (λ _. return tt)
    return r

  unfoldable pub scan_now : T ScanResult
  unfolding scan_discovered
  scan_now = do
    catch (transact (set_state now last_scan_started_at now)) (λ _. return tt)
    catch (answer list_open_prs >>= scan_discovered) (λ _. return nothing_scanned)

  unfoldable pub scan : T ScanResult
  unfolding scan_now
  scan w =
      if is_too_early now (interval_sec * 1000) (get_state last_scan_completed_at w.db)
      then return nothing_scanned w
      else scan_now w
