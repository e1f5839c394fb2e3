-- ===== src/Scanner/State.antt =====
-- What a scan keeps of the system state, apart from the dates of the scan itself.
use rabbit_maximizer.Prelude.{
  ℕ, suc, ◌+◌, ◌*◌, ◌≡◌, refl, String, Option, none, some, List, [], ◌∷◌, ◌++◌, any, is_some,
  Bool-cases, inl, inr, opt_str_eq, ◌&&◌,
}
use rabbit_maximizer.Domain.{PrState, open_pr}
use rabbit_maximizer.Schema.{PullRequest, Db}
use rabbit_maximizer.Store.{ok, with_prisma_error_handling}
use rabbit_maximizer.Queue.Rules.{failed, done, Holds-bind, Holds-typed}
use rabbit_maximizer.PullRequests.{has_pr_id, change_prs}
use rabbit_maximizer.Service.{◌>>=◌, return, transact, catch, answer}
use rabbit_maximizer.Reviews.Kept.{
  KeepsM, KeepsT, bind-KeepsM, bind-KeepsT, transact-KeepsT, catch-KeepsT, answer-KeepsT, if-KeepsT,
}
use rabbit_maximizer.SystemState.{
  get_state, set_state, last_scan_started_at, last_scan_completed_at,
}
use rabbit_maximizer.PullRequests.Upsert.{
  UpsertPullRequestData, commit_prs, update_found, create_pr, record_sha_observation, upsert_sha,
  is_observation, upsert_found_pr, new_pr, patch_pr, find_by_repo_and_pr, find_by_pr_state,
  upsert_pr,
}
use rabbit_maximizer.PullRequests.Upsert.Others.{Holds-commit_prs}
use rabbit_maximizer.Github.Text.{RepoName, split_repo, pr_state_from_github_value}
use rabbit_maximizer.Scanner.{
  DiscoveredPr, GithubState, ScanSetting, ScanResult, nothing_scanned, is_too_early, open_data,
  tally, is_discovered, is_closed_state, upsert_at, head_committed_at, head_of, register_named,
  register, register_all, close_by_state, known_state, close, close_missing, scan_discovered,
  scan_now, scan,
}

module _ (P : Db → Type 0)
    (k : (db db' : Db) → db'.system_state ≡ db.system_state → P db → P db') where
  commit_prs-KeepsM : (rows : List PullRequest) → KeepsM P (commit_prs rows)
  commit_prs-KeepsM rows db q = Holds-commit_prs rows db (λ _ _. k db _ refl q)

  observation-KeepsM :
      (now id : ℕ) (sha : Option String) → KeepsM P (record_sha_observation now id sha)
  unfolding record_sha_observation upsert_sha
  observation-KeepsM now id none db q = done _ _ q
  observation-KeepsM now id (some sha) db q =
      Holds-typed (upsert_sha now id sha) db
        (elim (Bool-cases (any (is_observation id sha) db.pull_request_sha)) [
          | inl e ↦ rw e (done _ _ (k db _ refl q))
          | inr e ↦ rw e (done _ _ (k db _ refl q))
        ])

  module _ (now : ℕ) (uuid repo : String) (pr : ℕ) (d : UpsertPullRequestData) where
    create_pr-KeepsM : KeepsM P (create_pr now uuid repo pr d)
    unfolding create_pr
    create_pr-KeepsM db q =
        let rows = db.pull_request ++ new_pr now uuid repo pr d db.next_pr_id ∷ [] in
        Holds-bind {P = λ _. P} (commit_prs rows)
          (λ _ db'. ok (db.next_pr_id, record db' { next_pr_id = suc db.next_pr_id })) db
          (commit_prs-KeepsM rows db q) (λ _ db' p. done _ _ (k db' _ refl p))

    update_found-KeepsM : (id : ℕ) → KeepsM P (update_found now d id)
    unfolding update_found
    update_found-KeepsM id db q = elim (Bool-cases (any (has_pr_id id) db.pull_request)) [
      | inl e ↦
          rw e (commit_prs-KeepsM (change_prs (has_pr_id id) (patch_pr now d) db.pull_request) db q)
      | inr e ↦ rw e (failed _)
    ]

    found-KeepsM : (old : Option PullRequest) → KeepsM P (upsert_found_pr now uuid repo pr d old)
    unfolding upsert_found_pr
    found-KeepsM none = bind-KeepsM P (create_pr now uuid repo pr d) _ create_pr-KeepsM (λ id.
        bind-KeepsM P (record_sha_observation now id d.head_sha) _
          (observation-KeepsM now id d.head_sha) (λ _ db q. done _ _ q))
    found-KeepsM (some old) =
        bind-KeepsM P (with_prisma_error_handling (update_found now d old.id)) _
          (λ db q. Holds-typed _ db (update_found-KeepsM old.id db q))
          (λ _.
            bind-KeepsM P (record_sha_observation now old.id d.head_sha) _
              (observation-KeepsM now old.id d.head_sha) (λ _ db q. done _ _ q))

    pub upsert_pr-KeepsM : KeepsM P (upsert_pr now uuid repo pr d)
    unfolding upsert_pr
    upsert_pr-KeepsM db q = found-KeepsM (find_by_repo_and_pr repo pr db) db q

  module _ (s : ScanSetting) (started : KeepsM P (set_state s.now last_scan_started_at s.now))
      (completed : KeepsM P (set_state s.now last_scan_completed_at s.now)) where
    open s use {now, interval_sec, new_uuid}

    upsert_at-KeepsT :
        (repo : String) (pr : ℕ) (d : UpsertPullRequestData) → KeepsT P (upsert_at s repo pr d)
    upsert_at-KeepsT repo pr d =
        transact-KeepsT P _ (upsert_pr-KeepsM now (new_uuid repo pr) repo pr d)

    committed_at-KeepsT :
        (name : RepoName) (old : Option PullRequest) (head : String)
        → KeepsT P (head_committed_at s name old head)
    unfolding head_committed_at
    committed_at-KeepsT name old head =
        if-KeepsT P (opt_str_eq (head_of old) (some head)) (return none) _ (λ w q. q)
          (bind-KeepsT P (answer (s.get_commit_committed_at name head)) _ (answer-KeepsT P _)
            (λ t w q. q))

    named-KeepsT :
        (pr : DiscoveredPr) (name : Option RepoName) → KeepsT P (register_named s pr name)
    unfolding register_named
    named-KeepsT pr none = λ w q. q
    named-KeepsT pr (some name) =
        bind-KeepsT P (answer (s.get_pr_head_sha name pr.pr_number)) _ (answer-KeepsT P _)
          (λ head w q.
            bind-KeepsT P
              (head_committed_at s name (find_by_repo_and_pr pr.repo_full_name pr.pr_number w.db)
                head)
              _
              (committed_at-KeepsT name (find_by_repo_and_pr pr.repo_full_name pr.pr_number w.db)
                head)
              (λ t. upsert_at-KeepsT pr.repo_full_name pr.pr_number (open_data pr head t)) w q)

    register_all-KeepsT :
        (prs : List DiscoveredPr) (r : ScanResult) → KeepsT P (register_all s prs r)
    unfolding register_all register
    register_all-KeepsT [] r = λ w q. q
    register_all-KeepsT (pr ∷ prs) r =
        bind-KeepsT P (catch (register s pr >>= λ u. return (tally pr u r)) (λ _. return r)) _
          (catch-KeepsT P r (register s pr >>= λ u. return (tally pr u r)) (
            bind-KeepsT P (register s pr) _ (named-KeepsT pr (split_repo pr.repo_full_name))
              (λ u w q. q)))
          (register_all-KeepsT prs)

    close_by_state-KeepsT : (p : PullRequest) (g : GithubState) → KeepsT P (close_by_state s p g)
    unfolding close_by_state
    close_by_state-KeepsT p g =
        if-KeepsT P (is_closed_state g && is_some g.merged_at) _ _ (closed_as _)
          (if-KeepsT P (is_closed_state g) _ _ (closed_as _) (λ w q. q))
      where
        closed_as :
            (d : UpsertPullRequestData)
            → KeepsT P (upsert_at s p.repo_full_name p.pr_number d >>= λ _. return {A = ℕ} 1)
        closed_as d =
            bind-KeepsT P (upsert_at s p.repo_full_name p.pr_number d) _
              (upsert_at-KeepsT p.repo_full_name p.pr_number d) (λ u w q. q)

    close-KeepsT : (p : PullRequest) → KeepsT P (close s p)
    unfolding close
    close-KeepsT p =
        bind-KeepsT P (answer (s.get_pr_state p.repo_full_name p.pr_number)) _ (answer-KeepsT P _)
          (λ g.
            bind-KeepsT P (known_state s g (pr_state_from_github_value g.state)) _
              (known g (pr_state_from_github_value g.state)) (λ _. close_by_state-KeepsT p g))
      where
        known : (g : GithubState) (st : Option PrState) → KeepsT P (known_state s g st)
        known g none w q = q
        known g (some st) w q = q

    close_missing-KeepsT :
        (discovered : List DiscoveredPr) (ps : List PullRequest) (n : ℕ)
        → KeepsT P (close_missing s discovered ps n)
    unfolding close_missing
    close_missing-KeepsT discovered [] n = λ w q. q
    close_missing-KeepsT discovered (p ∷ ps) n =
        bind-KeepsT P _ _
          (if-KeepsT P (is_discovered discovered p) (return n) _ (λ w q. q)
            (catch-KeepsT P n (close s p >>= λ m. return (n + m))
              (bind-KeepsT P (close s p) _ (close-KeepsT p) (λ m w q. q))))
          (close_missing-KeepsT discovered ps)

    scan_discovered-KeepsT :
        (discovered : List DiscoveredPr) → KeepsT P (scan_discovered s discovered)
    unfolding scan_discovered
    scan_discovered-KeepsT discovered =
        bind-KeepsT P (register_all s discovered nothing_scanned) _
          (register_all-KeepsT discovered nothing_scanned)
          (λ r w q.
            bind-KeepsT P (close_missing s discovered (find_by_pr_state open_pr w.db) 0) _
              (close_missing-KeepsT discovered (find_by_pr_state open_pr w.db) 0)
              (λ n.
                bind-KeepsT P
                  (catch (transact (set_state now last_scan_completed_at now)) (λ _. return tt)) _
                  (catch-KeepsT P tt (transact (set_state now last_scan_completed_at now))
                    (transact-KeepsT P _ completed))
                  (λ _ w q. q))
              w q)

    scan_now-KeepsT : KeepsT P (scan_now s)
    unfolding scan_now
    scan_now-KeepsT =
        bind-KeepsT P (catch (transact (set_state now last_scan_started_at now)) (λ _. return tt)) _
          (catch-KeepsT P tt (transact (set_state now last_scan_started_at now))
            (transact-KeepsT P _ started))
          (λ _. catch-KeepsT P nothing_scanned (answer s.list_open_prs >>= scan_discovered s) (
            bind-KeepsT P (answer s.list_open_prs) (scan_discovered s) (answer-KeepsT P _)
              scan_discovered-KeepsT))

    pub scan-KeepsT : KeepsT P (scan s)
    unfolding scan
    scan-KeepsT w q =
        elim (Bool-cases
          (is_too_early now (interval_sec * 1000) (get_state last_scan_completed_at w.db))) [
            | inl e ↦ rw e q
            | inr e ↦ rw e (scan_now-KeepsT w q)
          ]
