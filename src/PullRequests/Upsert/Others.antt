-- ===== src/PullRequests/Upsert/Others.antt =====
-- An upsert leaves alone what is read of every other pull request.
use rabbit_maximizer.Prelude.{
  ℕ, ◌≡◌, refl, String, true, false, not, Option, none, some, List, [], ◌∷◌, ◌++◌, ◌==◌, str_eq,
  eq_iff, ◌&&◌, any, find-Memᴰ, find-change_other, find-append_other, Bool-cases, inl, inr, arith,
}
use rabbit_maximizer.Schema.{PullRequest, Db}
use rabbit_maximizer.Store.{◌>>=◌, ok, with_prisma_error_handling}
use rabbit_maximizer.Queue.Rules.{Holds, failed, done, Holds-bind, Holds-typed}
use rabbit_maximizer.PullRequests.{has_pr_id, change_prs}
use rabbit_maximizer.PullRequests.Upsert.{
  UpsertPullRequestData, is_pr, patch_pr, new_pr, dates_ok, pr_keys_ok, commit_prs, update_found,
  create_pr, record_sha_observation, Upserted, upsert_found_pr, find_by_repo_and_pr, upsert_pr,
}
use rabbit_maximizer.PullRequests.Upsert.Registered.{IsRegistered, All-same_id}
use rabbit_maximizer.PullRequests.Upsert.Found.{SamePullRequests, observed}

pub Holds-commit_prs :
    {P : Unit {0} → Db → Type 0} (rows : List PullRequest) (db : Db)
    → (any (λ p. not (dates_ok p)) rows ≡ false
        → pr_keys_ok rows ≡ true
        → P tt (record db { pull_request = rows }))
    → Holds P (commit_prs rows db)
unfolding commit_prs
Holds-commit_prs rows db h = elim (Bool-cases (any (λ p. not (dates_ok p)) rows)) [
  | inl e ↦ rw e (failed _)
  | inr e ↦ elim (Bool-cases (pr_keys_ok rows)) [
    | inl k ↦ rw (e, k) (done _ _ (h e k))
    | inr k ↦ rw (e, k) (failed _)
  ]
]

pub Holds-observation :
    (now id : ℕ) (sha : Option String) (db : Db)
    → Holds (λ _ db'. SamePullRequests db db') (record_sha_observation now id sha db)
Holds-observation now id sha db = let o = observed now id sha db in rw o.1 (done tt o.0 o.3)

module _ (now : ℕ) (uuid repo : String) (pr : ℕ) (d : UpsertPullRequestData) (repo' : String)
    (pr' : ℕ) (ne : (str_eq repo repo' && pr == pr') ≡ false) where
  abbrev Reads : Db → Db → Type 0
  Reads db db' = find_by_repo_and_pr repo' pr' db' ≡ find_by_repo_and_pr repo' pr' db

  other_pr : (p : PullRequest) → is_pr repo pr p ≡ true → is_pr repo' pr' p ≡ false
  other_pr p h =
      ground (arith, eq_iff p.repo_full_name repo, eq_iff p.repo_full_name repo', eq_iff repo repo')

  observation-Reads :
      (id : ℕ) (db db' : Db) (u : Upserted)
      → Reads db db'
      → Holds (λ _. Reads db) ((record_sha_observation now id d.head_sha >>= λ _ z. ok (u, z)) db')
  observation-Reads id db db' u r =
      Holds-bind (record_sha_observation now id d.head_sha) (λ _ z. ok (u, z)) db'
        (Holds-observation now id d.head_sha db') (λ _ z same. done u z (rw same.0 r))

  create_pr-Reads :
      (db : Db)
      → find_by_repo_and_pr repo pr db ≡ none
      → Holds (λ _. Reads db) (create_pr now uuid repo pr d db)
  unfolding create_pr
  create_pr-Reads db f =
      let p = new_pr now uuid repo pr d db.next_pr_id in
      Holds-bind {P = λ _. Reads db} (commit_prs (db.pull_request ++ p ∷ [])) _ db
        (Holds-commit_prs (db.pull_request ++ p ∷ []) db
          (λ _ _. find-append_other (is_pr repo' pr') db.pull_request p ne))
        (λ _ db' r. done _ _ r)

  update_found-Reads :
      (db : Db) (existing : PullRequest)
      → IsRegistered db
      → find_by_repo_and_pr repo pr db ≡ some existing
      → Holds (λ _. Reads db) (update_found now d existing.id db)
  unfolding update_found
  update_found-Reads db existing v f =
      let k = find-Memᴰ (is_pr repo pr) db.pull_request existing f in
      let rows = change_prs (has_pr_id existing.id) (patch_pr now d) db.pull_request in
      let same =
        find-change_other (has_pr_id existing.id) (patch_pr now d) (is_pr repo' pr') (λ a. refl)
          db.pull_request
          (All-same_id (λ r. is_pr repo' pr' r ≡ false) db.pull_request existing v.keys k.0
            (other_pr existing k.1)) in
      elim (Bool-cases (any (has_pr_id existing.id) db.pull_request)) [
        | inl e ↦ rw e (Holds-commit_prs rows db (λ _ _. same))
        | inr e ↦ rw e (failed _)
      ]

  upsert_found_pr-Reads :
      (db : Db) (old : Option PullRequest)
      → IsRegistered db
      → find_by_repo_and_pr repo pr db ≡ old
      → Holds (λ _. Reads db) (upsert_found_pr now uuid repo pr d old db)
  unfolding upsert_found_pr
  upsert_found_pr-Reads db none v f =
      Holds-bind {P = λ _. Reads db} (create_pr now uuid repo pr d) _ db (create_pr-Reads db f)
        (λ id db' r. observation-Reads id db db' (record { id = id; created = true }) r)
  upsert_found_pr-Reads db (some existing) v f =
      Holds-bind {P = λ _. Reads db} (with_prisma_error_handling (update_found now d existing.id)) _
        db (Holds-typed _ db (update_found-Reads db existing v f))
        (λ _ db' r.
          observation-Reads existing.id db db' (record { id = existing.id; created = false }) r)

  -- Where the table of pull requests is in order, every other pull request reads after an
  -- upsert that succeeds as it did before.
  pub upsert_pr-others :
      (db : Db)
      → IsRegistered db
      → Holds
          (λ _ db'. find_by_repo_and_pr repo' pr' db' ≡ find_by_repo_and_pr repo' pr' db)
          (upsert_pr now uuid repo pr d db)
  unfolding upsert_pr
  upsert_pr-others db v = upsert_found_pr-Reads db (find_by_repo_and_pr repo pr db) v refl
