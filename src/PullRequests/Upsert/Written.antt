-- ===== src/PullRequests/Upsert/Written.antt =====
-- Every upsert that succeeds keeps what it promises.
use rabbit_maximizer.Prelude.{
  suc, true, false, ◌<◌, ◌≡◌, refl, ◌∙◌, ℕ, String, not, Option, none, some, [], ◌∷◌, ◌++◌, any,
  is_some, All-append_one, find-change, find-append_one, ==_iff, Bool-cases, inl, inr,
}
use rabbit_maximizer.Schema.{PullRequest, Db}
use rabbit_maximizer.Store.{◌>>=◌, ok, with_prisma_error_handling}
use rabbit_maximizer.Queue.Rules.{Holds, failed, done, Holds-bind, Holds-typed}
use rabbit_maximizer.PullRequests.{has_pr_id}
use rabbit_maximizer.PullRequests.Upsert.{
  UpsertPullRequestData, is_pr, patch_pr, new_pr, commit_prs, update_found, create_pr,
  record_sha_observation, Upserted, upsert_found_pr, find_by_repo_and_pr, upsert_pr,
}
use rabbit_maximizer.PullRequests.Upsert.Registered.{IsRegistered, change-fresh}
use rabbit_maximizer.PullRequests.Upsert.Found.{
  IsUpserted, IsRegistered-same, observed, written, self_pr, weaken_fresh, below_suc,
}
use rabbit_maximizer.PullRequests.Upsert.Others.{Holds-commit_prs}

module _ (now : ℕ) (uuid repo : String) (pr : ℕ) (d : UpsertPullRequestData) where
  -- The table after the statement on it, before the observation of the head.
  abbrev IsWritten : ℕ → Option PullRequest → Db → Type 0
  IsWritten next old db =
      (find_by_repo_and_pr repo pr db ≡ some (written now uuid repo pr d next old))
      × IsRegistered db

  update_found-IsWritten :
      (db : Db) (existing : PullRequest)
      → IsRegistered db
      → find_by_repo_and_pr repo pr db ≡ some existing
      → Holds (λ _. IsWritten db.next_pr_id (some existing)) (update_found now d existing.id db)
  unfolding update_found
  update_found-IsWritten db existing v f =
      elim (Bool-cases (any (has_pr_id existing.id) db.pull_request)) [
        | inl e ↦ rw e (
            Holds-commit_prs _ db (λ dates keys. (
              find-change (has_pr_id existing.id) (patch_pr now d) (is_pr repo pr) (λ a. refl)
                  db.pull_request existing f ((==_iff existing.id existing.id).1 refl),
              record {
                keys = keys;
                dates = dates;
                fresh = change-fresh now d existing.id db.next_pr_id db.pull_request v.fresh;
              },
            )))
        | inr e ↦ rw e (failed _)
      ]

  create_pr-IsWritten :
      (db : Db)
      → IsRegistered db
      → find_by_repo_and_pr repo pr db ≡ none
      → Holds
          (λ id db'. (id ≡ db.next_pr_id) × IsWritten db.next_pr_id none db')
          (create_pr now uuid repo pr d db)
  unfolding create_pr
  create_pr-IsWritten db v f =
      let p = new_pr now uuid repo pr d db.next_pr_id in
      Holds-bind
        {P = λ _ z.
          (z ≡ record db { pull_request = db.pull_request ++ p ∷ [] })
          × IsWritten db.next_pr_id none (record z { next_pr_id = suc db.next_pr_id })}
        (commit_prs (db.pull_request ++ p ∷ [])) _ db
        (Holds-commit_prs _ db (λ dates keys. (
          refl,
          (
            find-append_one (is_pr repo pr) db.pull_request p f ∙ rw (self_pr p) refl,
            record {
              keys = keys;
              dates = dates;
              fresh =
                  All-append_one (λ r. r.id < suc db.next_pr_id) db.pull_request p
                    (weaken_fresh db.next_pr_id db.pull_request v.fresh) (below_suc db.next_pr_id);
            },
          ),
        )))
        (λ _ z k. done _ _ (refl, k.1))

  observation-IsUpserted :
      (next : ℕ) (old : Option PullRequest) (db : Db) (u : Upserted)
      → u.id ≡ (written now uuid repo pr d next old).id
      → u.created ≡ not (is_some old)
      → IsWritten next old db
      → Holds
          (λ u db'. IsUpserted now uuid repo pr d next old u db')
          ((record_sha_observation now u.id d.head_sha >>= λ _ z. ok (u, z)) db)
  observation-IsUpserted next old db u i c k =
      let o = observed now u.id d.head_sha db in
      rw (◌>>=◌, o.1) (done u o.0 (rw o.3.0 k.0, i, c, o.2, IsRegistered-same db o.0 o.3 k.1))

  upsert_found_pr-IsUpserted :
      (db : Db) (old : Option PullRequest)
      → IsRegistered db
      → find_by_repo_and_pr repo pr db ≡ old
      → Holds
          (λ u db'. IsUpserted now uuid repo pr d db.next_pr_id old u db')
          (upsert_found_pr now uuid repo pr d old db)
  unfolding upsert_found_pr
  upsert_found_pr-IsUpserted db none v f =
      Holds-bind (create_pr now uuid repo pr d) _ db (create_pr-IsWritten db v f) (λ id db' k.
        observation-IsUpserted db.next_pr_id none db' (record { id = id; created = true }) k.0 refl
          k.1)
  upsert_found_pr-IsUpserted db (some existing) v f =
      Holds-bind (with_prisma_error_handling (update_found now d existing.id)) _ db
        (Holds-typed _ db (update_found-IsWritten db existing v f))
        (λ _ db' k.
          observation-IsUpserted db.next_pr_id (some existing) db'
            (record { id = existing.id; created = false }) refl refl k)

  pub upsert_pr-IsUpserted :
      (db : Db)
      → IsRegistered db
      → Holds
          (λ u db'.
            IsUpserted now uuid repo pr d db.next_pr_id (find_by_repo_and_pr repo pr db) u db')
          (upsert_pr now uuid repo pr d db)
  unfolding upsert_pr
  upsert_pr-IsUpserted db v = upsert_found_pr-IsUpserted db (find_by_repo_and_pr repo pr db) v refl
