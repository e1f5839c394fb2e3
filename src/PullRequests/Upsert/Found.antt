-- ===== src/PullRequests/Upsert/Found.antt =====
-- What an upsert leaves to be read, when it fails, and what it leaves alone.
use rabbit_maximizer.Prelude.{
  ℕ, suc, ◌<◌, ◌≡◌, refl, ◌∙◌, String, true, false, not, Option, none, some, List, [], ◌∷◌, ◌++◌,
  ==_iff, str_eq, eq_iff, ◌&&◌, any, find, is_some, All, All-append_one, Memᴰ, find-Memᴰ, any-Memᴰ,
  any-find-none, any-change, any-append_last, find-change, find-append_one, Bool-cases, inl, inr,
  arith,
}
use rabbit_maximizer.Schema.{PullRequest, PullRequestSha, Db}
use rabbit_maximizer.Store.{
  ◌>>◌, ◌>>=◌, ok, err, check_constraint_violation, with_prisma_error_handling,
}
use rabbit_maximizer.PullRequests.{has_pr_id, change_prs}
use rabbit_maximizer.PullRequests.Upsert.{
  UpsertPullRequestData, is_pr, patch_pr, new_pr, dates_ok, commit_prs, update_found, create_pr,
  is_observation, new_observation, upsert_sha, touch_observation, add_observation,
  record_sha_observation, Upserted, or_column, upsert_found_pr, find_by_repo_and_pr, upsert_pr,
}
use rabbit_maximizer.PullRequests.Upsert.Registered.{
  IsRegistered, change-keys, change-fresh, change-dates, change-violates, All-same_id, append-keys,
  append-dates,
}

-- The head that is given is in the history of the pull request.
abbrev pub IsObserved : ℕ → Option String → Db → Type 0
IsObserved id none db = Unit {0}
IsObserved id (some sha) db = any (is_observation id sha) db.pull_request_sha ≡ true

-- Only the history of heads may have changed.
abbrev pub SamePullRequests : Db → Db → Type 0
SamePullRequests db db' = (db'.pull_request ≡ db.pull_request) × (db'.next_pr_id ≡ db.next_pr_id)

pub observed :
    (now id : ℕ) (sha : Option String) (db : Db)
    → (db' : Db) × (record_sha_observation now id sha db ≡ ok (tt, db'))
      × IsObserved id sha db'
      × SamePullRequests db db'
unfolding record_sha_observation
observed now id none db = (db, refl, tt, (refl, refl))
observed now id (some sha) db =
    elim (Bool-cases (any (is_observation id sha) db.pull_request_sha)) [
      | inl e ↦ (
        touch_observation now id sha db,
        rw (with_prisma_error_handling, upsert_sha, e) refl,
        any-change (is_observation id sha) (λ o. record o { last_observed_at = now })
              (is_observation id sha) (λ o. refl) db.pull_request_sha
            ∙ e,
        (refl, refl),
      )
      | inr e ↦ (
        add_observation now id sha db,
        rw (with_prisma_error_handling, upsert_sha, e) refl,
        any-append_last (is_observation id sha) db.pull_request_sha
            (new_observation now id sha db.next_sha_id)
            (self (new_observation now id sha db.next_sha_id)),
        (refl, refl),
      )
    ]
  where
    self : (o : PullRequestSha) → is_observation o.pull_request_id o.sha o ≡ true
    self o = ground (arith, eq_iff o.sha o.sha)

pub IsRegistered-same : (db db' : Db) → SamePullRequests db db' → IsRegistered db → IsRegistered db'
IsRegistered-same db db' (rows, next) v = record {
  keys = rw rows v.keys;
  dates = rw rows v.dates;
  fresh = rw (rows, next) v.fresh;
}

pub self_pr : (p : PullRequest) → is_pr p.repo_full_name p.pr_number p ≡ true
self_pr p = ground (arith, eq_iff p.repo_full_name p.repo_full_name)

pub weaken_fresh :
    (n : ℕ) (rows : List PullRequest) → All (λ r. r.id < n) rows → All (λ r. r.id < suc n) rows
weaken_fresh n [] h = tt
weaken_fresh n (x ∷ xs) h = (omega (arith, h.0), weaken_fresh n xs h.1)

pub below_suc : (n : ℕ) → n < suc n
below_suc n = omega arith

module _ (now : ℕ) (uuid repo : String) (pr : ℕ) (d : UpsertPullRequestData) where
  -- The row that an upsert writes.
  abbrev pub written : ℕ → Option PullRequest → PullRequest
  written next (some existing) = patch_pr now d existing
  written next none = new_pr now uuid repo pr d next

  -- The statement on the table of pull requests, before the observation of the head.
  updated_table :
      (db : Db) (existing : PullRequest)
      → IsRegistered db
      → find_by_repo_and_pr repo pr db ≡ some existing
      → dates_ok (patch_pr now d existing) ≡ true
      → let rows = change_prs (has_pr_id existing.id) (patch_pr now d) db.pull_request in
        (update_found now d existing.id db ≡ ok (tt, record db { pull_request = rows }))
        × IsRegistered (record db { pull_request = rows })
        × (find (is_pr repo pr) rows ≡ some (patch_pr now d existing))
  unfolding update_found
  updated_table db existing v f k =
      let m = find-Memᴰ (is_pr repo pr) db.pull_request existing f in
      let id_ok = (==_iff existing.id existing.id).1 refl in
      let here = any-Memᴰ (has_pr_id existing.id) db.pull_request m.0 id_ok in
      let keys = change-keys now d existing.id db.pull_request v.keys in
      let dates = change-dates now d existing.id db.pull_request v.dates (
        All-same_id (λ r. dates_ok (patch_pr now d r) ≡ true) db.pull_request existing v.keys m.0
          k) in
      (
        rw (here, commit_prs, dates, keys) refl,
        record {
          keys = keys;
          dates = dates;
          fresh = change-fresh now d existing.id db.next_pr_id db.pull_request v.fresh;
        },
        find-change (has_pr_id existing.id) (patch_pr now d) (is_pr repo pr) (λ a. refl)
            db.pull_request existing f id_ok,
      )

  created_table :
      (db : Db)
      → IsRegistered db
      → find_by_repo_and_pr repo pr db ≡ none
      → any (λ r. str_eq r.uuid uuid) db.pull_request ≡ false
      → dates_ok (new_pr now uuid repo pr d db.next_pr_id) ≡ true
      → let p = new_pr now uuid repo pr d db.next_pr_id in
        let db' = record db {
          pull_request = db.pull_request ++ p ∷ [];
          next_pr_id = suc db.next_pr_id;
        } in
        (create_pr now uuid repo pr d db ≡ ok (db.next_pr_id, db'))
        × IsRegistered db'
        × (find (is_pr repo pr) db'.pull_request ≡ some p)
  unfolding create_pr
  created_table db v f u k =
      let p = new_pr now uuid repo pr d db.next_pr_id in
      let keys =
        append-keys db.pull_request p v.keys v.fresh u
          (any-find-none (is_pr repo pr) db.pull_request f) in
      let dates = append-dates db.pull_request p v.dates ∙ rw k refl in
      (
        rw (commit_prs, dates, keys) refl,
        record {
          keys = keys;
          dates = dates;
          fresh =
              All-append_one (λ r. r.id < suc db.next_pr_id) db.pull_request p
                (weaken_fresh db.next_pr_id db.pull_request v.fresh) (below_suc db.next_pr_id);
        },
        find-append_one (is_pr repo pr) db.pull_request p f ∙ rw (self_pr p) refl,
      )

  -- What an upsert promises that found the row `old`, or none, and would give a new row the id `next`.
  abbrev pub IsUpserted : ℕ → Option PullRequest → Upserted → Db → Type 0
  IsUpserted next old u db' =
      (find_by_repo_and_pr repo pr db' ≡ some (written next old))
      × (u.id ≡ (written next old).id)
      × (u.created ≡ not (is_some old))
      × IsObserved u.id d.head_sha db'
      × IsRegistered db'

  upsert_found_pr-find :
      (db : Db) (old : Option PullRequest)
      → IsRegistered db
      → any (λ r. str_eq r.uuid uuid) db.pull_request ≡ false
      → find_by_repo_and_pr repo pr db ≡ old
      → dates_ok (written db.next_pr_id old) ≡ true
      → (u : Upserted) × (db' : Db) × (upsert_found_pr now uuid repo pr d old db ≡ ok (u, db'))
        × IsUpserted db.next_pr_id old u db'
  unfolding upsert_found_pr with_prisma_error_handling
  upsert_found_pr-find db none v fresh f k =
      let t = created_table db v f fresh k in
      let p = new_pr now uuid repo pr d db.next_pr_id in
      let next = record db {
        pull_request = db.pull_request ++ p ∷ [];
        next_pr_id = suc db.next_pr_id;
      } in
      let o = observed now db.next_pr_id d.head_sha next in
      (
        record { id = db.next_pr_id; created = true },
        o.0,
        rw (t.0, ◌>>=◌, o.1) refl,
        (rw o.3.0 t.2, refl, refl, o.2, IsRegistered-same next o.0 o.3 t.1),
      )
  upsert_found_pr-find db (some existing) v fresh f k =
      let t = updated_table db existing v f k in
      let next = record db {
        pull_request = change_prs (has_pr_id existing.id) (patch_pr now d) db.pull_request;
      } in
      let o = observed now existing.id d.head_sha next in
      (
        record { id = existing.id; created = false },
        o.0,
        rw (◌>>=◌, with_prisma_error_handling, t.0, o.1) refl,
        (rw o.3.0 t.2, refl, refl, o.2, IsRegistered-same next o.0 o.3 t.1),
      )

  -- Where the table of pull requests is in order, the new uuid is unused and the row to be
  -- written has no two closing dates, an upsert succeeds; the pull request then reads as the
  -- patched row that was there, or as the new one, under the id that it answers with whether it
  -- was created, the given head is in its history, and the table is in order again.
  pub upsert_pr-find :
      (db : Db)
      → IsRegistered db
      → any (λ r. str_eq r.uuid uuid) db.pull_request ≡ false
      → dates_ok (written db.next_pr_id (find_by_repo_and_pr repo pr db)) ≡ true
      → (u : Upserted) × (db' : Db) × (upsert_pr now uuid repo pr d db ≡ ok (u, db'))
        × IsUpserted db.next_pr_id (find_by_repo_and_pr repo pr db) u db'
  unfolding upsert_pr
  upsert_pr-find db v fresh k =
      upsert_found_pr-find db (find_by_repo_and_pr repo pr db) v fresh refl k

  violated :
      (m m' c c' : Option ℕ)
      → is_some m ≡ true
      → is_some c' ≡ true
      → not (is_some (or_column m m') && is_some (or_column c c')) ≡ false
  violated (some _) m' (some _) c' h k = refl
  violated (some _) m' none (some _) h k = refl
  violated (some _) m' none none h k = absurd (cc)
  violated none m' c c' h k = absurd (cc)

  update_found-reopened :
      (db : Db) (existing : PullRequest)
      → Memᴰ existing db.pull_request
      → is_some existing.closed_at ≡ true
      → is_some d.merged_at ≡ true
      → update_found now d existing.id db ≡ err check_constraint_violation
  unfolding update_found commit_prs
  update_found-reopened db existing m c h =
      let here =
        any-Memᴰ (has_pr_id existing.id) db.pull_request m
          ((==_iff existing.id existing.id).1 refl) in
      let bad =
        change-violates now d existing db.pull_request m
          (violated d.merged_at existing.merged_at d.closed_at existing.closed_at h c) in
      rw (here, bad) refl

  -- Where the row of the pull request has the date of a closing and the data has the date of a
  -- merge, the upsert fails with the violation of the CHECK on the two dates.
  pub upsert_pr-reopened :
      (db : Db) (existing : PullRequest)
      → find_by_repo_and_pr repo pr db ≡ some existing
      → is_some existing.closed_at ≡ true
      → is_some d.merged_at ≡ true
      → upsert_pr now uuid repo pr d db ≡ err check_constraint_violation
  unfolding upsert_pr upsert_found_pr with_prisma_error_handling
  upsert_pr-reopened db existing f c m =
      let k = find-Memᴰ (is_pr repo pr) db.pull_request existing f in
      let refused = update_found-reopened db existing k.0 c m in
      rw (f, upsert_found_pr, ◌>>◌, ◌>>=◌, with_prisma_error_handling, refused) refl
