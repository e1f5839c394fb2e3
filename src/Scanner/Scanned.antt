-- ===== src/Scanner/Scanned.antt =====
-- What a scan reports is registered as open when the scan is over.
use rabbit_maximizer.Prelude.{
  ℕ, ◌≡◌, refl, sym, ◌∙◌, String, Bool, true, false, Option, none, some, List, ◌==◌, ==_iff, ◌&&◌,
  str_eq, eq_iff, any, Bool-cases, inl, inr, arith,
}
use rabbit_maximizer.Domain.{open_pr}
use rabbit_maximizer.Schema.{PullRequest, Db}
use rabbit_maximizer.Store.{Result, ok, err}
use rabbit_maximizer.Queue.Rules.{Holds, failed, done, Holds-ok}
use rabbit_maximizer.PullRequests.Upsert.{
  UpsertPullRequestData, Upserted, upsert_pr, find_by_repo_and_pr,
}
use rabbit_maximizer.PullRequests.Upsert.Registered.{IsRegistered}
use rabbit_maximizer.PullRequests.Upsert.Found.{written, IsUpserted}
use rabbit_maximizer.PullRequests.Upsert.Others.{upsert_pr-others}
use rabbit_maximizer.PullRequests.Upsert.Written.{upsert_pr-IsUpserted}
use rabbit_maximizer.Discovery.{ScannedPr}
use rabbit_maximizer.Scanner.{DiscoveredPr}

-- The pull request is in the table, open, with this id.
abbrev pub IsOpenAs : Db → String → ℕ → ℕ → Type 0
IsOpenAs db repo pr id =
    (p : PullRequest) × (find_by_repo_and_pr repo pr db ≡ some p)
    × (p.id ≡ id)
    × (p.pr_state ≡ open_pr)

abbrev pub IsOpen : Db → ScannedPr → Type 0
IsOpen db sp = IsOpenAs db sp.repo_full_name sp.pr_number sp.pull_request_id

abbrev pub is_listed : List DiscoveredPr → String → ℕ → Bool
is_listed discovered repo pr =
    any (λ d. str_eq d.repo_full_name repo && d.pr_number == pr) discovered

-- What holds of every run that succeeds, for each `i`.
pub Holds-all :
    {I A : Type 0} {P : I → A → Db → Type 0} (x : Result (A × Db))
    → ((i : I) → Holds (P i) x)
    → Holds (λ a db. (i : I) → P i a db) x
Holds-all (err e) h = failed e
Holds-all (ok (a, db)) h = done a db (λ i. Holds-ok (h i) refl)

-- One upsert after another: both of what each keeps.
both :
    {A : Type 0} {P Q : A → Db → Type 0} (x : Result (A × Db))
    → Holds P x
    → Holds Q x
    → Holds (λ a db. P a db × Q a db) x
both x (failed e) k = failed e
both x (done a db p) k = done a db (p, Holds-ok k refl)

pub same_key :
    (repo : String) (pr : ℕ) (sp : ScannedPr)
    → (str_eq repo sp.repo_full_name && pr == sp.pr_number) ≡ true
    → (repo ≡ sp.repo_full_name) × (pr ≡ sp.pr_number)
same_key repo pr sp h =
    ((eq_iff repo sp.repo_full_name).0 (ground arith), (==_iff pr sp.pr_number).0 (ground arith))

module _ (now : ℕ) (uuid repo : String) (pr : ℕ) (d : UpsertPullRequestData) (db : Db) where
  patched-IsOpenAs :
      (id next : ℕ) (u : Upserted) (db' : Db)
      → d.pr_state ≡ open_pr
      → IsOpenAs db repo pr id
      → IsUpserted now uuid repo pr d next (find_by_repo_and_pr repo pr db) u db'
      → IsOpenAs db' repo pr id
  patched-IsOpenAs id next u db' o (p, f, i, _) k =
      (written now uuid repo pr d next (some p), k.0 ∙ rw f refl, i, o)

  reported-IsOpenAs :
      (next : ℕ) (old : Option PullRequest) (u : Upserted) (db' : Db)
      → d.pr_state ≡ open_pr
      → IsUpserted now uuid repo pr d next old u db'
      → IsOpenAs db' repo pr u.id
  reported-IsOpenAs next none u db' o k = (written now uuid repo pr d next none, k.0, sym k.1, o)
  reported-IsOpenAs next (some p) u db' o k =
      (written now uuid repo pr d next (some p), k.0, sym k.1, o)

  pub others-IsOpen :
      (sp : ScannedPr)
      → IsRegistered db
      → (str_eq repo sp.repo_full_name && pr == sp.pr_number) ≡ false
      → Holds (λ _ db'. IsOpen db sp → IsOpen db' sp) (upsert_pr now uuid repo pr d db)
  others-IsOpen sp v ne =
      moved _ (upsert_pr-others now uuid repo pr d sp.repo_full_name sp.pr_number ne db v)
    where
      moved :
          (x : Result (Upserted × Db))
          → Holds
              (λ _ db'.
                find_by_repo_and_pr sp.repo_full_name sp.pr_number db'
                ≡ find_by_repo_and_pr sp.repo_full_name sp.pr_number db)
              x
          → Holds (λ _ db'. IsOpen db sp → IsOpen db' sp) x
      moved x (failed e) = failed e
      moved x (done u db' same) = done u db' (λ (p, f, i, o). (p, same ∙ f, i, o))

  -- A pull request that is upserted as open, and all that were open before.
  pub upsert_pr-IsOpenAs :
      d.pr_state ≡ open_pr
      → IsRegistered db
      → Holds
          (λ u db'.
            IsRegistered db'
            × IsOpenAs db' repo pr u.id
            × ((sp : ScannedPr) → IsOpen db sp → IsOpen db' sp))
          (upsert_pr now uuid repo pr d db)
  upsert_pr-IsOpenAs o v =
      go _ (upsert_pr-IsUpserted now uuid repo pr d db v) (λ sp ne. others-IsOpen sp v ne)
    where
      go :
          (x : Result (Upserted × Db))
          → Holds (IsUpserted now uuid repo pr d db.next_pr_id (find_by_repo_and_pr repo pr db)) x
          → ((sp : ScannedPr)
              → (str_eq repo sp.repo_full_name && pr == sp.pr_number) ≡ false
              → Holds (λ _ db'. IsOpen db sp → IsOpen db' sp) x)
          → Holds
              (λ u db'.
                IsRegistered db'
                × IsOpenAs db' repo pr u.id
                × ((sp : ScannedPr) → IsOpen db sp → IsOpen db' sp))
              x
      go x (failed e) h = failed e
      go x (done u db' k) h = done u db' (
        k.4,
        reported-IsOpenAs db.next_pr_id _ u db' o k,
        λ sp q. elim (Bool-cases (str_eq repo sp.repo_full_name && pr == sp.pr_number)) [
          | inl e ↦
              let same = same_key repo pr sp e in
              rewritten sp same.0 same.1 (
                patched-IsOpenAs sp.pull_request_id db.next_pr_id u db' o
                  (before sp same.0 same.1 q) k)
          | inr e ↦ Holds-ok (h sp e) refl q
        ],
      )
        where
          rewritten :
              (sp : ScannedPr)
              → repo ≡ sp.repo_full_name
              → pr ≡ sp.pr_number
              → IsOpenAs db' repo pr sp.pull_request_id
              → IsOpen db' sp
          rewritten sp a b q = rw (sym a, sym b) q

          before :
              (sp : ScannedPr)
              → repo ≡ sp.repo_full_name
              → pr ≡ sp.pr_number
              → IsOpen db sp
              → IsOpenAs db repo pr sp.pull_request_id
          before sp a b q = rw (a, b) q
