-- ===== src/Scanner/Steps.antt =====
-- What the registration and the closing of one pull request leave.
use rabbit_maximizer.Prelude.{
  ℕ, ◌≡◌, refl, sym, ◌∙◌, String, Bool, true, false, Option, none, some, List, ◌==◌, ◌&&◌, str_eq,
  is_some, opt_str_eq, Bool-cases, inl, inr,
}
use rabbit_maximizer.Domain.{PrState}
use rabbit_maximizer.Schema.{PullRequest, Db}
use rabbit_maximizer.Store.{Result, ok, err}
use rabbit_maximizer.Queue.Rules.{Holds, failed, done, Holds-ok}
use rabbit_maximizer.PullRequests.Upsert.{
  UpsertPullRequestData, Upserted, upsert_pr, find_by_repo_and_pr,
}
use rabbit_maximizer.PullRequests.Upsert.Registered.{IsRegistered}
use rabbit_maximizer.PullRequests.Upsert.Found.{IsUpserted}
use rabbit_maximizer.PullRequests.Upsert.Written.{upsert_pr-IsUpserted}
use rabbit_maximizer.Github.Text.{RepoName, split_repo, pr_state_from_github_value}
use rabbit_maximizer.Service.{Response, answered, refused, World, continue, ◌>>=◌, return, answer}
use rabbit_maximizer.Discovery.{ScannedPr}
use rabbit_maximizer.Scanner.Scanned.{
  IsOpen, is_listed, same_key, others-IsOpen, upsert_pr-IsOpenAs,
}
use rabbit_maximizer.Scanner.Runs.{Ends, after_pure, answer-same, transact-Ends}
use rabbit_maximizer.Scanner.{
  DiscoveredPr, GithubState, ScanSetting, open_data, scanned_of, is_closed_state, upsert_at,
  head_committed_at, register_named, register, close_by_state, close, known_state, head_of,
}

module _ (s : ScanSetting) (discovered : List DiscoveredPr) where
  open s use {now, new_uuid}

  -- The pull requests of GitHub's list that were open stay open.
  abbrev pub Stays : Db → Db → Type 0
  Stays db db' =
      (sp : ScannedPr)
      → is_listed discovered sp.repo_full_name sp.pr_number ≡ true
      → IsOpen db sp
      → IsOpen db' sp

  abbrev pub Steps : Db → Db → Type 0
  Steps db db' = IsRegistered db' × Stays db db'

  closing-Steps :
      (repo : String) (pr : ℕ) (d : UpsertPullRequestData) (db : Db)
      → IsRegistered db
      → is_listed discovered repo pr ≡ false
      → Holds (λ _ db'. Steps db db') (upsert_pr now (new_uuid repo pr) repo pr d db)
  closing-Steps repo pr d db v h =
      go _ (upsert_pr-IsUpserted now (new_uuid repo pr) repo pr d db v)
        (λ sp ne. others-IsOpen now (new_uuid repo pr) repo pr d db sp v ne)
    where
      unlisted :
          (sp : ScannedPr)
          → is_listed discovered sp.repo_full_name sp.pr_number ≡ true
          → (str_eq repo sp.repo_full_name && pr == sp.pr_number) ≡ false
      unlisted sp l = elim (Bool-cases (str_eq repo sp.repo_full_name && pr == sp.pr_number)) [
        | inl e ↦ let same = same_key repo pr sp e in absurd (clash (sym h ∙ rw (same.0, same.1) l))
        | inr e ↦ e
      ]
        where
          clash : Path Bool false true → ⊥
          clash e = cc

      go :
          (x : Result (Upserted × Db))
          → Holds
              (IsUpserted now
                (new_uuid repo pr)
                repo
                pr
                d
                db.next_pr_id
                (find_by_repo_and_pr repo pr db))
              x
          → ((sp : ScannedPr)
              → (str_eq repo sp.repo_full_name && pr == sp.pr_number) ≡ false
              → Holds (λ _ db'. IsOpen db sp → IsOpen db' sp) x)
          → Holds (λ _ db'. Steps db db') x
      go x (failed e) f = failed e
      go x (done u db' k) f = done u db' (k.4, λ sp l q. Holds-ok (f sp (unlisted sp l)) refl q)

  then_Steps : (a b c : Db) → Stays a b → Steps b c → Steps a c
  then_Steps a b c s (v, t) = (v, λ sp l q. t sp l (s sp l q))

  -- A pull request of the list is registered as open.
  abbrev pub Registers : DiscoveredPr → World → Result Upserted × World → Type 0
  Registers pr w =
      Ends
        (λ u db'.
          IsRegistered db'
          × IsOpen db' (scanned_of pr u)
          × ((sp : ScannedPr) → IsOpen w.db sp → IsOpen db' sp))
        (λ db'. db' ≡ w.db)

  register_named-Ends :
      (pr : DiscoveredPr) (name : Option RepoName) (w : World)
      → IsRegistered w.db
      → Registers pr w (register_named s pr name w)
  unfolding register_named head_committed_at
  register_named-Ends pr none w v = refl
  register_named-Ends pr (some name) w v =
      after_pure (Registers pr w) (answer (s.get_pr_head_sha name pr.pr_number)) _ w
        (answer-same _ w)
        (λ head.
          after_pure (Registers pr w)
            (head_committed_at s name (find_by_repo_and_pr pr.repo_full_name pr.pr_number w.db)
              head)
            _ w
            (committed_at-same name (find_by_repo_and_pr pr.repo_full_name pr.pr_number w.db) head
              w)
            (λ t. transact-Ends _ _ w (
              upsert_pr-IsOpenAs now (new_uuid pr.repo_full_name pr.pr_number) pr.repo_full_name
                pr.pr_number (open_data pr head t) w.db refl v))
            (λ e. refl))
        (λ e. refl)
    where
      committed_at-same :
          (name : RepoName) (old : Option PullRequest) (head : String) (w : World)
          → (head_committed_at s name old head w).1 ≡ w
      committed_at-same name old head w = elim (Bool-cases (opt_str_eq (head_of old) (some head))) [
        | inl e ↦ rw e refl
        | inr e ↦ rw e (dated (s.get_commit_committed_at name head))
      ]
        where
          dated : (x : Response ℕ) → ((answer x >>= λ t. return (some t)) w).1 ≡ w
          dated (answered t) = refl
          dated (refused status) = refl

  pub register-Ends :
      (pr : DiscoveredPr) (w : World) → IsRegistered w.db → Registers pr w (register s pr w)
  unfolding register
  register-Ends pr w v = register_named-Ends pr (split_repo pr.repo_full_name) w v

  abbrev pub Closes : World → Result ℕ × World → Type 0
  Closes w = Ends (λ _ db'. Steps w.db db') (λ db'. db' ≡ w.db)

  closing-Ends :
      (repo : String) (pr : ℕ) (d : UpsertPullRequestData) (w : World)
      → IsRegistered w.db
      → is_listed discovered repo pr ≡ false
      → Closes w ((upsert_at s repo pr d >>= λ _. return 1) w)
  closing-Ends repo pr d w v h = go _ (
      transact-Ends (λ _ db'. Steps w.db db') (upsert_pr now (new_uuid repo pr) repo pr d) w
        (closing-Steps repo pr d w.db v h))
    where
      go :
          (x : Result Upserted × World)
          → Ends (λ _ db'. Steps w.db db') (λ db'. db' ≡ w.db) x
          → Closes w (continue (λ _. return 1) x)
      go (err e, z) k = k
      go (ok u, z) k = k

  pub close-Ends :
      (p : PullRequest) (w : World)
      → IsRegistered w.db
      → is_listed discovered p.repo_full_name p.pr_number ≡ false
      → Closes w (close s p w)
  unfolding close close_by_state
  close-Ends p w v h =
      after_pure (Closes w) (answer (s.get_pr_state p.repo_full_name p.pr_number)) _ w
        (answer-same _ w) (λ g. stated g (pr_state_from_github_value g.state)) (λ e. refl)
    where
      stated :
          (g : GithubState) (st : Option PrState)
          → Closes w ((known_state s g st >>= λ _. close_by_state s p g) w)
      stated g none = refl
      stated g (some st) = elim (Bool-cases (is_closed_state g && is_some g.merged_at)) [
        | inl e ↦ rw e (closing-Ends p.repo_full_name p.pr_number _ w v h)
        | inr e ↦ elim (Bool-cases (is_closed_state g)) [
          | inl c ↦ rw (e, c) (closing-Ends p.repo_full_name p.pr_number _ w v h)
          | inr c ↦ rw (e, c) (v, λ sp l q. q)
        ]
      ]
