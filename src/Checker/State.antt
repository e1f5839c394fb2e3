-- ===== src/Checker/State.antt =====
-- What a check keeps of the system state.
use rabbit_maximizer.Prelude.{
  ℕ, ◌≡◌, refl, String, not, Option, none, some, List, [], ◌∷◌, ◌++◌, Bool-cases, inl, inr, str_eq,
  ◌&&◌,
}
use rabbit_maximizer.Domain.{
  CodeRabbitCommentType, pos, review_limited, review_skipped, review_approved,
  review_changes_suggested, unknown,
}
use rabbit_maximizer.Schema.{CoderabbitComment, Event, Db}
use rabbit_maximizer.Store.{Result, ok, err, record_event}
use rabbit_maximizer.Queue.Rules.{done}
use rabbit_maximizer.Comments.{upsert, find_by_comment_id}
use rabbit_maximizer.Service.{Response, answered, refused, World, return, transact}
use rabbit_maximizer.Reviews.Kept.{
  KeepsM, KeepsT, bind-KeepsT, transact-KeepsT, if-KeepsT, same-KeepsM, upsert-IsSame,
}
use rabbit_maximizer.Discovery.{DirectCheckPr}
use rabbit_maximizer.Detection.{DetectedComment}
use rabbit_maximizer.Detection.Tables.{record_walkthrough_review-IsSame}
use rabbit_maximizer.Github.{ListedComment, review_bot_login, take}
use rabbit_maximizer.Github.Text.{RepoName, split_repo}
use rabbit_maximizer.Github.Urls.{includes}
use rabbit_maximizer.Checker.{
  ReviewLimitCandidate, CheckSetting, Turn, classification_of, is_own_retrigger, is_already_seen,
  exists_by_pull_request_id, review_stack_marker, walkthrough_data, record_walkthrough,
  check_unknown, detected_comment, record_run_event, note_runs, note_run_id, hand_on,
  check_classified, check_as, check_comment, go_on, check_comments, check_listed, check_named,
  check_prs, check, max_direct_check_prs,
}

module _ (s : CheckSetting) (P : Db → Type 0)
    (k : (db db' : Db) → db'.system_state ≡ db.system_state → P db → P db')
    (detected : (c : DetectedComment) (id : ℕ) → KeepsT P (s.on_detected c id)) where
  open s use {now, text, list_comments}

  walkthrough-KeepsT :
      (pr : DirectCheckPr) (c : ListedComment) → KeepsT P (record_walkthrough s pr c)
  unfolding record_walkthrough
  walkthrough-KeepsT pr c =
      bind-KeepsT P (transact (upsert now (walkthrough_data s pr c))) _
        (transact-KeepsT P _ (same-KeepsM P _ k (upsert-IsSame now (walkthrough_data s pr c))))
        (λ _. transact-KeepsT P _ (
          same-KeepsM P _ k (record_walkthrough_review-IsSame now pr.pull_request_id c.updated_at)))

  check_unknown-KeepsT : (pr : DirectCheckPr) (c : ListedComment) → KeepsT P (check_unknown s pr c)
  unfolding check_unknown
  check_unknown-KeepsT pr c w q =
      elim (Bool-cases (
        includes review_stack_marker c.body
        && not (exists_by_pull_request_id pr.pull_request_id w.db)
        && not (is_already_seen c (find_by_comment_id pr.pull_request_id (pos c.id) w.db)))) [
          | inl e ↦ rw e (walkthrough-KeepsT pr c w q)
          | inr e ↦ rw e q
        ]

  run_event-KeepsT :
      (type : String) (pr : DirectCheckPr) (c : ListedComment)
      → KeepsT P (record_run_event s type pr c)
  unfolding record_event
  run_event-KeepsT type pr c = transact-KeepsT P _ (added _)
    where
      added : (e : Event) → KeepsM P (record_event e)
      added e db q = done _ _ (k db _ refl q)

  note_run_id-KeepsT :
      (pr : DirectCheckPr) (c : ListedComment) (row : Option CoderabbitComment)
      → KeepsT P (note_run_id s pr c row)
  note_run_id-KeepsT pr c none = λ w q. q
  note_run_id-KeepsT pr c (some row) =
      noted row.coderabbit_run_id (text.extract_coderabbit_run_id c.body)
    where
      noted : (stored fresh : Option String) → KeepsT P (note_runs s pr c stored fresh)
      noted none none = λ w q. q
      noted (some r) none = run_event-KeepsT _ pr c
      noted none (some f) = run_event-KeepsT _ pr c
      noted (some r) (some f) =
          if-KeepsT P (str_eq f r) (return tt) _ (λ w q. q) (run_event-KeepsT _ pr c)

  check_classified-KeepsT :
      (pr : DirectCheckPr) (c : ListedComment) (w : World)
      → P w.db
      → P (check_classified s pr c w).world.db
  unfolding check_classified
  check_classified-KeepsT pr c w q =
      let row = find_by_comment_id pr.pull_request_id (pos c.id) w.db in
      elim (Bool-cases (is_own_retrigger text (classification_of s c) c.body)) [
        | inl e ↦ rw e q
        | inr e ↦ elim (Bool-cases (is_already_seen c row)) [
          | inl o ↦ rw (e, o) q
          | inr o ↦ rw (e, o) (handed (note_run_id s pr c row w) (note_run_id-KeepsT pr c row w q))
        ]
      ]
    where
      handed : (x : Result (Unit {0}) × World) → P x.1.db → P (hand_on s pr c x).world.db
      handed (err e, v) p = p
      handed (ok a, v) p = detected (detected_comment s pr c) pr.pull_request_id v p

  check_comment-KeepsT :
      (pr : DirectCheckPr) (c : ListedComment) (w : World)
      → P w.db
      → P (check_comment s pr c w).world.db
  unfolding check_comment
  check_comment-KeepsT pr c w q = elim (Bool-cases (str_eq c.user review_bot_login)) [
    | inl e ↦ rw e (by_type (classification_of s c))
    | inr e ↦ rw e q
  ]
    where
      by_type : (t : CodeRabbitCommentType) → P (check_as s pr c t w).world.db
      by_type review_limited = check_classified-KeepsT pr c w q
      by_type review_skipped = check_classified-KeepsT pr c w q
      by_type review_approved = check_classified-KeepsT pr c w q
      by_type review_changes_suggested = check_classified-KeepsT pr c w q
      by_type unknown = check_unknown-KeepsT pr c w q

  go_on-KeepsT :
      (t : Turn) (candidates : List ReviewLimitCandidate)
      (rest : List ReviewLimitCandidate → World → List ReviewLimitCandidate × World)
      → P t.world.db
      → ((ks : List ReviewLimitCandidate) (v : World) → P v.db → P (rest ks v).1.db)
      → P (go_on s t candidates rest).1.db
  go_on-KeepsT t candidates rest q h = by_result t.result
    where
      by_result :
          (r : Result (Unit {0}))
          → P
              (elim r as (λ _. List ReviewLimitCandidate × World) [
                | err e ↦ (candidates ++ t.pushed, t.world)
                | ok _ ↦ rest (candidates ++ t.pushed) t.world
              ]).1.db
      by_result (err e) = q
      by_result (ok u) = h _ t.world q

  check_comments-KeepsT :
      (pr : DirectCheckPr) (cs : List ListedComment) (candidates : List ReviewLimitCandidate)
      (w : World)
      → P w.db
      → P (check_comments s pr cs candidates w).1.db
  unfolding check_comments
  check_comments-KeepsT pr [] candidates w q = q
  check_comments-KeepsT pr (c ∷ cs) candidates w q =
      go_on-KeepsT (check_comment s pr c w) candidates (check_comments s pr cs)
        (check_comment-KeepsT pr c w q) (λ ks v p. check_comments-KeepsT pr cs ks v p)

  check_named-KeepsT :
      (pr : DirectCheckPr) (name : Option RepoName) (candidates : List ReviewLimitCandidate)
      (w : World)
      → P w.db
      → P (check_named s pr name candidates w).1.db
  check_named-KeepsT pr none candidates w q = q
  check_named-KeepsT pr (some name) candidates w q = listed (list_comments name pr.pr_number)
    where
      listed : (x : Response (List ListedComment)) → P (check_listed s pr x candidates w).1.db
      listed (refused status) = q
      listed (answered cs) = check_comments-KeepsT pr cs candidates w q

  check_prs-KeepsT :
      (prs : List DirectCheckPr) (candidates : List ReviewLimitCandidate) (w : World)
      → P w.db
      → P (check_prs s prs candidates w).1.db
  unfolding check_prs
  check_prs-KeepsT [] candidates w q = q
  check_prs-KeepsT (pr ∷ prs) candidates w q =
      check_prs-KeepsT prs _ _ (check_named-KeepsT pr (split_repo pr.repo_full_name) candidates w q)

  pub check-KeepsT : (prs : List DirectCheckPr) (w : World) → P w.db → P (check s prs w).1.db
  unfolding check
  check-KeepsT prs w q = check_prs-KeepsT (take max_direct_check_prs prs) [] w q
