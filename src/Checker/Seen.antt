-- ===== src/Checker/Seen.antt =====
-- A check whose comments have all been seen changes nothing.
use rabbit_maximizer.Prelude.{
  ◌≡◌, refl, Bool, true, not, Option, none, some, List, [], ◌∷◌, str_eq, ◌||◌, All, Bool-cases, inl,
  inr, arith,
}
use rabbit_maximizer.Domain.{
  CodeRabbitCommentType, pos, review_limited, review_skipped, review_approved,
  review_changes_suggested, unknown,
}
use rabbit_maximizer.Store.{ok}
use rabbit_maximizer.Comments.{find_by_comment_id}
use rabbit_maximizer.Service.{Response, answered, refused, World}
use rabbit_maximizer.Discovery.{DirectCheckPr}
use rabbit_maximizer.Github.{ListedComment, review_bot_login, take}
use rabbit_maximizer.Github.Text.{RepoName, split_repo}
use rabbit_maximizer.Github.Urls.{includes}
use rabbit_maximizer.Checker.{
  CheckSetting, quiet, classification_of, is_own_retrigger, is_already_seen, check_classified,
  check_as, check_unknown, check_comment, check_comments, check_listed, check_named, check_prs,
  check, max_direct_check_prs, exists_by_pull_request_id, review_stack_marker,
}

-- The comment is not by the bot, or was stored at or after its last edit.
abbrev pub is_old : World → DirectCheckPr → ListedComment → Bool
is_old w pr c =
    not (str_eq c.user review_bot_login)
    || is_already_seen c (find_by_comment_id pr.pull_request_id (pos c.id) w.db)

module _ (s : CheckSetting) where
  open s use {text, list_comments}

  abbrev pub comments_in : Response (List ListedComment) → List ListedComment
  comments_in (refused status) = []
  comments_in (answered cs) = cs

  abbrev pub comments_under : DirectCheckPr → Option RepoName → List ListedComment
  comments_under pr none = []
  comments_under pr (some name) = comments_in (list_comments name pr.pr_number)

  -- The comments that a check reads of a pull request.
  abbrev pub comments_of : DirectCheckPr → List ListedComment
  comments_of pr = comments_under pr (split_repo pr.repo_full_name)

  check_classified-old :
      (pr : DirectCheckPr) (c : ListedComment) (w : World)
      → is_already_seen c (find_by_comment_id pr.pull_request_id (pos c.id) w.db) ≡ true
      → check_classified s pr c w ≡ quiet (ok tt, w)
  unfolding check_classified
  check_classified-old pr c w h =
      elim (Bool-cases (is_own_retrigger text (classification_of s c) c.body)) [
        | inl e ↦ rw e refl
        | inr e ↦ rw (e, h) refl
      ]

  check_unknown-old :
      (pr : DirectCheckPr) (c : ListedComment) (w : World)
      → is_already_seen c (find_by_comment_id pr.pull_request_id (pos c.id) w.db) ≡ true
      → quiet (check_unknown s pr c w) ≡ quiet (ok tt, w)
  unfolding check_unknown
  check_unknown-old pr c w h = elim (Bool-cases (includes review_stack_marker c.body)) [
    | inl e ↦ elim (Bool-cases (exists_by_pull_request_id pr.pull_request_id w.db)) [
      | inl k ↦ rw (e, k) refl
      | inr k ↦ rw (e, k, h) refl
    ]
    | inr e ↦ rw e refl
  ]

  check_comment-old :
      (pr : DirectCheckPr) (c : ListedComment) (w : World)
      → is_old w pr c ≡ true
      → check_comment s pr c w ≡ quiet (ok tt, w)
  unfolding check_comment
  check_comment-old pr c w h = elim (Bool-cases (str_eq c.user review_bot_login)) [
    | inl e ↦ rw e (by_type (classification_of s c) (ground (arith, h, e)))
    | inr e ↦ rw e refl
  ]
    where
      by_type :
          (t : CodeRabbitCommentType)
          → is_already_seen c (find_by_comment_id pr.pull_request_id (pos c.id) w.db) ≡ true
          → check_as s pr c t w ≡ quiet (ok tt, w)
      by_type review_limited u = check_classified-old pr c w u
      by_type review_skipped u = check_classified-old pr c w u
      by_type review_approved u = check_classified-old pr c w u
      by_type review_changes_suggested u = check_classified-old pr c w u
      by_type unknown u = check_unknown-old pr c w u

  check_comments-old :
      (pr : DirectCheckPr) (cs : List ListedComment) (w : World)
      → All (λ c. is_old w pr c ≡ true) cs
      → check_comments s pr cs [] w ≡ ([], w)
  unfolding check_comments
  check_comments-old pr [] w h = refl
  check_comments-old pr (c ∷ cs) w h =
      rw (check_comment-old pr c w h.0) (check_comments-old pr cs w h.1)

  check_named-old :
      (pr : DirectCheckPr) (name : Option RepoName) (w : World)
      → All (λ c. is_old w pr c ≡ true) (comments_under pr name)
      → check_named s pr name [] w ≡ ([], w)
  check_named-old pr none w h = refl
  check_named-old pr (some name) w h = listed (list_comments name pr.pr_number) h
    where
      listed :
          (x : Response (List ListedComment))
          → All (λ c. is_old w pr c ≡ true) (comments_in x)
          → check_listed s pr x [] w ≡ ([], w)
      listed (refused status) k = refl
      listed (answered cs) k = check_comments-old pr cs w k

  check_prs-old :
      (prs : List DirectCheckPr) (w : World)
      → All (λ pr. All (λ c. is_old w pr c ≡ true) (comments_of pr)) prs
      → check_prs s prs [] w ≡ ([], w)
  unfolding check_prs
  check_prs-old [] w h = refl
  check_prs-old (pr ∷ prs) w h =
      rw (check_named-old pr (split_repo pr.repo_full_name) w h.0) (check_prs-old prs w h.1)

  -- Where every comment of the bot that a check reads was stored at or after its last edit, the
  -- check changes nothing, hands nothing on and gives no candidate.
  pub check-old :
      (prs : List DirectCheckPr) (w : World)
      → All (λ pr. All (λ c. is_old w pr c ≡ true) (comments_of pr)) (take max_direct_check_prs prs)
      → check s prs w ≡ ([], w)
  unfolding check
  check-old prs w h = check_prs-old (take max_direct_check_prs prs) w h
