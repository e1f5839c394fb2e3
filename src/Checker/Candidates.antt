-- ===== src/Checker/Candidates.antt =====
-- Where the candidates for the next review come from.
use rabbit_maximizer.Prelude.{
  ◌≡◌, refl, false, Option, none, some, List, [], ◌∷◌, ◌++◌, str_eq, eq_iff, All, All-append,
  All-implies, Memᴰ, Bool-cases, inl, inr,
}
use rabbit_maximizer.Domain.{
  CodeRabbitCommentType, pos, review_limited, review_skipped, review_approved,
  review_changes_suggested, unknown,
}
use rabbit_maximizer.Store.{Result, ok, err}
use rabbit_maximizer.Comments.{find_by_comment_id}
use rabbit_maximizer.Service.{Response, answered, refused, World}
use rabbit_maximizer.Discovery.{DirectCheckPr}
use rabbit_maximizer.Github.{ListedComment, review_bot_login, take}
use rabbit_maximizer.Github.Text.{RepoName, split_repo}
use rabbit_maximizer.Checker.{
  ReviewLimitCandidate, CheckSetting, Turn, classification_of, is_own_retrigger, is_already_seen,
  note_run_id, candidates_of, hand_on, check_classified, check_as, check_comment, go_on,
  check_comments, check_listed, check_named, check_prs, check, max_direct_check_prs,
}

module _ (s : CheckSetting) where
  open s use {text, list_comments}

  -- The candidate of a comment by the bot that limits the review and is no retrigger of ours.
  abbrev pub IsCandidateOf : ListedComment → ReviewLimitCandidate → Type 0
  IsCandidateOf c k =
      (c.user ≡ review_bot_login)
      × (classification_of s c ≡ review_limited)
      × (text.has_own_retrigger_marker c.body ≡ false)
      × (k.updated_at ≡ c.updated_at)
      × (k.wait_seconds ≡ text.parse_wait_seconds c.body)

  -- Such a comment is listed of one of the pull requests.
  abbrev pub IsCandidate : List DirectCheckPr → ReviewLimitCandidate → Type 0
  IsCandidate prs k =
      (pr : DirectCheckPr) × (name : RepoName) × (cs : List ListedComment) × (c : ListedComment)
      × Memᴰ pr prs
      × (split_repo pr.repo_full_name ≡ some name)
      × (list_comments name pr.pr_number ≡ answered cs)
      × Memᴰ c cs
      × IsCandidateOf c k

  candidates_of-All :
      (c : ListedComment) (t : CodeRabbitCommentType)
      → classification_of s c ≡ t
      → c.user ≡ review_bot_login
      → is_own_retrigger text t c.body ≡ false
      → All (IsCandidateOf c) (candidates_of s t c)
  candidates_of-All c review_limited e u o = ((u, e, o, refl, refl), tt)
  candidates_of-All c review_skipped e u o = tt
  candidates_of-All c review_approved e u o = tt
  candidates_of-All c review_changes_suggested e u o = tt
  candidates_of-All c unknown e u o = tt

  check_classified-All :
      (pr : DirectCheckPr) (c : ListedComment) (w : World)
      → c.user ≡ review_bot_login
      → All (IsCandidateOf c) (check_classified s pr c w).pushed
  unfolding check_classified
  check_classified-All pr c w u =
      let row = find_by_comment_id pr.pull_request_id (pos c.id) w.db in
      elim (Bool-cases (is_own_retrigger text (classification_of s c) c.body)) [
        | inl e ↦ rw e tt
        | inr e ↦ elim (Bool-cases (is_already_seen c row)) [
          | inl k ↦ rw (e, k) tt
          | inr k ↦ rw (e, k) (handed (note_run_id s pr c row w) e)
        ]
      ]
    where
      handed :
          (x : Result (Unit {0}) × World)
          → is_own_retrigger text (classification_of s c) c.body ≡ false
          → All (IsCandidateOf c) (hand_on s pr c x).pushed
      handed (err e, v) o = tt
      handed (ok a, v) o = candidates_of-All c (classification_of s c) refl u o

  check_comment-All :
      (pr : DirectCheckPr) (c : ListedComment) (w : World)
      → All (IsCandidateOf c) (check_comment s pr c w).pushed
  unfolding check_comment
  check_comment-All pr c w = elim (Bool-cases (str_eq c.user review_bot_login)) [
    | inl e ↦ rw e (by_type (classification_of s c) ((eq_iff c.user review_bot_login).0 e))
    | inr e ↦ rw e tt
  ]
    where
      by_type :
          (t : CodeRabbitCommentType)
          → c.user ≡ review_bot_login
          → All (IsCandidateOf c) (check_as s pr c t w).pushed
      by_type review_limited u = check_classified-All pr c w u
      by_type review_skipped u = check_classified-All pr c w u
      by_type review_approved u = check_classified-All pr c w u
      by_type review_changes_suggested u = check_classified-All pr c w u
      by_type unknown u = tt

  go_on-All :
      (P : ReviewLimitCandidate → Type 0) (t : Turn) (candidates : List ReviewLimitCandidate)
      (rest : List ReviewLimitCandidate → World → List ReviewLimitCandidate × World)
      → All P (candidates ++ t.pushed)
      → ((ks : List ReviewLimitCandidate) (v : World) → All P ks → All P (rest ks v).0)
      → All P (go_on s t candidates rest).0
  go_on-All P t candidates rest q h = by_result t.result
    where
      by_result :
          (r : Result (Unit {0}))
          → All P
              (elim r as (λ _. List ReviewLimitCandidate × World) [
                | err e ↦ (candidates ++ t.pushed, t.world)
                | ok _ ↦ rest (candidates ++ t.pushed) t.world
              ]).0
      by_result (err e) = q
      by_result (ok u) = h _ t.world q

  check_comments-All :
      (P : ReviewLimitCandidate → Type 0) (pr : DirectCheckPr) (cs : List ListedComment)
      (candidates : List ReviewLimitCandidate) (w : World)
      → ((c : ListedComment) → Memᴰ c cs → (k : ReviewLimitCandidate) → IsCandidateOf c k → P k)
      → All P candidates
      → All P (check_comments s pr cs candidates w).0
  unfolding check_comments
  check_comments-All P pr [] candidates w h k = k
  check_comments-All P pr (c ∷ cs) candidates w h k =
      go_on-All P (check_comment s pr c w) candidates (check_comments s pr cs)
        (All-append P candidates _ k
          (All-implies _ _ (h c (Memᴰ.head refl)) (check_comment-All pr c w)))
        (λ ks v q. check_comments-All P pr cs ks v (λ c' m. h c' (Memᴰ.tail m)) q)

  check_prs-All :
      (P : ReviewLimitCandidate → Type 0) (prs : List DirectCheckPr)
      (candidates : List ReviewLimitCandidate) (w : World)
      → ((k : ReviewLimitCandidate) → IsCandidate prs k → P k)
      → All P candidates
      → All P (check_prs s prs candidates w).0
  unfolding check_prs
  check_prs-All P [] candidates w h k = k
  check_prs-All P (pr ∷ prs) candidates w h k =
      check_prs-All P prs _ _ (λ c q. h c (later q)) (named (split_repo pr.repo_full_name) refl)
    where
      later : {c : ReviewLimitCandidate} → IsCandidate prs c → IsCandidate (pr ∷ prs) c
      later (p, name, cs, c, m, a, b, l, q) = (p, name, cs, c, Memᴰ.tail m, a, b, l, q)

      listed :
          (name : RepoName) (x : Response (List ListedComment))
          → split_repo pr.repo_full_name ≡ some name
          → list_comments name pr.pr_number ≡ x
          → All P (check_listed s pr x candidates w).0
      listed name (refused status) e f = k
      listed name (answered cs) e f =
          check_comments-All P pr cs candidates w
            (λ c m cand q. h cand (pr, name, cs, c, Memᴰ.head refl, e, f, m, q)) k

      named :
          (name : Option RepoName)
          → split_repo pr.repo_full_name ≡ name
          → All P (check_named s pr name candidates w).0
      named none e = k
      named (some name) e = listed name (list_comments name pr.pr_number) e refl

  -- Every candidate of a check comes from a comment by the bot that limits the review and is no
  -- retrigger of ours, listed of one of the first 125 pull requests, and has the date of its
  -- edit and the wait that it names.
  pub check-IsCandidate :
      (prs : List DirectCheckPr) (w : World)
      → All (IsCandidate (take max_direct_check_prs prs)) (check s prs w).0
  unfolding check
  check-IsCandidate prs w =
      check_prs-All (IsCandidate (take max_direct_check_prs prs)) (take max_direct_check_prs prs) []
        w (λ k q. q) tt
