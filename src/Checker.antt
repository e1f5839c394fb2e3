-- ===== src/Checker.antt =====
-- DirectCommentChecker (src/DirectCommentChecker.ts): the comments of the known pull requests are
-- read, and those that are new or edited are handed on.
pub mod Candidates
pub mod Seen
pub mod State
mod Examples
use rabbit_maximizer.Prelude.{
  ℕ, String, Bool, true, false, not, Option, none, some, List, [], ◌∷◌, ◌++◌, ◌==◌, ◌&&◌, ◌||◌, leb,
  str_eq, opt_str_eq, any, if◌then◌else◌,
}
use rabbit_maximizer.Domain.{CommentId, pos, CodeRabbitCommentType, review_limited, unknown}
use rabbit_maximizer.Schema.{CoderabbitComment, ReviewQueue, Db}
use rabbit_maximizer.Store.{Result, ok, err, record_event}
use rabbit_maximizer.PullRequests.{record_walkthrough_review}
use rabbit_maximizer.Comments.{UpsertCommentData, upsert, find_by_comment_id}
use rabbit_maximizer.Service.{
  Response, answered, refused, CommentText, World, T, ◌>>=◌, ◌>>◌, return, transact,
  classify_coderabbit_comment,
}
use rabbit_maximizer.Discovery.{DirectCheckPr}
use rabbit_maximizer.Detection.{DetectedComment, event_on}
use rabbit_maximizer.Github.{ListedComment, review_bot_login, take}
use rabbit_maximizer.Github.Text.{RepoName, split_repo}
use rabbit_maximizer.Github.Urls.{includes, build_comment_url}

abbrev pub max_direct_check_prs : ℕ
max_direct_check_prs = 125

abbrev pub review_stack_marker : String
review_stack_marker = "review_stack_entry_start"

pub record ReviewLimitCandidate : Type 0 where
  pub updated_at : ℕ
  pub wait_seconds : Option ℕ

-- The clock, the reading of comments, `listComments` of the client, and OnDetectedCallback.
pub record CheckSetting : Type 0 where
  pub now : ℕ
  pub text : CommentText
  pub list_comments : RepoName → ℕ → Response (List ListedComment)
  pub on_detected : DetectedComment → ℕ → T (Unit {0})

-- What one comment comes to: the candidates that it pushes, whether it throws, and the world after.
pub record Turn : Type 0 where
  pub pushed : List ReviewLimitCandidate
  pub result : Result (Unit {0})
  pub world : World

abbrev pub quiet : Result (Unit {0}) × World → Turn
quiet (r, w) = record { pushed = []; result = r; world = w }

-- QueueRepository.existsByPullRequestId.
abbrev pub is_linked_to : ℕ → Option ℕ → Bool
is_linked_to id none = false
is_linked_to id (some pull_request_id) = pull_request_id == id

unfoldable pub exists_by_pull_request_id : ℕ → Db → Bool
exists_by_pull_request_id id db = any (λ r. is_linked_to id r.pull_request_id) db.review_queue

-- `row && c.updatedAt <= row.last_seen_at`.
abbrev pub is_already_seen : ListedComment → Option CoderabbitComment → Bool
is_already_seen c none = false
is_already_seen c (some row) = leb c.updated_at row.last_seen_at

-- A comment of the bot that limits the review and that no retrigger of ours has written.
abbrev pub is_own_retrigger : CommentText → CodeRabbitCommentType → String → Bool
is_own_retrigger text review_limited body = text.has_own_retrigger_marker body
is_own_retrigger text _ body = false

module _ (s : CheckSetting) where
  open s use {now, text, list_comments, on_detected}

  abbrev pub classification_of : ListedComment → CodeRabbitCommentType
  classification_of c = classify_coderabbit_comment text c.body

  abbrev pub detected_comment : DirectCheckPr → ListedComment → DetectedComment
  detected_comment pr c = record {
    url = build_comment_url pr.repo_full_name pr.pr_number c.id;
    repo_full_name = pr.repo_full_name;
    pr_number = pr.pr_number;
    comment_id = pos c.id;
    created_at = c.created_at;
    updated_at = c.updated_at;
    pr_title = pr.pr_title;
    body = c.body;
  }

  abbrev pub walkthrough_data : DirectCheckPr → ListedComment → UpsertCommentData
  walkthrough_data pr c = record {
    comment_id = pos c.id;
    pull_request_id = pr.pull_request_id;
    url = build_comment_url pr.repo_full_name pr.pr_number c.id;
    comment_type = unknown;
    body_preview = text.truncate_body_preview c.body;
    gh_created_at = c.created_at;
    gh_updated_at = c.updated_at;
    coderabbit_run_id = text.extract_coderabbit_run_id c.body;
  }

  unfoldable pub record_walkthrough : DirectCheckPr → ListedComment → T (Unit {0})
  record_walkthrough pr c = transact (upsert now (walkthrough_data pr c)) >>= λ _.
      transact (record_walkthrough_review now pr.pull_request_id c.updated_at)

  -- A walkthrough is recorded where the pull request was never enqueued and it is new or edited.
  unfoldable pub check_unknown : DirectCheckPr → ListedComment → T (Unit {0})
  unfolding record_walkthrough
  check_unknown pr c w =
      if includes review_stack_marker c.body
        && not (exists_by_pull_request_id pr.pull_request_id w.db)
        && not (is_already_seen c (find_by_comment_id pr.pull_request_id (pos c.id) w.db))
      then record_walkthrough pr c w
      else return tt w

  abbrev pub record_run_event : String → DirectCheckPr → ListedComment → T (Unit {0})
  record_run_event type pr c = transact (record_event (event_on type (detected_comment pr c)))

  -- The run id of the stored comment beside the one of the body.
  abbrev pub note_runs :
      DirectCheckPr → ListedComment → Option String → Option String → T (Unit {0})
  note_runs pr c none none = return tt
  note_runs pr c (some stored) none = record_run_event "coderabbit_run_id_cleared" pr c
  note_runs pr c none (some fresh) = record_run_event "coderabbit_run_id_first_seen" pr c
  note_runs pr c (some stored) (some fresh) =
      if str_eq fresh stored then return tt else record_run_event "coderabbit_run_id_changed" pr c

  abbrev pub note_run_id : DirectCheckPr → ListedComment → Option CoderabbitComment → T (Unit {0})
  note_run_id pr c none = return tt
  note_run_id pr c (some row) =
      note_runs pr c row.coderabbit_run_id (text.extract_coderabbit_run_id c.body)

  abbrev pub candidates_of : CodeRabbitCommentType → ListedComment → List ReviewLimitCandidate
  candidates_of review_limited c =
      record { updated_at = c.updated_at; wait_seconds = text.parse_wait_seconds c.body } ∷ []
  candidates_of _ c = []

  -- The candidate is pushed before the comment is handed on, and stays where that throws.
  abbrev pub hand_on : DirectCheckPr → ListedComment → Result (Unit {0}) × World → Turn
  hand_on pr c (err e, w) = quiet (err e, w)
  hand_on pr c (ok _, w) =
      let x = on_detected (detected_comment pr c) pr.pull_request_id w in
      record { pushed = candidates_of (classification_of c) c; result = x.0; world = x.1 }

  unfoldable pub check_classified : DirectCheckPr → ListedComment → World → Turn
  check_classified pr c w =
      let row = find_by_comment_id pr.pull_request_id (pos c.id) w.db in
      if is_own_retrigger text (classification_of c) c.body
      then quiet (ok tt, w)
      else if is_already_seen c row
      then quiet (ok tt, w)
      else hand_on pr c (note_run_id pr c row w)

  abbrev pub check_as : DirectCheckPr → ListedComment → CodeRabbitCommentType → World → Turn
  check_as pr c unknown w = quiet (check_unknown pr c w)
  check_as pr c _ w = check_classified pr c w

  unfoldable pub check_comment : DirectCheckPr → ListedComment → World → Turn
  unfolding check_unknown check_classified
  check_comment pr c w =
      if str_eq c.user review_bot_login
      then check_as pr c (classification_of c) w
      else quiet (ok tt, w)

  abbrev pub go_on :
      Turn
      → List ReviewLimitCandidate
      → (List ReviewLimitCandidate → World → List ReviewLimitCandidate × World)
      → List ReviewLimitCandidate × World
  go_on t candidates rest = elim t.result [
    | err e ↦ (candidates ++ t.pushed, t.world)
    | ok _ ↦ rest (candidates ++ t.pushed) t.world
  ]

  -- A comment that throws ends the pull request.
  unfoldable pub check_comments :
      DirectCheckPr
      → List ListedComment
      → List ReviewLimitCandidate
      → World
      → List ReviewLimitCandidate × World
  unfolding check_comment
  check_comments pr [] candidates w = (candidates, w)
  check_comments pr (c ∷ cs) candidates w =
      go_on (check_comment pr c w) candidates (check_comments pr cs)

  abbrev pub check_listed :
      DirectCheckPr
      → Response (List ListedComment)
      → List ReviewLimitCandidate
      → World
      → List ReviewLimitCandidate × World
  check_listed pr (refused status) candidates w = (candidates, w)
  check_listed pr (answered cs) candidates w = check_comments pr cs candidates w

  abbrev pub check_named :
      DirectCheckPr
      → Option RepoName
      → List ReviewLimitCandidate
      → World
      → List ReviewLimitCandidate × World
  check_named pr none candidates w = (candidates, w)
  check_named pr (some name) candidates w =
      check_listed pr (list_comments name pr.pr_number) candidates w

  unfoldable pub check_prs :
      List DirectCheckPr → List ReviewLimitCandidate → World → List ReviewLimitCandidate × World
  unfolding check_comments
  check_prs [] candidates w = (candidates, w)
  check_prs (pr ∷ prs) candidates w =
      let x = check_named pr (split_repo pr.repo_full_name) candidates w in check_prs prs x.0 x.1

  unfoldable pub check : List DirectCheckPr → World → List ReviewLimitCandidate × World
  unfolding check_prs
  check prs w = check_prs (take max_direct_check_prs prs) [] w
