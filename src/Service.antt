-- ===== src/Service.antt =====
-- What the services work on: the database with the comments posted so far, the transactions that
-- they run one after another, and what they ask of GitHub and read off the text of a comment.
use rabbit_maximizer.Prelude.{
  ℕ, String, Bool, false, Option, none, some, List, ◌==◌, ◌||◌, if◌then◌else◌,
}
use rabbit_maximizer.Domain.{
  CommentId, CodeRabbitCommentType, review_limited, review_skipped, review_approved,
  review_changes_suggested, unknown,
}
use rabbit_maximizer.Schema.{Db}
use rabbit_maximizer.Store.{M, Error, Result, ok, err, Env, github}

-- The answer of a request to GitHub, or the status with which it is refused.
pub data Response (A : Type 0) : Type 0 where
  answered : A → Response A
  refused : Option ℕ → Response A

pub record PrData : Type 0 where
  pub is_closed : Bool
  pub merged_at : Option ℕ

pub record FetchedComment : Type 0 where
  pub body : String
  pub updated_at : ℕ

pub record LatestComment : Type 0 where
  pub comment_id : CommentId
  pub url : String
  pub updated_at : ℕ

pub record CompletedReview : Type 0 where
  pub html_url : String
  pub is_approval : Bool
  pub commit_id : Option String

-- CoderabbitGitHubClient, as far as the services call it.
pub record GithubClient : Type 0 where
  pub get_pr_state : String → ℕ → Response PrData
  pub fetch_comment : String → CommentId → Response FetchedComment
  pub find_latest_review_limit_comment : String → ℕ → Response (Option LatestComment)
  pub post_retrigger : String → ℕ → Option String → Response String
  pub find_completed_review :
      String → ℕ → ℕ → Option String → Option String → Response (Option CompletedReview)

-- What is read off the text of a comment (src/github, by regular expressions).
pub record CommentText : Type 0 where
  pub has_rate_limit_marker : String → Bool
  pub has_own_retrigger_marker : String → Bool
  pub has_skip_marker : String → Bool
  pub is_completed_review : String → Bool
  pub is_approval_review_signal : String → Bool
  pub extract_coderabbit_run_id : String → Option String
  pub parse_wait_seconds : String → Option ℕ
  pub truncate_body_preview : String → Option String

-- classifyCoderabbitComment: the markers in the order in which they are tested.
abbrev pub classify_coderabbit_comment : CommentText → String → CodeRabbitCommentType
classify_coderabbit_comment text body =
    if text.has_skip_marker body
    then review_skipped
    else if text.is_completed_review body
    then (if text.is_approval_review_signal body then review_approved else review_changes_suggested)
    else if text.has_rate_limit_marker body
    then review_limited
    else unknown

-- The settings of Config that the services turn into milliseconds.
pub record Settings : Type 0 where
  pub post_cooldown_ms : ℕ
  pub fallback_wait_seconds : ℕ
  pub buffer_seconds : ℕ
  pub max_retrigger_attempts : ℕ
  pub retrigger_spacing_ms : ℕ
  pub max_retrigger_age_ms : ℕ
  pub max_pr_state_fetches_per_tick : ℕ
  pub review_detection_lookback_sec : ℕ

-- One tick: its clock, its client, and the id of the run that it may start.
pub record Setting : Type 0 where
  pub env : Env
  pub client : GithubClient
  pub text : CommentText
  pub cfg : Settings
  pub run_id : String

pub record Post : Type 0 where
  pub repo : String
  pub pr : ℕ

-- A request of a scan for the state of a pull request.
pub record Fetch : Type 0 where
  pub repo_of_fetch : String
  pub pr_of_fetch : ℕ

pub record World : Type 0 where
  pub db : Db
  pub posts : List Post
  pub fetched : List Fetch

-- A service keeps what it did before it failed.
abbrev pub T : Type 0 → Type 0
T A = World → Result A × World

abbrev pub continue : {A B : Type 0} → (A → T B) → Result A × World → Result B × World
continue f (err e, w) = (err e, w)
continue f (ok a, w) = f a w

infixl 5 ◌>>=◌ ◌>>◌
abbrev pub ◌>>=◌ : {A B : Type 0} → T A → (A → T B) → T B
(m >>= f) w = continue f (m w)

abbrev pub ◌>>◌ : {B : Type 0} → T (Unit {0}) → T B → T B
m >> k = m >>= λ _. k

abbrev pub return : {A : Type 0} → A → T A
return a w = (ok a, w)

abbrev pub throw : {A : Type 0} → Error → T A
throw e w = (err e, w)

abbrev pub committed : {A : Type 0} → World → Result (A × Db) → Result A × World
committed w (err e) = (err e, w)
committed w (ok (a, db)) = (ok a, record w { db = db })

-- `prisma.$transaction`: what fails leaves the database as it was.
unfoldable pub transact : {A : Type 0} → M A → T A
transact m w = committed w (m w.db)

-- A read outside a transaction.
abbrev pub reads : {A : Type 0} → (Db → A) → T A
reads f w = (ok (f w.db), w)

abbrev pub handled : {A : Type 0} → (Error → T A) → Result A × World → Result A × World
handled handle (err e, w) = handle e w
handled handle (ok a, w) = (ok a, w)

-- `try { m } catch (err) { handle(err) }`: what `m` committed stays.
abbrev pub catch : {A : Type 0} → T A → (Error → T A) → T A
catch m handle w = handled handle (m w)

-- isTerminalHttpStatus: 404 and 410.
abbrev pub is_terminal_http_status : Option ℕ → Bool
is_terminal_http_status none = false
is_terminal_http_status (some status) = status == 404 || status == 410

-- The answer, or the error with the status.
abbrev pub answer : {A : Type 0} → Response A → T A
answer (answered a) = return a
answer (refused status) = throw (github status)
