-- ===== src/PullRequests.antt =====
-- PullRequestRepository (src/db/pullRequestRepository.ts): the changes of `pull_request` by id, and
-- the raw queries that drive the scheduler, the recovery of stale pull requests and the list of the
-- tracked ones.
pub mod Acknowledgement
pub mod Upsert
mod Examples
use rabbit_maximizer.Prelude.{
  ℕ, ◌+◌, ◌-◌, ◌/◌, String, Bool, true, false, not, Option, none, some, List, [], ◌∷◌, map, ◌==◌, ltb,
  leb, ◌&&◌, str_eq, if◌then◌else◌, is_some, keep, find, any,
}
use rabbit_maximizer.Domain.{CodeRabbitCommentType, PrState, open_pr, is_active, is_resolved}
use rabbit_maximizer.Schema.{ReviewQueue, PullRequest, Db}
use rabbit_maximizer.Store.{M, ok, err, known_request, p2025, with_prisma_error_handling}
use rabbit_maximizer.Order.{sort}

abbrev pub has_pr_id : ℕ → PullRequest → Bool
has_pr_id id p = p.id == id

abbrev pub change_prs :
    (PullRequest → Bool) → (PullRequest → PullRequest) → List PullRequest → List PullRequest
change_prs p f = map (λ r. if p r then f r else r)

-- `pullRequest.update({ where: { id }, data })`; none of the columns written is part of a key.
unfoldable pub update_pr : ℕ → (PullRequest → PullRequest) → M (Unit {0})
update_pr id f db =
    if any (has_pr_id id) db.pull_request
    then ok (tt, record db { pull_request = change_prs (has_pr_id id) f db.pull_request })
    else err (known_request p2025)

unfoldable pub update_title : ℕ → ℕ → String → M (Unit {0})
unfolding update_pr
update_title now id title =
    with_prisma_error_handling (update_pr id λ p. record p { title = title; updated_at = now })

unfoldable pub increment_retrigger_count : ℕ → ℕ → M (Unit {0})
unfolding update_pr
increment_retrigger_count now id = with_prisma_error_handling (
    update_pr id λ p. record p {
      retrigger_count = p.retrigger_count + 1;
      last_review_requested_at = some now;
      updated_at = now;
    })

-- `reviewedHeadSha ?? existing?.head_sha ?? null`; the row read is the row updated.
abbrev pub or_else : Option String → Option String → Option String
or_else none other = other
or_else (some v) other = some v

unfoldable pub record_review : ℕ → ℕ → String → CodeRabbitCommentType → Option String → M (Unit {0})
unfolding update_pr
record_review now id review_url review_state reviewed_head_sha = with_prisma_error_handling (
    update_pr id λ p. record p {
      review_count = p.review_count + 1;
      last_coderabbit_review_at = some now;
      last_review_url = some review_url;
      last_review_state = some review_state;
      reviewed_head_sha = or_else reviewed_head_sha p.head_sha;
      updated_at = now;
    })

unfoldable pub record_walkthrough_review : ℕ → ℕ → ℕ → M (Unit {0})
unfolding update_pr
record_walkthrough_review now id reviewed_at =
    with_prisma_error_handling (
      update_pr id λ p. record p { last_coderabbit_review_at = some reviewed_at; updated_at = now })

unfoldable pub record_acknowledgement : ℕ → ℕ → M (Unit {0})
unfolding update_pr
record_acknowledgement now id =
    with_prisma_error_handling
      (update_pr id λ p. record p { last_coderabbit_acknowledged_at = some now; updated_at = now })

-- The first detection stays, the last one moves.
abbrev pub first_detection : Option ℕ → ℕ → Option ℕ
first_detection none t = some t
first_detection (some first) t = some first

unfoldable pub record_review_limit_detection : ℕ → ℕ → ℕ → M (Unit {0})
unfolding update_pr
record_review_limit_detection now id review_limit_at = with_prisma_error_handling (
    update_pr id λ p. record p {
      last_review_limit_at = some review_limit_at;
      first_review_limit_at = first_detection p.first_review_limit_at review_limit_at;
      updated_at = now;
    })

-- `a IS NULL OR a < b`.
abbrev pub null_or_before : Option ℕ → ℕ → Bool
null_or_before none b = true
null_or_before (some a) b = ltb a b

-- The WHERE of FIND_PENDING_ACKNOWLEDGEMENT_SQL, on `last_review_requested_at` and what answers it.
abbrev pub unanswered : Option ℕ → Option ℕ → Bool
unanswered none answered = false
unanswered (some requested) answered = null_or_before answered requested

abbrev pub awaits_acknowledgement : PullRequest → Bool
awaits_acknowledgement p = unanswered p.last_review_requested_at p.last_coderabbit_acknowledged_at

abbrev pub requested : Option ℕ → ℕ
requested none = 0
requested (some t) = t

-- `ORDER BY last_review_requested_at ASC LIMIT 1`, the first in the table among equals.
abbrev pub oldest_request : List PullRequest → Option PullRequest
oldest_request [] = none
oldest_request (p ∷ ps) = elim (oldest_request ps) [
  | none ↦ some p
  | some q ↦
      if leb (requested p.last_review_requested_at) (requested q.last_review_requested_at)
      then some p
      else some q
]

unfoldable pub find_pending_acknowledgement : Db → Option PullRequest
find_pending_acknowledgement db = oldest_request (keep awaits_acknowledgement db.pull_request)

abbrev pub is_open : PrState → Bool
is_open open_pr = true
is_open _ = false

abbrev pub of_pr : ℕ → ReviewQueue → Bool
of_pr id r = elim r.pull_request_id [ none ↦ false | some i ↦ i == id ]

-- `resolved_at > datetime('now', '-5 minutes')`, on texts: the stored date has a `T` where the other
-- has a space, and so is greater on the same day, whatever the time.
abbrev pub after_date : ℕ → Option ℕ → Bool
after_date t none = false
after_date t (some a) = leb (t / 86400000) (a / 86400000)

-- The WHERE of FIND_STALE_OPEN_PRS_SQL.
unfoldable pub is_stale_open : ℕ → List ReviewQueue → PullRequest → Bool
is_stale_open now rows p =
    is_open p.pr_state
    && unanswered p.last_review_requested_at p.last_coderabbit_review_at
    && not (any (λ r. of_pr p.id r && is_active r.status) rows)
    && not (
        any (λ r. of_pr p.id r && is_resolved r.status && after_date (now - 300000) r.resolved_at)
          rows)

unfoldable pub find_stale_open_prs : ℕ → Db → List PullRequest
find_stale_open_prs now db = keep (is_stale_open now db.review_queue) db.pull_request

-- `DESC NULLS LAST`.
abbrev pub later_date : Option ℕ → Option ℕ → Bool
later_date none b = false
later_date (some a) none = true
later_date (some a) (some b) = ltb b a

-- The ORDER BY of FIND_TRACKED_PRS_SQL.
abbrev pub tracked_before : PullRequest → PullRequest → Bool
tracked_before p q =
    if later_date p.last_coderabbit_review_at q.last_coderabbit_review_at
    then true
    else if later_date q.last_coderabbit_review_at p.last_coderabbit_review_at
    then false
    else not (later_date q.last_review_requested_at p.last_review_requested_at)

-- The WHERE of FIND_TRACKED_PRS_SQL.
unfoldable pub is_tracked : List ReviewQueue → PullRequest → Bool
is_tracked rows p =
    is_open p.pr_state
    && not (is_some p.last_coderabbit_acknowledged_at)
    && not (any (λ r. of_pr p.id r && is_active r.status) rows)

-- The row is given whole, where the source selects seven of its columns.
unfoldable pub find_tracked_prs : Db → List PullRequest
unfolding is_tracked
find_tracked_prs db = sort tracked_before (keep (is_tracked db.review_queue) db.pull_request)
