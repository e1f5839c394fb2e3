-- ===== src/Queue/Requests.antt =====
-- What `enqueue` is asked and what it answers (EnqueueData.ts, EnqueueResult.ts), and the tests by
-- which it looks for rows of the comment (src/db/queueRepository.ts, shouldReopenStaleRetriggered.ts).
use rabbit_maximizer.Prelude.{
  ℕ, ◌-◌, ◌*◌, String, Bool, true, false, not, Option, none, some, ◌&&◌, ltb, leb, opt_str_eq,
}
use rabbit_maximizer.Domain.{
  CodeRabbitCommentType, CommentId, same_comment, is_retriggered, is_resolved, is_reopenable,
}
use rabbit_maximizer.Schema.{ReviewQueue, for_pr}
use rabbit_maximizer.Queue.Marks.{ReopenStaleRetriggeredOptions, dated_before}

abbrev pub completed_guard_window_ms : ℕ
completed_guard_window_ms = 5 * (60 * 1000)

pub record EnqueueData : Type 0 where
  pub repo : String
  pub pr : ℕ
  pub pr_title : String
  pub source_comment_url : String
  pub source_comment_id : CommentId
  pub pull_request_id : ℕ
  pub coderabbit_run_id : Option String
  pub comment_updated_at : Option ℕ
  pub cooldown_until : Option ℕ
  pub source_comment_type : Option CodeRabbitCommentType

pub record EnqueueResult : Type 0 where
  pub item : ReviewQueue
  pub created : Bool

abbrev pub existing : ReviewQueue → EnqueueResult
existing r = record { item = r; created = false }

abbrev pub newly_pending : ReviewQueue → EnqueueResult
newly_pending r = record { item = r; created = true }

-- `a > b!` on two nullable dates, the left one tested for presence.
abbrev pub newer_than : Option ℕ → Option ℕ → Bool
newer_than (some a) (some b) = ltb b a
newer_than (some a) none = ltb 0 a
newer_than none _ = false

-- shouldReopenStaleRetriggered.ts
unfoldable pub should_reopen_stale_retriggered :
    Option ℕ → Option String → Option String → ℕ → ℕ → Bool
should_reopen_stale_retriggered retriggered_at none reviewed_head_sha lookback_ms now = false
should_reopen_stale_retriggered retriggered_at (some head) reviewed_head_sha lookback_ms now =
    not (opt_str_eq (some head) reviewed_head_sha)
    && dated_before (now - lookback_ms) retriggered_at

abbrev pub reopen_options : EnqueueData → ReopenStaleRetriggeredOptions
reopen_options d = record {
  pr_title = d.pr_title;
  coderabbit_run_id = d.coderabbit_run_id;
  cooldown_until = d.cooldown_until;
}

-- The three tests by which the guards look for a row of the same comment.
abbrev pub is_retriggered_for : EnqueueData → ReviewQueue → Bool
is_retriggered_for d r = for_pr d.repo d.pr r && is_retriggered r.status

abbrev pub is_resolved_from : EnqueueData → ReviewQueue → Bool
is_resolved_from d r =
    for_pr d.repo d.pr r
    && same_comment r.source_comment_id d.source_comment_id
    && is_resolved r.status

abbrev pub is_reopenable_from : EnqueueData → ReviewQueue → Bool
is_reopenable_from d r =
    same_comment r.source_comment_id d.source_comment_id
    && is_resolved r.status
    && is_reopenable r.resolution

-- `resolved_at: { gte: t }`
abbrev pub dated_from : ℕ → Option ℕ → Bool
dated_from t none = false
dated_from t (some a) = leb t a

-- `Date.now() < cooldownUntil`, where a cooldown is given.
abbrev pub is_cooling : ℕ → Option ℕ → Bool
is_cooling now none = false
is_cooling now (some until) = ltb now until

-- The run of the comment is known and is not the one that the row holds.
abbrev pub is_new_run : Option String → Option String → Bool
is_new_run none stored = false
is_new_run (some run) stored = not (opt_str_eq stored (some run))
