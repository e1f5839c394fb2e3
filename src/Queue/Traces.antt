-- ===== src/Queue/Traces.antt =====
-- The transactions of the queue as steps, in any order, and what holds of the tables that they
-- reach. A transaction that fails is rolled back: it is no step.
use rabbit_maximizer.Prelude.{ℕ, String, ◌≡◌, Bool, Option, [], All, refl, arith}
use rabbit_maximizer.Domain.{Resolution, SkipReason}
use rabbit_maximizer.Schema.{ReviewQueue, Db, unique_ok}
use rabbit_maximizer.Store.{Env, ok}
use rabbit_maximizer.Queue.Rules.{Holds-ok}
use rabbit_maximizer.Queue.WellFormed.{WellFormed}
use rabbit_maximizer.Queue.Marks.{
  ReopenStaleRetriggeredOptions, CommentDetails, mark_retriggered, mark_retrigger_skipped,
  mark_resolved, mark_resolved_if_still_retriggered, adopt_run_if_still_retriggered,
  reopen_stale_retriggered, mark_resolved_by_uuid, reschedule, backoff, resolve_stale_retriggered,
  increment_attempts,
}
use rabbit_maximizer.Queue.Keeps.{
  ActiveId, mark_retriggered-WellFormed, backoff-WellFormed, mark_retrigger_skipped-WellFormed,
  mark_resolved-WellFormed, mark_resolved_if_still_retriggered-WellFormed,
  adopt_run_if_still_retriggered-WellFormed, resolve_stale_retriggered-WellFormed,
  increment_attempts-WellFormed,
}
use rabbit_maximizer.Queue.Reopen.{
  reopen_stale_retriggered-WellFormed, mark_resolved_by_uuid-WellFormed, reschedule-WellFormed,
}
use rabbit_maximizer.Queue.Requests.{EnqueueData, EnqueueResult}
use rabbit_maximizer.Queue.Enqueue.{enqueue}
use rabbit_maximizer.Queue.Enqueue.Conflicting.{SamePr}
use rabbit_maximizer.Queue.Enqueue.Keeps.{enqueue-WellFormed}

-- One transaction that commits. A comment belongs to one pull request, and the trigger and the
-- backoff are run for a row that is still active.
pub data Step (db db' : Db) : Type 0 where
  enqueue_step :
      (env : Env) (lookback_sec : ℕ) (d : EnqueueData) (result : EnqueueResult)
      → SamePr d db
      → enqueue env lookback_sec d db ≡ ok (result, db')
      → Step db db'
  mark_retriggered_step :
      (env : Env) (id cooldown_until : ℕ) (url : String) (run own : Option String) (r : ReviewQueue)
      → All (ActiveId id) db.review_queue
      → mark_retriggered env id cooldown_until url run own db ≡ ok (r, db')
      → Step db db'
  mark_retrigger_skipped_step :
      (env : Env) (id : ℕ) (reason : SkipReason) (b : Bool)
      → mark_retrigger_skipped env id reason db ≡ ok (b, db')
      → Step db db'
  mark_resolved_step :
      (env : Env) (id : ℕ) (resolution : Resolution) (r : ReviewQueue)
      → mark_resolved env id resolution db ≡ ok (r, db')
      → Step db db'
  mark_resolved_if_still_retriggered_step :
      (env : Env) (id : ℕ) (resolution : Resolution) (b : Bool)
      → mark_resolved_if_still_retriggered env id resolution db ≡ ok (b, db')
      → Step db db'
  adopt_run_step :
      (env : Env) (id : ℕ) (expected : Option String) (adopted : String) (b : Bool)
      → adopt_run_if_still_retriggered env id expected adopted db ≡ ok (b, db')
      → Step db db'
  reopen_step :
      (env : Env) (id : ℕ) (opts : ReopenStaleRetriggeredOptions) (b : Bool)
      → reopen_stale_retriggered env id opts db ≡ ok (b, db')
      → Step db db'
  mark_resolved_by_uuid_step :
      (env : Env) (uuid : String) (resolution : Resolution) (r : Option ReviewQueue)
      → mark_resolved_by_uuid env uuid resolution db ≡ ok (r, db')
      → Step db db'
  reschedule_step :
      (env : Env) (id : ℕ) (source : CommentDetails) (original_url : Option String)
      (r : ReviewQueue)
      → reschedule env id source original_url db ≡ ok (r, db')
      → Step db db'
  backoff_step :
      (env : Env) (id : ℕ) (r : ReviewQueue)
      → All (ActiveId id) db.review_queue
      → backoff env id db ≡ ok (r, db')
      → Step db db'
  resolve_stale_step :
      (env : Env) (max_age_ms n : ℕ)
      → resolve_stale_retriggered env max_age_ms db ≡ ok (n, db')
      → Step db db'
  increment_attempts_step :
      (env : Env) (id attempts : ℕ) (u : Unit {0})
      → increment_attempts env id attempts db ≡ ok (u, db')
      → Step db db'

-- The tables before the first row.
abbrev pub empty_db : Db
empty_db = record {
  review_queue = [];
  queue_order = [];
  pull_request = [];
  system_state = [];
  events = [];
  coderabbit_comment = [];
  next_id = 1;
  next_order_id = 1;
  next_comment_id = 1;
  pull_request_sha = [];
  next_pr_id = 1;
  next_sha_id = 1;
}

-- What sequences of transactions, of whatever callers and in whatever order, reach.
pub data Reachable : Db → Type 0 where
  start : Reachable empty_db
  after : {db db' : Db} → Reachable db → Step db db' → Reachable db'

empty-WellFormed : WellFormed empty_db
unfolding unique_ok
empty-WellFormed = record {
  table = refl;
  active = λ _ _. omega arith;
  stamped = tt;
  ordered = tt;
  fresh = tt;
  single = λ _. omega arith;
}

pub Step-WellFormed : {db db' : Db} → Step db db' → WellFormed db → WellFormed db'
Step-WellFormed (enqueue_step env lookback_sec d result s q) v =
    Holds-ok (enqueue-WellFormed env lookback_sec d _ s v) q
Step-WellFormed (mark_retriggered_step env id c url run own r h q) v =
    Holds-ok (mark_retriggered-WellFormed env id c url run own _ h v) q
Step-WellFormed (mark_retrigger_skipped_step env id reason b q) v =
    Holds-ok (mark_retrigger_skipped-WellFormed env id reason _ v) q
Step-WellFormed (mark_resolved_step env id resolution r q) v =
    Holds-ok (mark_resolved-WellFormed env id resolution _ v) q
Step-WellFormed (mark_resolved_if_still_retriggered_step env id resolution b q) v =
    Holds-ok (mark_resolved_if_still_retriggered-WellFormed env id resolution _ v) q
Step-WellFormed (adopt_run_step env id expected adopted b q) v =
    Holds-ok (adopt_run_if_still_retriggered-WellFormed env id expected adopted _ v) q
Step-WellFormed (reopen_step env id opts b q) v =
    Holds-ok (reopen_stale_retriggered-WellFormed env id opts _ v) q
Step-WellFormed (mark_resolved_by_uuid_step env uuid resolution r q) v =
    Holds-ok (mark_resolved_by_uuid-WellFormed env uuid resolution _ v) q
Step-WellFormed (reschedule_step env id source original_url r q) v =
    Holds-ok (reschedule-WellFormed env id source original_url _ v) q
Step-WellFormed (backoff_step env id r h q) v = Holds-ok (backoff-WellFormed env id _ h v) q
Step-WellFormed (resolve_stale_step env max_age_ms n q) v =
    Holds-ok (resolve_stale_retriggered-WellFormed env max_age_ms _ v) q
Step-WellFormed (increment_attempts_step env id attempts u q) v =
    Holds-ok (increment_attempts-WellFormed env id attempts _ v) q

-- Whatever transactions of the queue commit, in whatever order, from the empty tables on, the
-- tables reached are well formed: the unique indexes hold, a pull request has at most one
-- pending or retriggered row, a resolved row has its date and its resolution, every row has an
-- order row and no item has two, and ids are below the counter. A comment enqueued belongs to
-- one pull request, and markRetriggered and backoff run on a row that is not resolved.
pub Reachable-WellFormed : {db : Db} → Reachable db → WellFormed db
Reachable-WellFormed start = empty-WellFormed
Reachable-WellFormed (after h s) = Step-WellFormed s (Reachable-WellFormed h)
