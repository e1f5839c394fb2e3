-- ===== src/Scheduler/Spacing.antt =====
-- A recorded retrigger holds back every tick until the account cooldown is over.
use rabbit_maximizer.Prelude.{
  ℕ, ◌+◌, ◌≤◌, ◌<◌, ◌≡◌, refl, sym, subst, String, true, Option, none, some, List, Bool-cases, inl,
  inr, arith,
}
use rabbit_maximizer.Schema.{ReviewQueue, Db}
use rabbit_maximizer.Store.{Result, ok, err, record_event}
use rabbit_maximizer.Queue.Rules.{Holds, failed, done, Holds-ok, Holds-bind}
use rabbit_maximizer.Queue.Marks.{mark_retriggered}
use rabbit_maximizer.PullRequests.{increment_retrigger_count, find_pending_acknowledgement}
use rabbit_maximizer.SystemState.{
  is_scheduler_paused, get_next_review_available_at, set_next_review_available_at, later_of,
  next_review_available_at,
}
use rabbit_maximizer.SystemState.Cooldown.{set_state-get_state}
use rabbit_maximizer.Service.{Setting, Post, Fetch}
use rabbit_maximizer.Scheduler.Recording.{record_retrigger, pull_request_id_of}
use rabbit_maximizer.Scheduler.Tick.{is_held_back, awaits_answer, execute_tick}
use rabbit_maximizer.Scheduler.HeldBack.{IsHeldBack, cooling_down, execute_tick-held_back}

-- A run of which nothing is asked.
Holds-any : {A : Type 0} (r : Result (A × Db)) → Holds (λ _ _. Unit) r
Holds-any (err e) = failed e
Holds-any (ok (a, db)) = done a db tt

-- The cooldown that is set is `t` or later.
abbrev pub CoolsUntil : ℕ → Db → Type 0
CoolsUntil t db = (until : ℕ) × (get_next_review_available_at db ≡ some until) × (t ≤ until)

later_of-≤ : (current : Option ℕ) (t : ℕ) → t ≤ later_of current t
later_of-≤ none t = omega arith
later_of-≤ (some e) t = ground arith

set_later-CoolsUntil :
    (now t : ℕ) (db : Db)
    → Holds
        (λ _. CoolsUntil t)
        (set_next_review_available_at now (later_of (get_next_review_available_at db) t) db)
unfolding set_next_review_available_at get_next_review_available_at
set_later-CoolsUntil now t db =
    let value = later_of (get_next_review_available_at db) t in
    let k = set_state-get_state now next_review_available_at value db in
    subst (Holds (λ _. CoolsUntil t)) (sym k.1.0) (done tt k.0 (value, k.1.1, later_of-≤ _ t))

module _ (s : Setting) (item : ReviewQueue) (url : String) (source_run : Option String) where
  pub record_retrigger-CoolsUntil :
      (db : Db)
      → Holds
          (λ _. CoolsUntil (s.env.now + s.cfg.post_cooldown_ms))
          (record_retrigger s item url source_run db)
  unfolding record_retrigger record_event
  record_retrigger-CoolsUntil db =
      Holds-bind {P = λ _ _. Unit}
        (mark_retriggered s.env item.id (s.env.now + s.cfg.post_cooldown_ms) url source_run
          (some s.run_id))
        _ db (Holds-any _)
        (λ r db' _.
          Holds-bind {P = λ _ _. Unit}
            (increment_retrigger_count s.env.now (pull_request_id_of item)) _ db' (Holds-any _)
            (λ u db'' _. set_later-CoolsUntil s.env.now (s.env.now + s.cfg.post_cooldown_ms) _))

CoolsUntil-held_back :
    (s : Setting) (t : ℕ) (db : Db) → CoolsUntil t db → s.env.now < t → IsHeldBack s db
unfolding get_next_review_available_at
CoolsUntil-held_back s t db (until, q, h) b = cooling_down until q (omega (arith, h, b))

-- After the transaction that records a retrigger has committed, a tick on the database that it
-- leaves, before the account cooldown after the retrigger is over, posts nothing, whatever the
-- client answers.
pub execute_tick-spaced :
    (s later : Setting) (item : ReviewQueue) (url : String) (source_run : Option String)
    (db db' : Db) (posts : List Post) (fetched : List Fetch)
    → record_retrigger s item url source_run db ≡ ok (tt, db')
    → later.env.now < s.env.now + s.cfg.post_cooldown_ms
    → (execute_tick later (record { db = db'; posts = posts; fetched = fetched })).1.posts ≡ posts
execute_tick-spaced s later item url source_run db db' posts fetched q b =
    execute_tick-held_back later (record { db = db'; posts = posts; fetched = fetched })
      (CoolsUntil-held_back later (s.env.now + s.cfg.post_cooldown_ms) db'
        (Holds-ok (record_retrigger-CoolsUntil s item url source_run db) q) b)
