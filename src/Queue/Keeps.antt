-- ===== src/Queue/Keeps.antt =====
-- The methods of `Marks` keep the queue tables well-formed.
use rabbit_maximizer.Prelude.{
  ℕ, String, ◌≡◌, refl, ap, Bool, true, Option, none, some, List, [], ◌∷◌, ◌==◌, All, Bool-cases,
  inl, inr, arith,
}
use rabbit_maximizer.Domain.{QueueStatus, Resolution, SkipReason, is_active}
use rabbit_maximizer.Schema.{ReviewQueue, Db}
use rabbit_maximizer.Store.{Env, M, ◌>>=◌, return, has_id, update, update_many}
use rabbit_maximizer.Queue.Rules.{
  Holds, done, Holds-bind, Holds-typed, Holds-update, Holds-update_many,
}
use rabbit_maximizer.Queue.WellFormed.{active_for, WellFormed, IsQuiet, change-IsSound}
use rabbit_maximizer.Queue.Marks.{
  resolve_row, mark_retriggered, mark_retrigger_skipped, mark_resolved,
  mark_resolved_if_still_retriggered, adopt_run_if_still_retriggered, backoff,
  resolve_stale_retriggered, increment_attempts,
}

abbrev pub Anything : ReviewQueue → Type 0
Anything r = Unit {0}

pub All-Anything : (rows : List ReviewQueue) → All Anything rows
All-Anything [] = tt
All-Anything (r ∷ rows) = (tt, All-Anything rows)

-- The row of the id, if there is one, is active.
abbrev pub ActiveId : ℕ → ReviewQueue → Type 0
ActiveId i r = has_id i r ≡ true → is_active r.status ≡ true

pub resolve_row-IsQuiet :
    (ex : Option ℕ) (p : ReviewQueue → Bool) (now : ℕ) (resolution : Resolution)
    → IsQuiet Anything ex ex p (resolve_row now resolution)
resolve_row-IsQuiet ex p now resolution = record {
  same_id = λ r. refl;
  stamps = λ r k e. (refl, refl);
  quiet = λ r h repo pr e. ground arith;
}

-- The columns that the invariant speaks of.
abbrev core : ReviewQueue → ℕ × QueueStatus × Option ℕ × Option Resolution × String × ℕ
core r = (r.id, r.status, r.resolved_at, r.resolution, r.repo_full_name, r.pr_number)

-- A change of other columns.
abbrev pub IsMinor : (ReviewQueue → ReviewQueue) → Type 0
IsMinor f = (r : ReviewQueue) → core (f r) ≡ core r

active_for-minor :
    (ex : Option ℕ) (repo : String) (pr : ℕ) (r s : ReviewQueue)
    → core s ≡ core r
    → active_for ex repo pr s ≡ true
    → active_for ex repo pr r ≡ true
active_for-minor none repo pr r s m e =
    rw (← ap (λ c. c.1) m, ← ap (λ c. c.4) m, ← ap (λ c. c.5) m) e
active_for-minor (some i) repo pr r s m e =
    rw (← ap (λ c. c.0) m, ← ap (λ c. c.1) m, ← ap (λ c. c.4) m, ← ap (λ c. c.5) m) e

pub IsMinor-IsQuiet :
    (ex : Option ℕ) (p : ReviewQueue → Bool) (f : ReviewQueue → ReviewQueue)
    → IsMinor f
    → IsQuiet Anything ex ex p f
IsMinor-IsQuiet ex p f m = record {
  same_id = λ r. ap (λ c. c.0) (m r);
  stamps = λ r k. rw (ap (λ c. c.1) (m r), ap (λ c. c.2) (m r), ap (λ c. c.3) (m r)) k;
  quiet = λ r h repo pr e. elim (Bool-cases (p r)) [
    | inl q ↦ active_for-minor ex repo pr r (f r) (m r) (rw q at e)
    | inr q ↦ rw q at e
  ];
}

-- A statement that makes quiet changes keeps the tables well-formed, and any result with them.
pub update_many-WellFormed :
    (H : ReviewQueue → Type 0) (p : ReviewQueue → Bool) (f : ReviewQueue → ReviewQueue) (db : Db)
    → IsQuiet H none none p f
    → All H db.review_queue
    → WellFormed db
    → Holds (λ _. WellFormed) (update_many p f db)
update_many-WellFormed H p f db q h v =
    Holds-update_many p f db λ u. change-IsSound p f H none none db q h u v

pub update-WellFormed :
    (H : ReviewQueue → Type 0) (p : ReviewQueue → Bool) (f : ReviewQueue → ReviewQueue) (db : Db)
    → IsQuiet H none none p f
    → All H db.review_queue
    → WellFormed db
    → Holds (λ _. WellFormed) (update p f db)
update-WellFormed H p f db q h v =
    Holds-update p f db λ r _ u. change-IsSound p f H none none db q h u v

count_one-WellFormed :
    (m : M ℕ) (db : Db)
    → Holds (λ _. WellFormed) (m db)
    → Holds (λ _. WellFormed) ((m >>= λ n. return (n == 1)) db)
count_one-WellFormed m db h = Holds-bind m _ db h (λ n db' v. done _ _ v)

pub mark_retriggered-WellFormed :
    (env : Env) (id cooldown : ℕ) (url : String) (run own : Option String) (db : Db)
    → All (ActiveId id) db.review_queue
    → WellFormed db
    → Holds (λ _. WellFormed) (mark_retriggered env id cooldown url run own db)
unfolding mark_retriggered
mark_retriggered-WellFormed env id cooldown url run own db h v = Holds-typed _ db (
    update-WellFormed (ActiveId id) _ _ db
      (record {
        same_id = λ r. refl;
        stamps = λ r k e. absurd (cc);
        quiet = λ r k repo pr e. ground (arith, k);
      })
      h v)

pub backoff-WellFormed :
    (env : Env) (id : ℕ) (db : Db)
    → All (ActiveId id) db.review_queue
    → WellFormed db
    → Holds (λ _. WellFormed) (backoff env id db)
unfolding backoff
backoff-WellFormed env id db h v = Holds-typed _ db (
    update-WellFormed (ActiveId id) _ _ db
      (record {
        same_id = λ r. refl;
        stamps = λ r k e. absurd (cc);
        quiet = λ r k repo pr e. ground (arith, k);
      })
      h v)

pub mark_retrigger_skipped-WellFormed :
    (env : Env) (id : ℕ) (reason : SkipReason) (db : Db)
    → WellFormed db
    → Holds (λ _. WellFormed) (mark_retrigger_skipped env id reason db)
unfolding mark_retrigger_skipped
mark_retrigger_skipped-WellFormed env id reason db v = count_one-WellFormed (update_many _ _) db (
    update_many-WellFormed Anything _ _ db (IsMinor-IsQuiet none _ _ (λ r. refl)) (All-Anything _)
      v)

pub mark_resolved-WellFormed :
    (env : Env) (id : ℕ) (resolution : Resolution) (db : Db)
    → WellFormed db
    → Holds (λ _. WellFormed) (mark_resolved env id resolution db)
unfolding mark_resolved
mark_resolved-WellFormed env id resolution db v =
    Holds-typed _ db (
      update-WellFormed Anything _ _ db (resolve_row-IsQuiet none _ _ resolution) (All-Anything _)
        v)

pub mark_resolved_if_still_retriggered-WellFormed :
    (env : Env) (id : ℕ) (resolution : Resolution) (db : Db)
    → WellFormed db
    → Holds (λ _. WellFormed) (mark_resolved_if_still_retriggered env id resolution db)
unfolding mark_resolved_if_still_retriggered
mark_resolved_if_still_retriggered-WellFormed env id resolution db v =
    count_one-WellFormed (update_many _ _) db (
      update_many-WellFormed Anything _ _ db (resolve_row-IsQuiet none _ _ resolution)
        (All-Anything _) v)

pub adopt_run_if_still_retriggered-WellFormed :
    (env : Env) (id : ℕ) (expected : Option String) (adopted : String) (db : Db)
    → WellFormed db
    → Holds (λ _. WellFormed) (adopt_run_if_still_retriggered env id expected adopted db)
unfolding adopt_run_if_still_retriggered
adopt_run_if_still_retriggered-WellFormed env id expected adopted db v =
    count_one-WellFormed (update_many _ _) db (
      update_many-WellFormed Anything _ _ db (IsMinor-IsQuiet none _ _ (λ r. refl)) (All-Anything _)
        v)

pub resolve_stale_retriggered-WellFormed :
    (env : Env) (max_age : ℕ) (db : Db)
    → WellFormed db
    → Holds (λ _. WellFormed) (resolve_stale_retriggered env max_age db)
unfolding resolve_stale_retriggered
resolve_stale_retriggered-WellFormed env max_age db v =
    update_many-WellFormed Anything _ _ db (resolve_row-IsQuiet none _ _ _) (All-Anything _) v

pub increment_attempts-WellFormed :
    (env : Env) (id attempts : ℕ) (db : Db)
    → WellFormed db
    → Holds (λ _. WellFormed) (increment_attempts env id attempts db)
unfolding increment_attempts
increment_attempts-WellFormed env id attempts db v =
    Holds-bind (update _ _) _ db
      (update-WellFormed Anything _ _ db (IsMinor-IsQuiet none _ _ (λ r. refl)) (All-Anything _) v)
      (λ r db' k. done _ _ k)
