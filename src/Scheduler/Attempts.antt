-- ===== src/Scheduler/Attempts.antt =====
-- The attempts of an item: each one that is recorded is one of a bounded number.
use rabbit_maximizer.Prelude.{
  ℕ, suc, Memᴰ, ◌+◌, ◌≤◌, ◌<◌, if◌then◌else◌, ◌≡◌, ◌⊎◌, true, false, ◌==◌, leb, All, arith,
}
use rabbit_maximizer.Domain.{is_resolved}
use rabbit_maximizer.Schema.{ReviewQueue, Db}
use rabbit_maximizer.Store.{ok}
use rabbit_maximizer.Service.{Setting}
use rabbit_maximizer.Scheduler.Recording.{fail_or_back_off, count_attempt}

-- What holds of every row of the item.
abbrev pub OfItem : ReviewQueue → (ReviewQueue → Type 0) → Db → Type 0
OfItem item G db = All (λ q. q.id ≡ item.id → G q) db.review_queue

-- The attempts that were read with the item are still those of its row.
abbrev pub IsCurrent : ReviewQueue → Db → Type 0
IsCurrent item = OfItem item (λ q. q.attempts ≡ item.attempts)

-- A row that takes no more part, or one with one attempt more of those below the limit.
abbrev pub IsCounted : ℕ → ReviewQueue → ReviewQueue → Type 0
IsCounted limit item q =
    (is_resolved q.status ≡ true)
    ⊎ ((q.attempts ≡ item.attempts + 1) × (q.attempts < limit))

within : (a b : ℕ) → leb a b ≡ true → a ≤ b
within a b h = ground arith

-- `failures` failed and `n - failures` made attempts of the item recorded one after another, each
-- on its row as it then is. Other statements may come between, as long as they keep the attempts
-- and reopen no resolved row.
pub data Recorded (s : Setting) (id : ℕ) (db : Db) : ℕ → ℕ → Db → Type 0 where
  none_yet : Recorded s id db 0 0 db
  failed_once :
      (failures n : ℕ) (db' db'' : Db) (item : ReviewQueue)
      → Recorded s id db failures n db'
      → Memᴰ item db'.review_queue
      → item.id ≡ id
      → is_resolved item.status ≡ false
      → IsCurrent item db'
      → fail_or_back_off s item db' ≡ ok (tt, db'')
      → Recorded s id db (suc failures) (suc n) db''
  made_once :
      (failures n : ℕ) (db' db'' : Db) (item : ReviewQueue)
      → Recorded s id db failures n db'
      → Memᴰ item db'.review_queue
      → item.id ≡ id
      → is_resolved item.status ≡ false
      → IsCurrent item db'
      → count_attempt s item db' ≡ ok (tt, db'')
      → Recorded s id db failures (suc n) db''
  between :
      (failures n : ℕ) (db' db'' : Db)
      → Recorded s id db failures n db'
      → ((q : ReviewQueue)
          → Memᴰ q db''.review_queue
          → q.id ≡ id
          → (p : ReviewQueue) × Memᴰ p db'.review_queue
            × (p.id ≡ id)
            × (p.attempts ≡ q.attempts)
            × (is_resolved p.status ≡ true → is_resolved q.status ≡ true))
      → Recorded s id db failures n db''

-- One more attempt than the cap is granted only after a failure.
abbrev pub most : Setting → ℕ → ℕ
most s failures = s.cfg.max_retrigger_attempts + (if failures == 0 then 0 else 1)

module _ (s : Setting) (id : ℕ) (capped : 1 ≤ s.cfg.max_retrigger_attempts) where
  -- A row of the item that is not resolved has all attempts counted, and may be tried once more.
  abbrev IsWithin : ℕ → ℕ → Db → Type 0
  IsWithin failures n db =
      (q : ReviewQueue)
      → Memᴰ q db.review_queue
      → q.id ≡ id
      → (is_resolved q.status ≡ true) ⊎ ((n ≤ q.attempts) × (n < most s failures))
