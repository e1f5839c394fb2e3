-- ===== src/Queue/Rules.antt =====
-- Reasoning about statements: what holds after a run that succeeds.
use rabbit_maximizer.Prelude.{
  ℕ, suc, ◌≡◌, refl, subst, Bool, true, false, Option, some, List, [], ◌∷◌, ◌++◌, find, any, count,
  Bool-cases, Option-cases, inl, inr,
}
use rabbit_maximizer.Schema.{ReviewQueue, Db, unique_ok}
use rabbit_maximizer.Store.{
  Error, Result, ok, err, M, ◌>>=◌, return, catch, typed_error, with_prisma_error_handling, commit,
  change, update_many, updated, update, create, create_order, orders_item, order_row,
}

-- The result and the state of a successful run; a failed run leaves nothing to say.
pub data Holds {A : Type 0} (P : A → Db → Type 0) : Result (A × Db) → Type 0 where
  failed : (e : Error) → Holds P (err e)
  done : (a : A) (db : Db) → P a db → Holds P (ok (a, db))

pub Holds-ok :
    {A : Type 0} {P : A → Db → Type 0} {r : Result (A × Db)} {a : A} {db : Db}
    → Holds P r
    → r ≡ ok (a, db)
    → P a db
Holds-ok (failed e) q = absurd (cc)
Holds-ok {P = P} (done b db' h) q = subst (Landed P (b, db')) q h
  where
    Landed : {A : Type 0} (P : A → Db → Type 0) → A × Db → Result (A × Db) → Type 0
    Landed P d (err e) = P d.0 d.1
    Landed P d (ok (a, db)) = P a db

pub Holds-bind :
    {A B : Type 0} {P : A → Db → Type 0} {Q : B → Db → Type 0} (m : M A) (f : A → M B) (db : Db)
    → Holds P (m db)
    → ((a : A) (db' : Db) → P a db' → Holds Q (f a db'))
    → Holds Q ((m >>= f) db)
Holds-bind {A} {B} {P} {Q} m f db h k = go (m db) h
  where
    go :
        (r : Result (A × Db))
        → Holds P r
        → Holds Q (elim r [ err e ↦ err e | ok (a, db') ↦ f a db' ])
    go r (failed e) = failed e
    go r (done a db' p) = k a db' p

pub Holds-typed :
    {A : Type 0} {P : A → Db → Type 0} (m : M A) (db : Db)
    → Holds P (m db)
    → Holds P (with_prisma_error_handling m db)
unfolding with_prisma_error_handling
Holds-typed {A} {P} m db h = go (m db) h
  where
    go :
        (r : Result (A × Db))
        → Holds P r
        → Holds P (elim r [ err e ↦ err (typed_error e) | ok s ↦ ok s ])
    go r (failed e) = failed (typed_error e)
    go r (done a db' p) = done a db' p

pub Holds-catch :
    {A : Type 0} {P : A → Db → Type 0} (m : M A) (handle : Error → M A) (db : Db)
    → Holds P (m db)
    → ((e : Error) → m db ≡ err e → Holds P (handle e db))
    → Holds P (catch m handle db)
Holds-catch {A} {P} m handle db h k = go (m db) refl h
  where
    go :
        (r : Result (A × Db))
        → m db ≡ r
        → Holds P r
        → Holds P (elim r [ err e ↦ handle e db | ok s ↦ ok s ])
    go r q (failed e) = k e q
    go r q (done a db' p) = done a db' p

pub Holds-commit :
    {P : Unit {0} → Db → Type 0} (rows : List ReviewQueue) (db : Db)
    → (unique_ok rows ≡ true → P tt (record db { review_queue = rows }))
    → Holds P (commit rows db)
unfolding commit
Holds-commit rows db h = elim (Bool-cases (unique_ok rows)) [
  | inl e ↦ rw e (done _ _ (h e))
  | inr e ↦ rw e (failed _)
]

pub Holds-update_many :
    {P : ℕ → Db → Type 0} (p : ReviewQueue → Bool) (f : ReviewQueue → ReviewQueue) (db : Db)
    → (unique_ok (change p f db.review_queue) ≡ true
        → P (count p db.review_queue) (record db { review_queue = change p f db.review_queue }))
    → Holds P (update_many p f db)
unfolding update_many
Holds-update_many {P} p f db h =
    Holds-bind {P = λ _ db'. P (count p db.review_queue) db'} (commit (change p f db.review_queue))
      (λ _. return (count p db.review_queue)) db (Holds-commit _ db h) (λ _ db' k. done _ db' k)

pub Holds-update :
    {P : ReviewQueue → Db → Type 0} (p : ReviewQueue → Bool) (f : ReviewQueue → ReviewQueue)
    (db : Db)
    → ((r : ReviewQueue)
        → find p db.review_queue ≡ some r
        → unique_ok (change p f db.review_queue) ≡ true
        → P (f r) (record db { review_queue = change p f db.review_queue }))
    → Holds P (update p f db)
unfolding update updated
Holds-update {P} p f db h = elim (Option-cases (find p db.review_queue)) [
  | inl q ↦ rw (q, updated) (failed _)
  | inr (r, q) ↦
      rw (q, updated)
        (Holds-bind {P = λ _ db'. P (f r) db'} (commit (change p f db.review_queue))
          (λ _. return (f r)) db (Holds-commit _ db (h r q)) (λ _ db' k. done _ db' k))
]

pub Holds-create :
    {P : ReviewQueue → Db → Type 0} (row : ℕ → ReviewQueue) (db : Db)
    → (unique_ok (db.review_queue ++ row db.next_id ∷ []) ≡ true
        → P (row db.next_id) (record db {
          review_queue = db.review_queue ++ row db.next_id ∷ [];
          next_id = suc db.next_id;
        }))
    → Holds P (create row db)
unfolding create
Holds-create {P} row db h =
    Holds-bind {P = λ _ db'. P (row db.next_id) (record db' { next_id = suc db.next_id })}
      (commit (db.review_queue ++ row db.next_id ∷ []))
      (λ _ db'. ok (row db.next_id, record db' { next_id = suc db.next_id })) db
      (Holds-commit _ db h) (λ _ db' k. done _ _ k)

pub Holds-create_order :
    {P : Unit {0} → Db → Type 0} (now item : ℕ) (position : Option ℕ) (db : Db)
    → (any (orders_item item) db.queue_order ≡ false
        → P tt (record db {
          queue_order = db.queue_order ++ order_row now item position db.next_order_id ∷ [];
          next_order_id = suc db.next_order_id;
        }))
    → Holds P (create_order now item position db)
unfolding create_order
Holds-create_order now item position db h =
    elim (Bool-cases (any (orders_item item) db.queue_order)) [
      | inl e ↦ rw e (failed _)
      | inr e ↦ rw e (done _ _ (h e))
    ]
