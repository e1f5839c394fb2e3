-- ===== src/Store.antt =====
-- The statements that the repositories send through Prisma, over the tables of `Schema`, and the
-- errors of BasePrismaRepository.ts. An error carries no state: the transaction is rolled back.
use rabbit_maximizer.Prelude.{
  ℕ, suc, String, ◌≡◌, Bool, true, Option, none, some, List, [], ◌∷◌, ◌++◌, map, Memᴰ, ◌==◌,
  if◌then◌else◌, find, any, count,
}
use rabbit_maximizer.Schema.{ReviewQueue, QueueOrder, Event, Db, unique_ok}

-- The codes of PrismaClientKnownRequestError that the code tells apart.
pub data PrismaCode : Type 0 where
  p2002 p2003 p2005 p2025 : PrismaCode

pub data Error : Type 0 where
  known_request : PrismaCode → Error
  unique_constraint_violation record_not_found field_type_mismatch : Error
  queue_item_not_pending : Error
  unexpected_switch_default : Error
  check_constraint_violation : Error
  invalid_repo invalid_comment_url : Error
  github : Option ℕ → Error

pub data Result {ℓ} (A : Type ℓ) : Type ℓ where
  ok : A → Result A
  err : Error → Result A

abbrev pub M : Type 0 → Type 0
M A = Db → Result (A × Db)

infixl 5 ◌>>=◌ ◌>>◌
abbrev pub ◌>>=◌ : {A B : Type 0} → M A → (A → M B) → M B
◌>>=◌ m f db = elim (m db) [ err e ↦ err e | ok (a, db') ↦ f a db' ]

abbrev pub ◌>>◌ : {B : Type 0} → M (Unit {0}) → M B → M B
m >> k = m >>= λ _. k

abbrev pub return : {A : Type 0} → A → M A
return a db = ok (a, db)

abbrev pub throw : {A : Type 0} → Error → M A
throw e db = err e

-- withPrismaErrorHandling: a known code becomes its typed error, any other error passes.
unfoldable pub typed_error : Error → Error
typed_error (known_request p2025) = record_not_found
typed_error (known_request p2002) = unique_constraint_violation
typed_error (known_request p2005) = field_type_mismatch
typed_error e = e

unfoldable pub with_prisma_error_handling : {A : Type 0} → M A → M A
unfolding typed_error
with_prisma_error_handling m db = elim (m db) [ err e ↦ err (typed_error e) | ok r ↦ ok r ]

-- `try { m } catch (err) { handle(err) }`: the handler starts from the state before the failed
-- statement.
abbrev pub catch : {A : Type 0} → M A → (Error → M A) → M A
catch m handle db = elim (m db) [ err e ↦ handle e db | ok r ↦ ok r ]

-- A `findFirst` with no `orderBy` yields some row that passes, and none only if no row does.
pub record FindFirst (A : Type 0) : Type 0 where
  pub apply : (A → Bool) → List A → Option A
  pub sound :
      (p : A → Bool) (rows : List A) (a : A) → apply p rows ≡ some a → Memᴰ a rows × (p a ≡ true)
  pub complete : (p : A → Bool) (rows : List A) → apply p rows ≡ none → count p rows ≡ 0

-- What surrounds one call: the clock, the uuid that a new row gets, and the choice of `findFirst`.
pub record Env : Type 0 where
  pub now : ℕ
  pub new_uuid : String
  pub find_first : FindFirst ReviewQueue

-- A statement that leaves the table with a clash fails and changes nothing.
unfoldable pub commit : List ReviewQueue → M (Unit {0})
unfolding unique_ok
commit rows db =
    if unique_ok rows then ok (tt, record db { review_queue = rows }) else err (known_request p2002)

abbrev pub change :
    (ReviewQueue → Bool) → (ReviewQueue → ReviewQueue) → List ReviewQueue → List ReviewQueue
change p f = map (λ r. if p r then f r else r)

-- `updateMany({ where, data })`, with the count of the rows changed.
unfoldable pub update_many : (ReviewQueue → Bool) → (ReviewQueue → ReviewQueue) → M ℕ
unfolding commit
update_many p f db = (commit (change p f db.review_queue) >> return (count p db.review_queue)) db

abbrev pub has_id : ℕ → ReviewQueue → Bool
has_id i r = r.id == i

unfoldable pub updated :
    (ReviewQueue → Bool) → (ReviewQueue → ReviewQueue) → Option ReviewQueue → M ReviewQueue
unfolding commit
updated p f none db = throw (known_request p2025) db
updated p f (some r) db = (commit (change p f db.review_queue) >> return (f r)) db

-- `update({ where, data })` by a unique key: the new row, or P2025 where there is none.
unfoldable pub update : (ReviewQueue → Bool) → (ReviewQueue → ReviewQueue) → M ReviewQueue
unfolding updated
update p f db = updated p f (find p db.review_queue) db

-- `reviewQueue.create`: the row gets the next id.
unfoldable pub create : (ℕ → ReviewQueue) → M ReviewQueue
unfolding commit
create row db =
    let r = row db.next_id in
    (commit (db.review_queue ++ r ∷ []) >>= λ _ db'.
    ok (r, record db' { next_id = suc db.next_id }))
      db

abbrev pub orders_item : ℕ → QueueOrder → Bool
orders_item i o = o.queue_item_id == i

abbrev pub order_row : ℕ → ℕ → Option ℕ → ℕ → QueueOrder
order_row now item position id = record {
  id = id;
  queue_item_id = item;
  position = position;
  created_at = now;
  updated_at = now;
}

-- `queueOrder.create`; `queue_item_id` is unique.
unfoldable pub create_order : ℕ → ℕ → Option ℕ → M (Unit {0})
create_order now item position db =
    if any (orders_item item) db.queue_order
    then err (known_request p2002)
    else ok (
      tt,
      record db {
        queue_order = db.queue_order ++ order_row now item position db.next_order_id ∷ [];
        next_order_id = suc db.next_order_id;
      },
    )

-- EventRepository.record.
unfoldable pub record_event : Event → M (Unit {0})
record_event e db = ok (tt, record db { events = db.events ++ e ∷ [] })
