-- ===== src/SystemState/Cooldown.antt =====
-- The values of `system_state` that are read back, and the account cooldown, which only grows.
use rabbit_maximizer.Prelude.{
  ℕ, ◌≡◌, refl, sym, ap, ◌∙◌, subst, String, true, false, Option, none, some, List, [], ◌∷◌, ◌++◌,
  map, str_eq, eq_iff, any, if◌then◌else◌, Bool-cases, inl, inr, arith,
}
use rabbit_maximizer.Schema.{SystemStateRow, Db}
use rabbit_maximizer.Store.{ok}
use rabbit_maximizer.SystemState.{
  StateKey, ValueType, column, value_setter, blank_row, key_name, read_column, parse_found,
  find_state, has_key, get_state, set_state, upsert_state, later_datetime, latch,
  set_next_review_available_at_if_later, next_review_available_at, get_next_review_available_at,
  later_of, value_text, value_datetime, ValueColumn, ColumnType,
}

module _ (key : String) (f : SystemStateRow → SystemStateRow)
    (same : (r : SystemStateRow) → has_key key r ≡ true → has_key key (f r) ≡ true) where
  abbrev written : List SystemStateRow → List SystemStateRow
  written = map (λ r. if has_key key r then f r else r)

  find-written :
      (rows : List SystemStateRow) (r : SystemStateRow)
      → find_state key rows ≡ some r
      → find_state key (written rows) ≡ some (f r)
  find-written [] r h = absurd (cc)
  find-written (x ∷ xs) r h = elim (Bool-cases (has_key key x)) [
    | inl q ↦
        let e : x ≡ r = some-injective (sym (rw q refl) ∙ h) in
        rw (q, same x q) (ap (λ z. some (f z)) e)
    | inr q ↦ rw (q, q) (find-written xs r (sym (rw q refl) ∙ h))
  ]
    where
      some-injective : {x r : SystemStateRow} → some x ≡ some r → x ≡ r
      some-injective e = cc

  find-written_other :
      (other : String) (rows : List SystemStateRow)
      → ((r : SystemStateRow) → has_key key r ≡ true → has_key other r ≡ false)
      → find_state other (written rows) ≡ find_state other rows
  find-written_other other [] h = refl
  find-written_other other (x ∷ xs) h = elim (Bool-cases (has_key key x)) [
    | inl q ↦ rw (q, h x q, h (f x) (same x q)) (find-written_other other xs h)
    | inr q ↦ rw (q, find-written_other other xs h) refl
  ]

any-find :
    (key : String) (rows : List SystemStateRow)
    → any (has_key key) rows ≡ true
    → (r : SystemStateRow) × (find_state key rows ≡ some r)
any-find key [] h = absurd (cc)
any-find key (x ∷ xs) h = elim (Bool-cases (has_key key x)) [
  | inl q ↦ (x, rw q refl)
  | inr q ↦ let k = any-find key xs (sym (rw q refl) ∙ h) in (k.0, rw q k.1)
]

find-none :
    (key : String) (rows : List SystemStateRow)
    → any (has_key key) rows ≡ false
    → find_state key rows ≡ none
find-none key [] h = refl
find-none key (x ∷ xs) h = elim (Bool-cases (has_key key x)) [
  | inl q ↦ absurd (ground arith)
  | inr q ↦ rw q (find-none key xs (sym (rw q refl) ∙ h))
]

-- Where the last row is found: behind rows of other keys.
find-append :
    (key : String) (rows : List SystemStateRow) (row : SystemStateRow)
    → any (has_key key) rows ≡ false
    → has_key key row ≡ true
    → find_state key (rows ++ row ∷ []) ≡ some row
find-append key [] row h k = rw k refl
find-append key (x ∷ xs) row h k = elim (Bool-cases (has_key key x)) [
  | inl q ↦ absurd (ground arith)
  | inr q ↦ rw q (find-append key xs row (sym (rw q refl) ∙ h) k)
]

find-append_other :
    (other : String) (rows : List SystemStateRow) (row : SystemStateRow)
    → has_key other row ≡ false
    → find_state other (rows ++ row ∷ []) ≡ find_state other rows
find-append_other other [] row k = rw k refl
find-append_other other (x ∷ xs) row k = elim (Bool-cases (has_key other x)) [
  | inl q ↦ rw q refl
  | inr q ↦ rw q (find-append_other other xs row k)
]

-- A row of one key is no row of another.
has_key-other :
    (key other : String)
    → str_eq key other ≡ false
    → (r : SystemStateRow) → has_key key r ≡ true
    → has_key other r ≡ false
has_key-other key other n r h = elim (Bool-cases (has_key other r)) [
  | inr q ↦ q
  | inl q ↦
      let e : key ≡ other = sym ((eq_iff r.state_key key).0 h) ∙ (eq_iff r.state_key other).0 q in
      let k = (eq_iff key other).1 e in absurd (ground arith)
]

upsert-find :
    (row : SystemStateRow) (rows : List SystemStateRow)
    → find_state row.state_key (upsert_state row rows) ≡ some row
unfolding upsert_state
upsert-find row rows = elim (Bool-cases (any (has_key row.state_key) rows)) [
  | inl q ↦
      let k = any-find row.state_key rows q in
      rw q (
        find-written row.state_key (λ _. row) (λ _ _. (eq_iff row.state_key row.state_key).1 refl)
          rows k.0 k.1)
  | inr q ↦
      rw q (find-append row.state_key rows row q ((eq_iff row.state_key row.state_key).1 refl))
]

upsert-find_other :
    (other : String) (row : SystemStateRow) (rows : List SystemStateRow)
    → str_eq row.state_key other ≡ false
    → find_state other (upsert_state row rows) ≡ find_state other rows
unfolding upsert_state
upsert-find_other other row rows n = elim (Bool-cases (any (has_key row.state_key) rows)) [
  | inl q ↦ rw q (
      find-written_other row.state_key (λ _. row)
        (λ _ _. (eq_iff row.state_key row.state_key).1 refl) other rows
        (has_key-other row.state_key other n))
  | inr q ↦ rw q (find-append_other other rows row n)
]

read-set :
    (c : ValueColumn) (base : SystemStateRow) (v : ColumnType c)
    → read_column c (value_setter c base v) ≡ some v
read-set value_text base v = refl
read-set value_datetime base v = refl

key-set :
    (c : ValueColumn) (base : SystemStateRow) (v : ColumnType c)
    → (value_setter c base v).state_key ≡ base.state_key
key-set value_text base v = refl
key-set value_datetime base v = refl

-- The rows after `setState`, as the result of a statement that does not fail.
abbrev pub Sets : (now : ℕ) (key : StateKey) → ValueType key → Db → Db → Type 0
Sets now key value db db' =
    (set_state now key value db ≡ ok (tt, db'))
    × (get_state key db' ≡ some value)
    × ((other : StateKey)
        → str_eq (key_name key) (key_name other) ≡ false
        → get_state other db' ≡ get_state other db)

-- Setting a key succeeds, the key then reads as the value that was set, and a key of another
-- name reads as it did before.
pub set_state-get_state :
    (now : ℕ) (key : StateKey) (value : ValueType key) (db : Db)
    → (db' : Db) × Sets now key value db db'
unfolding set_state get_state
set_state-get_state now key value db = (
  _,
  (
    refl,
    ap (parse_found key) found ∙ read-set (column key) base value,
    λ other n. ap (parse_found other) (
        upsert-find_other (key_name other) row db.system_state
          (ap (λ k. str_eq k (key_name other)) same ∙ n)),
  ),
)
  where
    base : SystemStateRow
    base = blank_row (key_name key) now

    row : SystemStateRow
    row = value_setter (column key) base value

    same : row.state_key ≡ key_name key
    same = key-set (column key) base value

    found : find_state (key_name key) (upsert_state row db.system_state) ≡ some row
    found =
        subst (λ k. find_state k (upsert_state row db.system_state) ≡ some row) same
          (upsert-find row db.system_state)

-- Setting the next review date if it is later succeeds, and the date then reads as the given
-- one where none was set or an earlier one, and as the one that was set elsewhere.
pub set_if_later-get :
    (now earliest : ℕ) (db : Db)
    → (db' : Db) × (set_next_review_available_at_if_later now earliest db ≡ ok (tt, db'))
      × (get_next_review_available_at db'
          ≡ later_datetime (get_next_review_available_at db) earliest)
unfolding set_next_review_available_at_if_later get_next_review_available_at get_state
set_if_later-get now earliest db = (_, refl, read)
  where
    key : String
    key = key_name next_review_available_at

    rows : List SystemStateRow
    rows = db.system_state

    new : SystemStateRow
    new = record (blank_row key now) { value_datetime = some earliest }

    read :
        parse_found next_review_available_at (
          find_state key (
            if any (has_key key) rows
            then map (λ r. if has_key key r then latch now earliest r else r) rows
            else rows ++ new ∷ []))
        ≡ later_datetime (parse_found next_review_available_at (find_state key rows)) earliest
    read = elim (Bool-cases (any (has_key key) rows)) [
      | inl q ↦
          let k = any-find key rows q in
          rw (q, find-written key (latch now earliest) (λ r h. h) rows k.0 k.1, k.1) refl
      | inr q ↦ rw (q, find-none key rows q, find-append key rows new q refl) refl
    ]

-- The date that ReviewTrigger and Scheduler compute from the one that is set is the date that
-- the statement of setNextReviewAvailableAtIfLater keeps.
pub later_of-later :
    (current : Option ℕ) (t : ℕ) → some (later_of current t) ≡ later_datetime current t
later_of-later none t = refl
later_of-later (some e) t = ground arith
