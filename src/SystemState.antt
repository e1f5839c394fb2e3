-- ===== src/SystemState.antt =====
-- SystemStateRepository (src/db/systemStateRepository.ts): the rows of `system_state`, one for a
-- key, with the column in which each key keeps its value. A date is its milliseconds.
pub mod Cooldown
mod Examples
use rabbit_maximizer.Prelude.{
  ℕ, String, Bool, true, false, Option, none, some, List, [], ◌∷◌, ◌++◌, map, str_eq, opt_str_eq,
  ltb, find, any, if◌then◌else◌,
}
use rabbit_maximizer.Schema.{SystemStateRow, Db}
use rabbit_maximizer.Store.{M, ok}

pub data StateKey : Type 0 where
  last_poll_started_at last_poll_completed_at last_poll_outcome last_scan_started_at : StateKey
  last_scan_completed_at last_scheduler_tick_at scheduler_status next_review_available_at : StateKey

abbrev pub key_name : StateKey → String
key_name last_poll_started_at = "last_poll_started_at"
key_name last_poll_completed_at = "last_poll_completed_at"
key_name last_poll_outcome = "last_poll_outcome"
key_name last_scan_started_at = "last_scan_started_at"
key_name last_scan_completed_at = "last_scan_completed_at"
key_name last_scheduler_tick_at = "last_scheduler_tick_at"
key_name scheduler_status = "scheduler_status"
key_name next_review_available_at = "next_review_available_at"

-- STATE_KEY_CONFIG: of the four columns, the keys use two.
pub data ValueColumn : Type 0 where
  value_text value_datetime : ValueColumn

abbrev pub column : StateKey → ValueColumn
column last_poll_outcome = value_text
column scheduler_status = value_text
column _ = value_datetime

-- StateKeyToType, by the column of the key.
abbrev pub ColumnType : ValueColumn → Type 0
ColumnType value_text = String
ColumnType value_datetime = ℕ

abbrev pub ValueType : StateKey → Type 0
ValueType key = ColumnType (column key)

abbrev pub blank_row : String → ℕ → SystemStateRow
blank_row key now = record {
  state_key = key;
  value_text = none;
  value_integer = none;
  value_float = none;
  value_datetime = none;
  updated_at = now;
}

-- VALUE_SETTER.
abbrev pub value_setter : (c : ValueColumn) → SystemStateRow → ColumnType c → SystemStateRow
value_setter value_text base value = record base { value_text = some value }
value_setter value_datetime base value = record base { value_datetime = some value }

abbrev pub read_column : (c : ValueColumn) → SystemStateRow → Option (ColumnType c)
read_column value_text row = row.value_text
read_column value_datetime row = row.value_datetime

abbrev pub parse_state_row : (key : StateKey) → SystemStateRow → Option (ValueType key)
parse_state_row key row = read_column (column key) row

abbrev pub has_key : String → SystemStateRow → Bool
has_key key row = str_eq row.state_key key

abbrev pub find_state : String → List SystemStateRow → Option SystemStateRow
find_state key rows = find (has_key key) rows

abbrev pub parse_found : (key : StateKey) → Option SystemStateRow → Option (ValueType key)
parse_found key none = none
parse_found key (some row) = parse_state_row key row

unfoldable pub get_state : (key : StateKey) → Db → Option (ValueType key)
get_state key db = parse_found key (find_state (key_name key) db.system_state)

-- `upsert({ where: { state_key }, create: data, update: data })`.
unfoldable pub upsert_state : SystemStateRow → List SystemStateRow → List SystemStateRow
upsert_state data_row rows =
    if any (has_key data_row.state_key) rows
    then map (λ r. if has_key data_row.state_key r then data_row else r) rows
    else rows ++ data_row ∷ []

unfoldable pub set_state : ℕ → (key : StateKey) → ValueType key → M (Unit {0})
unfolding upsert_state
set_state now key value db = ok (
  tt,
  record db {
    system_state =
        upsert_state (value_setter (column key) (blank_row (key_name key) now) value)
          db.system_state;
  },
)

unfoldable pub is_scheduler_paused : Db → Bool
is_scheduler_paused db = opt_str_eq (get_state scheduler_status db) (some "paused")

unfoldable pub pause_scheduler : ℕ → M (Unit {0})
pause_scheduler now = set_state now scheduler_status "paused"

unfoldable pub resume_scheduler : ℕ → M (Unit {0})
resume_scheduler now = set_state now scheduler_status "running"

unfoldable pub get_next_review_available_at : Db → Option ℕ
get_next_review_available_at db = get_state next_review_available_at db

unfoldable pub set_next_review_available_at : ℕ → ℕ → M (Unit {0})
set_next_review_available_at now earliest = set_state now next_review_available_at earliest

unfoldable pub set_last_scheduler_tick_at : ℕ → ℕ → M (Unit {0})
set_last_scheduler_tick_at now ts = set_state now last_scheduler_tick_at ts

-- `CASE WHEN value_datetime IS NULL OR value_datetime < excluded THEN excluded ELSE value_datetime END`.
abbrev pub later_datetime : Option ℕ → ℕ → Option ℕ
later_datetime none earliest = some earliest
later_datetime (some t) earliest = if ltb t earliest then some earliest else some t

abbrev pub latch : ℕ → ℕ → SystemStateRow → SystemStateRow
latch now earliest row = record row {
  value_datetime = later_datetime row.value_datetime earliest;
  updated_at = now;
}

-- `INSERT … ON CONFLICT(state_key) DO UPDATE`.
unfoldable pub set_next_review_available_at_if_later : ℕ → ℕ → M (Unit {0})
set_next_review_available_at_if_later now earliest db =
    let key = key_name next_review_available_at in
    ok (
      tt,
      record db {
        system_state =
            if any (has_key key) db.system_state
            then map (λ r. if has_key key r then latch now earliest r else r) db.system_state
            else db.system_state
              ++ record (blank_row key now) { value_datetime = some earliest } ∷ [];
      },
    )

pub record DashboardSystemState : Type 0 where
  pub paused : Bool
  pub last_scheduler_tick : Option ℕ
  pub next_review_available : Option ℕ

-- getDashboardSystemState: the keys are unique, so the map of the rows reads as the table does.
unfoldable pub get_dashboard_system_state : Db → DashboardSystemState
get_dashboard_system_state db = record {
  paused = opt_str_eq (some "paused") (get_state scheduler_status db);
  last_scheduler_tick = get_state last_scheduler_tick_at db;
  next_review_available = get_state next_review_available_at db;
}

-- What ReviewTrigger and Scheduler write: the later of the cooldown that is set and the new one.
abbrev pub later_of : Option ℕ → ℕ → ℕ
later_of none t = t
later_of (some e) t = if ltb t e then e else t

unfoldable pub get_last_scan_completed_at : Db → Option ℕ
unfolding get_state
get_last_scan_completed_at db = get_state last_scan_completed_at db

unfoldable pub set_last_scan_completed_at : ℕ → ℕ → M (Unit {0})
unfolding set_state
set_last_scan_completed_at now ts = set_state now last_scan_completed_at ts

unfoldable pub set_last_scan_started_at : ℕ → ℕ → M (Unit {0})
unfolding set_state
set_last_scan_started_at now ts = set_state now last_scan_started_at ts
