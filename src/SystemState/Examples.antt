-- ===== src/SystemState/Examples.antt =====
-- Values of `system_state` read back.
use rabbit_maximizer.Prelude.{◌≡◌, some}
use rabbit_maximizer.Schema.{Db}
use rabbit_maximizer.Queue.Traces.{empty_db}
use rabbit_maximizer.SystemState.{scheduler_status, later_datetime, later_of}
use rabbit_maximizer.SystemState.Cooldown.{Sets, set_state-get_state, later_of-later}

set_state-get_state_example : (db' : Db) × Sets 5 scheduler_status "paused" empty_db db'
set_state-get_state_example = set_state-get_state 5 scheduler_status "paused" empty_db

later_of-later_example : some (later_of (some 70) 50) ≡ later_datetime (some 70) 50
later_of-later_example = later_of-later (some 70) 50
