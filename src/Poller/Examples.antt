-- ===== src/Poller/Examples.antt =====
-- A tick of the poll detector while a date of the next review is set.
use rabbit_maximizer.Prelude.{refl, false, none, some, [], ◌∷◌}
use rabbit_maximizer.Samples.{waiting, at_time}
use rabbit_maximizer.Queue.Traces.{empty_db}
use rabbit_maximizer.SystemState.{get_state, get_next_review_available_at}
use rabbit_maximizer.Service.{World, answered, refused}
use rabbit_maximizer.Detection.{DetectedComment}
use rabbit_maximizer.Domain.{pos}
use rabbit_maximizer.Scanner.{ScanSetting}
use rabbit_maximizer.Poller.{PollSetting, execute_tick}
use rabbit_maximizer.Poller.Latched.{IsNotBefore, execute_tick-IsNotBefore}

abbrev found_comment : DetectedComment
found_comment = record {
  url = "https://github.com/o/r/pull/7#issuecomment-905";
  repo_full_name = "o/r";
  pr_number = 7;
  comment_id = pos 905;
  created_at = 40;
  updated_at = 50;
  pr_title = "Add";
  body = "rate limited by coderabbit.ai";
}

abbrev no_scan : ScanSetting
no_scan = record {
  now = 100000000;
  interval_sec = 60;
  list_open_prs = refused (some 500);
  get_pr_head_sha = λ _ _. refused none;
  get_commit_committed_at = λ _ _. refused none;
  get_pr_state = λ _ _. refused none;
  new_uuid = λ _ _. "p-9";
}

abbrev polling : PollSetting
polling = record {
  setting = at_time 100000000;
  scan_setting = no_scan;
  list_comments = λ _ _. refused none;
  search_review_limit_comments = answered (found_comment ∷ []);
  fetch_comment = λ _ _. answered "rate limited by coderabbit.ai";
  find_acknowledgement = λ _ _ _. answered false;
  date_now = λ id. 100000000;
  response_of = λ _. record { status = none; ratelimit_remaining = none; ratelimit_reset = none };
  to_number = λ _. none;
}

abbrev held : World
held = record {
  db = record empty_db {
    pull_request = waiting ∷ [];
    system_state =
        record {
          state_key = "next_review_available_at";
          value_text = none;
          value_integer = none;
          value_float = none;
          value_datetime = some 70;
          updated_at = 1;
        }
        ∷ [];
  };
  posts = [];
  fetched = [];
}

execute_tick-IsNotBefore_example : IsNotBefore 70 (execute_tick polling 0 held).1.db
unfolding get_next_review_available_at get_state
execute_tick-IsNotBefore_example = execute_tick-IsNotBefore 70 polling 0 held refl
