-- ===== src/Samples.antt =====
-- Test data that the examples share: a `findFirst` that takes the first row, a clock, a comment.
use rabbit_maximizer.Prelude.{
  ℕ, false, ◌≡◌, refl, sym, ◌∙◌, subst, Bool, true, none, some, List, [], ◌∷◌, Memᴰ, find, count,
  Bool-cases, inl, inr, arith,
}
use rabbit_maximizer.Domain.{pos, review_limited, open_pr}
use rabbit_maximizer.Schema.{ReviewQueue, PullRequest}
use rabbit_maximizer.Store.{Env, FindFirst}
use rabbit_maximizer.Queue.Requests.{EnqueueData}
use rabbit_maximizer.Service.{GithubClient, CommentText, Settings, Setting, answered}

pub find_sound :
    (p : ReviewQueue → Bool) (rows : List ReviewQueue) (a : ReviewQueue)
    → find p rows ≡ some a
    → Memᴰ a rows × (p a ≡ true)
find_sound p [] a h = absurd (cc)
find_sound p (x ∷ xs) a h = elim (Bool-cases (p x)) [
  | inl q ↦
      let e : x ≡ a = taken (sym (rw q refl) ∙ h) in
      (Memᴰ.head (sym e), subst (λ z. p z ≡ true) e q)
  | inr q ↦ let k = find_sound p xs a (sym (rw q refl) ∙ h) in (Memᴰ.tail k.0, k.1)
]
  where
    taken : some x ≡ some a → x ≡ a
    taken e = cc

pub find_complete :
    (p : ReviewQueue → Bool) (rows : List ReviewQueue) → find p rows ≡ none → count p rows ≡ 0
find_complete p [] h = refl
find_complete p (x ∷ xs) h = elim (Bool-cases (p x)) [
  | inl q ↦ absurd (taken (sym (rw q refl) ∙ h))
  | inr q ↦ rw q (omega (arith, find_complete p xs (sym (rw q refl) ∙ h)))
]
  where
    taken : some x ≡ none → ⊥
    taken e = cc

abbrev pub first : FindFirst ReviewQueue
first = record { apply = find; sound = find_sound; complete = find_complete }

abbrev pub clock : Env
clock = record { now = 100000000; new_uuid = "u-1"; find_first = first }

abbrev pub comment : EnqueueData
comment = record {
  repo = "o/r";
  pr = 7;
  pr_title = "Add";
  source_comment_url = "https://c/11";
  source_comment_id = pos 11;
  pull_request_id = 3;
  coderabbit_run_id = some "run-a";
  comment_updated_at = some 99000000;
  cooldown_until = none;
  source_comment_type = some review_limited;
}

-- A pull request whose last request came after its last acknowledgement.
abbrev pub waiting : PullRequest
waiting = record {
  id = 3;
  uuid = "p-3";
  repo_full_name = "o/r";
  pr_number = 7;
  title = "Add";
  author_login = "a";
  pr_state = open_pr;
  merged_at = none;
  closed_at = none;
  first_seen_at = 1;
  first_review_limit_at = none;
  last_review_limit_at = none;
  last_review_requested_at = some 50;
  last_coderabbit_review_at = none;
  last_review_url = none;
  last_review_state = none;
  last_coderabbit_acknowledged_at = some 40;
  head_sha = none;
  reviewed_head_sha = none;
  head_committed_at = none;
  retrigger_count = 1;
  review_count = 0;
  created_at = 1;
  updated_at = 50;
}

-- A client to which every pull request is open and every comment limited.
abbrev pub open_client : GithubClient
open_client = record {
  get_pr_state = λ _ _. answered (record { is_closed = false; merged_at = none });
  fetch_comment = λ _ _. answered (record { body = "limited"; updated_at = 5 });
  find_latest_review_limit_comment = λ _ _. answered none;
  post_retrigger = λ _ _ _. answered "https://c/99";
  find_completed_review = λ _ _ _ _ _. answered none;
}

abbrev pub plain_text : CommentText
plain_text = record {
  has_rate_limit_marker = λ _. true;
  has_own_retrigger_marker = λ _. false;
  has_skip_marker = λ _. false;
  is_completed_review = λ _. false;
  is_approval_review_signal = λ _. false;
  extract_coderabbit_run_id = λ _. none;
  parse_wait_seconds = λ _. none;
  truncate_body_preview = λ body. some body;
}

abbrev pub settings : Settings
settings = record {
  post_cooldown_ms = 60000;
  fallback_wait_seconds = 600;
  buffer_seconds = 30;
  max_retrigger_attempts = 5;
  retrigger_spacing_ms = 1000;
  max_retrigger_age_ms = 86400000;
  max_pr_state_fetches_per_tick = 3;
  review_detection_lookback_sec = 3600;
}

abbrev pub at_time : ℕ → Setting
at_time now = record {
  env = record clock { now = now };
  client = open_client;
  text = plain_text;
  cfg = settings;
  run_id = "run-1";
}
