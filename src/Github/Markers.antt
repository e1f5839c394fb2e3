-- ===== src/Github/Markers.antt =====
-- The markers of src/github/coderabbitConstants.ts and the tests on them (hasRateLimitMarker.ts,
-- hasOwnRetriggerMarker.ts, isCompletedReview.ts, isApprovalReviewSignal.ts,
-- hasRateLimitOrSkipMarker.ts, isAcknowledgementComment.ts), and src/utils/extractCoderabbitRunId.ts.
use Prim.Native.Char.{Char, code}
use Prim.Native.String as Text
use rabbit_maximizer.Prelude.{
  ℕ, zero, suc, String, Bool, false, Option, none, some, List, [], ◌∷◌, ◌==◌, ◌&&◌, ◌||◌, leb, any,
  opt_str_eq, if◌then◌else◌,
}
use rabbit_maximizer.Service.{CommentText}
use rabbit_maximizer.Github.{review_bot_login}
use rabbit_maximizer.Github.Urls.{includes, after_prefix}

abbrev pub self_marker_prefix : String
self_marker_prefix = "<!-- rabbit-maximizer"

abbrev pub rate_limit_marker : String
rate_limit_marker = "rate limited by coderabbit.ai"

abbrev pub skip_marker : String
skip_marker = "skip review by coderabbit.ai"

abbrev pub no_actionable_signal : String
no_actionable_signal = "No actionable comments were generated in the recent review."

abbrev pub completion_signals : List String
completion_signals = "Actionable comments posted:" ∷ no_actionable_signal ∷ []

abbrev pub acknowledgement_marker : String
acknowledgement_marker = "auto-generated reply by CodeRabbit"

unfoldable pub has_rate_limit_marker : String → Bool
unfolding includes
has_rate_limit_marker body = includes rate_limit_marker body

unfoldable pub has_own_retrigger_marker : String → Bool
has_own_retrigger_marker body = includes self_marker_prefix body

unfoldable pub is_completed_review : String → Bool
unfolding includes
is_completed_review body = any (λ signal. includes signal body) completion_signals

unfoldable pub is_approval_review_signal : String → Bool
unfolding includes
is_approval_review_signal body = includes no_actionable_signal body

-- `body ? … : false`, on a body that may be missing or empty.
unfoldable pub has_rate_limit_or_skip_marker : Option String → Bool
unfolding has_rate_limit_marker
has_rate_limit_or_skip_marker none = false
has_rate_limit_or_skip_marker (some body) = has_rate_limit_marker body || includes skip_marker body

unfoldable pub is_acknowledgement_comment : Option String → Option String → Bool
unfolding includes
is_acknowledgement_comment user_login none = false
is_acknowledgement_comment user_login (some body) =
    opt_str_eq user_login (some review_bot_login) && includes acknowledgement_marker body

-- `\s`.
abbrev pub is_space : Char → Bool
is_space c =
    leb 9 (code c) && leb (code c) 13
    || code c == 32
    || code c == 160
    || code c == 5760
    || leb 8192 (code c) && leb (code c) 8202
    || code c == 8232
    || code c == 8233
    || code c == 8239
    || code c == 8287
    || code c == 12288
    || code c == 65279

abbrev pub prepended : Char → Option String → Option String
prepended c none = none
prepended c (some s) = some (Text.◌∷◌ c s)

-- `[^`]+` with the backtick that ends it, of which `[^`]*` is what is left after the first character.
unfoldable pub until_tick : String → Option String
until_tick Text.[] = none
until_tick (Text.◌∷◌ c s) =
    let rest = until_tick s in if code c == 96 then some "" else prepended c rest

abbrev pub nonempty : Option String → Option String
nonempty (some (Text.◌∷◌ c s)) = some (Text.◌∷◌ c s)
nonempty _ = none

-- `\s*` and the backtick.
unfoldable pub after_spaces : String → Option String
unfolding until_tick
after_spaces Text.[] = none
after_spaces (Text.◌∷◌ c s) =
    let rest = after_spaces s in
    if code c == 96 then nonempty (until_tick s) else if is_space c then rest else none

abbrev pub labelled : Option String → Option String
labelled none = none
labelled (some s) = after_spaces s

abbrev pub or_later : Option String → Option String → Option String
or_later none later = later
or_later (some found) later = some found

-- RUN_ID_PATTERN, at the first place where it matches.
unfoldable pub match_run_id : String → Option String
unfolding after_prefix after_spaces
match_run_id Text.[] = none
match_run_id (Text.◌∷◌ c s) =
    let rest = match_run_id s in
    or_later (labelled (after_prefix "**Run ID**:" (Text.◌∷◌ c s))) rest

abbrev pub prefix : ℕ → String → String
prefix zero s = ""
prefix (suc n) Text.[] = ""
prefix (suc n) (Text.◌∷◌ c s) = Text.◌∷◌ c (prefix n s)

abbrev pub shortened : ℕ → Option String → Option String
shortened n none = none
shortened n (some s) = some (prefix n s)

-- The characters of a run id are in the basic plane, where `slice` counts characters.
unfoldable pub extract_coderabbit_run_id : String → Option String
unfolding match_run_id
extract_coderabbit_run_id body = shortened 75 (match_run_id body)

-- What the services read off a body. `parse_wait_seconds` strips the Markdown by a package, and the
-- preview is cut at a length in UTF-16 units: both are parameters.
abbrev pub comment_text : (String → Option ℕ) → (String → Option String) → CommentText
comment_text parse_wait_seconds truncate_body_preview = record {
  has_rate_limit_marker = has_rate_limit_marker;
  has_own_retrigger_marker = has_own_retrigger_marker;
  has_skip_marker = includes skip_marker;
  is_completed_review = is_completed_review;
  is_approval_review_signal = is_approval_review_signal;
  extract_coderabbit_run_id = extract_coderabbit_run_id;
  parse_wait_seconds = parse_wait_seconds;
  truncate_body_preview = truncate_body_preview;
}
