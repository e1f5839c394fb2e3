-- ===== src/Github/Body.antt =====
-- src/github/buildCommentBody.ts: the body of a retrigger comment, and formatRelativeTime of
-- src/utils. The text that JSON.stringify makes of the metadata is a parameter.
pub mod Marked
use Prim.Native.Char.{code}
use Prim.Native.String as Text
use rabbit_maximizer.Prelude.{
  ℕ, zero, suc, ◌-◌, ◌/◌, ◌%◌, String, Bool, true, false, Option, none, some, List, [], ◌∷◌, ◌++◌,
  ◌==◌, ◌&&◌, leb, ltb, str_eq, if◌then◌else◌,
}
use rabbit_maximizer.Domain.{
  TriggerSource, dashboard_retrigger_now, scheduler, CodeRabbitCommentType, review_limited,
  review_skipped, review_approved, review_changes_suggested, unknown,
}
use rabbit_maximizer.Github.Urls.{◌⧺◌, decimal}

pub data Granularity : Type 0 where
  single compact full : Granularity

abbrev pub part : ℕ → String → List String
part n unit = if n == 0 then [] else (decimal n ⧺ unit) ∷ []

abbrev pub join : String → List String → String
join sep [] = ""
join sep (x ∷ []) = x
join sep (x ∷ y ∷ ys) = x ⧺ sep ⧺ join sep (y ∷ ys)

abbrev pub first_two : List String → List String
first_two (x ∷ y ∷ ys) = x ∷ y ∷ []
first_two xs = xs

-- `parts[0]` of no part is the text `undefined`.
abbrev pub first_part : List String → String
first_part [] = "undefined"
first_part (x ∷ xs) = x

unfoldable pub format_parts : ℕ → ℕ → ℕ → Granularity → String
unfolding decimal
format_parts days hours minutes single =
    first_part (part days "d" ++ part hours "h" ++ part minutes "m") ⧺ " ago"
format_parts days hours minutes compact =
    join " " (first_two (part days "d" ++ part hours "h" ++ part minutes "m")) ⧺ " ago"
format_parts days hours minutes full =
    join " " (part days "d" ++ part hours "h" ++ part minutes "m") ⧺ " ago"

-- A date after `now` counts as just now, as less than a minute does.
unfoldable pub format_relative_time : ℕ → Granularity → ℕ → String
unfolding format_parts
format_relative_time now granularity date =
    let diff_ms = now - date in
    if diff_ms / 60000 == 0
    then "just now"
    else format_parts (diff_ms / 86400000) (diff_ms % 86400000 / 3600000)
        (diff_ms % 3600000 / 60000) granularity

pub data RetriggerDecision : Type 0 where
  source direct replacement : RetriggerDecision

pub data MatchedMarker : Type 0 where
  rate_limit skip approval changes_suggested : MatchedMarker

-- A creation date that is the empty text is `none`.
pub record CommentDiagnosis : Type 0 where
  pub url : String
  pub created_at : Option ℕ
  pub updated_at : Option ℕ
  pub classification : CodeRabbitCommentType
  pub matched_marker : Option MatchedMarker

pub record RetriggerDiagnosis : Type 0 where
  pub source_comment : CommentDiagnosis
  pub replacement_comment : Option CommentDiagnosis
  pub wait_seconds : Option ℕ
  pub decision : RetriggerDecision

abbrev pub classification_text : CodeRabbitCommentType → String
classification_text review_limited = "review_limited"
classification_text review_skipped = "review_skipped"
classification_text review_approved = "review_approved"
classification_text review_changes_suggested = "review_changes_suggested"
classification_text unknown = "unknown"

abbrev pub age_text : ℕ → Option ℕ → String
age_text now none = "(time unavailable)"
age_text now (some date) = "from " ⧺ format_relative_time now single date

abbrev pub wait_suffix : Option ℕ → String
wait_suffix none = ""
wait_suffix (some seconds) = ", wait " ⧺ decimal seconds ⧺ "s"

abbrev pub source_line : ℕ → String → RetriggerDiagnosis → String
source_line now lead d =
    lead
    ⧺ classification_text d.source_comment.classification
    ⧺ " comment "
    ⧺ age_text now d.source_comment.created_at
    ⧺ wait_suffix d.wait_seconds

abbrev pub line_by_decision :
    ℕ → RetriggerDiagnosis → RetriggerDecision → Option CommentDiagnosis → String
line_by_decision now d direct _ = "🔍 Posted directly; no rate-limit comment found"
line_by_decision now d replacement (some _) = source_line now "🔍 Source: replacement of " d
line_by_decision now d _ _ = source_line now "🔍 Source: " d

unfoldable pub build_diagnosis_line : ℕ → RetriggerDiagnosis → String
unfolding format_relative_time decimal
build_diagnosis_line now d = line_by_decision now d d.decision d.replacement_comment

abbrev pub scheduler_line : Option String → String
scheduler_line none = "↩ Triggered by scheduler"
scheduler_line (some url) =
    if str_eq url "" then "↩ Triggered by scheduler" else "↩ Triggered by: " ⧺ url

abbrev pub trigger_line : TriggerSource → Option String → String
trigger_line dashboard_retrigger_now url = "⚡ Triggered manually from dashboard"
trigger_line scheduler url = scheduler_line url

abbrev pub diagnosis_lines : ℕ → TriggerSource → Option RetriggerDiagnosis → List String
diagnosis_lines now scheduler (some d) = build_diagnosis_line now d ∷ []
diagnosis_lines now _ _ = []

-- `replace(/-->/g, '--\\u003E')`: the matches do not overlap, so it replaces each `>` that two
-- dashes precede. The number is that of the dashes just before.
unfoldable pub escape_after : ℕ → String → String
escape_after dashes Text.[] = ""
escape_after dashes (Text.◌∷◌ c s) =
    let more = escape_after (suc dashes) s in
    let rest = escape_after 0 s in
    if code c == b'-'
    then Text.◌∷◌ c more
    else if code c == b'>' && leb 2 dashes
    then "\\u003E" ⧺ rest
    else Text.◌∷◌ c rest

unfoldable pub safe_json : String → String
unfolding escape_after
safe_json raw_json = escape_after 0 raw_json

pub record RunIdentity : Type 0 where
  pub version : String
  pub git_sha : String
  pub run_kind : String
  pub image_tags : String

abbrev pub footer : String → RunIdentity → String → String
footer repo_url identity run_id =
    "🤖 [rabbit-maximizer](" ⧺ repo_url ⧺ ") v" ⧺ identity.version ⧺ " (" ⧺ identity.git_sha
    ⧺ ") — run=" ⧺ run_id

abbrev pub json_comment : String → String
json_comment raw_json = "<!-- rabbit-maximizer\n" ⧺ safe_json raw_json ⧺ "\n-->"

-- The lines before the metadata.
abbrev pub lead_lines :
    String
    → ℕ
    → Option String
    → String
    → TriggerSource
    → Option RetriggerDiagnosis
    → RunIdentity
    → List String
lead_lines repo_url now source_comment_url run_id trigger_source diagnosis identity =
    "@coderabbitai full review"
      ∷ ""
      ∷ trigger_line trigger_source source_comment_url
      ∷ diagnosis_lines now trigger_source diagnosis
    ++ "" ∷ "---" ∷ "" ∷ footer repo_url identity run_id ∷ "" ∷ []

unfoldable pub build_comment_body :
    String
    → ℕ
    → Option String
    → String
    → TriggerSource
    → Option RetriggerDiagnosis
    → RunIdentity
    → String
    → String
unfolding build_diagnosis_line safe_json
build_comment_body repo_url now source_comment_url run_id trigger_source diagnosis identity
      raw_json =
    join "\n" (
      lead_lines repo_url now source_comment_url run_id trigger_source diagnosis identity
      ++ json_comment raw_json ∷ [])
