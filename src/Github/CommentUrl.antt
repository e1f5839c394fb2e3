-- ===== src/Github/CommentUrl.antt =====
-- src/github/parseCommentUrl.ts. The number of a comment is a natural number; the one of the source
-- is exact below 2 ^ 53.
pub mod Built
use Prim.Native.Char.{Char, code}
use Prim.Native.String as Text
use rabbit_maximizer.Prelude.{
  ℕ, ◌+◌, ◌*◌, ◌-◌, String, Bool, true, false, Option, none, some, List, [], ◌∷◌, ◌&&◌, ◌||◌, leb,
  str_eq, if◌then◌else◌,
}
use rabbit_maximizer.Github.Text.{split_on}
use rabbit_maximizer.Github.Urls.{after_prefix}

pub record ParsedCommentUrl : Type 0 where
  pub owner : String
  pub repo : String
  pub comment_id : ℕ

-- `\d`.
abbrev pub is_digit : Char → Bool
is_digit c = leb 48 (code c) && leb (code c) 57

abbrev pub starts_digit : String → Bool
starts_digit Text.[] = false
starts_digit (Text.◌∷◌ c s) = is_digit c

-- `\d*$`, with the number that stands before.
unfoldable pub digits_value : ℕ → String → Option ℕ
digits_value n Text.[] = some n
digits_value n (Text.◌∷◌ c s) =
    let rest = digits_value (n * 10 + (code c - 48)) s in if is_digit c then rest else none

-- `(\d+)$`.
unfoldable pub parse_digits : String → Option ℕ
unfolding digits_value
parse_digits s = if starts_digit s then digits_value 0 s else none

unfoldable pub skip_digits : String → String
skip_digits Text.[] = Text.[]
skip_digits (Text.◌∷◌ c s) = let rest = skip_digits s in if is_digit c then rest else Text.◌∷◌ c s

abbrev pub digits_of : Option String → Option ℕ
digits_of none = none
digits_of (some s) = parse_digits s

-- `\d+#issuecomment-(\d+)$`.
unfoldable pub comment_number : String → Option ℕ
unfolding after_prefix parse_digits skip_digits
comment_number s =
    if starts_digit s then digits_of (after_prefix "#issuecomment-" (skip_digits s)) else none

abbrev pub with_number : String → String → Option ℕ → Option ParsedCommentUrl
with_number owner repo none = none
with_number owner repo (some id) = some (record { owner = owner; repo = repo; comment_id = id })

-- `([^/]+)/([^/]+)/(?:issues|pull)/`, and what follows, which has no slash.
abbrev pub url_parts : List String → Option ParsedCommentUrl
url_parts (owner ∷ repo ∷ kind ∷ rest ∷ []) =
    if str_eq owner "" || str_eq repo ""
    then none
    else if str_eq kind "issues" || str_eq kind "pull"
    then with_number owner repo (comment_number rest)
    else none
url_parts _ = none

abbrev pub path_parts : Option String → Option ParsedCommentUrl
path_parts none = none
path_parts (some path) = url_parts (split_on b'/' path)

unfoldable pub parse_comment_url : String → Option ParsedCommentUrl
unfolding after_prefix split_on comment_number
parse_comment_url url = path_parts (after_prefix "https://github.com/" url)
