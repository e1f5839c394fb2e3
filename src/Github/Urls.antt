-- ===== src/Github/Urls.antt =====
-- src/github/buildPrUrl.ts, buildCommentUrl.ts and extractRepoFullName.ts, and the template literals
-- and `includes` that the services use.
use Prim.Native.Char.{code}
use Prim.Native.Nat.{◌/◌, ◌%◌}
use Prim.Native.String as Text
use rabbit_maximizer.Prelude.{
  ℕ, zero, suc, String, List, [], ◌∷◌, Bool, true, false, Option, none, some, ◌==◌, ltb,
  if◌then◌else◌,
}

infixr 60 ◌⧺◌
abbrev pub ◌⧺◌ : String → String → String
Text.[] ⧺ b = b
Text.◌∷◌ c a ⧺ b = Text.◌∷◌ c (a ⧺ b)

abbrev pub digit_at : List String → ℕ → String
digit_at [] n = ""
digit_at (d ∷ ds) zero = d
digit_at (d ∷ ds) (suc n) = digit_at ds n

abbrev pub digit : ℕ → String
digit n = digit_at ("0" ∷ "1" ∷ "2" ∷ "3" ∷ "4" ∷ "5" ∷ "6" ∷ "7" ∷ "8" ∷ "9" ∷ []) n

-- The decimal digits of a number, with at least as many turns as it has digits.
unfoldable pub decimal_with : ℕ → ℕ → String
decimal_with zero n = ""
decimal_with (suc turns) n =
    let rest = decimal_with turns (n / 10) in if ltb n 10 then digit n else rest ⧺ digit (n % 10)

-- `${n}`.
unfoldable pub decimal : ℕ → String
unfolding decimal_with
decimal n = decimal_with (suc n) n

unfoldable pub build_pr_url : String → ℕ → String
unfolding decimal
build_pr_url repo_full_name pr_number =
    "https://github.com/" ⧺ repo_full_name ⧺ "/pull/" ⧺ decimal pr_number

unfoldable pub build_comment_url : String → ℕ → ℕ → String
unfolding decimal
build_comment_url repo_full_name pr_number comment_id =
    "https://github.com/"
    ⧺ repo_full_name
    ⧺ "/pull/"
    ⧺ decimal pr_number
    ⧺ "#issuecomment-"
    ⧺ decimal comment_id

-- `text.startsWith(prefix)` with what follows it.
unfoldable pub after_prefix : String → String → Option String
after_prefix Text.[] s = some s
after_prefix (Text.◌∷◌ c p) Text.[] = none
after_prefix (Text.◌∷◌ c p) (Text.◌∷◌ d s) =
    let rest = after_prefix p s in if code c == code d then rest else none

abbrev pub is_found : Option String → Bool
is_found none = false
is_found (some _) = true

-- `text.includes(sub)`.
unfoldable pub includes : String → String → Bool
unfolding after_prefix
includes sub Text.[] = is_found (after_prefix sub Text.[])
includes sub (Text.◌∷◌ c s) =
    let rest = includes sub s in if is_found (after_prefix sub (Text.◌∷◌ c s)) then true else rest

-- `none` where it throws.
unfoldable pub extract_repo_full_name : String → Option String
unfolding after_prefix
extract_repo_full_name repository_url = after_prefix "https://api.github.com/repos/" repository_url
