-- ===== src/Github/Text.antt =====
-- src/github/splitRepo.ts, and getPrStateFromGitHubValue of src/PrState.ts.
use Prim.Native.Char.{Char, code}
use Prim.Native.String as Text
use rabbit_maximizer.Prelude.{
  ℕ, ◌+◌, String, Bool, true, false, Option, none, some, List, [], ◌∷◌, ◌==◌, ◌&&◌, leb, str_eq,
  if◌then◌else◌,
}
use rabbit_maximizer.Domain.{PrState, closed, merged, open_pr}

-- `text.split(sep)` on a separator of one character.
abbrev pub prepend : Char → List String → List String
prepend c [] = (Text.◌∷◌ c Text.[]) ∷ []
prepend c (part ∷ parts) = Text.◌∷◌ c part ∷ parts

unfoldable pub split_on : ℕ → String → List String
split_on sep Text.[] = Text.[] ∷ []
split_on sep (Text.◌∷◌ c s) =
    let rest = split_on sep s in if code c == sep then Text.[] ∷ rest else prepend c rest

pub record RepoName : Type 0 where
  pub owner : String
  pub repo : String

abbrev pub named : List String → Option RepoName
named (owner ∷ repo ∷ []) =
    if str_eq owner ""
    then none
    else if str_eq repo ""
    then none
    else some (record { owner = owner; repo = repo })
named _ = none

-- `none` where it throws.
unfoldable pub split_repo : String → Option RepoName
unfolding split_on
split_repo full_name = named (split_on b'/' full_name)

-- The code points of `text.toLowerCase()`, on ASCII.
abbrev pub lower_code : ℕ → ℕ
lower_code c = if leb b'A' c && leb c b'Z' then c + 32 else c

abbrev pub lower_codes : String → List ℕ
lower_codes Text.[] = []
lower_codes (Text.◌∷◌ c s) = lower_code (code c) ∷ lower_codes s

abbrev pub same_codes : List ℕ → List ℕ → Bool
same_codes [] [] = true
same_codes (a ∷ as') (b ∷ bs) = a == b && same_codes as' bs
same_codes _ _ = false

abbrev pub is_word : String → String → Bool
is_word word value = same_codes (lower_codes value) (lower_codes word)

-- `none` where it throws.
unfoldable pub pr_state_from_github_value : String → Option PrState
pr_state_from_github_value value =
    if is_word "closed" value
    then some closed
    else if is_word "merged" value
    then some merged
    else if is_word "open" value
    then some open_pr
    else none
