-- ===== src/Github/Queries.antt =====
-- The queries of src/github/buildSearchQuery.ts, buildOpenPRSearchQuery.ts and
-- buildRepoQualifierClause.ts.
use rabbit_maximizer.Prelude.{String, Option, none, some, List, [], ◌∷◌, map, str_eq, if◌then◌else◌}
use rabbit_maximizer.Github.Text.{split_on}
use rabbit_maximizer.Github.Urls.{◌⧺◌}
use rabbit_maximizer.Github.Body.{join}

-- A scope of a filter, with its pattern.
pub data RepoFilter : Type 0 where
  user_filter repo_filter : String → RepoFilter

abbrev pub first_of : List String → String
first_of [] = ""
first_of (x ∷ xs) = x

abbrev pub qualifier : RepoFilter → String
qualifier (user_filter pattern) = "user:" ⧺ first_of (split_on b'/' pattern)
qualifier (repo_filter pattern) = "repo:" ⧺ pattern

abbrev pub clause_of : List String → Option String
clause_of [] = none
clause_of (q ∷ []) = some q
clause_of qs = some ("(" ⧺ join " OR " qs ⧺ ")")

unfoldable pub build_repo_qualifier_clause : List RepoFilter → Option String
unfolding split_on
build_repo_qualifier_clause filters = clause_of (map qualifier filters)

-- `filter(Boolean)` on the clause, which is left out where it is missing or empty.
abbrev pub clause_parts : Option String → List String
clause_parts none = []
clause_parts (some clause) = if str_eq clause "" then [] else clause ∷ []

abbrev pub search_clause : String
search_clause = "(\"review limit\" OR \"rate limit\" OR \"review available\")"

unfoldable pub build_search_query : List RepoFilter → String
unfolding build_repo_qualifier_clause
build_search_query filters =
    join " " (
      search_clause ∷ "type:pr" ∷ "state:open" ∷ clause_parts (build_repo_qualifier_clause filters))

unfoldable pub build_open_pr_search_query : List RepoFilter → String
unfolding build_repo_qualifier_clause
build_open_pr_search_query filters =
    join " " ("is:pr" ∷ "state:open" ∷ clause_parts (build_repo_qualifier_clause filters))
