-- ===== src/Github/Requests.antt =====
-- The requests of Octokit that the client makes (src/github/coderabbitGitHubClient.ts), and the
-- visit of a listing page by page.
use rabbit_maximizer.Prelude.{
  ℕ, zero, suc, String, Option, none, some, List, [], ◌∷◌, length, ltb, if◌then◌else◌,
}
use rabbit_maximizer.Store.{Result, ok, err, github, invalid_repo}
use rabbit_maximizer.Service.{Response, answered, refused}
use rabbit_maximizer.Scanner.{GithubState}
use rabbit_maximizer.Github.{per_page}
use rabbit_maximizer.Github.Text.{RepoName}

pub record SearchItem : Type 0 where
  pub repository_url : String
  pub number : ℕ
  pub title : String
  pub user_login : Option String

pub record IssueComment : Type 0 where
  pub id : ℕ
  pub html_url : String
  pub body : Option String
  pub created_at : ℕ
  pub updated_at : ℕ
  pub user_login : Option String

pub record Pull : Type 0 where
  pub state : GithubState
  pub head_sha : String

-- The requests of Octokit, each for one page.
pub record Octokit : Type 0 where
  pub search_issues : String → ℕ → Response (List SearchItem)
  pub newest_comments : RepoName → ℕ → Response (List IssueComment)
  pub comments_since : RepoName → ℕ → ℕ → ℕ → Response (List IssueComment)
  pub get_comment : RepoName → ℕ → Response IssueComment
  pub get_pull : RepoName → ℕ → Response Pull
  pub get_commit : RepoName → String → Response ℕ
  pub create_comment : RepoName → ℕ → String → Response String

abbrev pub max_pages : ℕ
max_pages = 3

abbrev pub then_result : {A B : Type 0} → Result A → (A → Result B) → Result B
then_result (err e) f = err e
then_result (ok a) f = f a

abbrev pub asked : {A B : Type 0} → Response A → (A → Result B) → Result B
asked (refused status) f = err (github status)
asked (answered a) f = f a

module _ {A S : Type 0} (visit : S → A → Result S) where
  -- `for (const item of response.data.items)`; a visit that throws ends the search.
  unfoldable pub visit_items : S → List A → Result S
  visit_items s [] = ok s
  visit_items s (x ∷ xs) = then_result (visit s x) (λ s'. visit_items s' xs)

  -- An empty page, or one that is not full, is the last.
  abbrev pub search_page : S → List A → (S → Result S) → Result S
  search_page s [] next = ok s
  search_page s (x ∷ xs) next =
      then_result (visit_items s (x ∷ xs))
        (λ s'. if ltb (length (x ∷ xs)) per_page then ok s' else next s')

  -- `for (let page = 1; page <= MAX_PAGES; page++)`.
  unfoldable pub search_pages : (ℕ → Response (List A)) → ℕ → ℕ → S → Result S
  unfolding visit_items
  search_pages list_page zero page s = ok s
  search_pages list_page (suc turns) page s =
      asked (list_page page) (λ xs. search_page s xs (search_pages list_page turns (suc page)))

abbrev pub named_result : {A : Type 0} → Option RepoName → (RepoName → Result A) → Result A
named_result none f = err invalid_repo
named_result (some name) f = f name
