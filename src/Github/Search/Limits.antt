-- ===== src/Github/Search/Limits.antt =====
-- How much of a listing the searches read.
use rabbit_maximizer.Prelude.{
  ℕ, zero, suc, ◌+◌, ◌*◌, ◌<◌, ◌≡◌, refl, sym, ◌∙◌, subst, List, [], ◌∷◌, ◌++◌, length, ltb, true,
  false, Bool-cases, inl, inr, arith,
}
use rabbit_maximizer.Store.{Result, ok, err}
use rabbit_maximizer.Service.{Response}
use rabbit_maximizer.Github.{per_page, take, drop, IsPaged}
use rabbit_maximizer.Github.Pages.{below, take-short, drop-add}
use rabbit_maximizer.Github.Queries.{RepoFilter, build_open_pr_search_query, build_search_query}
use rabbit_maximizer.Github.Requests.{
  SearchItem, Octokit, max_pages, then_result, visit_items, search_page, search_pages,
}
use rabbit_maximizer.Github.Search.{
  visit_open_pr, visit_limited, list_open_prs, search_review_limit_comments,
}

module _ {A : Type 0} where
  take-nil : (k : ℕ) → take {A = A} k [] ≡ []
  take-nil zero = refl
  take-nil (suc k) = refl

  pub take-add : (k m : ℕ) (xs : List A) → take (k + m) xs ≡ take k xs ++ take m (drop k xs)
  take-add zero m xs = let e : 0 + m ≡ m = omega arith in rw e refl
  take-add (suc k) m [] = rw (take-nil (suc k + m), take-nil m) refl
  take-add (suc k) m (x ∷ xs) =
      let e : suc k + m ≡ suc (k + m) = omega arith in rw (e, take-add k m xs) refl

  drop-short : (k : ℕ) (xs : List A) → length xs < k → drop k xs ≡ []
  drop-short zero xs h = ground arith
  drop-short (suc k) [] h = refl
  drop-short (suc k) (x ∷ xs) h = drop-short k xs (omega (arith, h))

module _ {A B : Type 0} where
  then_result-cong :
      (r : Result A) (f g : A → Result B)
      → ((a : A) → f a ≡ g a)
      → then_result r f ≡ then_result r g
  then_result-cong (err e) f g h = refl
  then_result-cong (ok a) f g h = h a

  then_result_assoc :
      {C : Type 0} (r : Result C) (f : C → Result A) (g : A → Result B)
      → then_result (then_result r f) g ≡ then_result r (λ c. then_result (f c) g)
  then_result_assoc (err e) f g = refl
  then_result_assoc (ok c) f g = refl

module _ {A S : Type 0} (visit : S → A → Result S) where
  visit_items-append :
      (s : S) (xs ys : List A)
      → visit_items visit s (xs ++ ys)
        ≡ then_result (visit_items visit s xs) (λ s'. visit_items visit s' ys)
  unfolding visit_items
  visit_items-append s [] ys = refl
  visit_items-append s (x ∷ xs) ys = sym (
      then_result_assoc (visit s x) (λ s'. visit_items visit s' xs) (λ s'. visit_items visit s' ys)
      ∙ then_result-cong (visit s x) _ _ (λ s'. sym (visit_items-append s' xs ys)))

  -- A page that is not full ends the search, with nothing left to visit.
  search_page-visit :
      (s : S) (xs : List A) (next : S → Result S) (rest : List A)
      → (ltb (length xs) per_page ≡ true → rest ≡ [])
      → ((s' : S) → ltb (length xs) per_page ≡ false → next s' ≡ visit_items visit s' rest)
      → search_page visit s xs next
        ≡ then_result (visit_items visit s xs) (λ s'. visit_items visit s' rest)
  unfolding visit_items
  search_page-visit s [] next rest h k = rw (h refl) refl
  search_page-visit s (x ∷ xs) next rest h k =
      then_result-cong (visit_items visit s (x ∷ xs)) _ _ (λ s'.
        elim (Bool-cases (ltb (length (x ∷ xs)) per_page)) [
          | inl e ↦ rw (e, h e) refl
          | inr e ↦ rw e (k s' e)
        ])

  search_pages-rest :
      (list_page : ℕ → Response (List A)) (listing : List A) (paged : IsPaged list_page listing)
      (turns n : ℕ) (s : S)
      → search_pages visit list_page turns (suc n) s
        ≡ visit_items visit s (take (turns * per_page) (drop (n * per_page) listing))
  unfolding search_pages visit_items
  search_pages-rest list_page listing paged zero n s = refl
  search_pages-rest list_page listing paged (suc turns) n s =
      let rest = drop (n * per_page) listing in
      let page = take per_page rest in
      let more = take (turns * per_page) (drop per_page rest) in
      let e : suc turns * per_page ≡ per_page + turns * per_page = omega arith in
      let e' : suc n * per_page ≡ n * per_page + per_page = omega arith in
      let after : drop (suc n * per_page) listing ≡ drop per_page rest =
        rw e' (drop-add (n * per_page) per_page listing) in
      rw (paged n, e, take-add per_page (turns * per_page) rest)
        (search_page-visit s page (search_pages visit list_page turns (suc (suc n))) more
            (λ short.
              let whole = take-short per_page rest (below (length page) per_page short) in
              rw
                (drop-short per_page rest
                  (subst (λ z. length z < per_page) whole (below (length page) per_page short)))
                (take-nil (turns * per_page)))
            (λ s' full. search_pages-rest list_page listing paged turns (suc n) s' ∙ rw after refl)
          ∙ sym (visit_items-append s page more))

  -- As many pages as the turns are read of a listing, and no more.
  pub search_pages-take :
      (list_page : ℕ → Response (List A)) (listing : List A)
      → IsPaged list_page listing
      → (turns : ℕ) (s : S)
      → search_pages visit list_page turns 1 s
        ≡ visit_items visit s (take (turns * per_page) listing)
  search_pages-take list_page listing paged turns s =
      search_pages-rest list_page listing paged turns 0 s

-- Where the pages of the two searches are those of two listings, the search of open pull
-- requests and that of review limit comments visit the first 300 items of the listing, each in
-- order, and no item after them.
pub searches-take :
    (octokit : Octokit) (filters : List RepoFilter) (open_items limited_items : List SearchItem)
    → IsPaged (octokit.search_issues (build_open_pr_search_query filters)) open_items
    → IsPaged (octokit.search_issues (build_search_query filters)) limited_items
    → (list_open_prs octokit filters ≡ visit_items visit_open_pr [] (take 300 open_items))
      × (search_review_limit_comments octokit filters
          ≡ visit_items (visit_limited octokit) [] (take 300 limited_items))
unfolding list_open_prs search_review_limit_comments
searches-take octokit filters open_items limited_items opened limited = (
  search_pages-take visit_open_pr (octokit.search_issues (build_open_pr_search_query filters))
      open_items opened max_pages [],
  search_pages-take (visit_limited octokit) (octokit.search_issues (build_search_query filters))
      limited_items limited max_pages [],
)
