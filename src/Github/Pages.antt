-- ===== src/Github/Pages.antt =====
-- What the loops over the pages of a listing find, on a listing of any length.
use rabbit_maximizer.Prelude.{
  ℕ, zero, suc, ◌+◌, ◌*◌, ◌≤◌, ◌<◌, String, Option, none, some, List, [], ◌∷◌, ◌++◌, ◌≡◌, refl, sym,
  ap, ◌∙◌, ltb, length, map, keep, Bool-cases, inl, inr, arith, true, false,
}
use mathlib.Core.Option
use mathlib.Core.List.{append-nil, append_assoc}
use rabbit_maximizer.Service.{Response, answered, CommentText, CompletedReview}
use rabbit_maximizer.Github.{
  SubmittedReviewRaw, CommentRaw, ListedComment, per_page, take, drop, last, IsPaged, visit_all,
  each_page, is_accepted, completed_review, latest_review, find_completed_review, listed_comment,
  push_comment, list_comments,
}

pub below : (a b : ℕ) → ltb a b ≡ true → a < b
below a b h = ground arith

pub not_below : (a b : ℕ) → ltb a b ≡ false → b ≤ a
not_below a b h = ground arith

module _ {A : Type 0} where
  pub take-short : (k : ℕ) (xs : List A) → length (take k xs) < k → take k xs ≡ xs
  take-short zero xs h = ground arith
  take-short (suc k) [] h = refl
  take-short (suc k) (x ∷ xs) h = rw (take-short k xs (omega (arith, h))) refl

  pub length-take : (k : ℕ) (xs : List A) → length (take k xs) ≤ length xs
  length-take zero xs = omega arith
  length-take (suc k) [] = omega arith
  length-take (suc k) (x ∷ xs) = omega (arith, length-take k xs)

  pub length-drop : (k : ℕ) (xs : List A) → k ≤ length xs → length (drop k xs) + k ≡ length xs
  length-drop zero xs h = omega arith
  length-drop (suc k) [] h = ground arith
  length-drop (suc k) (x ∷ xs) h = omega (arith, length-drop k xs (omega (arith, h)))

  pub drop_nil : (k : ℕ) → drop {A = A} k [] ≡ []
  drop_nil zero = refl
  drop_nil (suc k) = refl

  pub drop-add : (m k : ℕ) (xs : List A) → drop (m + k) xs ≡ drop k (drop m xs)
  drop-add zero k xs = let e : 0 + k ≡ k = omega arith in rw e refl
  drop-add (suc m) k [] = rw (drop_nil k, drop_nil (suc m + k)) refl
  drop-add (suc m) k (x ∷ xs) =
      let e : suc m + k ≡ suc (m + k) = omega arith in rw e (drop-add m k xs)

module _ {A S : Type 0} (visit : S → A → S) where
  visit_all-take :
      (k : ℕ) (s : S) (xs : List A)
      → visit_all visit (visit_all visit s (take k xs)) (drop k xs) ≡ visit_all visit s xs
  visit_all-take zero s xs = refl
  visit_all-take (suc k) s [] = refl
  visit_all-take (suc k) s (x ∷ xs) = visit_all-take k (visit s x) xs

  -- The rest of the listing after `n` pages is read in the turns that it has pages.
  each_page-rest :
      (list_page : ℕ → Response (List A)) (listing : List A) (paged : IsPaged list_page listing)
      (turns n : ℕ) (s : S)
      → length (drop (n * per_page) listing) < turns * per_page
      → each_page list_page visit turns (suc n) s
        ≡ some (answered (visit_all visit s (drop (n * per_page) listing)))
  unfolding each_page
  each_page-rest list_page listing paged zero n s h = ground arith
  each_page-rest list_page listing paged (suc turns) n s h =
      let rest = drop (n * per_page) listing in
      elim (Bool-cases (ltb (length (take per_page rest)) per_page)) [
        | inl q ↦
            rw
              (
                paged n,
                q,
                take-short per_page rest (below (length (take per_page rest)) per_page q),
              )
              refl
        | inr q ↦
            let full = not_below (length (take per_page rest)) per_page q in
            let long = length-take per_page rest in
            let d = length-drop per_page rest (omega (arith, full, long)) in
            let e : suc n * per_page ≡ n * per_page + per_page = omega arith in
            let after : drop (suc n * per_page) listing ≡ drop per_page rest =
              rw e (drop-add (n * per_page) per_page listing) in
            let fewer : length (drop (suc n * per_page) listing) < turns * per_page =
              rw after (omega (arith, d, h)) in
            rw (paged n, q)
              (each_page-rest list_page listing paged turns (suc n)
                  (visit_all visit s (take per_page rest)) fewer
                ∙ rw after (ap (λ z. some (answered z)) (visit_all-take per_page s rest)))
      ]

  each_page-all :
      (list_page : ℕ → Response (List A)) (listing : List A) (paged : IsPaged list_page listing)
      (turns : ℕ) (s : S)
      → length listing < turns * per_page
      → each_page list_page visit turns 1 s ≡ some (answered (visit_all visit s listing))
  each_page-all list_page listing paged turns s h =
      each_page-rest list_page listing paged turns 0 s h

module _ (text : CommentText) where
  abbrev latest_or : Option CompletedReview → Option SubmittedReviewRaw → Option CompletedReview
  latest_or before none = before
  latest_or before (some raw) = some (completed_review text raw)

  latest_or-cons :
      (before before' : Option CompletedReview) (x : SubmittedReviewRaw)
      (xs : List SubmittedReviewRaw)
      → latest_or before (last (x ∷ xs)) ≡ latest_or before' (last (x ∷ xs))
  latest_or-cons before before' x [] = refl
  latest_or-cons before before' x (y ∷ ys) = latest_or-cons before before' y ys

  latest_or-taken :
      (before : Option CompletedReview) (x : SubmittedReviewRaw) (xs : List SubmittedReviewRaw)
      → latest_or (some (completed_review text x)) (last xs) ≡ latest_or before (last (x ∷ xs))
  latest_or-taken before x [] = refl
  latest_or-taken before x (y ∷ ys) = latest_or-cons (some (completed_review text x)) before y ys

  latest_or-none :
      (found : Option SubmittedReviewRaw)
      → latest_or none found ≡ Option.map (completed_review text) found
  latest_or-none none = refl
  latest_or-none (some raw) = refl

  module _ (since : ℕ) (expected_run_id expected_head_sha : Option String) where
    visit_all-latest :
        (before : Option CompletedReview) (xs : List SubmittedReviewRaw)
        → visit_all (latest_review text since expected_run_id expected_head_sha) before xs
          ≡ latest_or before
              (last (keep (is_accepted text since expected_run_id expected_head_sha) xs))
    visit_all-latest before [] = refl
    visit_all-latest before (x ∷ xs) =
        elim (Bool-cases (is_accepted text since expected_run_id expected_head_sha x)) [
          | inl q ↦ rw q (
              visit_all-latest (some (completed_review text x)) xs
              ∙ latest_or-taken before x
                  (keep (is_accepted text since expected_run_id expected_head_sha) xs))
          | inr q ↦ rw q (visit_all-latest before xs)
        ]

    -- Where the pages of the reviews are those of one listing and the turns given, times the
    -- page size, exceed its length, the search ends and finds the last accepted review of the
    -- whole listing, or none where none is accepted.
    pub find_completed_review-last :
        (list_reviews : ℕ → Response (List SubmittedReviewRaw)) (listing : List SubmittedReviewRaw)
        → IsPaged list_reviews listing
        → (turns : ℕ) → length listing < turns * per_page
        → find_completed_review text since expected_run_id expected_head_sha list_reviews turns
          ≡ some (
              answered (
                Option.map
                  (completed_review text)
                  (last (keep (is_accepted text since expected_run_id expected_head_sha) listing))))
    unfolding find_completed_review
    find_completed_review-last list_reviews listing paged turns enough =
        each_page-all (latest_review text since expected_run_id expected_head_sha) list_reviews
          listing paged turns none enough
        ∙ ap (λ z. some (answered z)) (visit_all-latest none listing ∙ latest_or-none _)

visit_all-push :
    (results : List ListedComment) (xs : List CommentRaw)
    → visit_all push_comment results xs ≡ results ++ map listed_comment xs
visit_all-push results [] = sym (append-nil results)
visit_all-push results (x ∷ xs) =
    visit_all-push (results ++ listed_comment x ∷ []) xs
    ∙ append_assoc results (listed_comment x ∷ []) (map listed_comment xs)

-- Where the pages of the comments are those of one listing and the turns given, times the page
-- size, exceed its length, the loop ends and gives every comment of the listing once, in its
-- order.
pub list_comments-map :
    (list_page : ℕ → Response (List CommentRaw)) (listing : List CommentRaw)
    → IsPaged list_page listing
    → (turns : ℕ) → length listing < turns * per_page
    → list_comments list_page turns ≡ some (answered (map listed_comment listing))
unfolding list_comments
list_comments-map list_page listing paged turns enough =
    each_page-all push_comment list_page listing paged turns [] enough
    ∙ ap (λ z. some (answered z)) (visit_all-push [] listing)
