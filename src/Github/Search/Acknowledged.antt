-- ===== src/Github/Search/Acknowledged.antt =====
-- The search for the acknowledgement, on a listing of any length.
use rabbit_maximizer.Prelude.{
  ℕ, zero, suc, ◌+◌, ◌*◌, ◌<◌, ◌≡◌, refl, sym, ap, ◌∙◌, none, some, List, [], ◌∷◌, ◌++◌, find,
  length, ltb, Bool, Bool-cases, Option-cases, inl, inr, arith,
}
use rabbit_maximizer.Store.{ok}
use rabbit_maximizer.Github.{per_page, take, drop, IsPaged}
use rabbit_maximizer.Github.Pages.{below, not_below, take-short, length-take, length-drop, drop-add}
use rabbit_maximizer.Github.Text.{RepoName}
use rabbit_maximizer.Github.Requests.{IssueComment, Octokit}
use rabbit_maximizer.Github.Search.{acknowledges, find_acknowledgement_from, find_acknowledgement}

module _ {A : Type 0} where
  take-drop : (k : ℕ) (xs : List A) → take k xs ++ drop k xs ≡ xs
  take-drop zero xs = refl
  take-drop (suc k) [] = refl
  take-drop (suc k) (x ∷ xs) = ap (λ z. x ∷ z) (take-drop k xs)

  find-left :
      (p : A → Bool) (xs ys : List A) (a : A) → find p xs ≡ some a → find p (xs ++ ys) ≡ some a
  find-left p [] ys a h = absurd (cc)
  find-left p (x ∷ xs) ys a h = elim (Bool-cases (p x)) [
    | inl e ↦ rw e (sym (rw e refl) ∙ h)
    | inr e ↦ rw e (find-left p xs ys a (sym (rw e refl) ∙ h))
  ]

  find-right : (p : A → Bool) (xs ys : List A) → find p xs ≡ none → find p (xs ++ ys) ≡ find p ys
  find-right p [] ys h = refl
  find-right p (x ∷ xs) ys h = elim (Bool-cases (p x)) [
    | inl e ↦ absurd (taken (sym (rw e refl) ∙ h))
    | inr e ↦ rw e (find-right p xs ys (sym (rw e refl) ∙ h))
  ]
    where
      taken : some x ≡ none → ⊥
      taken e = cc

module _ (octokit : Octokit) (name : RepoName) (pr since : ℕ) (listing : List IssueComment)
    (paged : IsPaged (octokit.comments_since name pr since) listing) where
  acknowledgement-rest :
      (turns n : ℕ)
      → length (drop (n * per_page) listing) < turns * per_page
      → find_acknowledgement_from octokit name pr since turns (suc n)
        ≡ some (ok (find acknowledges (drop (n * per_page) listing)))
  unfolding find_acknowledgement_from
  acknowledgement-rest zero n h = ground arith
  acknowledgement-rest (suc turns) n h =
      let rest = drop (n * per_page) listing in
      let page = take per_page rest in
      let joined : find acknowledges (page ++ drop per_page rest) ≡ find acknowledges rest =
        ap (find acknowledges) (take-drop per_page rest) in
      elim (Option-cases (find acknowledges page)) [
        | inr (c, e) ↦
            rw (paged n, e)
              (ap (λ z. some (ok z))
                (sym (find-left acknowledges page (drop per_page rest) c e) ∙ joined))
        | inl e ↦ elim (Bool-cases (ltb (length page) per_page)) [
          | inl q ↦
              let whole = take-short per_page rest (below (length page) per_page q) in
              rw (paged n, e, q) (ap (λ z. some (ok z)) (sym e ∙ ap (find acknowledges) whole))
          | inr q ↦
              let full = not_below (length page) per_page q in
              let long = length-take per_page rest in
              let d = length-drop per_page rest (omega (arith, full, long)) in
              let e' : suc n * per_page ≡ n * per_page + per_page = omega arith in
              let after : drop (suc n * per_page) listing ≡ drop per_page rest =
                rw e' (drop-add (n * per_page) per_page listing) in
              let fewer : length (drop (suc n * per_page) listing) < turns * per_page =
                rw after (omega (arith, d, h)) in
              rw (paged n, e, q)
                (acknowledgement-rest turns (suc n) fewer
                  ∙ ap (λ z. some (ok z))
                      (ap (find acknowledges) after
                        ∙ sym (find-right acknowledges page (drop per_page rest) e)
                        ∙ joined))
        ]
      ]

  -- Where the pages of the comments since a date are those of one listing, the search for the
  -- acknowledgement ends after as many turns as the listing has full pages and one more, and
  -- yields the first comment of the whole listing that acknowledges, or nothing where none
  -- does.
  pub find_acknowledgement-find :
      (turns : ℕ)
      → length listing < turns * per_page
      → find_acknowledgement octokit name pr since turns ≡ some (ok (find acknowledges listing))
  unfolding find_acknowledgement
  find_acknowledgement-find turns h = acknowledgement-rest turns 0 h
