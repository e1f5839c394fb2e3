-- ===== src/PullRequests/Acknowledgement.antt =====
-- The request that the scheduler waits for: the oldest one that CodeRabbit has not acknowledged.
use rabbit_maximizer.Prelude.{
  ◌≤◌, ◌≡◌, refl, sym, subst, ◌∙◌, Bool, true, false, Option, none, some, List, [], ◌∷◌, Memᴰ, leb,
  keep, All, Bool-cases, Option-cases, inl, inr, arith,
}
use rabbit_maximizer.Schema.{PullRequest, Db}
use rabbit_maximizer.PullRequests.{
  awaits_acknowledgement, requested, oldest_request, find_pending_acknowledgement,
}

abbrev NoLater : PullRequest → PullRequest → Type 0
NoLater p q = requested p.last_review_requested_at ≤ requested q.last_review_requested_at

NoLater-All :
    (p q : PullRequest) (ps : List PullRequest)
    → NoLater p q
    → All (NoLater q) ps
    → All (NoLater p) ps
NoLater-All p q [] h k = tt
NoLater-All p q (x ∷ xs) h k = (omega (arith, h, k.0), NoLater-All p q xs h k.1)

some-injective : {p q : PullRequest} → some p ≡ some q → p ≡ q
some-injective e = cc

oldest_request-none :
    (P : PullRequest → Type 0) (ps : List PullRequest) → oldest_request ps ≡ none → All P ps
oldest_request-none P [] h = tt
oldest_request-none P (x ∷ xs) h = elim (Option-cases (oldest_request xs)) [
  | inl n ↦ absurd (taken x none (sym (rw n refl) ∙ h))
  | inr (q, n) ↦
      elim (Bool-cases
        (leb (requested x.last_review_requested_at) (requested q.last_review_requested_at))) [
          | inl b ↦ absurd (taken x none (sym (rw (n, b) refl) ∙ h))
          | inr b ↦ absurd (taken q none (sym (rw (n, b) refl) ∙ h))
        ]
]
  where
    taken : (p : PullRequest) (o : Option PullRequest) → some p ≡ none → ⊥
    taken p o e = cc

oldest_request-lem :
    (ps : List PullRequest) (p : PullRequest)
    → oldest_request ps ≡ some p
    → Memᴰ p ps × All (NoLater p) ps
oldest_request-lem [] p h = absurd (cc)
oldest_request-lem (x ∷ xs) p h = elim (Option-cases (oldest_request xs)) [
  | inl n ↦
      let e : x ≡ p = some-injective (sym (rw n refl) ∙ h) in
      (Memᴰ.head (sym e), (rw e (omega arith), oldest_request-none (NoLater p) xs n))
  | inr (q, n) ↦
      let k = oldest_request-lem xs q n in
      elim (Bool-cases
        (leb (requested x.last_review_requested_at) (requested q.last_review_requested_at))) [
          | inl b ↦
              let e : x ≡ p = some-injective (sym (rw (n, b) refl) ∙ h) in
              subst (λ z. Memᴰ z (x ∷ xs) × All (NoLater z) (x ∷ xs)) e
                (Memᴰ.head refl, (omega arith, NoLater-All x q xs (ground arith) k.1))
          | inr b ↦
              let e : q ≡ p = some-injective (sym (rw (n, b) refl) ∙ h) in
              subst (λ z. Memᴰ z (x ∷ xs) × All (NoLater z) (x ∷ xs)) e
                (Memᴰ.tail k.0, (ground arith, k.1))
        ]
]

keep-Memᴰ :
    (f : PullRequest → Bool) (ps : List PullRequest) {p : PullRequest}
    → Memᴰ p (keep f ps)
    → Memᴰ p ps × (f p ≡ true)
keep-Memᴰ f [] m = elim m [ ]
keep-Memᴰ f (x ∷ xs) {p} m = elim (Bool-cases (f x)) [
  | inr b ↦ let k = keep-Memᴰ f xs (rw b at m) in (Memᴰ.tail k.0, k.1)
  | inl b ↦ first b (keep-Memᴰ f xs) (rw b at m)
]
  where
    first :
        f x ≡ true
        → (Memᴰ p (keep f xs) → Memᴰ p xs × (f p ≡ true))
        → Memᴰ p (x ∷ keep f xs)
        → Memᴰ p (x ∷ xs) × (f p ≡ true)
    first b rest (Memᴰ.head e) = (Memᴰ.head e, subst (λ z. f z ≡ true) (sym e) b)
    first b rest (Memᴰ.tail m) = let k = rest m in (Memᴰ.tail k.0, k.1)

keep-All :
    (P : PullRequest → Type 0) (f : PullRequest → Bool) (ps : List PullRequest)
    → All P (keep f ps)
    → All (λ q. f q ≡ true → P q) ps
keep-All P f [] h = tt
keep-All P f (x ∷ xs) h = elim (Bool-cases (f x)) [
  | inl b ↦ let k : P x × All P (keep f xs) = rw b at h in (λ _. k.0, keep-All P f xs k.1)
  | inr b ↦ (λ c. absurd (cc), keep-All P f xs (rw b at h))
]

-- The pull request found as pending its acknowledgement is in the table and awaits it, and no
-- other that awaits one was requested earlier.
pub find_pending_acknowledgement-lem :
    (db : Db) (p : PullRequest)
    → find_pending_acknowledgement db ≡ some p
    → Memᴰ p db.pull_request
      × (awaits_acknowledgement p ≡ true)
      × All
          (λ q.
            awaits_acknowledgement q ≡ true
            → requested p.last_review_requested_at ≤ requested q.last_review_requested_at)
          db.pull_request
unfolding find_pending_acknowledgement
find_pending_acknowledgement-lem db p h =
    let k = oldest_request-lem (keep awaits_acknowledgement db.pull_request) p h in
    let m = keep-Memᴰ awaits_acknowledgement db.pull_request k.0 in
    (m.0, m.1, keep-All (NoLater p) awaits_acknowledgement db.pull_request k.1)

-- Where no pull request is found as pending its acknowledgement, none in the table awaits one.
pub find_pending_acknowledgement-none :
    (db : Db)
    → find_pending_acknowledgement db ≡ none
    → All (λ q. awaits_acknowledgement q ≡ false) db.pull_request
unfolding find_pending_acknowledgement
find_pending_acknowledgement-none db h = All-not db.pull_request (
    keep-All (λ _. ⊥) awaits_acknowledgement db.pull_request
      (oldest_request-none (λ _. ⊥) (keep awaits_acknowledgement db.pull_request) h))
  where
    All-not :
        (ps : List PullRequest)
        → All (λ q. awaits_acknowledgement q ≡ true → ⊥) ps
        → All (λ q. awaits_acknowledgement q ≡ false) ps
    All-not [] k = tt
    All-not (x ∷ xs) k = (
      elim (Bool-cases (awaits_acknowledgement x)) [ inl b ↦ absurd (k.0 b) | inr b ↦ b ],
      All-not xs k.1,
    )
