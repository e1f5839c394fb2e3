-- ===== src/PullRequests/Upsert/Registered.antt =====
-- What the keys of the table promise, and how an upsert changes the table of pull requests.
use rabbit_maximizer.Prelude.{
  ℕ, ◌≤◌, ◌<◌, ◌≡◌, refl, true, false, not, List, [], ◌∷◌, ◌++◌, ◌==◌, ==_iff, str_eq, any, count,
  clash_free-map, clash_free-count, clash_free-append_one, All, All-map, All-of_count-le_one, Memᴰ,
  Bool-cases, inl, inr, if◌then◌else◌, arith,
}
use rabbit_maximizer.Schema.{PullRequest, Db}
use rabbit_maximizer.PullRequests.{has_pr_id, change_prs}
use rabbit_maximizer.PullRequests.Upsert.{
  UpsertPullRequestData, is_pr, patch_pr, dates_ok, pr_clash, pr_keys_ok,
}

-- The keys and the CHECK hold, and the ids are below the counter.
pub record IsRegistered (db : Db) : Type 0 where
  pub keys : pr_keys_ok db.pull_request ≡ true
  pub dates : any (λ p. not (dates_ok p)) db.pull_request ≡ false
  pub fresh : All (λ p. p.id < db.next_pr_id) db.pull_request

module _ (now : ℕ) (d : UpsertPullRequestData) (id : ℕ) where
  abbrev pub patched : PullRequest → PullRequest
  patched p = if has_pr_id id p then patch_pr now d p else p

  patched-pr_clash : (a b : PullRequest) → pr_clash (patched a) (patched b) ≡ pr_clash a b
  patched-pr_clash a b = elim (Bool-cases (a.id == id)) [
    | inl p ↦ elim (Bool-cases (b.id == id)) [ inl q ↦ rw (p, q) refl | inr q ↦ rw (p, q) refl ]
    | inr p ↦ elim (Bool-cases (b.id == id)) [ inl q ↦ rw (p, q) refl | inr q ↦ rw (p, q) refl ]
  ]

  pub change-keys :
      (rows : List PullRequest)
      → pr_keys_ok rows ≡ true
      → pr_keys_ok (change_prs (has_pr_id id) (patch_pr now d) rows) ≡ true
  unfolding pr_keys_ok
  change-keys rows h = rw (clash_free-map pr_clash patched rows patched-pr_clash) h

  pub change-fresh :
      (next : ℕ) (rows : List PullRequest)
      → All (λ p. p.id < next) rows
      → All (λ p. p.id < next) (change_prs (has_pr_id id) (patch_pr now d) rows)
  change-fresh next rows h =
      All-map (λ p. p.id < next) patched rows
        (λ a k. elim (Bool-cases (a.id == id)) [ inl e ↦ rw e k | inr e ↦ rw e k ]) h

-- One row at most has an id.
pub count-has_pr_id :
    (id : ℕ) (rows : List PullRequest) → pr_keys_ok rows ≡ true → count (has_pr_id id) rows ≤ 1
unfolding pr_keys_ok
count-has_pr_id id rows h =
    clash_free-count pr_clash (has_pr_id id) rows (λ a b p q. ground arith) h

-- What holds of a row of the table holds of every row with its id.
pub All-same_id :
    (Q : PullRequest → Type 0) (rows : List PullRequest) (p : PullRequest)
    → pr_keys_ok rows ≡ true
    → Memᴰ p rows
    → Q p
    → All (λ r. has_pr_id p.id r ≡ true → Q r) rows
All-same_id Q rows p h m k =
    All-of_count-le_one Q (has_pr_id p.id) rows (count-has_pr_id p.id rows h) m
      ((==_iff p.id p.id).1 refl) k

-- A row whose date columns pass leaves the CHECK satisfied, and another one violates it.
pub change-dates :
    (now : ℕ) (d : UpsertPullRequestData) (id : ℕ) (rows : List PullRequest)
    → any (λ p. not (dates_ok p)) rows ≡ false
    → All (λ r. has_pr_id id r ≡ true → dates_ok (patch_pr now d r) ≡ true) rows
    → any (λ p. not (dates_ok p)) (change_prs (has_pr_id id) (patch_pr now d) rows) ≡ false
change-dates now d id [] h k = refl
change-dates now d id (x ∷ xs) h k = elim (Bool-cases (x.id == id)) [
  | inl e ↦ rw (e, k.0 e) (change-dates now d id xs (ground arith) k.1)
  | inr e ↦
      let fine : not (dates_ok x) ≡ false = ground arith in
      rw (e, fine) (change-dates now d id xs (ground arith) k.1)
]

pub change-violates :
    (now : ℕ) (d : UpsertPullRequestData) (p : PullRequest) (rows : List PullRequest)
    → Memᴰ p rows
    → dates_ok (patch_pr now d p) ≡ false
    → any (λ q. not (dates_ok q)) (change_prs (has_pr_id p.id) (patch_pr now d) rows) ≡ true
change-violates now d p [] m h = elim m [ ]
change-violates now d p (x ∷ xs) (Memᴰ.head e) h =
    let i : (x.id == p.id) ≡ true = (==_iff x.id p.id).1 (cc e) in
    let bad : dates_ok (patch_pr now d x) ≡ false = cc (e, h) in rw (i, bad) refl
change-violates now d p (x ∷ xs) (Memᴰ.tail m) h = ground (arith, change-violates now d p xs m h)

-- A row with a new id, a new uuid and a new number clashes with none.
pub append-keys :
    (rows : List PullRequest) (p : PullRequest)
    → pr_keys_ok rows ≡ true
    → All (λ r. r.id < p.id) rows
    → any (λ r. str_eq r.uuid p.uuid) rows ≡ false
    → any (is_pr p.repo_full_name p.pr_number) rows ≡ false
    → pr_keys_ok (rows ++ p ∷ []) ≡ true
unfolding pr_keys_ok
append-keys rows p h f u n = clash_free-append_one pr_clash rows p h (unmet rows f u n)
  where
    unmet :
        (ys : List PullRequest)
        → All (λ r. r.id < p.id) ys
        → any (λ r. str_eq r.uuid p.uuid) ys ≡ false
        → any (is_pr p.repo_full_name p.pr_number) ys ≡ false
        → any (λ x. pr_clash x p) ys ≡ false
    unmet [] f u n = refl
    unmet (y ∷ ys) f u n = ground (arith, unmet ys f.1)

pub append-dates :
    (rows : List PullRequest) (p : PullRequest)
    → any (λ q. not (dates_ok q)) rows ≡ false
    → any (λ q. not (dates_ok q)) (rows ++ p ∷ []) ≡ not (dates_ok p)
append-dates [] p h = ground arith
append-dates (x ∷ xs) p h = ground (arith, append-dates xs p)
