-- ===== src/Scheduler/Selection/Fetched.antt =====
-- How many states of pull requests a scan asks GitHub for.
use rabbit_maximizer.Prelude.{
  ℕ, suc, ◌+◌, ◌-◌, ◌≤◌, ◌<◌, ◌≡◌, refl, Bool, true, false, Option, none, some, List, [], ◌∷◌, ◌++◌, leb, length, length-append,
  Bool-cases, inl, inr, if◌then◌else◌, arith,
}
use rabbit_maximizer.Domain.{pr_merged, pr_closed_without_merge, Resolution, SkipReason, cooldown, settling}
use rabbit_maximizer.Schema.{ReviewQueue}
use rabbit_maximizer.Queue.Marks.{mark_retrigger_skipped}
use rabbit_maximizer.Queue.Requests.{is_cooling}
use rabbit_maximizer.Service.{Setting, World, T, ◌>>=◌, ◌>>◌, return, transact, PrData}
use rabbit_maximizer.Scheduler.Recording.{resolve_with_event}
use rabbit_maximizer.Scheduler.Posts.{Grows, Grows-transact, Grows-bind}
use rabbit_maximizer.Scheduler.Selection.{
  Scan, candidate, deferred, scanned, skip_candidate, within_budget, judge, fetch_state, is_settling, scan, eligible_items,
  select_next_eligible_item, is_pr_merged, is_pr_closed_without_merge,
}

abbrev requests : World → ℕ
requests w = length w.fetched

-- At most `n` requests more.
abbrev Fetches : {A : Type 0} → ℕ → T A → Type 0
Fetches n m = Grows requests n m

Fetches-if :
    {A : Type 0} (n : ℕ) (b : Bool) (m k : T A)
    → (b ≡ true → Fetches n m)
    → (b ≡ false → Fetches n k)
    → (w : World)
    → requests ((if b then m else k) w).1 ≤ requests w + n
Fetches-if n true m k h l w = h refl w
Fetches-if n false m k h l w = l refl w

-- What asks for nothing, and then what asks.
Fetches-then :
    {A B : Type 0} (n : ℕ) (m : T A) (f : A → T B)
    → Fetches 0 m
    → ((a : A) → Fetches n (f a))
    → Fetches n (m >>= f)
Fetches-then n m f h k w =
    let c = Grows-bind requests 0 n m f h k w in omega (arith, c)

module _ (s : Setting) where
  abbrev budget : ℕ
  budget = s.cfg.max_pr_state_fetches_per_tick

  resolve-Fetches :
      (item : ReviewQueue) (resolution : Resolution)
      → Fetches 0 (transact (resolve_with_event s item resolution "dismissed"))
  resolve-Fetches item resolution = Grows-transact requests _ (λ w db. refl)

  skip_candidate-Fetches :
      (item : ReviewQueue) (reason : SkipReason) → Fetches 0 (skip_candidate s item reason)
  unfolding skip_candidate
  skip_candidate-Fetches item reason =
      Grows-bind requests 0 0 (transact (mark_retrigger_skipped s.env item.id reason)) (λ _. return tt)
        (Grows-transact requests _ (λ w db. refl)) (λ _ w. omega arith)

  fetch_state-Fetches : (item : ReviewQueue) → Fetches 1 (fetch_state s item)
  unfolding fetch_state
  fetch_state-Fetches item w =
      let n = length-append w.fetched (record { repo_of_fetch = item.repo_full_name; pr_of_fetch = item.pr_number } ∷ []) in
      omega (arith, n)

  within_budget-Fetches :
      (fetches left : ℕ) (rest : T Scan)
      → (fetches < budget → Fetches left rest)
      → Fetches left (within_budget s fetches rest)
  within_budget-Fetches fetches left rest h =
      Fetches-if left (leb budget fetches) (scanned deferred fetches) rest (λ _ w. omega arith)
        (λ e. h (ground arith))

  judge-Fetches :
      (item : ReviewQueue) (fetches left : ℕ) (p : Option PrData) (rest : T Scan)
      → (fetches < budget → Fetches left rest)
      → Fetches left (judge s item fetches p rest)
  unfolding judge
  judge-Fetches item fetches left none rest h = within_budget-Fetches fetches left rest h
  judge-Fetches item fetches left (some p) rest h =
      let bounded = within_budget s fetches rest in
      let later = within_budget-Fetches fetches left rest h in
      let resolve : Resolution → T (Unit {0}) =
        λ resolution. transact (resolve_with_event s item resolution "dismissed") in
      Fetches-if left (is_pr_merged p) (resolve pr_merged >> bounded)
        (if is_pr_closed_without_merge p
          then (resolve pr_closed_without_merge >> bounded)
          else scanned (candidate item) fetches)
        (λ _. Fetches-then left (resolve pr_merged) (λ _. bounded) (resolve-Fetches item pr_merged)
          (λ _. later))
        (λ _. Fetches-if left (is_pr_closed_without_merge p)
          (resolve pr_closed_without_merge >> bounded) (scanned (candidate item) fetches)
          (λ _. Fetches-then left (resolve pr_closed_without_merge) (λ _. bounded)
            (resolve-Fetches item pr_closed_without_merge) (λ _. later))
          (λ _ w. omega arith))

  scan-Fetches :
      (items : List ReviewQueue) (fetches left : ℕ)
      → fetches + left ≡ budget
      → fetches < budget
      → Fetches left (scan s items fetches)
  unfolding scan
  scan-Fetches [] fetches left e b = λ w. omega arith
  scan-Fetches (item ∷ items) fetches left e b =
      let skip : SkipReason → T Scan =
        λ reason. skip_candidate s item reason >> scan s items fetches in
      let ask : T Scan =
        fetch_state s item >>= λ p. judge s item (suc fetches) p (scan s items (suc fetches)) in
      let skipping : (reason : SkipReason) → Fetches left (skip reason) =
        λ reason.
          Fetches-then left (skip_candidate s item reason) (λ _. scan s items fetches)
            (skip_candidate-Fetches item reason) (λ _. scan-Fetches items fetches left e b) in
      let asking : Fetches left ask = λ w.
        let c =
          Grows-bind requests 1 (left - 1) (fetch_state s item)
            (λ p. judge s item (suc fetches) p (scan s items (suc fetches)))
            (fetch_state-Fetches item)
            (λ p. judge-Fetches item (suc fetches) (left - 1) p (scan s items (suc fetches))
              (scan-Fetches items (suc fetches) (left - 1) (omega (arith, e, b)))) w in
        omega (arith, c, e, b) in
      Fetches-if left (is_cooling s.env.now item.cooldown_until) (skip cooldown)
        (if is_settling s item then skip settling else ask) (λ _. skipping cooldown)
        (λ _. Fetches-if left (is_settling s item) (skip settling) ask (λ _. skipping settling)
          (λ _. asking))

  pub select_next_eligible_item-Fetches :
      (w : World)
      → 1 ≤ budget
      → length (select_next_eligible_item s w).1.fetched ≤ length w.fetched + budget
  unfolding select_next_eligible_item
  select_next_eligible_item-Fetches w b = 
      let c = scan-Fetches (eligible_items s w.db) 0 budget (omega arith) b w in
      omega (arith, b, c)
