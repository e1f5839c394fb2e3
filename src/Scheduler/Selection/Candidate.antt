-- ===== src/Scheduler/Selection/Candidate.antt =====
-- The item that a scan selects, and the states that it fetches until then.
use rabbit_maximizer.Prelude.{
  ℕ, suc, ◌+◌, ◌≤◌, ◌<◌, ◌≡◌, refl, false, List, [], ◌∷◌, Memᴰ, leb, length, Bool-cases, inl, inr, arith,
}
use rabbit_maximizer.Domain.{pr_merged, pr_closed_without_merge, cooldown, settling}
use rabbit_maximizer.Schema.{ReviewQueue}
use rabbit_maximizer.Store.{Result, ok, err}
use rabbit_maximizer.Queue.Requests.{is_cooling}
use rabbit_maximizer.Service.{
  Setting, World, T, continue, ◌>>=◌, transact, PrData, Response, answered, refused,
}
use rabbit_maximizer.Scheduler.Recording.{resolve_with_event}
use rabbit_maximizer.Scheduler.Selection.Fetched.{select_next_eligible_item-Fetches}
use rabbit_maximizer.Scheduler.Selection.{
  Selection, candidate, deferred, none_due, Scan, skip_candidate, within_budget, judge, is_settling,
  fetch_state, scan, eligible_items, select_next_eligible_item, is_pr_merged, is_pr_closed_without_merge,
  state_or_undefined,
}

abbrev pub Gives : {A : Type 0} → (A → Type 0) → Result A → Type 0
Gives P (err e) = Unit
Gives P (ok a) = P a

Gives-after :
    {A B : Type 0} (P : B → Type 0) (m : T A) (f : A → T B) (w : World)
    → ((a : A) (v : World) → Gives P (f a v).0)
    → Gives P ((m >>= f) w).0
Gives-after {A} {B} P m f w h = go (m w)
  where
    go : (r : Result A × World) → Gives P (continue f r).0
    go (err e, v) = tt
    go (ok a, v) = h a v

module _ (s : Setting) where
  -- The state of the pull request was fetched, and it is open.
  abbrev pub IsOpenNow : ReviewQueue → Type 0
  IsOpenNow item =
      (p : PrData) × (s.client.get_pr_state item.repo_full_name item.pr_number ≡ answered p)
      × (p.is_closed ≡ false)

  abbrev pub IsEligible : ReviewQueue → Type 0
  IsEligible item =
      (is_cooling s.env.now item.cooldown_until ≡ false)
      × (item.created_at + s.cfg.retrigger_spacing_ms ≤ s.env.now)
      × IsOpenNow item

  abbrev pub IsSelected : List ReviewQueue → Selection → Type 0
  IsSelected items deferred = Unit
  IsSelected items none_due = Unit
  IsSelected items (candidate item) = Memᴰ item items × IsEligible item

  abbrev pub IsScan : List ReviewQueue → Scan → Type 0
  IsScan items found =
      (found.fetches ≤ s.cfg.max_pr_state_fetches_per_tick) × IsSelected items found.outcome

  IsSelected-more :
      (item : ReviewQueue) (items : List ReviewQueue) (outcome : Selection)
      → IsSelected items outcome
      → IsSelected (item ∷ items) outcome
  IsSelected-more item items deferred k = tt
  IsSelected-more item items none_due k = tt
  IsSelected-more item items (candidate c) k = (Memᴰ.tail k.0, k.1)

  scan-more :
      (item : ReviewQueue) (items : List ReviewQueue) (r : Result Scan)
      → Gives (IsScan items) r
      → Gives (IsScan (item ∷ items)) r
  scan-more item items (err e) k = tt
  scan-more item items (ok found) k = (k.0, IsSelected-more item items found.outcome k.1)

  within_budget-IsScan :
      (items : List ReviewQueue) (fetches : ℕ) (rest : T Scan) (w : World)
      → fetches ≤ s.cfg.max_pr_state_fetches_per_tick
      → (fetches < s.cfg.max_pr_state_fetches_per_tick
          → (v : World) → Gives (IsScan items) (rest v).0)
      → Gives (IsScan items) (within_budget s fetches rest w).0
  within_budget-IsScan items fetches rest w b h =
      elim (Bool-cases (leb s.cfg.max_pr_state_fetches_per_tick fetches)) [
        | inl q ↦ rw q (b, tt)
        | inr q ↦ rw q (h (ground arith) w)
      ]

  judge-IsScan :
      (item : ReviewQueue) (items : List ReviewQueue) (fetches : ℕ) (r : Response PrData)
      (rest : T Scan) (w : World)
      → fetches ≤ s.cfg.max_pr_state_fetches_per_tick
      → is_cooling s.env.now item.cooldown_until ≡ false
      → is_settling s item ≡ false
      → s.client.get_pr_state item.repo_full_name item.pr_number ≡ r
      → (fetches < s.cfg.max_pr_state_fetches_per_tick
          → (v : World) → Gives (IsScan (item ∷ items)) (rest v).0)
      → Gives (IsScan (item ∷ items)) (judge s item fetches (state_or_undefined r) rest w).0
  unfolding judge
  judge-IsScan item items fetches (refused status) rest w b c t q h =
      within_budget-IsScan (item ∷ items) fetches rest w b h
  judge-IsScan item items fetches (answered p) rest w b c t q h =
      elim (Bool-cases (is_pr_merged p)) [
        | inl m ↦ rw m (
            Gives-after _ (transact (resolve_with_event s item pr_merged "dismissed"))
              (λ _. within_budget s fetches rest) w
              (λ _ v. within_budget-IsScan (item ∷ items) fetches rest v b h))
        | inr m ↦ elim (Bool-cases (is_pr_closed_without_merge p)) [
          | inl n ↦
              rw (m, n)
                (Gives-after _
                  (transact (resolve_with_event s item pr_closed_without_merge "dismissed"))
                  (λ _. within_budget s fetches rest) w
                  (λ _ v. within_budget-IsScan (item ∷ items) fetches rest v b h))
          | inr n ↦ rw (m, n) (b, (Memᴰ.head refl, (c, ground arith, (p, q, ground arith))))
        ]
      ]

  scan-IsScan :
      (items : List ReviewQueue) (fetches : ℕ) (w : World)
      → fetches < s.cfg.max_pr_state_fetches_per_tick
      → Gives (IsScan items) (scan s items fetches w).0
  unfolding scan fetch_state
  scan-IsScan [] fetches w b = (omega (arith, b), tt)
  scan-IsScan (item ∷ items) fetches w b =
      elim (Bool-cases (is_cooling s.env.now item.cooldown_until)) [
        | inl q ↦ rw q (
            Gives-after _ (skip_candidate s item cooldown) (λ _. scan s items fetches) w
              (λ _ v. scan-more item items _ (scan-IsScan items fetches v b)))
        | inr q ↦ elim (Bool-cases (is_settling s item)) [
          | inl t ↦
              rw (q, t)
                (Gives-after _ (skip_candidate s item settling) (λ _. scan s items fetches) w
                  (λ _ v. scan-more item items _ (scan-IsScan items fetches v b)))
          | inr t ↦
              rw (q, t)
                (judge-IsScan item items (suc fetches) _ (scan s items (suc fetches)) _
                  (omega (arith, b)) q t refl
                  (λ c v. scan-more item items _ (scan-IsScan items (suc fetches) v c)))
        ]
      ]

  -- With a budget
  pub select_next_eligible_item-IsScan :
      (w : World)
      → 0 < s.cfg.max_pr_state_fetches_per_tick
      → Gives (IsScan (eligible_items s w.db)) (select_next_eligible_item s w).0
        × (length (select_next_eligible_item s w).1.fetched
            ≤ length w.fetched + s.cfg.max_pr_state_fetches_per_tick)
  unfolding select_next_eligible_item
  select_next_eligible_item-IsScan w b =
      (scan-IsScan (eligible_items s w.db) 0 w b, select_next_eligible_item-Fetches s w b)
