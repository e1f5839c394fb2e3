-- ===== src/Discovery/Merged.antt =====
-- Every pull request of the two lists is merged, and once.
use rabbit_maximizer.Prelude.{
  ℕ, ◌≤◌, ◌≡◌, ◌<◌, ◌∙◌, ◌⊎◌, subst, ==_iff, refl, true, false, ◌||◌, List, [], ◌∷◌, ◌++◌, ◌==◌,
  any, if◌then◌else◌, count, count-append_one, any-count, Bool-cases, inl, inr, arith,
}
use rabbit_maximizer.Discovery.{
  ScannedPr, StaleOpenPr, DirectCheckPr, of_scanned, of_stale, has_pull_request_id, push_unseen,
  merge_scanned, merge_stale, merge_by_pull_request_id,
}

-- The id is among the merged ones once, or not at all.
abbrev times : ℕ → List DirectCheckPr → ℕ
times j acc = count (has_pull_request_id j) acc

any-times :
    (j : ℕ) (acc : List DirectCheckPr) → any (has_pull_request_id j) acc ≡ true → 0 < times j acc
any-times j [] h = absurd (cc)
any-times j (x ∷ xs) h = ground (arith, any-times j xs)

push_unseen-times :
    (j : ℕ) (acc : List DirectCheckPr) (p : DirectCheckPr)
    → times j acc ≤ 1
    → times j (push_unseen acc p) ≡ (if p.pull_request_id == j then 1 else times j acc)
push_unseen-times j acc p h = elim (Bool-cases (any (has_pull_request_id p.pull_request_id) acc)) [
  | inl q ↦ rw q (seen (Bool-cases (p.pull_request_id == j)) q)
  | inr q ↦ rw q (unseen (Bool-cases (p.pull_request_id == j)) q)
]
  where
    seen :
        (p.pull_request_id == j ≡ true) ⊎ (p.pull_request_id == j ≡ false)
        → any (has_pull_request_id p.pull_request_id) acc ≡ true
        → times j acc ≡ (if p.pull_request_id == j then 1 else times j acc)
    seen (inr n) q = rw n refl
    seen (inl n) q =
        let e : p.pull_request_id ≡ j = (==_iff p.pull_request_id j).0 n in
        let k : 0 < times j acc =
          any-times j acc (subst (λ i. any (has_pull_request_id i) acc ≡ true) e q) in
        rw n (omega (arith, h, k))

    unseen :
        (p.pull_request_id == j ≡ true) ⊎ (p.pull_request_id == j ≡ false)
        → any (has_pull_request_id p.pull_request_id) acc ≡ false
        → times j (acc ++ p ∷ []) ≡ (if p.pull_request_id == j then 1 else times j acc)
    unseen (inr n) q =
        let k = count-append_one (has_pull_request_id j) acc p in rw n (ground (arith, k, n))
    unseen (inl n) q =
        let e : p.pull_request_id ≡ j = (==_iff p.pull_request_id j).0 n in
        let z : times j acc ≡ 0 =
          any-count (has_pull_request_id j) acc
            (subst (λ i. any (has_pull_request_id i) acc ≡ false) e q) in
        let k = count-append_one (has_pull_request_id j) acc p in rw n (ground (arith, k, n, z))

merge_scanned-times :
    (j : ℕ) (acc : List DirectCheckPr) (ps : List ScannedPr)
    → times j acc ≤ 1
    → times j (merge_scanned acc ps)
      ≡ (if any (λ p. p.pull_request_id == j) ps then 1 else times j acc)
unfolding merge_scanned
merge_scanned-times j acc [] h = refl
merge_scanned-times j acc (p ∷ ps) h =
    let k = push_unseen-times j acc (of_scanned p) h in
    let l = merge_scanned-times j (push_unseen acc (of_scanned p)) ps (ground (arith, k, h)) in
    l ∙ ground (arith, k)

merge_stale-times :
    (j : ℕ) (acc : List DirectCheckPr) (ps : List StaleOpenPr)
    → times j acc ≤ 1
    → times j (merge_stale acc ps) ≡ (if any (λ p. p.id == j) ps then 1 else times j acc)
unfolding merge_stale
merge_stale-times j acc [] h = refl
merge_stale-times j acc (p ∷ ps) h =
    let k = push_unseen-times j acc (of_stale p) h in
    let l = merge_stale-times j (push_unseen acc (of_stale p)) ps (ground (arith, k, h)) in
    l ∙ ground (arith, k)

-- A pull request is merged once where it is among the scanned or the stale ones, and not at all
-- elsewhere.
pub merge_by_pull_request_id-count :
    (j : ℕ) (scanned : List ScannedPr) (stale : List StaleOpenPr)
    → count (has_pull_request_id j) (merge_by_pull_request_id scanned stale)
      ≡ (if any (λ p. p.pull_request_id == j) scanned || any (λ p. p.id == j) stale then 1 else 0)
unfolding merge_by_pull_request_id
merge_by_pull_request_id-count j scanned stale =
    let k = merge_scanned-times j [] scanned (omega arith) in
    let l = merge_stale-times j (merge_scanned [] scanned) stale (ground (arith, k)) in
    l ∙ ground (arith, k)
