-- ===== src/Scanner/Reported.antt =====
-- What a scan reports is in the table, open, when the scan is over.
use rabbit_maximizer.Prelude.{
  ℕ, ◌+◌, ◌*◌, ◌≡◌, refl, true, List, [], ◌∷◌, eq_iff, any-Memᴰ, All-of_Memᴰ, All, All-append_one,
  All-implies, Bool-cases, inl, inr, if◌then◌else◌, arith,
}
use rabbit_maximizer.Domain.{open_pr}
use rabbit_maximizer.Schema.{PullRequest, Db}
use rabbit_maximizer.Store.{M, Result, ok, err}
use rabbit_maximizer.Queue.Rules.{Holds, done}
use rabbit_maximizer.SystemState.{
  StateKey, ValueType, set_state, get_state, last_scan_completed_at, last_scan_started_at,
}
use rabbit_maximizer.PullRequests.Upsert.{find_by_pr_state}
use rabbit_maximizer.PullRequests.Upsert.Registered.{IsRegistered}
use rabbit_maximizer.PullRequests.Upsert.Found.{SamePullRequests, IsRegistered-same}
use rabbit_maximizer.Service.{World, handled, ◌>>=◌, return, transact, catch}
use rabbit_maximizer.Scanner.Scanned.{IsOpen, is_listed}
use rabbit_maximizer.Scanner.Runs.{
  Ends, Runs, Runs-map, Runs-ok, ran, transact-Ends, Runs-bind, Runs-attempt, Runs-same,
}
use rabbit_maximizer.Scanner.{
  DiscoveredPr, ScanSetting, ScanResult, nothing_scanned, is_too_early, scanned_of, tally,
  is_discovered, register, register_all, close, close_missing, scan_discovered, scan_now, scan,
}
use rabbit_maximizer.Scanner.Steps.{Steps, register-Ends, close-Ends}

set_state-same :
    (now : ℕ) (key : StateKey) (value : ValueType key) (db : Db)
    → Holds (λ _ db'. SamePullRequests db db') (set_state now key value db)
unfolding set_state
set_state-same now key value db = done tt _ (refl, refl)

module _ (s : ScanSetting) (discovered : List DiscoveredPr) where
  open s use {now, new_uuid}

  -- What has been reported so far, of pull requests of the list, is open.
  abbrev Reported : ScanResult → Db → Type 0
  Reported r db =
      IsRegistered db
      × All (λ sp. (is_listed discovered sp.repo_full_name sp.pr_number ≡ true) × IsOpen db sp)
          r.scanned_prs

  still_Reported :
      (r : ScanResult) (db db' : Db) → Steps s discovered db db' → Reported r db → Reported r db'
  still_Reported r db db' t q =
      (t.0, All-implies _ r.scanned_prs (λ sp k. (k.0, t.1 sp k.0 k.1)) q.1)

  register_all-Runs :
      (prs : List DiscoveredPr) (r : ScanResult) (w : World)
      → All (λ pr. is_listed discovered pr.repo_full_name pr.pr_number ≡ true) prs
      → Reported r w.db
      → Runs Reported (register_all s prs r w)
  unfolding register_all
  register_all-Runs [] r w h q = ran r w q
  register_all-Runs (pr ∷ prs) r w h q =
      Runs-bind (catch (register s pr >>= λ u. return (tally pr u r)) (λ _. return r))
        (register_all s prs) w
        (Runs-attempt (register s pr) (λ u. tally pr u r) r w (register-Ends s discovered pr w q.0)
          (λ u db' k. (
            k.0,
            All-append_one
                (λ sp. (is_listed discovered sp.repo_full_name sp.pr_number ≡ true) × IsOpen db' sp)
                r.scanned_prs (scanned_of pr u)
                (All-implies _ r.scanned_prs (λ sp o. (o.0, k.2 sp o.1)) q.1) (h.0, k.1),
          ))
          (λ db' same. rw same q))
        (λ r' v k. register_all-Runs prs r' v h.1 k)

  close_missing-Runs :
      (ps : List PullRequest) (n : ℕ) (r : ScanResult) (w : World)
      → Reported r w.db
      → Runs (λ _. Reported r) (close_missing s discovered ps n w)
  unfolding close_missing
  close_missing-Runs [] n r w q = ran n w q
  close_missing-Runs (p ∷ ps) n r w q =
      Runs-bind
        (if is_discovered discovered p
          then return n
          else catch (close s p >>= λ k. return (n + k)) (λ _. return n))
        (close_missing s discovered ps) w first (λ m v k. close_missing-Runs ps m r v k)
    where
      first :
          Runs
            (λ _. Reported r)
            ((if is_discovered discovered p
                then return n
                else catch (close s p >>= λ k. return (n + k)) (λ _. return n))
              w)
      first = elim (Bool-cases (is_discovered discovered p)) [
        | inl e ↦ rw e (ran n w q)
        | inr e ↦ rw e (
            Runs-attempt (close s p) (λ k. n + k) n w (close-Ends s discovered p w q.0 e)
              (λ k db' t. still_Reported r w.db db' t q) (λ db' same. rw same q))
      ]

  persisted-Runs :
      (r : ScanResult) (w : World) (m : M (Unit {0}))
      → Reported r w.db
      → Holds (λ _ db'. SamePullRequests w.db db') (m w.db)
      → Runs (λ _. Reported r) (catch (transact m) (λ _. return tt) w)
  persisted-Runs r w m q h = go (transact m w) (transact-Ends _ m w h)
    where
      same_Reported : (db' : Db) → SamePullRequests w.db db' → Reported r db'
      same_Reported db' same =
          still_Reported r w.db db'
            (IsRegistered-same w.db db' same q.0, λ sp l (p, f, i, o). (p, rw same.0 f, i, o)) q

      go :
          (x : Result (Unit {0}) × World)
          → Ends (λ _ db'. SamePullRequests w.db db') (λ db'. db' ≡ w.db) x
          → Runs (λ _. Reported r) (handled (λ _. return tt) x)
      go (err e, v) k = ran tt v (rw k q)
      go (ok a, v) k = ran tt v (same_Reported v.db k)

  scan_discovered-Runs :
      (w : World) → IsRegistered w.db → Runs Reported (scan_discovered s discovered w)
  unfolding scan_discovered
  scan_discovered-Runs w v =
      Runs-bind (register_all s discovered nothing_scanned) _ w
        (register_all-Runs discovered nothing_scanned w
          (All-of_Memᴰ discovered (λ pr m.
            any-Memᴰ _ discovered m (ground (arith, eq_iff pr.repo_full_name pr.repo_full_name))))
          (v, tt))
        (λ r v q.
          Runs-bind (close_missing s discovered (find_by_pr_state open_pr v.db) 0) _ v
            (close_missing-Runs (find_by_pr_state open_pr v.db) 0 r v q)
            (λ n x q'.
              Runs-bind
                (catch (transact (set_state now last_scan_completed_at now)) (λ _. return tt)) _ x
                (persisted-Runs r x (set_state now last_scan_completed_at now) q'
                  (set_state-same now last_scan_completed_at now x.db))
                (λ u y q''. ran r y q'')))

module _ (s : ScanSetting) where
  open s use {now, interval_sec, list_open_prs}

  abbrev AllOpen : ScanResult → Db → Type 0
  AllOpen r db = IsRegistered db × All (IsOpen db) r.scanned_prs

  scan_now-Runs : (w : World) → IsRegistered w.db → Runs AllOpen (scan_now s w)
  unfolding scan_now
  scan_now-Runs w v =
      Runs-bind (catch (transact (set_state now last_scan_started_at now)) (λ _. return tt)) _ w
        (persisted-Runs s [] nothing_scanned w (set_state now last_scan_started_at now) (v, tt)
          (set_state-same now last_scan_started_at now w.db))
        (λ u x q.
          Runs-same list_open_prs (scan_discovered s) nothing_scanned x (q.0, tt)
            (λ discovered.
              Runs-map (λ r db k. (k.0, All-implies _ r.scanned_prs (λ sp o. o.1) k.1))
                (scan_discovered-Runs s discovered x q.0)))

  -- Where the keys, the dates and the ids of the table of pull requests are in order, a scan
  -- succeeds, whatever GitHub answers and whichever transaction fails; every pull request that
  -- it reports is in the table when it is over, open and under the reported id, and the table
  -- is in order again.
  pub scan-AllOpen :
      (w : World)
      → IsRegistered w.db
      → (r : ScanResult) × ((scan s w).0 ≡ ok r)
        × IsRegistered (scan s w).1.db
        × All (IsOpen (scan s w).1.db) r.scanned_prs
  unfolding scan
  scan-AllOpen w v =
      elim (Bool-cases
        (is_too_early now (interval_sec * 1000) (get_state last_scan_completed_at w.db))) [
          | inl e ↦ rw e (nothing_scanned, refl, v, tt)
          | inr e ↦ let k = Runs-ok (scan_now-Runs w v) in rw e (k.0, k.1, k.2.0, k.2.1)
        ]
