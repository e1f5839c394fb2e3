-- ===== src/Poller/Latched.antt =====
-- The date of the next review never goes back in a tick of the poll detector.
use rabbit_maximizer.Prelude.{
  ℕ, ◌≤◌, ltb, ◌≡◌, refl, ◌∙◌, String, Bool, true, false, Option, none, some, List, [], ◌∷◌, map,
  Bool-cases, inl, inr, str_eq, arith,
}
use rabbit_maximizer.Schema.{PullRequest, Db}
use rabbit_maximizer.Store.{Result, ok, err}
use rabbit_maximizer.Queue.Rules.{done}
use rabbit_maximizer.PullRequests.{find_stale_open_prs, find_pending_acknowledgement}
use rabbit_maximizer.Comments.{find_by_comment_id}
use rabbit_maximizer.Service.{Setting, World, ◌>>=◌, return, answer, classify_coderabbit_comment}
use rabbit_maximizer.Reviews.Kept.{
  KeepsM, KeepsT, bind-KeepsT, transact-KeepsT, catch-KeepsT, answer-KeepsT, same-KeepsM,
}
use rabbit_maximizer.PullRequests.Upsert.{find_by_repo_and_pr}
use rabbit_maximizer.SystemState.{
  set_state, get_state, later_datetime, last_scan_started_at, last_scan_completed_at,
  get_next_review_available_at, set_next_review_available_at_if_later, next_review_available_at,
  StateKey, ValueType, key_name,
}
use rabbit_maximizer.SystemState.Cooldown.{set_state-get_state, set_if_later-get}
use rabbit_maximizer.Discovery.{StaleOpenPr, DirectCheckPr, merge_by_pull_request_id}
use rabbit_maximizer.Detection.{DetectedComment, handle}
use rabbit_maximizer.Detection.Latched.{handle-system_state}
use rabbit_maximizer.Detection.Tables.{record_acknowledgement-IsSame}
use rabbit_maximizer.Github.Text.{RepoName, split_repo}
use rabbit_maximizer.Scanner.{ScanResult, scan}
use rabbit_maximizer.Scanner.State.{scan-KeepsT}
use rabbit_maximizer.Checker.{ReviewLimitCandidate, is_own_retrigger}
use rabbit_maximizer.Checker.State.{check-KeepsT}
use rabbit_maximizer.Poller.{
  PollSetting, stale_open_pr, is_unknown, is_stored_seen, synthetic_comment, recover_all, recover,
  check_setting, check_directly, with_found, hand_found, take_found, fetch_found, search_all,
  with_direct, note_acknowledged, acknowledge_named, acknowledge_pending, acknowledge,
  keep_next_review, finish, search, poll_scanned, poll, after_tick, execute_tick,
}

-- The next review is available at `t` or later.
abbrev pub IsNotBefore : ℕ → Db → Type 0
IsNotBefore t db = (t' : ℕ) × (get_next_review_available_at db ≡ some t') × (t ≤ t')

module _ (t : ℕ) where
  IsNotBefore-same :
      (db db' : Db) → db'.system_state ≡ db.system_state → IsNotBefore t db → IsNotBefore t db'
  unfolding get_next_review_available_at get_state
  IsNotBefore-same db db' same (t', e, le) = (t', rw same e, le)

  handle-KeepsT :
      (s : Setting) (c : DetectedComment) (id : ℕ) → KeepsT (IsNotBefore t) (handle s c id)
  handle-KeepsT s c id w q = IsNotBefore-same w.db _ (handle-system_state s c id w) q

  set_other-KeepsM :
      (now : ℕ) (key : StateKey) (value : ValueType key)
      → str_eq (key_name key) (key_name next_review_available_at) ≡ false
      → KeepsM (IsNotBefore t) (set_state now key value)
  unfolding get_next_review_available_at
  set_other-KeepsM now key value ne db (t', e, le) =
      let x = set_state-get_state now key value db in
      rw x.1.0 (done tt x.0 (t', x.1.2 next_review_available_at ne ∙ e, le))

  set_if_later-KeepsM :
      (now earliest : ℕ)
      → KeepsM (IsNotBefore t) (set_next_review_available_at_if_later now earliest)
  set_if_later-KeepsM now earliest db (t', e, le) =
      let x = set_if_later-get now earliest db in
      rw x.1 (done tt x.0 (latched x.0 (x.2 ∙ rw e refl)))
    where
      latched :
          (db' : Db)
          → get_next_review_available_at db' ≡ later_datetime (some t') earliest
          → IsNotBefore t db'
      latched db' h = elim (Bool-cases (ltb t' earliest)) [
        | inl b ↦ (earliest, h ∙ rw b refl, ground (arith, le, b))
        | inr b ↦ (t', h ∙ rw b refl, le)
      ]

  module _ (p : PollSetting) where
    open p use {setting, fetch_comment, find_acknowledgement}

    recover_all-KeepsT : (prs : List StaleOpenPr) → KeepsT (IsNotBefore t) (recover_all p prs)
    unfolding recover_all
    recover_all-KeepsT [] = λ w q. q
    recover_all-KeepsT (pr ∷ prs) =
        bind-KeepsT (IsNotBefore t) _ _
          (catch-KeepsT (IsNotBefore t) tt (handle setting (synthetic_comment p pr) pr.id)
            (handle-KeepsT setting (synthetic_comment p pr) pr.id))
          (λ _. recover_all-KeepsT prs)

    recover-KeepsT : KeepsT (IsNotBefore t) (recover p)
    unfolding recover
    recover-KeepsT w q =
        bind-KeepsT (IsNotBefore t)
          (recover_all p (map stale_open_pr (find_stale_open_prs setting.env.now w.db))) _
          (recover_all-KeepsT (map stale_open_pr (find_stale_open_prs setting.env.now w.db)))
          (λ _ w q. q) w q

    check_directly-KeepsT :
        (prs : List DirectCheckPr) → KeepsT (IsNotBefore t) (check_directly p prs)
    unfolding check_directly
    check_directly-KeepsT prs w q =
        check-KeepsT (check_setting p) (IsNotBefore t) IsNotBefore-same (handle-KeepsT setting) prs
          w q

    hand_found-KeepsT :
        (c : DetectedComment) (pr : Option PullRequest) (earliest : Option ℕ)
        → KeepsT (IsNotBefore t) (hand_found p c pr earliest)
    unfolding hand_found
    hand_found-KeepsT c none earliest w q = q
    hand_found-KeepsT c (some pr) earliest w q =
        elim (Bool-cases (is_stored_seen c (find_by_comment_id pr.id c.comment_id w.db))) [
          | inl e ↦ rw e q
          | inr e ↦ rw e (
              bind-KeepsT (IsNotBefore t) (handle setting c pr.id) (λ _. return earliest)
                (handle-KeepsT setting c pr.id) (λ _ w q. q) w q)
        ]

    take_found-KeepsT :
        (c : DetectedComment) (body : String) (earliest : Option ℕ)
        → KeepsT (IsNotBefore t) (take_found p c body earliest)
    unfolding take_found
    take_found-KeepsT c body earliest w q =
        let type = classify_coderabbit_comment setting.text body in
        elim (Bool-cases (is_unknown type)) [
          | inl e ↦ rw e q
          | inr e ↦ elim (Bool-cases (is_own_retrigger setting.text type body)) [
            | inl o ↦ rw (e, o) q
            | inr o ↦
                rw (e, o)
                  (hand_found-KeepsT (record c { body = body })
                    (find_by_repo_and_pr c.repo_full_name c.pr_number w.db)
                    (with_found p type c body earliest) w q)
          ]
        ]

    search_all-KeepsT :
        (cs : List DetectedComment) (earliest : Option ℕ)
        → KeepsT (IsNotBefore t) (search_all p cs earliest)
    unfolding search_all
    search_all-KeepsT [] earliest = λ w q. q
    search_all-KeepsT (c ∷ cs) earliest =
        bind-KeepsT (IsNotBefore t) (fetch_found p c earliest (split_repo c.repo_full_name)) _
          (fetched (split_repo c.repo_full_name)) (search_all-KeepsT cs)
      where
        fetched : (name : Option RepoName) → KeepsT (IsNotBefore t) (fetch_found p c earliest name)
        fetched none = λ w q. q
        fetched (some name) =
            bind-KeepsT (IsNotBefore t) (answer (fetch_comment name c.comment_id)) _
              (answer-KeepsT (IsNotBefore t) _) (λ body. take_found-KeepsT c body earliest)

    acknowledge-KeepsT : KeepsT (IsNotBefore t) (acknowledge p)
    unfolding acknowledge
    acknowledge-KeepsT w q =
        catch-KeepsT (IsNotBefore t) tt (acknowledge_pending p (find_pending_acknowledgement w.db))
          (pending (find_pending_acknowledgement w.db)) w q
      where
        noted : (id : ℕ) (b : Bool) → KeepsT (IsNotBefore t) (note_acknowledged p id b)
        noted id false = λ w q. q
        noted id true = transact-KeepsT (IsNotBefore t) _ (
            same-KeepsM (IsNotBefore t) _ IsNotBefore-same
              (record_acknowledgement-IsSame setting.env.now id))

        named :
            (pr : PullRequest) (name : Option RepoName)
            → KeepsT (IsNotBefore t) (acknowledge_named p pr name)
        named pr none = λ w q. q
        named pr (some name) =
            bind-KeepsT (IsNotBefore t)
              (answer (find_acknowledgement name pr.pr_number pr.last_review_requested_at)) _
              (answer-KeepsT (IsNotBefore t) _) (noted pr.id)

        pending : (pr : Option PullRequest) → KeepsT (IsNotBefore t) (acknowledge_pending p pr)
        pending none = λ w q. q
        pending (some pr) = named pr (split_repo pr.repo_full_name)

    keep_next_review-KeepsT :
        (earliest : Option ℕ) → KeepsT (IsNotBefore t) (keep_next_review p earliest)
    keep_next_review-KeepsT none = λ w q. q
    keep_next_review-KeepsT (some earliest) =
        transact-KeepsT (IsNotBefore t) _ (set_if_later-KeepsM setting.env.now earliest)

    finish-KeepsT :
        (candidates : List ReviewLimitCandidate) (earliest : Option ℕ)
        → KeepsT (IsNotBefore t) (finish p candidates earliest)
    unfolding finish
    finish-KeepsT candidates earliest =
        bind-KeepsT (IsNotBefore t) (acknowledge p)
          (λ _. keep_next_review p (with_direct p candidates earliest)) acknowledge-KeepsT
          (λ _. keep_next_review-KeepsT (with_direct p candidates earliest))

    search-KeepsT :
        (candidates : List ReviewLimitCandidate) → KeepsT (IsNotBefore t) (search p candidates)
    unfolding search
    search-KeepsT candidates =
        bind-KeepsT (IsNotBefore t) (answer p.search_review_limit_comments)
          (λ comments. search_all p comments none >>= finish p candidates)
          (answer-KeepsT (IsNotBefore t) p.search_review_limit_comments)
          (λ comments.
            bind-KeepsT (IsNotBefore t) (search_all p comments none) (finish p candidates)
              (search_all-KeepsT comments none) (finish-KeepsT candidates))

    poll_scanned-KeepsT : (scanned : ScanResult) → KeepsT (IsNotBefore t) (poll_scanned p scanned)
    unfolding poll_scanned
    poll_scanned-KeepsT scanned =
        bind-KeepsT (IsNotBefore t) (recover p)
          (λ stale.
            check_directly p (merge_by_pull_request_id scanned.scanned_prs stale) >>= search p)
          recover-KeepsT
          (λ stale.
            bind-KeepsT (IsNotBefore t)
              (check_directly p (merge_by_pull_request_id scanned.scanned_prs stale)) (search p)
              (check_directly-KeepsT (merge_by_pull_request_id scanned.scanned_prs stale))
              search-KeepsT)

    poll-KeepsT : KeepsT (IsNotBefore t) (poll p)
    unfolding poll
    poll-KeepsT =
        bind-KeepsT (IsNotBefore t) (scan p.scan_setting) (poll_scanned p)
          (scan-KeepsT (IsNotBefore t) IsNotBefore-same p.scan_setting
            (set_other-KeepsM p.scan_setting.now last_scan_started_at p.scan_setting.now refl)
            (set_other-KeepsM p.scan_setting.now last_scan_completed_at p.scan_setting.now refl))
          poll_scanned-KeepsT

    -- Where a date of the next review is set, one that is not earlier is set after a tick of
    -- the poll detector, whatever GitHub answers and wherever the tick fails.
    pub execute_tick-IsNotBefore :
        (retry_after : ℕ) (w : World)
        → get_next_review_available_at w.db ≡ some t
        → IsNotBefore t (execute_tick p retry_after w).1.db
    unfolding execute_tick
    execute_tick-IsNotBefore retry_after w e = ended (poll p w) (poll-KeepsT w (t, e, omega arith))
      where
        ended :
            (x : Result (Unit {0}) × World)
            → IsNotBefore t x.1.db
            → IsNotBefore t (after_tick p retry_after x).1.db
        ended (err e, v) k = k
        ended (ok u, v) k = k
