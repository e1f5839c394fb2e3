-- ===== src/Scheduler/HeldBack.antt =====
-- A tick that is held back posts nothing.
use rabbit_maximizer.Prelude.{
  ℕ, ◌+◌, ◌<◌, ◌≡◌, refl, sym, ◌∙◌, String, Bool, true, false, Option, none, some, List, [], ◌∷◌, Memᴰ, All-Memᴰ, Bool-cases, Option-cases, inl, inr, arith,
}
use rabbit_maximizer.Domain.{Resolution}
use rabbit_maximizer.Schema.{ReviewQueue, PullRequest, Db}
use rabbit_maximizer.Store.{M, Error, Result, ok, err, Env, record_event}
use rabbit_maximizer.Queue.Rules.{
  Holds, failed, done, Holds-bind, Holds-typed, Holds-update, Holds-update_many,
}
use rabbit_maximizer.Queue.Marks.{mark_resolved, resolve_stale_retriggered}
use rabbit_maximizer.PullRequests.{awaits_acknowledgement, requested, find_pending_acknowledgement}
use rabbit_maximizer.PullRequests.Acknowledgement.{
  find_pending_acknowledgement-lem, find_pending_acknowledgement-none,
}
use rabbit_maximizer.SystemState.{
  is_scheduler_paused, get_next_review_available_at, get_state, set_state,
  set_last_scheduler_tick_at, scheduler_status, next_review_available_at,
}
use rabbit_maximizer.Service.{
  Setting, World, T, continue, ◌>>=◌, ◌>>◌, return, transact, committed, catch, handled,
}
use rabbit_maximizer.Scheduler.Recording.{resolve_with_event}
use rabbit_maximizer.Scheduler.Tick.{
  EnrichedItem, prune_items, prune, awaits_answer, is_held_back, look_for_item, attempt_tick, execute_tick,
}

-- The state that holds a tick back, and the posts, are what they were.
abbrev pub SameHold : World → World → Type 0
SameHold v w =
    (v.posts ≡ w.posts)
    × (v.db.system_state ≡ w.db.system_state)
    × (v.db.pull_request ≡ w.db.pull_request)

abbrev Idle : {A : Type 0} → T A → Type 0
Idle m = (w : World) → SameHold (m w).1 w

-- The statements of a transaction that change no more than rows of the queue and events.
abbrev QueueOnly : {A : Type 0} → M A → Type 0
QueueOnly m =
    (db : Db)
    → Holds (λ _ db'. (db'.system_state ≡ db.system_state) × (db'.pull_request ≡ db.pull_request))
        (m db)

Idle-transact : {A : Type 0} (m : M A) → QueueOnly m → Idle (transact m)
unfolding transact
Idle-transact {A} m h w = go (m w.db) (h w.db)
  where
    go :
        (r : Result (A × Db))
        → Holds
            (λ _ db'.
              (db'.system_state ≡ w.db.system_state) × (db'.pull_request ≡ w.db.pull_request))
            r
        → SameHold (committed w r).1 w
    go r (failed e) = (refl, refl, refl)
    go r (done a db k) = (refl, k.0, k.1)

Idle-bind :
    {A B : Type 0} (m : T A) (f : A → T B) → Idle m → ((a : A) → Idle (f a)) → Idle (m >>= f)
Idle-bind {A} {B} m f h k w = go (m w) (h w)
  where
    go : (r : Result A × World) → SameHold r.1 w → SameHold (continue f r).1 w
    go (err e, v) q = q
    go (ok a, v) q = let p = k a v in (p.0 ∙ q.0, p.1 ∙ q.1, p.2 ∙ q.2)

Idle-catch :
    {A : Type 0} (m : T A) (handle : Error → T A)
    → Idle m
    → ((e : Error) → Idle (handle e))
    → Idle (catch m handle)
Idle-catch {A} m handle h k w = go (m w) (h w)
  where
    go : (r : Result A × World) → SameHold r.1 w → SameHold (handled handle r).1 w
    go (err e, v) q = let p = k e v in (p.0 ∙ q.0, p.1 ∙ q.1, p.2 ∙ q.2)
    go (ok a, v) q = q

mark_resolved-QueueOnly :
    (env : Env) (id : ℕ) (resolution : Resolution) → QueueOnly (mark_resolved env id resolution)
unfolding mark_resolved
mark_resolved-QueueOnly env id resolution db =
    Holds-typed _ db (Holds-update _ _ db (λ r _ _. (refl, refl)))

resolve_stale-QueueOnly : (env : Env) (age : ℕ) → QueueOnly (resolve_stale_retriggered env age)
unfolding resolve_stale_retriggered
resolve_stale-QueueOnly env age db = Holds-update_many _ _ db (λ _. (refl, refl))

-- What posts nothing posts nothing under a handler that does nothing, or before the like.
catch-posts :
    {A : Type 0} (a : A) (m : T A) (w : World)
    → (m w).1.posts ≡ w.posts
    → (catch m (λ _. return a) w).1.posts ≡ w.posts
catch-posts {A} a m w h = go (m w) h
  where
    go :
        (r : Result A × World) → r.1.posts ≡ w.posts → (handled (λ _. return a) r).1.posts ≡ w.posts
    go (err e, v) q = q
    go (ok b, v) q = q

bind-posts :
    {A B : Type 0} (m : T A) (f : A → T B) (w : World)
    → (m w).1.posts ≡ w.posts
    → ((a : A) (v : World) → (f a v).1.posts ≡ v.posts)
    → ((m >>= f) w).1.posts ≡ w.posts
bind-posts {A} {B} m f w h k = go (m w) h
  where
    go : (r : Result A × World) → r.1.posts ≡ w.posts → (continue f r).1.posts ≡ w.posts
    go (err e, v) q = q
    go (ok a, v) q = k a v ∙ q

module _ (s : Setting) where
  resolve_with_event-QueueOnly :
      (item : ReviewQueue) (resolution : Resolution) (type : String)
      → QueueOnly (resolve_with_event s item resolution type)
  unfolding resolve_with_event record_event
  resolve_with_event-QueueOnly item resolution type db =
      Holds-bind (mark_resolved s.env item.id resolution) _ db
        (mark_resolved-QueueOnly s.env item.id resolution db) (λ r db' k. done _ _ k)

  prune_items-Idle : (es : List EnrichedItem) → Idle (prune_items s es)
  unfolding prune_items
  prune_items-Idle [] = λ w. (refl, refl, refl)
  prune_items-Idle (e ∷ es) =
      Idle-bind
        (catch (transact (resolve_with_event s e.item e.outcome "dismissed")) (λ _. return tt))
        (λ _. prune_items s es)
        (Idle-catch (transact (resolve_with_event s e.item e.outcome "dismissed")) (λ _. return tt)
          (Idle-transact _ (resolve_with_event-QueueOnly e.item e.outcome "dismissed"))
          (λ _ w. (refl, refl, refl)))
        (λ _. prune_items-Idle es)

  prune-Idle : Idle (prune s)
  unfolding prune
  prune-Idle w = prune_items-Idle _ w

  -- Pruning and the resolution of stale rows, which every tick begins with.
  first_part-Idle :
      (k : T (Unit {0})) (w : World)
      → ((v : World) → SameHold v w → (k v).1.posts ≡ v.posts)
      → ((prune s >>= λ _.
            transact (resolve_stale_retriggered s.env s.cfg.max_retrigger_age_ms) >>= λ _. k)
          w).1.posts
        ≡ w.posts
  first_part-Idle k w h = go (prune s w) (prune-Idle w)
    where
      stale : T ℕ
      stale = transact (resolve_stale_retriggered s.env s.cfg.max_retrigger_age_ms)

      next :
          (v : World) (r : Result ℕ × World)
          → SameHold v w
          → SameHold r.1 v
          → (continue (λ _. k) r).1.posts ≡ w.posts
      next v (err e, u) p q = q.0 ∙ p.0
      next v (ok a, u) p q = h u (q.0 ∙ p.0, q.1 ∙ p.1, q.2 ∙ p.2) ∙ q.0 ∙ p.0

      go :
          (r : Result (Unit {0}) × World)
          → SameHold r.1 w
          → (continue (λ _. stale >>= λ _. k) r).1.posts ≡ w.posts
      go (err e, v) p = p.0
      go (ok a, v) p =
          next v (stale v) p
            (Idle-transact _ (resolve_stale-QueueOnly s.env s.cfg.max_retrigger_age_ms) v)

  is_held_back-same : (v w : World) → SameHold v w → is_held_back s v.db ≡ is_held_back s w.db
  unfolding is_scheduler_paused find_pending_acknowledgement get_next_review_available_at get_state
  is_held_back-same v w h = rw (h.1, h.2) refl

  look_for_item-held :
      (v : World) → is_held_back s v.db ≡ true → (look_for_item s v).1.posts ≡ v.posts
  unfolding look_for_item
  look_for_item-held v h = rw h refl

  heartbeat-Idle :
      (v : World)
      → (catch
          (transact (set_last_scheduler_tick_at s.env.now s.env.now))
          (λ _. return tt)
          v).1.posts
        ≡ v.posts
  unfolding transact set_last_scheduler_tick_at set_state
  heartbeat-Idle v = refl

  execute_tick-stopped :
      (w : World) → is_held_back s w.db ≡ true → (execute_tick s w).1.posts ≡ w.posts
  unfolding execute_tick attempt_tick
  execute_tick-stopped w h =
      bind-posts (attempt_tick s)
        (λ _. catch (transact (set_last_scheduler_tick_at s.env.now s.env.now)) (λ _. return tt)) w
        (catch-posts tt
          (do
            prune s
            _ ← transact (resolve_stale_retriggered s.env s.cfg.max_retrigger_age_ms)
            look_for_item s)
          w
          (first_part-Idle (look_for_item s) w
            (λ v q. look_for_item-held v (is_held_back-same v w q ∙ h))))
        (λ _ v. heartbeat-Idle v)

  -- Why a tick may post nothing, read off the tables.
  pub data IsHeldBack (db : Db) : Type 0 where
    paused : get_state scheduler_status db ≡ some "paused" → IsHeldBack db
    unacknowledged :
        (p : PullRequest)
        → Memᴰ p db.pull_request
        → awaits_acknowledgement p ≡ true
        → ((q : PullRequest)
            → Memᴰ q db.pull_request
            → awaits_acknowledgement q ≡ true
            → s.env.now < requested q.last_review_requested_at + s.cfg.retrigger_spacing_ms)
        → IsHeldBack db
    cooling_down :
        (t : ℕ) → get_state next_review_available_at db ≡ some t → s.env.now < t → IsHeldBack db

  awaits_answer-held :
      (db : Db) → awaits_answer s (find_pending_acknowledgement db) ≡ true → is_held_back s db ≡ true
  awaits_answer-held db a = elim (Bool-cases (is_scheduler_paused db)) [
    | inl p ↦ rw p refl
    | inr p ↦ rw (p, a) refl
  ]

  IsHeldBack-held : (db : Db) → IsHeldBack db → is_held_back s db ≡ true
  unfolding is_scheduler_paused get_next_review_available_at
  IsHeldBack-held db (paused h) = rw h refl
  IsHeldBack-held db (unacknowledged p m a young) =
      elim (Option-cases (find_pending_acknowledgement db)) [
        | inl q ↦
            let none_awaits = find_pending_acknowledgement-none db q in
            let no = All-Memᴰ (λ z. awaits_acknowledgement z ≡ false) db.pull_request none_awaits m in
            absurd (contrary (sym a ∙ no))
        | inr (q, e) ↦
            let found = find_pending_acknowledgement-lem db q e in
            let recent = young q found.0 found.1 in
            awaits_answer-held db (rw e (ground (arith, recent)))
      ]
    where
      contrary : Path Bool true false → ⊥
      contrary e = cc
  IsHeldBack-held db (cooling_down t h b) = elim (Bool-cases (is_scheduler_paused db)) [
    | inl p ↦ rw p refl
    | inr p ↦ elim (Bool-cases (awaits_answer s (find_pending_acknowledgement db))) [
      | inl a ↦ rw (p, a) refl
      | inr a ↦ rw (p, a, h) (ground (arith, b))
    ]
  ]

  pub execute_tick-held_back :
      (w : World) → IsHeldBack w.db → (execute_tick s w).1.posts ≡ w.posts
  execute_tick-held_back w h = execute_tick-stopped w (IsHeldBack-held w.db h)
