-- ===== src/Interval/OneTick.antt =====
-- One tick at a time, none after the stop, and the next one when a tick has settled.
use rabbit_maximizer.Prelude.{
  ℕ, suc, ◌≤◌, ◌≡◌, refl, ap, Bool, true, false, if-case, if◌then◌else◌, arith,
}
use rabbit_maximizer.Interval.{
  Service, new_service, tick_guard, begin_tick, bootstrap_tick, settle, arm, fire, stop, Step,
  bootstrapped, settled, armed, fired, stopping, Reaches, here, then_step,
}

module _ (ready : ℕ → ℕ → Bool) where
  -- As many calls run as the promise stands for.
  abbrev pub IsCounted : Service → Type 0
  IsCounted s = s.running ≡ (if s.has_tick_promise then 1 else 0)

  begin_tick-IsCounted : (now : ℕ) (s : Service) → IsCounted s → IsCounted (begin_tick ready now s)
  unfolding begin_tick tick_guard
  begin_tick-IsCounted now s h =
      if-case IsCounted (tick_guard ready now s) _ s (λ e. ground (arith, h, e)) (λ e. h)

  Step-IsCounted : {s t : Service} → Step ready s t → IsCounted s → IsCounted t
  unfolding bootstrap_tick settle arm fire stop
  Step-IsCounted (bootstrapped now s) h =
      if-case IsCounted s.has_tick_promise s _ (λ e. h) (λ e. begin_tick-IsCounted now s h)
  Step-IsCounted (settled retry_after s) h =
      if-case IsCounted s.has_tick_promise _ s (λ e. ground (arith, h, e)) (λ e. h)
  Step-IsCounted (armed s) h = h
  Step-IsCounted (fired now s) h =
      if-case IsCounted s.has_interval _ s (λ e. begin_tick-IsCounted now s h) (λ e. h)
  Step-IsCounted (stopping s) h = h

  Reaches-IsCounted : {s t : Service} → Reaches ready s t → IsCounted s → IsCounted t
  Reaches-IsCounted here h = h
  Reaches-IsCounted (then_step path step) h = Step-IsCounted step (Reaches-IsCounted path h)

  -- Whatever the steps of a new service and their order, one call of executeTick at most is
  -- running.
  pub Reaches-one_tick : (s : Service) → Reaches ready new_service s → s.running ≤ 1
  Reaches-one_tick s path = ground (arith, Reaches-IsCounted path refl)

  abbrev IsQuiet : Service → Service → Type 0
  IsQuiet s t = (t.stopped ≡ true) × (t.started ≡ s.started)

  begin_tick-IsQuiet : (now : ℕ) (s t : Service) → IsQuiet s t → IsQuiet s (begin_tick ready now t)
  unfolding begin_tick tick_guard
  begin_tick-IsQuiet now s t h =
      if-case (IsQuiet s) (tick_guard ready now t) _ t (λ e. absurd (ground (arith, h.0, e)))
        (λ e. h)

  Step-IsQuiet : (s : Service) {t u : Service} → Step ready t u → IsQuiet s t → IsQuiet s u
  unfolding bootstrap_tick settle arm fire stop
  Step-IsQuiet s (bootstrapped now t) h =
      if-case (IsQuiet s) t.has_tick_promise t _ (λ e. h) (λ e. begin_tick-IsQuiet now s t h)
  Step-IsQuiet s (settled retry_after t) h =
      if-case (IsQuiet s) t.has_tick_promise _ t (λ e. h) (λ e. h)
  Step-IsQuiet s (armed t) h = h
  Step-IsQuiet s (fired now t) h =
      if-case (IsQuiet s) t.has_interval _ t (λ e. begin_tick-IsQuiet now s t h) (λ e. h)
  Step-IsQuiet s (stopping t) h = (refl, h.1)

  Reaches-IsQuiet : (s : Service) {t u : Service} → Reaches ready t u → IsQuiet s t → IsQuiet s u
  Reaches-IsQuiet s here h = h
  Reaches-IsQuiet s (then_step path step) h = Step-IsQuiet s step (Reaches-IsQuiet s path h)

  -- After a stop, no sequence of steps starts another tick.
  pub Reaches-stopped : (s t : Service) → Reaches ready (stop ready s) t → t.started ≡ s.started
  unfolding stop
  Reaches-stopped s t path = (Reaches-IsQuiet s path (refl, refl)).1

  -- No tick is in flight, and the interval may start one.
  abbrev IsIdle : ℕ → Service → Type 0
  IsIdle started t =
      (t.stopped ≡ false)
      × (t.has_interval ≡ true)
      × (t.has_tick_promise ≡ false)
      × (t.running ≡ 0)
      × (t.started ≡ started)

  settle-IsIdle :
      (retry_after : ℕ) (s : Service)
      → IsCounted s
      → s.stopped ≡ false
      → s.has_interval ≡ true
      → IsIdle s.started (settle ready retry_after s)
  unfolding settle
  settle-IsIdle retry_after s c a b =
      if-case (IsIdle s.started) s.has_tick_promise _ s
        (λ e. (a, b, refl, ground (arith, c, e), refl)) (λ e. (a, b, e, ground (arith, c, e), refl))

  fire-IsIdle :
      (now started : ℕ) (t : Service)
      → IsIdle started t
      → ready now t.rate_limit_retry_after ≡ true
      → ((fire ready now t).started ≡ suc started) × ((fire ready now t).running ≡ 1)
  unfolding fire begin_tick tick_guard
  fire-IsIdle now started t (a, b, c, d, e) r =
      if-case (λ u. (u.started ≡ suc started) × (u.running ≡ 1)) t.has_interval _ t
        (λ i.
          if-case (λ u. (u.started ≡ suc started) × (u.running ≡ 1)) (tick_guard ready now t) _ t
            (λ g. (ap suc e, ap suc d)) (λ g. absurd (ground (arith, a, c, r, g))))
        (λ i. absurd (ground (arith, b, i)))

  -- In every state that a new service reaches, with its interval set and not stopped, the first
  -- firing after the tick in flight has settled, however it did, starts a tick, which is then
  -- the only one running, where the subclass is ready at that time.
  pub fire-settle :
      (now retry_after : ℕ) (s : Service)
      → Reaches ready new_service s
      → s.stopped ≡ false
      → s.has_interval ≡ true
      → ready now (settle ready retry_after s).rate_limit_retry_after ≡ true
      → ((fire ready now (settle ready retry_after s)).started ≡ suc s.started)
        × ((fire ready now (settle ready retry_after s)).running ≡ 1)
  fire-settle now retry_after s path a b r =
      fire-IsIdle now s.started (settle ready retry_after s)
        (settle-IsIdle retry_after s (Reaches-IsCounted path refl) a b) r
