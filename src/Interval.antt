-- ===== src/Interval.antt =====
-- IntervalService (src/IntervalService.ts), the lifecycle of the scheduler and the detectors, with
-- tickGuard of PollDetector (src/detectorPoll.ts). The steps of the event loop come in any order.
pub mod OneTick
mod Examples
use rabbit_maximizer.Prelude.{
  ℕ, zero, suc, ◌+◌, ◌-◌, ◌≡◌, Bool, true, false, not, ◌&&◌, leb, if◌then◌else◌,
}

-- The fields of the service. Beside them, `running` counts the calls of executeTick that have not
-- settled, and `started` those that were ever made; the code keeps neither.
pub record Service : Type 0 where
  pub stopped : Bool
  pub has_tick_promise : Bool
  pub has_interval : Bool
  pub rate_limit_retry_after : ℕ
  pub running : ℕ
  pub started : ℕ

abbrev pub new_service : Service
new_service = record {
  stopped = false;
  has_tick_promise = false;
  has_interval = false;
  rate_limit_retry_after = 0;
  running = 0;
  started = 0;
}

-- What a subclass adds to tickGuard, at a time and with its `rateLimitRetryAfter`.
abbrev pub always_ready : ℕ → ℕ → Bool
always_ready now retry_after = true

abbrev pub is_past_retry : ℕ → ℕ → Bool
is_past_retry now retry_after = leb retry_after now

module _ (ready : ℕ → ℕ → Bool) where
  unfoldable pub tick_guard : ℕ → Service → Bool
  tick_guard now s = not s.stopped && not s.has_tick_promise && ready now s.rate_limit_retry_after

  -- `tick` up to its await.
  unfoldable pub begin_tick : ℕ → Service → Service
  unfolding tick_guard
  begin_tick now s =
      if tick_guard now s
      then record s { has_tick_promise = true; running = suc s.running; started = suc s.started }
      else s

  -- A tick in flight is awaited, and no second one is started.
  unfoldable pub bootstrap_tick : ℕ → Service → Service
  unfolding begin_tick
  bootstrap_tick now s = if s.has_tick_promise then s else begin_tick now s

  -- The rest of `tick`: the promise settles, one way or the other, with the date that executeTick
  -- left, and `finally` clears it.
  unfoldable pub settle : ℕ → Service → Service
  settle retry_after s =
      if s.has_tick_promise
      then record s {
        has_tick_promise = false;
        rate_limit_retry_after = retry_after;
        running = s.running - 1;
      }
      else s

  -- `setInterval`, when the first tick of `start` has settled.
  unfoldable pub arm : Service → Service
  arm s = record s { has_interval = true }

  unfoldable pub fire : ℕ → Service → Service
  unfolding begin_tick
  fire now s = if s.has_interval then begin_tick now s else s

  unfoldable pub stop : Service → Service
  stop s = record s { stopped = true; has_interval = false }

  pub data Step : Service → Service → Type 0 where
    bootstrapped : (now : ℕ) (s : Service) → Step s (bootstrap_tick now s)
    settled : (retry_after : ℕ) (s : Service) → Step s (settle retry_after s)
    armed : (s : Service) → Step s (arm s)
    fired : (now : ℕ) (s : Service) → Step s (fire now s)
    stopping : (s : Service) → Step s (stop s)

  -- What any sequence of steps reaches from a service.
  pub data Reaches (s : Service) : Service → Type 0 where
    here : Reaches s s
    then_step : {t u : Service} → Reaches s t → Step t u → Reaches s u
