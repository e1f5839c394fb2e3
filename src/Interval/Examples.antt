-- ===== src/Interval/Examples.antt =====
-- A service that ticks once, settles, fires again and stops.
use rabbit_maximizer.Prelude.{◌≤◌, ◌≡◌, refl, suc}
use rabbit_maximizer.Interval.{
  Service, new_service, always_ready, is_past_retry, bootstrap_tick, settle, arm, fire, stop,
  bootstrapped, settled, armed, fired, Reaches, here, then_step,
}
use rabbit_maximizer.Interval.OneTick.{Reaches-one_tick, Reaches-stopped, fire-settle}

abbrev bootstrapped_once : Service
bootstrapped_once = bootstrap_tick always_ready 5 new_service

abbrev ticking : Service
ticking = fire always_ready 65 (arm always_ready (settle always_ready 0 bootstrapped_once))

ticking-path : Reaches always_ready new_service ticking
ticking-path =
    then_step
      (then_step
        (then_step (then_step here (bootstrapped 5 new_service)) (settled 0 bootstrapped_once))
        (armed (settle always_ready 0 bootstrapped_once)))
      (fired 65 (arm always_ready (settle always_ready 0 bootstrapped_once)))

Reaches-one_tick_example : ticking.running ≤ 1
Reaches-one_tick_example = Reaches-one_tick always_ready ticking ticking-path

Reaches-stopped_example :
    (fire always_ready 125 (stop always_ready ticking)).started ≡ ticking.started
Reaches-stopped_example =
    Reaches-stopped always_ready ticking (fire always_ready 125 (stop always_ready ticking))
      (then_step here (fired 125 (stop always_ready ticking)))

-- A poll detector that was told to wait until 100.
abbrev polled : Service
polled = arm is_past_retry (bootstrap_tick is_past_retry 5 new_service)

fire-settle_example :
    ((fire is_past_retry 125 (settle is_past_retry 100 polled)).started ≡ suc polled.started)
    × ((fire is_past_retry 125 (settle is_past_retry 100 polled)).running ≡ 1)
unfolding bootstrap_tick settle arm
fire-settle_example =
    fire-settle is_past_retry 125 100 polled
      (then_step (then_step here (bootstrapped 5 new_service))
        (armed (bootstrap_tick is_past_retry 5 new_service)))
      refl refl refl
