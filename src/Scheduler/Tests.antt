-- ===== src/Scheduler/Tests.antt =====
-- Tests of the scheduler.
use ayphen_retail_pos.Common.{◌≤◌, ◌≡◌, refl, true, none, some, [], ◌∷◌, ltb}
use ayphen_retail_pos.Scheduler.{
  SyncScheduler, rate_limited, initial, begin, finish, stop, begins, settles, stops, opens_once,
  open_once, settle, schedule_rate_limit_retry, Reachable, at_start, after,
}
use ayphen_retail_pos.Scheduler.Exclusive.{IsExclusive, Reachable-IsExclusive}
use ayphen_retail_pos.Scheduler.Backoff.{retry_chain, retry_chain-le}

abbrev stopped : SyncScheduler
stopped = stop (begin initial)

in_progress : ltb 0 stopped.engine_calls ≡ true
unfolding stop begin
in_progress = refl

-- The store is opened beside a run, which ends rate limited after a stop.
late_retry : Reachable (open_once (finish (rate_limited 500) stopped))
late_retry =
    after (after (after (after at_start begins) stops) (settles (rate_limited 500) in_progress))
      opens_once

Reachable-IsExclusive_example : IsExclusive (open_once (finish (rate_limited 500) stopped))
Reachable-IsExclusive_example = Reachable-IsExclusive late_retry

-- A stopped scheduler arms the retry of the run that it did not end.
stopped-armed : (finish (rate_limited 500) stopped).retry_timer ≡ some 500
unfolding finish settle schedule_rate_limit_retry stop begin
stopped-armed = refl

unarmed : (begin initial).retry_timer ≡ none
unfolding begin
unarmed = refl

retry_chain-le_example : retry_chain (10 ∷ 20 ∷ 30 ∷ 40 ∷ 50 ∷ []) (begin initial) ≤ 3
retry_chain-le_example = retry_chain-le (10 ∷ 20 ∷ 30 ∷ 40 ∷ 50 ∷ []) (begin initial) unarmed
