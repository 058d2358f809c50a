-- ===== src/Scheduler.antt =====
-- The policy of the sync engine: apps/mobile/src/core/sync/engine/sync-scheduler.ts. The methods are
-- split at their awaits: `begin` is `runExclusive` up to the engine's call, `finish` the rest, when the
-- call has settled. `openStoreOnce` calls the engine outside of it: `open_once` starts such a call and
-- `opened` ends it. `engine_calls` counts the calls of `runExclusive` in progress and `open_calls` those
-- of `openStoreOnce`; the code keeps no such counts.
pub mod Exclusive
pub mod Backoff
mod Tests
use ayphen_retail_pos.Common.{
  ℕ, ◌+◌, ◌-◌, ◌*◌, Bool, true, false, Option, none, some, ltb, leb, ◌≡◌, if◌then◌else◌, is_some,
}

abbrev pub max_consecutive_rate_limit_retries : ℕ
max_consecutive_rate_limit_retries = 3

abbrev pub max_rate_limit_retry_delay_ms : ℕ
max_rate_limit_retry_delay_ms = 2 * 60000

-- `retry_timer` is the delay that the armed timer was set with.
pub record SyncScheduler : Type 0 where
  pub timer : Bool
  pub retry_timer : Option ℕ
  pub running : Bool
  pub consecutive_rate_limits : ℕ
  pub engine_calls : ℕ
  pub open_calls : ℕ

-- How a call of the engine settles.
pub data EngineOutcome : Type 0 where
  completed failed : EngineOutcome
  rate_limited : ℕ → EngineOutcome

abbrev pub initial : SyncScheduler
initial = record {
  timer = false;
  retry_timer = none;
  running = false;
  consecutive_rate_limits = 0;
  engine_calls = 0;
  open_calls = 0;
}

unfoldable pub begin : SyncScheduler → SyncScheduler
begin s = if s.running then s else record s { running = true; engine_calls = s.engine_calls + 1 }

-- `scheduleRateLimitRetry`
unfoldable pub schedule_rate_limit_retry : ℕ → SyncScheduler → SyncScheduler
schedule_rate_limit_retry retry_after s =
    let count = s.consecutive_rate_limits + 1 in
    if ltb max_consecutive_rate_limit_retries count
    then record s { consecutive_rate_limits = count }
    else record s {
      consecutive_rate_limits = count;
      retry_timer = some (
          if leb retry_after max_rate_limit_retry_delay_ms
          then retry_after
          else max_rate_limit_retry_delay_ms);
    }

unfoldable pub settle : EngineOutcome → SyncScheduler → SyncScheduler
settle completed s = record s { consecutive_rate_limits = 0 }
settle failed s = record s { consecutive_rate_limits = 0 }
settle (rate_limited retry_after) s = schedule_rate_limit_retry retry_after s

-- The `catch` and the `finally` of `runExclusive`.
unfoldable pub finish : EngineOutcome → SyncScheduler → SyncScheduler
finish outcome s = record (settle outcome s) { running = false; engine_calls = s.engine_calls - 1 }

-- The retry timer fires: it forgets itself and ticks.
unfoldable pub fire_retry : SyncScheduler → SyncScheduler
fire_retry s = begin (record s { retry_timer = none })

-- The end of `start`.
unfoldable pub arm_timer : SyncScheduler → SyncScheduler
arm_timer s = record (begin s) { timer = true }

unfoldable pub stop : SyncScheduler → SyncScheduler
stop s = record s { timer = false; retry_timer = none; consecutive_rate_limits = 0 }

-- `openStoreOnce`, which reads and sets no field, and the end of its call.
unfoldable pub open_once : SyncScheduler → SyncScheduler
open_once s = record s { open_calls = s.open_calls + 1 }

unfoldable pub opened : SyncScheduler → SyncScheduler
opened s = record s { open_calls = s.open_calls - 1 }

-- What can happen to a scheduler: a start, a heartbeat, a reconnect or a background event begins a run;
-- a run in progress settles; the armed retry fires; the interval is set; it is stopped; the
-- store is opened outside of the guard, and that call settles.
pub data Step : SyncScheduler → SyncScheduler → Type 0 where
  begins : {s : SyncScheduler} → Step s (begin s)
  settles :
      {s : SyncScheduler} (outcome : EngineOutcome)
      → ltb 0 s.engine_calls ≡ true
      → Step s (finish outcome s)
  retries : {s : SyncScheduler} → is_some s.retry_timer ≡ true → Step s (fire_retry s)
  arms : {s : SyncScheduler} → Step s (arm_timer s)
  stops : {s : SyncScheduler} → Step s (stop s)
  opens_once : {s : SyncScheduler} → Step s (open_once s)
  has_opened : {s : SyncScheduler} → ltb 0 s.open_calls ≡ true → Step s (opened s)

pub data Reachable : SyncScheduler → Type 0 where
  at_start : Reachable initial
  after : {s t : SyncScheduler} → Reachable s → Step s t → Reachable t
