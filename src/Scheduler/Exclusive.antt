-- ===== src/Scheduler/Exclusive.antt =====
-- The running guard and the retry timer of apps/mobile/src/core/sync/engine/sync-scheduler.ts.
use ayphen_retail_pos.Common.{
  ℕ, ◌+◌, ◌≤◌, ◌≡◌, refl, Bool, true, false, inl, inr, none, some, ltb, leb, if◌then◌else◌, arith,
  Bool-cases, some_injective,
}
use ayphen_retail_pos.Scheduler.{
  max_rate_limit_retry_delay_ms, max_consecutive_rate_limit_retries, SyncScheduler, EngineOutcome,
  completed, failed, rate_limited, begin, schedule_rate_limit_retry, settle, finish, fire_retry,
  arm_timer, stop, Step, begins, settles, retries, arms, stops, opens_once, has_opened, open_once,
  opened, Reachable, at_start, after,
}

-- The flag says whether a call of the guard is in progress, and there is at most one; an armed retry
-- waits no longer than the cap.
pub record IsExclusive (s : SyncScheduler) : Type 0 where
  pub counted : s.engine_calls ≡ (if s.running then 1 else 0)
  pub capped : (delay : ℕ) → s.retry_timer ≡ some delay → delay ≤ max_rate_limit_retry_delay_ms

begin-IsExclusive : (s : SyncScheduler) → IsExclusive s → IsExclusive (begin s)
unfolding begin
begin-IsExclusive s h = guarded s.running refl
  where
    guarded :
        (busy : Bool)
        → s.running ≡ busy
        → IsExclusive
            (if busy then s else record s { running = true; engine_calls = s.engine_calls + 1 })
    guarded true e = h
    guarded false e = record { counted = ground (arith, h.counted, e); capped = h.capped }

capped-delay :
    (retry_after delay : ℕ)
    → some (
        if leb retry_after max_rate_limit_retry_delay_ms
        then retry_after
        else max_rate_limit_retry_delay_ms)
      ≡ some delay
    → delay ≤ max_rate_limit_retry_delay_ms
capped-delay retry_after delay e = ground (arith, some_injective e)

settle-calls :
    (outcome : EngineOutcome) (s : SyncScheduler)
    → IsExclusive s
    → (delay : ℕ) → (settle outcome s).retry_timer ≡ some delay
    → delay ≤ max_rate_limit_retry_delay_ms
unfolding settle schedule_rate_limit_retry
settle-calls completed s h delay e = h.capped delay e
settle-calls failed s h delay e = h.capped delay e
settle-calls (rate_limited retry_after) s h delay e =
    elim (Bool-cases (ltb max_consecutive_rate_limit_retries (s.consecutive_rate_limits + 1))) [
      | inl many ↦ h.capped delay (rw many at e)
      | inr few ↦ capped-delay retry_after delay (rw few at e)
    ]

finish-IsExclusive :
    (outcome : EngineOutcome) (s : SyncScheduler) → IsExclusive s → IsExclusive (finish outcome s)
unfolding finish
finish-IsExclusive outcome s h = record {
  counted = elim (Bool-cases s.running) [
    | inl busy ↦ ground (arith, h.counted, busy)
    | inr idle ↦ ground (arith, h.counted, idle)
  ];
  capped = settle-calls outcome s h;
}

stop-IsExclusive : (s : SyncScheduler) → IsExclusive s → IsExclusive (stop s)
unfolding stop
stop-IsExclusive s h = record { counted = h.counted; capped = λ delay e. cc e }

Step-IsExclusive : {s t : SyncScheduler} → Step s t → IsExclusive s → IsExclusive t
unfolding fire_retry arm_timer open_once opened
Step-IsExclusive {s} begins h = begin-IsExclusive s h
Step-IsExclusive {s} (settles outcome busy) h = finish-IsExclusive outcome s h
Step-IsExclusive {s} (retries armed) h =
    begin-IsExclusive (record s { retry_timer = none })
      (record { counted = h.counted; capped = λ delay e. cc e })
Step-IsExclusive {s} arms h =
    let k = begin-IsExclusive s h in record { counted = k.counted; capped = k.capped }
Step-IsExclusive {s} stops h = stop-IsExclusive s h
Step-IsExclusive {s} opens_once h = record { counted = h.counted; capped = h.capped }
Step-IsExclusive {s} (has_opened busy) h = record { counted = h.counted; capped = h.capped }

-- In every state that a scheduler can reach, at most one of the runs that take the guard is in progress,
-- a cycle, a push or an opening by `start`, exactly when the flag says so; an opening by
-- `openStoreOnce`, which does not take it, may be in progress beside. An armed retry waits two minutes
-- at most.
pub Reachable-IsExclusive : {s : SyncScheduler} → Reachable s → IsExclusive s
Reachable-IsExclusive at_start = record { counted = refl; capped = λ delay e. cc e }
Reachable-IsExclusive (after r step) = Step-IsExclusive step (Reachable-IsExclusive r)
