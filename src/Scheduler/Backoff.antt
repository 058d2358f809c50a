-- ===== src/Scheduler/Backoff.antt =====
-- The backoff of apps/mobile/src/core/sync/engine/sync-scheduler.ts against a server that stays
-- saturated.
use ayphen_retail_pos.Common.{
  ℕ, suc, ◌+◌, ◌-◌, ◌≤◌, ◌≡◌, refl, Bool, inl, inr, none, List, [], ◌∷◌, ltb, leb, if◌then◌else◌,
  is_some, arith, Bool-cases,
}
use ayphen_retail_pos.Scheduler.{
  max_consecutive_rate_limit_retries, SyncScheduler, rate_limited, begin, schedule_rate_limit_retry,
  settle, finish, fire_retry,
}

-- A run in progress and the retries that follow it, all rate limited: how many of them are retries.
unfoldable pub retry_chain : List ℕ → SyncScheduler → ℕ
retry_chain [] s = 0
retry_chain (retry_after ∷ rest) s =
    let t = finish (rate_limited retry_after) s in
    let more = retry_chain rest (fire_retry t) in if is_some t.retry_timer then suc more else 0

fire_retry-forgets :
    (t : SyncScheduler)
    → ((fire_retry t).retry_timer ≡ none)
      × ((fire_retry t).consecutive_rate_limits ≡ t.consecutive_rate_limits)
unfolding fire_retry begin
fire_retry-forgets t = elim (Bool-cases t.running) [
  | inl busy ↦ rw (busy, begin) (refl, refl)
  | inr idle ↦ rw (idle, begin) (refl, refl)
]

-- What a rate-limited end leaves, where no retry was armed.
finish-limited :
    (retry_after : ℕ) (s : SyncScheduler)
    → s.retry_timer ≡ none
    → let t = finish (rate_limited retry_after) s in
      (t.consecutive_rate_limits ≡ s.consecutive_rate_limits + 1)
      × (is_some t.retry_timer
          ≡ leb (s.consecutive_rate_limits + 1) max_consecutive_rate_limit_retries)
unfolding finish settle schedule_rate_limit_retry
finish-limited retry_after s unarmed =
    elim (Bool-cases (ltb max_consecutive_rate_limit_retries (s.consecutive_rate_limits + 1))) [
      | inl many ↦ rw many (refl, rw unarmed (ground (arith, many)))
      | inr few ↦ rw few (refl, ground (arith, few))
    ]

left_after :
    (c more : ℕ) (armed : Bool)
    → armed ≡ leb (c + 1) max_consecutive_rate_limit_retries
    → more ≤ max_consecutive_rate_limit_retries - (c + 1)
    → (if armed then suc more else 0) ≤ max_consecutive_rate_limit_retries - c
left_after c more armed h rest = ground (arith, h, rest)

retry_chain-left :
    (retries : List ℕ) (s : SyncScheduler)
    → s.retry_timer ≡ none
    → retry_chain retries s ≤ max_consecutive_rate_limit_retries - s.consecutive_rate_limits
unfolding retry_chain
retry_chain-left [] s unarmed = ground arith
retry_chain-left (retry_after ∷ rest) s unarmed =
    let t = finish (rate_limited retry_after) s in
    let (counted, armed) = finish-limited retry_after s unarmed in
    let (forgot, same) = fire_retry-forgets t in
    left_after s.consecutive_rate_limits _ _ armed
      (ground (arith, counted, same, retry_chain-left rest (fire_retry t) forgot))

-- However often the server answers 429, a run is followed by at most three retries before the scheduler
-- waits for its next heartbeat.
pub retry_chain-le :
    (retries : List ℕ) (s : SyncScheduler)
    → s.retry_timer ≡ none
    → retry_chain retries s ≤ max_consecutive_rate_limit_retries
retry_chain-le retries s unarmed = ground (arith, retry_chain-left retries s unarmed)
