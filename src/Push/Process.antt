-- ===== src/Push/Process.antt =====
-- One mutation through the preflight and its transaction: `processOne`, `checkGrace`,
-- `checkSubscription`, `execute` and `mapExecuteFailure` of
-- apps/backend/src/sync/push/delta.service.ts.
use ayphen_retail_pos.Common.{
  ℕ, ◌+◌, ◌-◌, Bool, false, ◌&&◌, not, Option, none, some, ltb, leb, if◌then◌else◌, is_some,
}
use ayphen_retail_pos.Ledger.{MutationAction}
use ayphen_retail_pos.Push.{
  SyncMutation, paused, running, SubscriptionSyncState, MutationEnv, PushCode,
  mutation_payload_too_large, server_error, parent_failed, unknown_mutation,
  sync_missing_row_version, permission_denied, subscription_not_found, subscription_suspended,
  subscription_reconciliation_required, subscription_lapsed_at_write, is_duplicate_entry, applied,
  conflict, rejected, violates, crashes, Handler, Wire, wire_applied, wire_conflict, wire_rejected,
  wire_retry_later, wire_duplicate, IdempotencyStatus, was_applied, was_rejected, was_conflict,
  ServerState, max_mutation_payload_bytes, poison_mutation_max_failures, future_skew_tolerance_ms,
  revocation_grace_window_ms, find_row, is_live, insert_row, remove_row, sanitize, failure_count,
  bump_failure, record_conflict, map_constraint_violation, effective_as_of, parent_has_failed,
  is_update, Gate, pass, deny, later,
}

-- The latest of the stamp, the session and the device's last sync.
unfoldable pub subscription_as_of : MutationEnv → ℕ → ℕ
subscription_as_of env as_of =
    let floored = if ltb env.session_created_at as_of then as_of else env.session_created_at in
    elim env.device_last_sync_at [ none ↦ floored | some t ↦ if ltb floored t then t else floored ]

-- `sub.reconciliationEffectiveAt && effectiveAsOf < sub.reconciliationEffectiveAt`
unfoldable pub before_reconciliation : SubscriptionSyncState → ℕ → Bool
before_reconciliation sub as_of = elim sub.reconciliation_effective_at [
  | none ↦ false
  | some t ↦ ltb as_of t
]

unfoldable pub lapsed_at_write : SubscriptionSyncState → MutationEnv → ℕ → Bool
lapsed_at_write sub env as_of = elim sub.access_valid_until [
  | none ↦ false
  | some t ↦ ltb t env.now && ltb t (subscription_as_of env as_of)
]

-- `checkSubscription`
unfoldable pub check_subscription : MutationEnv → ℕ → Gate
check_subscription env as_of = elim env.subscription [
  | none ↦ later subscription_not_found
  | some sub ↦ elim sub.status [
    | paused ↦ later subscription_suspended
    | running ↦
        if sub.reconciliation_pending && not (before_reconciliation sub as_of)
        then later subscription_reconciliation_required
        else if lapsed_at_write sub env as_of
        then deny subscription_lapsed_at_write
        else pass
  ]
]

module _ {D : Type 0} where
  -- `idempotency.record`
  abbrev pub record_idempotency :
      SyncMutation → MutationEnv → IdempotencyStatus → Wire → ServerState D → ServerState D
  record_idempotency m env status wire s = record s {
    idempotency = insert_row m env status wire s.idempotency;
  }

  -- `terminalReject`
  unfoldable pub terminal_reject :
      SyncMutation → MutationEnv → PushCode → ServerState D → Option Wire × ServerState D
  terminal_reject m env code s =
      (some (wire_rejected code), record_idempotency m env was_rejected (wire_rejected code) s)

  -- The cached result of another execution, after a lost race.
  unfoldable pub poll_race_winner :
      SyncMutation → MutationEnv → ServerState D → Option Wire × ServerState D
  poll_race_winner m env s = elim (find_row m env s.idempotency) [
    | none ↦ (none, s)
    | some r ↦ (some (wire_duplicate (sanitize r.status r.result)), s)
  ]

  -- The commit: the claim, with what the transaction wrote before it.
  unfoldable pub commit :
      SyncMutation
      → MutationEnv
      → IdempotencyStatus
      → Wire
      → ServerState D
      → ServerState D
      → Option Wire × ServerState D
  commit m env status wire written s =
      if is_some (find_row m env s.idempotency)
      then poll_race_winner m env s
      else (some wire, record_idempotency m env status wire written)

  -- A rejection by the handler: the winner of a race on the same mutation, if it was a duplicate entry.
  unfoldable pub map_rejected :
      SyncMutation → MutationEnv → PushCode → ServerState D → Option Wire × ServerState D
  map_rejected m env code s =
      let own = terminal_reject m env code s in
      if is_duplicate_entry code
      then elim (find_row m env s.idempotency) [
        | none ↦ own
        | some r ↦
            if is_live r env.now
            then (some (wire_duplicate (sanitize r.status r.result)), s)
            else own
      ]
      else own

  -- A crash: the poison counter, and an uncached rejection below its cap.
  unfoldable pub map_crash :
      SyncMutation → MutationEnv → ServerState D → Option Wire × ServerState D
  map_crash m env s =
      let bumped = record s { failures = bump_failure m env s.failures } in
      if leb poison_mutation_max_failures (failure_count m env bumped.failures)
      then terminal_reject m env server_error bumped
      else (some (wire_rejected server_error), bumped)

  -- `execute`, on the state that the transaction finds
  unfoldable pub execute :
      SyncMutation → Handler D → ℕ → MutationEnv → ServerState D → Option Wire × ServerState D
  execute m handler as_of env s = elim (handler.apply m env as_of s.business) [
    | applied row d ↦ commit m env was_applied (wire_applied row) (record s { business = d }) s
    | conflict guuid row d ↦
        commit m env was_conflict (wire_conflict row)
          (record s { business = d; conflicts = record_conflict m env guuid row s.conflicts }) s
    | rejected code ↦ map_rejected m env code s
    | violates pg ↦ elim (map_constraint_violation pg) [
      | some code ↦ map_rejected m env code s
      | none ↦ map_crash m env s
    ]
    | crashes ↦ map_crash m env s
  ]

  module _ (handlers : ℕ → Option (Handler D))
      (was_crud_authorized_at : ℕ → ℕ → ℕ → MutationAction → ℕ → Bool) where
    -- `checkGrace`: whether the write was authorized when it was queued.
    unfoldable pub check_grace : SyncMutation → Handler D → MutationEnv → Bool
    check_grace m handler env = elim m.client_modified_at [
      | none ↦ false
      | some t ↦
          if ltb (env.now + future_skew_tolerance_ms) t
          then false
          else if ltb t env.session_created_at
          then false
          else (let as_of = effective_as_of m env in
              let grace_as_of =
                if ltb env.now (as_of + revocation_grace_window_ms)
                then as_of
                else env.now - revocation_grace_window_ms in
              was_crud_authorized_at env.user_id env.store_id handler.permission_entity m.action
                grace_as_of)
    ]

    -- The gates after the parent cascade, in their order.
    unfoldable pub check_handler : SyncMutation → Handler D → MutationEnv → Gate
    check_handler m handler env =
        if is_update m.action && not (is_some m.expected_row_version)
        then deny sync_missing_row_version
        else if not (env.permissions handler.permission_entity m.action)
            && not (check_grace m handler env)
        then deny permission_denied
        else check_subscription env (effective_as_of m env)

    -- From the payload cap to the end, for a mutation with no live result.
    unfoldable pub decide :
        SyncMutation
        → MutationEnv
        → (ServerState D → ServerState D)
        → ServerState D
        → Option Wire × ServerState D
    decide m env rival s =
        if ltb max_mutation_payload_bytes m.payload_bytes
        then terminal_reject m env mutation_payload_too_large s
        else if leb poison_mutation_max_failures (failure_count m env s.failures)
        then terminal_reject m env server_error s
        else if parent_has_failed m env
        then terminal_reject m env parent_failed s
        else elim (handlers m.entity_type) [
          | none ↦ terminal_reject m env unknown_mutation s
          | some handler ↦ elim (check_handler m handler env) [
            | deny code ↦ terminal_reject m env code s
            | later code ↦ (some (wire_retry_later code), s)
            | pass ↦ execute m handler (effective_as_of m env) env (rival s)
          ]
        ]

    abbrev pub drop_row : SyncMutation → MutationEnv → ServerState D → ServerState D
    drop_row m env s = record s { idempotency = remove_row m env s.idempotency }

    -- `processOne`
    unfoldable pub process_one :
        SyncMutation
        → MutationEnv
        → (ServerState D → ServerState D)
        → ServerState D
        → Option Wire × ServerState D
    process_one m env rival s = elim (find_row m env s.idempotency) [
      | none ↦ decide m env rival s
      | some r ↦
          if is_live r env.now
          then (some (wire_duplicate (sanitize r.status r.result)), s)
          else decide m env rival (drop_row m env s)
    ]
