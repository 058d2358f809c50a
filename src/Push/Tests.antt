-- ===== src/Push/Tests.antt =====
-- Tests of the push side: the business data is a list of numbers, and the one handler adds its payload
-- unless it is 7, which it rejects.
use ayphen_retail_pos.Common.{
  ℕ, ◌+◌, ◌<◌, ◌≤◌, ◌≡◌, ◌≢◌, inr, refl, subst, Bool, true, false, Option, none, some, List, [],
  ◌∷◌, leb, ◌==◌, if◌then◌else◌, filter, arith, some_injective,
}
use ayphen_retail_pos.Ledger.{MutationAction, create}
use ayphen_retail_pos.Push.{
  SyncMutation, running, SubscriptionSyncState, MutationEnv, handler_code, applied, rejected,
  Handler, Wire, wire_applied, wire_duplicate, ServerState, insert_row, failure_count,
  effective_as_of, parent_has_failed, pass, future_skew_tolerance_ms, revocation_grace_window_ms,
}
use ayphen_retail_pos.Push.Process.{
  subscription_as_of, before_reconciliation, lapsed_at_write, check_subscription, commit, execute,
  check_grace, check_handler, decide, drop_row, process_one,
}
use ayphen_retail_pos.Push.Replay.{process_one-replays}
use ayphen_retail_pos.Push.Atomic.{IsAtomic, process_one-IsAtomic}
use ayphen_retail_pos.Push.Waves.{
  by_guuid, parent_bound, guuid_bound, wave_number, assign, assign_all, wave_in, push_at, place_all,
  compute_waves,
}
use ayphen_retail_pos.Push.Waves.Order.{Waits, wave_in-lt}
use ayphen_retail_pos.Push.Waves.Placed.{members, members-compute_waves}
use ayphen_retail_pos.Push.Gates.{
  check_subscription-ne-pass, IsInTime, check_subscription-IsInTime, check_grace-window,
}

abbrev adder : Handler (List ℕ)
adder = record {
  permission_entity = 1;
  apply = λ m env as_of d.
      if m.payload == 7 then rejected (handler_code 1) else applied m.payload (m.payload ∷ d);
}

abbrev handlers : ℕ → Option (Handler (List ℕ))
handlers type = some adder

-- Everybody could write until minute 100.
abbrev was_authorized : ℕ → ℕ → ℕ → MutationAction → ℕ → Bool
was_authorized user store entity action at = leb at 6000000

abbrev sale : SyncMutation
sale = record {
  mutation_id = 1;
  entity_type = 1;
  action = create;
  payload = 5;
  payload_guuid = some 50;
  payload_bytes = 200;
  expected_row_version = none;
  client_modified_at = some 5900000;
  parent_guuid = none;
}

abbrev plan : SubscriptionSyncState
plan = record {
  status = running;
  access_valid_until = some 5950000;
  reconciliation_pending = false;
  reconciliation_effective_at = none;
}

abbrev env : MutationEnv
env = record {
  now = 6000000;
  store_id = 1;
  user_id = 2;
  device_id = 3;
  session_created_at = 1000;
  device_last_sync_at = some 5800000;
  permissions = λ entity action. true;
  subscription = some plan;
  failed_guuids = [];
}

abbrev start : ServerState (List ℕ)
start = record { business = []; idempotency = []; failures = []; conflicts = [] }

abbrev after : Option Wire × ServerState (List ℕ)
after = process_one handlers was_authorized sale env (λ u. u) start

first_run : after.0 ≡ some (wire_applied 5)
unfolding process_one decide check_handler check_subscription subscription_as_of lapsed_at_write
    before_reconciliation effective_as_of parent_has_failed failure_count execute commit insert_row
first_run = refl

written_once : after.1.business ≡ 5 ∷ []
unfolding process_one decide check_handler check_subscription subscription_as_of lapsed_at_write
    before_reconciliation effective_as_of parent_has_failed failure_count execute commit insert_row
written_once = refl

-- More than eleven days later.
abbrev later_env : MutationEnv
later_env = record env { now = 1006000000 }

applied_pair : after ≡ (some (wire_applied 5), after.1)
unfolding process_one decide check_handler check_subscription subscription_as_of lapsed_at_write
    before_reconciliation effective_as_of parent_has_failed failure_count execute commit insert_row
applied_pair = refl

soon : 1006000000 < 6000000 + 3888000000
soon = ground arith

process_one-replays_example :
    process_one handlers was_authorized sale later_env (λ u. u) after.1
    ≡ (some (wire_duplicate (wire_applied 5)), after.1)
process_one-replays_example =
    process_one-replays sale env handlers was_authorized later_env (λ u. u) start applied_pair refl
      refl refl soon

-- Another request applies the same mutation meanwhile.
abbrev rival : ServerState (List ℕ) → ServerState (List ℕ)
rival s = (process_one handlers was_authorized sale env (λ u. u) s).1

process_one-IsAtomic_example :
    IsAtomic sale env start
      (rival (drop_row handlers was_authorized sale env start))
      (process_one handlers was_authorized sale env rival start)
process_one-IsAtomic_example = process_one-IsAtomic sale env handlers was_authorized rival start

lapsed : 5950000 < 6000000
lapsed = ground arith

synced : 5950000 < 5960000
synced = ground arith

check_subscription-ne-pass_example :
    check_subscription (record env { device_last_sync_at = some 5960000 }) 10 ≢ pass
check_subscription-ne-pass_example =
    check_subscription-ne-pass (record env { device_last_sync_at = some 5960000 }) plan 5950000 10
      refl refl lapsed (inr (5960000, refl, synced))

queued : 5900000 ≤ 5950000
queued = ground arith

old_session : 1000 ≤ 5950000
old_session = ground arith

last_sync : (last : ℕ) → some 5800000 ≡ some last → last ≤ 5950000
last_sync last e = subst (λ n. n ≤ 5950000) (some_injective e) (ground arith)

check_subscription-IsInTime_example : IsInTime plan (check_subscription env 5900000)
check_subscription-IsInTime_example =
    check_subscription-IsInTime env plan 5950000 5900000 refl refl queued old_session last_sync

granted : check_grace handlers was_authorized sale adder env ≡ true
unfolding check_grace effective_as_of
granted = refl

check_grace-window_example :
    (t : ℕ) × (at : ℕ) × (sale.client_modified_at ≡ some t)
    × (env.session_created_at ≤ t)
    × (t ≤ env.now + future_skew_tolerance_ms)
    × (at ≤ env.now)
    × (env.now ≤ at + revocation_grace_window_ms)
    × (was_authorized env.user_id env.store_id adder.permission_entity sale.action at ≡ true)
check_grace-window_example = check_grace-window handlers was_authorized sale adder env granted

-- A parent, its child, and a second write of the child's entity.
abbrev parent : SyncMutation
parent = sale

abbrev child : SyncMutation
child = record sale { mutation_id = 2; payload_guuid = some 51; parent_guuid = some 50 }

abbrev again : SyncMutation
again = record sale { mutation_id = 3; payload_guuid = some 51 }

abbrev batch : List SyncMutation
batch = parent ∷ child ∷ again ∷ []

three_waves : compute_waves batch ≡ some (parent ∷ []) ∷ some (child ∷ []) ∷ some (again ∷ []) ∷ []
unfolding compute_waves place_all push_at wave_in assign_all assign wave_number parent_bound
    guuid_bound by_guuid
three_waves = refl

child-Waits : Waits batch parent child
unfolding by_guuid
child-Waits = inr (50, refl, refl)

wave_in-lt_example : wave_in batch parent < wave_in batch child
wave_in-lt_example =
    wave_in-lt batch [] [] (again ∷ []) parent child refl
      ((refl, (refl, tt)), ((refl, tt), (tt, tt))) child-Waits

members-compute_waves_example :
    members 1 (compute_waves batch) ≡ filter (λ m. wave_in batch m == 1) batch
members-compute_waves_example = members-compute_waves batch 1
