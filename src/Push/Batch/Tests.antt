-- ===== src/Push/Batch/Tests.antt =====
-- Tests of a batch: an order that its handler rejects, its payment, which stands before it in the
-- batch, and two mutations that are each other's parent, with one that hangs off them.
use ayphen_retail_pos.Common.{
  ℕ, ◌≡◌, ◌↔◌, refl, inl, inr, Bool, true, false, Option, none, some, List, [], ◌∷◌, ◌==◌,
  if◌then◌else◌, is_some, member, All,
}
use ayphen_retail_pos.Ledger.{MutationAction, create}
use ayphen_retail_pos.Push.{
  SyncMutation, running, SubscriptionSyncState, MutationEnv, handler_code, parent_cycle,
  parent_failed, applied, rejected, Handler, Wire, wire_rejected, ServerState, insert_row,
  failure_count, effective_as_of, parent_has_failed,
}
use ayphen_retail_pos.Push.Process.{
  subscription_as_of, before_reconciliation, lapsed_at_write, check_subscription, terminal_reject,
  map_rejected, commit, execute, check_handler, decide, process_one,
}
use ayphen_retail_pos.Push.Sort.{ids, parent_of, emit, visit, visit_all, topo_sort}
use ayphen_retail_pos.Push.Sort.Measure.{In}
use ayphen_retail_pos.Push.Sort.Visit.{IsOrdered}
use ayphen_retail_pos.Push.Sort.Ends.{topo_sort-ends}
use ayphen_retail_pos.Push.Cycles.{capture, walk, find_cycles, find_parent_cycle_mutation_ids}
use ayphen_retail_pos.Push.Cycles.Chains.{IsCyclic}
use ayphen_retail_pos.Push.Cycles.Exact.{find_parent_cycle_mutation_ids-exact}
use ayphen_retail_pos.Push.Waves.{
  by_guuid, parent_bound, guuid_bound, wave_number, assign, assign_all, wave_in, push_at, place_all,
  compute_waves,
}
use ayphen_retail_pos.Push.Waves.Order.{IsDistinct}
use ayphen_retail_pos.Push.Batch.{
  result_of, is_failed, add_failed, Progress, reject_cyclic, dedupe, record_results, Others,
  run_wave, run_waves, to_run, run_mutation_waves, mutation_results,
}
use ayphen_retail_pos.Push.Batch.Replies.{is_applied}
use ayphen_retail_pos.Push.Batch.Answers.{run_mutation_waves-answers}
use ayphen_retail_pos.Push.Batch.Parents.{
  IsFailed, run_mutation_waves-cascades, run_mutation_waves-blocks,
}

-- The handler adds its payload to the business data, unless it is 7, which it rejects.
abbrev adder : Handler (List ℕ)
adder = record {
  permission_entity = 1;
  apply = λ m env as_of d.
      if m.payload == 7 then rejected (handler_code 1) else applied m.payload (m.payload ∷ d);
}

abbrev handlers : ℕ → Option (Handler (List ℕ))
handlers type = some adder

abbrev was_authorized : ℕ → ℕ → ℕ → MutationAction → ℕ → Bool
was_authorized user store entity action at = true

abbrev write : ℕ → ℕ → ℕ → Option ℕ → SyncMutation
write id value guuid parent = record {
  mutation_id = id;
  entity_type = 1;
  action = create;
  payload = value;
  payload_guuid = some guuid;
  payload_bytes = 200;
  expected_row_version = none;
  client_modified_at = some 5900000;
  parent_guuid = parent;
}

abbrev plan : SubscriptionSyncState
plan = record {
  status = running;
  access_valid_until = none;
  reconciliation_pending = false;
  reconciliation_effective_at = none;
}

abbrev env : MutationEnv
env = record {
  now = 6000000;
  store_id = 1;
  user_id = 2;
  device_id = 3;
  session_created_at = 1000;
  device_last_sync_at = none;
  permissions = λ entity action. true;
  subscription = some plan;
  failed_guuids = [];
}

abbrev start : ServerState (List ℕ)
start = record { business = []; idempotency = []; failures = []; conflicts = [] }

abbrev alone : Others (List ℕ)
alone = record { before = λ m s. s; rival = λ m s. s }

abbrev order : SyncMutation
order = write 1 7 50 none

abbrev payment : SyncMutation
payment = write 2 5 60 (some 50)

abbrev left_loop : SyncMutation
left_loop = write 3 5 70 (some 80)

abbrev right_loop : SyncMutation
right_loop = write 4 5 80 (some 70)

abbrev hanging : SyncMutation
hanging = write 5 5 90 (some 70)

abbrev batch : List SyncMutation
batch = payment ∷ order ∷ left_loop ∷ right_loop ∷ hanging ∷ []

abbrev on_cycle : List ℕ
on_cycle = 3 ∷ 4 ∷ []

abbrev running_order : List SyncMutation
running_order = order ∷ payment ∷ hanging ∷ []

found : find_parent_cycle_mutation_ids batch ≡ some on_cycle
unfolding find_parent_cycle_mutation_ids find_cycles walk capture parent_of by_guuid
found = refl

sorted : to_run on_cycle batch ≡ some running_order
unfolding to_run topo_sort visit_all visit emit dedupe parent_of by_guuid
sorted = refl

abbrev answered : Progress
answered = record {
  results =
      (2, wire_rejected parent_failed)
      ∷ (5, wire_rejected parent_failed)
      ∷ (1, wire_rejected (handler_code 1))
      ∷ (4, wire_rejected parent_cycle)
      ∷ (3, wire_rejected parent_cycle)
      ∷ [];
  failed = 60 ∷ 90 ∷ 50 ∷ 80 ∷ 70 ∷ [];
}

returns : (run_mutation_waves handlers was_authorized alone batch env start).0 ≡ some answered
unfolding run_mutation_waves find_parent_cycle_mutation_ids find_cycles walk capture parent_of
    by_guuid to_run topo_sort visit_all visit emit dedupe compute_waves place_all push_at wave_in
    assign_all assign wave_number parent_bound guuid_bound reject_cyclic add_failed run_waves
    run_wave record_results is_failed process_one decide check_handler check_subscription
    subscription_as_of lapsed_at_write terminal_reject map_rejected before_reconciliation
    effective_as_of parent_has_failed failure_count execute commit insert_row
returns = refl

batch-IsDistinct : IsDistinct batch
batch-IsDistinct = (
  (refl, (refl, (refl, (refl, tt)))),
  ((refl, (refl, (refl, tt))), ((refl, (refl, tt)), ((refl, tt), (tt, tt)))),
)

topo_sort-ends_example :
    (out : List SyncMutation) × (topo_sort batch ≡ some out)
    × ((m : SyncMutation) → In m out → In m batch)
    × ((m : SyncMutation) → In m batch → member m.mutation_id (ids out) ≡ true)
    × IsOrdered batch [] out
topo_sort-ends_example = topo_sort-ends batch

find_parent_cycle_mutation_ids-exact_example :
    (ids_found : List ℕ) × (find_parent_cycle_mutation_ids batch ≡ some ids_found)
    × ((m : SyncMutation) → In m batch → (member m.mutation_id ids_found ≡ true) ↔ IsCyclic batch m)
find_parent_cycle_mutation_ids-exact_example =
    find_parent_cycle_mutation_ids-exact batch batch-IsDistinct

run_mutation_waves-answers_example :
    All (λ (o : Option Wire). is_some o ≡ true) (mutation_results batch answered.results)
run_mutation_waves-answers_example =
    run_mutation_waves-answers handlers was_authorized alone env batch start answered returns

first_of_guuid : by_guuid running_order 50 ≡ some order
unfolding by_guuid
first_of_guuid = refl

run_mutation_waves-cascades_example :
    (parent child : Wire) × (result_of 1 answered.results ≡ some parent)
    × (result_of 2 answered.results ≡ some child)
    × (IsFailed parent → is_applied child ≡ false)
run_mutation_waves-cascades_example =
    run_mutation_waves-cascades handlers was_authorized alone env batch on_cycle running_order found
      sorted start answered returns [] [] (hanging ∷ []) order payment 50 refl refl refl
      first_of_guuid

run_mutation_waves-blocks_example :
    (w : Wire) × (result_of 5 answered.results ≡ some w) × (is_applied w ≡ false)
run_mutation_waves-blocks_example =
    run_mutation_waves-blocks handlers was_authorized alone env batch on_cycle running_order found
      sorted start answered returns left_loop hanging 70 (inr (inr (inl refl))) refl refl
      (inr (inr (inl refl))) refl

-- A second edit of each of two mutations that are each other's parent: no parent of the second edits
-- stands before them, and the first wave is a hole.
abbrev edits : List SyncMutation
edits = left_loop ∷ right_loop ∷ write 6 5 70 (some 80) ∷ write 7 5 80 (some 70) ∷ []

hole_throws : run_mutation_waves handlers was_authorized alone edits env start ≡ (none, start)
unfolding run_mutation_waves find_parent_cycle_mutation_ids find_cycles walk capture parent_of
    by_guuid to_run topo_sort visit_all visit emit dedupe compute_waves place_all push_at wave_in
    assign_all assign wave_number parent_bound guuid_bound reject_cyclic add_failed run_waves
hole_throws = refl
