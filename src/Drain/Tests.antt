-- ===== src/Drain/Tests.antt =====
-- Tests of a drain on the registry of Pull/Fixture.antt.
use ayphen_retail_pos.Common.{
  subst, All, ◌≡◌, inl, refl, true, false, none, some, List, [], ◌∷◌, map, member,
}
use ayphen_retail_pos.SyncDb.{create, QueueRow, SyncDb, ok, throws}
use ayphen_retail_pos.MutationQueue.{EnqueueInput, enqueue, mark_applied}
use ayphen_retail_pos.Drain.{
  SyncMutationInput, with_queue, drain_mutation_queue_once, applied, retry_later, MutationResult,
  PushRequest, PushResponse, PushReply, answered, failed, http, DrainOutcome, returned, threw,
  swap_applied, reconcile_tables, reconcile_queue, reconcile_one_result, reconcile_all,
  reconcile_results, finish_drain, mutation_ids, push_batch, is_poison_push_error,
  reconcile_mutation_result,
}
use ayphen_retail_pos.Drain.Settling.{IsSettled}
use ayphen_retail_pos.Drain.Settled.{push_batch-IsSettled}
use ayphen_retail_pos.Drain.Fallback.{finish_drain-stops}
use ayphen_retail_pos.Drain.Held.{AnswersPushed}
use ayphen_retail_pos.Drain.Capped.{
  enqueues, drains, Reachable, empty, after, IsCapped, Reachable-IsCapped,
}
use ayphen_retail_pos.Drain.Transient.{kept, IsRequeued, push_batch-IsRequeued}
use ayphen_retail_pos.Pull.Fixture.{Table, registry, row_of, device}

abbrev good : MutationResult
good = record { mutation_id = 2; status = applied (some (row_of 11 8)) }

abbrev bad : MutationResult
bad = record { mutation_id = 1; status = applied (some (row_of 10 99)) }

abbrev late : MutationResult
late = record { mutation_id = 9; status = retry_later }

abbrev response : PushResponse
response = record {
  mutation_results = good ∷ late ∷ [];
  changes = [];
  sync_cursor = none;
  has_more = false;
  server_time = 70;
}

abbrev server : PushRequest → PushReply
server request = answered response

abbrev drained : DrainOutcome × SyncDb Table
drained = push_batch registry server 1 70 device.queue device

drained-returned : drained.0 ≡ returned 2 false
unfolding push_batch finish_drain reconcile_results reconcile_all reconcile_one_result
    reconcile_mutation_result reconcile_tables reconcile_queue swap_applied
drained-returned = refl

push_batch-IsSettled_example : IsSettled (λ x. member x (mutation_ids device.queue)) drained.1.queue
push_batch-IsSettled_example =
    push_batch-IsSettled registry 1 device.queue 70 server device {outcome = drained.0}
      {db' = drained.1} refl (inl (2, false, drained-returned))

abbrev halting : PushResponse
halting = record response { mutation_results = good ∷ bad ∷ late ∷ [] }

abbrev after_good : SyncDb Table
after_good = record device { tables = (11, 8) ∷ (10, 5) ∷ []; queue = mark_applied 2 device.queue }

good-done : reconcile_all registry 1 device.queue 70 (good ∷ []) device ≡ ok after_good
unfolding reconcile_all reconcile_one_result reconcile_mutation_result reconcile_tables
    reconcile_queue swap_applied
good-done = refl

bad-throws : reconcile_one_result registry 1 device.queue 70 bad after_good ≡ throws
unfolding reconcile_one_result reconcile_mutation_result reconcile_tables swap_applied
bad-throws = refl

finish_drain-stops_example :
    finish_drain registry 1 device.queue 70 (mutation_ids device.queue) halting device
    ≡ (threw, after_good)
finish_drain-stops_example =
    finish_drain-stops registry 1 device.queue 70 (good ∷ []) bad (late ∷ [])
      (mutation_ids device.queue) halting device after_good refl good-done bad-throws

server_error : is_poison_push_error (http 503) ≡ false
unfolding is_poison_push_error
server_error = refl

push_batch-IsRequeued_example :
    (q : List QueueRow) × (push_batch registry
        (λ request. failed (http 503) 4)
        1
        70
        device.queue
        device
      ≡ (threw, record device { queue = q }))
    × (map kept q ≡ map kept device.queue)
    × IsRequeued (mutation_ids device.queue) q
push_batch-IsRequeued_example =
    push_batch-IsRequeued registry 1 device.queue 70 (λ request. failed (http 503) 4) device
      (http 503) 4 refl server_error

poison : is_poison_push_error (http 422) ≡ true
unfolding is_poison_push_error
poison = refl

-- A device that enqueues a mutation and drains it against a server that drops its result.
abbrev input : EnqueueInput
input = record {
  mutation_id = 1;
  store_id = 1;
  entity_type = 1;
  entity_guuid = 10;
  action = create;
  payload = 0;
  expected_row_version = none;
  client_modified_at = 50;
  parent_guuid = none;
  priority = none;
  pre_image = none;
  now = 50;
}

abbrev dropping : PushRequest → PushReply
dropping request = answered (record response { mutation_results = [] })

abbrev results_of : PushReply → List MutationResult
results_of (answered r) = r.mutation_results
results_of (failed error message) = []

dropping-AnswersPushed : AnswersPushed dropping
dropping-AnswersPushed request got e =
    subst
      (λ (r : PushReply).
        All
          (λ (x : MutationResult).
            member x.mutation_id (map (λ (m : SyncMutationInput). m.mutation_id) request.mutations)
            ≡ true)
          (results_of r))
      e tt

abbrev enqueued : SyncDb Table
enqueued = with_queue (enqueue input) (record device { queue = [] })

abbrev failed_once : SyncDb Table
failed_once = (drain_mutation_queue_once registry dropping 1 60 enqueued).1

failed_once-Reachable : Reachable registry failed_once
failed_once-Reachable =
    after (after (empty refl) (enqueues input refl)) (drains dropping 1 60 dropping-AnswersPushed)

Reachable-IsCapped_example : All IsCapped failed_once.queue
Reachable-IsCapped_example = Reachable-IsCapped registry failed_once failed_once-Reachable
