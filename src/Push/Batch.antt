-- ===== src/Push/Batch.antt =====
-- `runMutationWaves` of apps/backend/src/sync/push/delta.service.ts with `runBounded` of
-- sync/bounded.ts, and the results of `buildResult`. The mutations of a wave are taken in its order;
-- what others, and the other workers of the wave, commit around one of them is `before` its preflight
-- and `rival` before its transaction. `none` is a request that throws: a lost race that stays open, or
-- a wave that is a hole of the array.
pub mod Replies
pub mod Runs
pub mod Levels
pub mod Unique
pub mod Answers
pub mod Cascade
pub mod Parents
mod Tests
use ayphen_retail_pos.Common.{
  ℕ, Bool, true, false, not, Option, none, some, List, [], ◌∷◌, ◌==◌, if◌then◌else◌, filter, member,
}
use ayphen_retail_pos.Ledger.{MutationAction}
use ayphen_retail_pos.Push.{
  SyncMutation, MutationEnv, Handler, Wire, wire_applied, wire_conflict, wire_rejected,
  wire_retry_later, wire_duplicate, parent_cycle, ServerState,
}
use ayphen_retail_pos.Push.Process.{process_one}
use ayphen_retail_pos.Push.Sort.{topo_sort}
use ayphen_retail_pos.Push.Cycles.{find_parent_cycle_mutation_ids}
use ayphen_retail_pos.Push.Waves.{compute_waves}

-- `results`, the newest entry of an id first
abbrev pub Results : Type 0
Results = List (ℕ × Wire)

abbrev pub result_of : ℕ → Results → Option Wire
result_of a [] = none
result_of a ((b, w) ∷ rs) = if b == a then some w else result_of a rs

-- A result that fails the mutation's children.
unfoldable pub is_failed : Wire → Bool
is_failed (wire_applied _) = false
is_failed (wire_conflict _) = true
is_failed (wire_rejected _) = true
is_failed (wire_retry_later _) = false
is_failed (wire_duplicate (wire_rejected _)) = true
is_failed (wire_duplicate _) = false

-- `if (failed && guuid) env.failedGuuids.add(guuid)`
unfoldable pub add_failed : Bool → SyncMutation → List ℕ → List ℕ
add_failed failed m gs = elim failed [
  | false ↦ gs
  | true ↦ elim m.payload_guuid [ none ↦ gs | some g ↦ g ∷ gs ]
]

-- `results` and `env.failedGuuids`
pub record Progress : Type 0 where
  pub results : Results
  pub failed : List ℕ

-- The rejection of the mutations on a cycle.
unfoldable pub reject_cyclic : List ℕ → List SyncMutation → Progress → Progress
reject_cyclic cyclic [] p = p
reject_cyclic cyclic (m ∷ ms) p = elim (member m.mutation_id cyclic) [
  | false ↦ reject_cyclic cyclic ms p
  | true ↦ reject_cyclic cyclic ms (record {
    results = (m.mutation_id, wire_rejected parent_cycle) ∷ p.results;
    failed = add_failed true m p.failed;
  })
]

-- The first mutation of each id.
unfoldable pub dedupe : List ℕ → List SyncMutation → List SyncMutation
dedupe seen [] = []
dedupe seen (m ∷ ms) =
    if member m.mutation_id seen then dedupe seen ms else m ∷ dedupe (m.mutation_id ∷ seen) ms

-- `wave.forEach`, over the wave with its results
unfoldable pub record_results : List (SyncMutation × Wire) → Progress → Progress
record_results [] p = p
record_results ((m, w) ∷ rs) p = record_results rs (record {
  results = (m.mutation_id, w) ∷ p.results;
  failed = add_failed (is_failed w) m p.failed;
})

abbrev pub with_failed : MutationEnv → List ℕ → MutationEnv
with_failed env failed = record env { failed_guuids = failed }

-- What commits around a mutation, besides its own run.
pub record Others (D : Type 0) : Type 0 where
  pub before : SyncMutation → ServerState D → ServerState D
  pub rival : SyncMutation → ServerState D → ServerState D

abbrev pub nothing_run : MutationEnv → Progress
nothing_run env = record { results = []; failed = env.failed_guuids }

-- The mutations to run, without those on a cycle, sorted and each id once.
unfoldable pub to_run : List ℕ → List SyncMutation → Option (List SyncMutation)
to_run cyclic batch =
    elim (topo_sort (filter (λ (m : SyncMutation). not (member m.mutation_id cyclic)) batch)) [
      | none ↦ none
      | some sorted ↦ some (dedupe [] sorted)
    ]

module _ {D : Type 0} (handlers : ℕ → Option (Handler D))
    (was_crud_authorized_at : ℕ → ℕ → ℕ → MutationAction → ℕ → Bool) (others : Others D) where
  -- `processOne` of a mutation among the others.
  abbrev pub process_among :
      SyncMutation → MutationEnv → ServerState D → Option Wire × ServerState D
  process_among m env s =
      process_one handlers was_crud_authorized_at m env (others.rival m) (others.before m s)

  -- `runBounded(wave, WAVE_CONCURRENCY, …)`
  unfoldable pub run_wave :
      MutationEnv
      → List SyncMutation
      → ServerState D
      → Option (List (SyncMutation × Wire)) × ServerState D
  run_wave env [] s = (some [], s)
  run_wave env (m ∷ ms) s =
      let (reply, s₁) = process_among m env s in
      elim reply [
        | none ↦ (none, s₁)
        | some w ↦
            (let (rest, s₂) = run_wave env ms s₁ in
              (elim rest [ none ↦ none | some rs ↦ some ((m, w) ∷ rs) ], s₂))
      ]

  -- `for (const wave of computeWaves(unique))`
  unfoldable pub run_waves :
      MutationEnv
      → List (Option (List SyncMutation))
      → Progress
      → ServerState D
      → Option Progress × ServerState D
  run_waves env [] p s = (some p, s)
  run_waves env (none ∷ ws) p s = (none, s)
  run_waves env (some wave ∷ ws) p s =
      let (replies, s₁) = run_wave (with_failed env p.failed) wave s in
      elim replies [ none ↦ (none, s₁) | some rs ↦ run_waves env ws (record_results rs p) s₁ ]

  -- `runMutationWaves`
  unfoldable pub run_mutation_waves :
      List SyncMutation → MutationEnv → ServerState D → Option Progress × ServerState D
  run_mutation_waves batch env s = elim (find_parent_cycle_mutation_ids batch) [
    | none ↦ (none, s)
    | some cyclic ↦ elim (to_run cyclic batch) [
      | none ↦ (none, s)
      | some unique ↦
          run_waves env (compute_waves unique) (reject_cyclic cyclic batch (nothing_run env)) s
    ]
  ]

-- `body.mutations.map((m) => results.get(m.mutation_id)!)`
unfoldable pub mutation_results : List SyncMutation → Results → List (Option Wire)
mutation_results [] rs = []
mutation_results (m ∷ ms) rs = result_of m.mutation_id rs ∷ mutation_results ms rs
