-- ===== src/Push/Cycles.antt =====
-- `findParentCycleMutationIds` of apps/backend/src/sync/push/delta.service.ts: the mutations whose
-- chain of parents comes back to them. A walk runs on fuel and is `none` without it.
pub mod Chains
pub mod Loops
pub mod Walks
pub mod Exact
use ayphen_retail_pos.Common.{
  ℕ, zero, suc, Option, none, some, List, [], ◌∷◌, ◌++◌, ◌==◌, if◌then◌else◌, length, member,
}
use ayphen_retail_pos.Push.{SyncMutation}
use ayphen_retail_pos.Push.Sort.{ids, parent_of}

-- From the revisited node to the path's tail.
unfoldable pub capture : ℕ → List SyncMutation → List SyncMutation
capture a [] = []
capture a (n ∷ ns) = if n.mutation_id == a then n ∷ ns else capture a ns

-- The path of a walk, and the part of it that is on a cycle.
pub record Walk : Type 0 where
  pub path : List SyncMutation
  pub cycle : List SyncMutation

-- The `while` loop, at the mutation `cur`.
unfoldable pub walk :
    ℕ → List SyncMutation → List ℕ → List SyncMutation → Option SyncMutation → Option Walk
walk zero batch settled path cur = none
walk (suc fuel) batch settled path none = some (record { path = path; cycle = [] })
walk (suc fuel) batch settled path (some m) =
    let further = walk fuel batch settled (path ++ m ∷ []) (parent_of batch m) in
    if member m.mutation_id settled
    then some (record { path = path; cycle = [] })
    else if member m.mutation_id (ids path)
    then some (record { path = path; cycle = capture m.mutation_id path })
    else further

-- `settled` and `inCycle`
pub record CycleState : Type 0 where
  pub settled : List ℕ
  pub in_cycle : List ℕ

abbrev pub settle : CycleState → Walk → CycleState
settle st w = record { settled = ids w.path ++ st.settled; in_cycle = ids w.cycle ++ st.in_cycle }

unfoldable pub find_cycles :
    ℕ → List SyncMutation → List SyncMutation → CycleState → Option CycleState
find_cycles fuel batch [] st = some st
find_cycles fuel batch (start ∷ rest) st =
    let walked = elim (walk fuel batch st.settled [] (some start)) as (λ _. Option CycleState) [
      | none ↦ none
      | some w ↦ find_cycles fuel batch rest (settle st w)
    ] in
    let skipped = find_cycles fuel batch rest st in
    if member start.mutation_id st.settled then skipped else walked

abbrev pub nothing_settled : CycleState
nothing_settled = record { settled = []; in_cycle = [] }

abbrev pub cycle_ids : Option CycleState → Option (List ℕ)
cycle_ids none = none
cycle_ids (some st) = some st.in_cycle

-- `findParentCycleMutationIds`
unfoldable pub find_parent_cycle_mutation_ids : List SyncMutation → Option (List ℕ)
find_parent_cycle_mutation_ids batch =
    cycle_ids (find_cycles (suc (suc (length batch))) batch batch nothing_settled)
