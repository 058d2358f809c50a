-- ===== src/Push/Sort.antt =====
-- `topoSort` of apps/backend/src/sync/push/delta.service.ts: parents before their children. A visit
-- runs on fuel and is `none` without it; the stack holds the mutations that are being visited.
pub mod Measure
pub mod Ends
pub mod Visit
use ayphen_retail_pos.Common.{
  ℕ, zero, suc, Bool, ◌||◌, Option, none, some, List, [], ◌∷◌, ◌++◌, map, if◌then◌else◌, length,
  member,
}
use ayphen_retail_pos.Push.{SyncMutation}
use ayphen_retail_pos.Push.Waves.{by_guuid}

abbrev pub id_of : SyncMutation → ℕ
id_of m = m.mutation_id

abbrev pub ids : List SyncMutation → List ℕ
ids ms = map id_of ms

-- `m.parent_guuid ? byGuuid.get(m.parent_guuid) : undefined`
unfoldable pub parent_of : List SyncMutation → SyncMutation → Option SyncMutation
parent_of batch m = elim m.parent_guuid [ none ↦ none | some g ↦ by_guuid batch g ]

-- `emitted` and `out`
pub record SortState : Type 0 where
  pub emitted : List ℕ
  pub out : List SyncMutation

abbrev pub nothing_sorted : SortState
nothing_sorted = record { emitted = []; out = [] }

unfoldable pub emit : SyncMutation → SortState → SortState
emit m st = record { emitted = m.mutation_id ∷ st.emitted; out = st.out ++ m ∷ [] }

abbrev pub is_visited : SyncMutation → List SyncMutation → SortState → Bool
is_visited m stack st = member m.mutation_id st.emitted || member m.mutation_id (ids stack)

-- The end of a visit: what the parent's visit leaves, with the mutation emitted.
abbrev pub emit_after : SyncMutation → Option SortState → Option SortState
emit_after m none = none
emit_after m (some st) = some (emit m st)

unfoldable pub visit :
    ℕ → List SyncMutation → SyncMutation → List SyncMutation → SortState → Option SortState
visit zero batch m stack st = none
visit (suc fuel) batch m stack st =
    let below = elim (parent_of batch m) as (λ _. Option SortState) [
      | none ↦ some st
      | some p ↦ visit fuel batch p (m ∷ stack) st
    ] in
    if is_visited m stack st then some st else emit_after m below

unfoldable pub visit_all : ℕ → List SyncMutation → List SyncMutation → SortState → Option SortState
visit_all fuel batch [] st = some st
visit_all fuel batch (m ∷ ms) st = elim (visit fuel batch m [] st) [
  | none ↦ none
  | some st' ↦ visit_all fuel batch ms st'
]

abbrev pub sorted_of : Option SortState → Option (List SyncMutation)
sorted_of none = none
sorted_of (some st) = some st.out

-- `topoSort`
unfoldable pub topo_sort : List SyncMutation → Option (List SyncMutation)
topo_sort batch = sorted_of (visit_all (suc (length batch)) batch batch nothing_sorted)
