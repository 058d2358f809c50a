-- ===== src/Pull.antt =====
-- The pull side of apps/mobile/src/core/sync/engine: apply-changes.ts, apply-with-isolation.ts,
-- retry-failed-applies.ts and repositories/failed-applies.repository.ts. A transaction whose body
-- cannot throw is its body.
pub mod Isolation
pub mod Untouched
pub mod Shadow
pub mod Retry
pub mod Fixture
mod Tests
use ayphen_retail_pos.Common.{
  ℕ, suc, ◌+◌, Bool, true, false, ◌&&◌, not, Option, none, some, List, [], ◌∷◌, ◌++◌, map, ltb,
  ◌==◌, if◌then◌else◌, take, filter, member,
}
use mathlib.Core.List.{reverse}
use ayphen_retail_pos.SyncDb.{
  WireRow, Operation, upsert, remove, RowKey, by_guuid, by_id, unknown, FailedApply, SyncDb, Result,
  ok, throws, SyncApplier, ApplierLookup, set_cursor,
}
use ayphen_retail_pos.MutationQueue.{live_guuids}

pub record EntityChanges : Type 0 where
  pub upserts : List WireRow
  pub deletes : List ℕ

abbrev pub Changes : Type 0
Changes = List (ℕ × EntityChanges)

-- `changes[entityType]`
abbrev pub changes_of : ℕ → Changes → Option EntityChanges
changes_of type [] = none
changes_of type ((t, c) ∷ cs) = if t == type then some c else changes_of type cs

abbrev pub key_eq : RowKey → RowKey → Bool
key_eq (by_guuid a) (by_guuid b) = a == b
key_eq (by_id a) (by_id b) = a == b
key_eq unknown unknown = true
key_eq _ _ = false

abbrev pub row_key : WireRow → RowKey
row_key r = elim r.guuid [
  | some g ↦ by_guuid g
  | none ↦ elim r.id [ some i ↦ by_id i | none ↦ unknown ]
]

-- The conflict target (store, entity, guuid).
abbrev pub same_target : ℕ → ℕ → RowKey → FailedApply → Bool
same_target store type key f =
    f.store_id == store && f.entity_type == type && key_eq f.entity_guuid key

abbrev pub refresh : Operation → WireRow → ℕ → FailedApply → FailedApply
refresh op row now f = record f {
  operation = op;
  row = row;
  attempts = f.attempts + 1;
  last_attempt_at = now;
}

-- `INSERT … ON CONFLICT DO UPDATE` with the id to give to a new row
unfoldable pub upsert_failed :
    ℕ → ℕ → ℕ → RowKey → Operation → WireRow → ℕ → List FailedApply → List FailedApply
upsert_failed id store type key op row now [] =
    record {
      id = id;
      store_id = store;
      entity_type = type;
      entity_guuid = key;
      operation = op;
      row = row;
      attempts = 1;
      last_attempt_at = now;
    }
    ∷ []
upsert_failed id store type key op row now (f ∷ fs) =
    if same_target store type key f
    then refresh op row now f ∷ fs
    else f ∷ upsert_failed id store type key op row now fs

-- The placeholder `{ guuid }` of a delete that failed.
abbrev pub placeholder : ℕ → WireRow
placeholder g = record { guuid = some g; id = none; row_version = 0; content = 0 }

-- `typeof r.guuid !== 'string' || !shadowed.has(r.guuid)`
abbrev pub is_unshadowed : List ℕ → WireRow → Bool
is_unshadowed shadowed r = elim r.guuid [ none ↦ true | some g ↦ not (member g shadowed) ]

abbrev pub retry_poison_cap : ℕ
retry_poison_cap = 7

abbrev pub retry_batch_size : ℕ
retry_batch_size = 50

unfoldable pub list_retryable : ℕ → ℕ → ℕ → List FailedApply → List FailedApply
list_retryable store max_attempts limit fs =
    take limit (filter (λ (f : FailedApply). f.store_id == store && ltb f.attempts max_attempts) fs)

abbrev pub bump_attempt : ℕ → ℕ → List FailedApply → List FailedApply
bump_attempt id now [] = []
bump_attempt id now (f ∷ fs) =
    (if f.id == id then record f { attempts = f.attempts + 1; last_attempt_at = now } else f)
    ∷ bump_attempt id now fs

module _ {T : Type 0} where
  -- `failedAppliesRepository.record`
  unfoldable pub record_failed : ℕ → ℕ → RowKey → Operation → WireRow → ℕ → SyncDb T → SyncDb T
  record_failed store type key op row now db = record db {
    failed = upsert_failed db.next_failed_id store type key op row now db.failed;
    next_failed_id = suc db.next_failed_id;
  }

  -- One row at a time, a failing one to the dead-letter table.
  unfoldable pub upsert_one : ℕ → ℕ → SyncApplier T → WireRow → ℕ → SyncDb T → SyncDb T
  upsert_one store type applier row now db = elim (applier.upsert_all store (row ∷ []) db.tables) [
    | ok t ↦ record db { tables = t }
    | throws ↦ record_failed store type (row_key row) upsert row now db
  ]

  unfoldable pub upsert_each : ℕ → ℕ → SyncApplier T → List WireRow → ℕ → SyncDb T → SyncDb T
  upsert_each store type applier [] now db = db
  upsert_each store type applier (row ∷ rows) now db =
      upsert_each store type applier rows now (upsert_one store type applier row now db)

  unfoldable pub upsert_with_isolation :
      ℕ → ℕ → SyncApplier T → List WireRow → ℕ → SyncDb T → SyncDb T
  upsert_with_isolation store type applier [] now db = db
  upsert_with_isolation store type applier (row ∷ rows) now db =
      elim (applier.upsert_all store (row ∷ rows) db.tables) [
        | ok t ↦ record db { tables = t }
        | throws ↦ upsert_each store type applier (row ∷ rows) now db
      ]

  unfoldable pub delete_one : ℕ → ℕ → SyncApplier T → ℕ → ℕ → SyncDb T → SyncDb T
  delete_one store type applier g now db = elim (applier.apply_deletes store (g ∷ []) db.tables) [
    | ok t ↦ record db { tables = t }
    | throws ↦ record_failed store type (by_guuid g) remove (placeholder g) now db
  ]

  unfoldable pub delete_each : ℕ → ℕ → SyncApplier T → List ℕ → ℕ → SyncDb T → SyncDb T
  delete_each store type applier [] now db = db
  delete_each store type applier (g ∷ gs) now db =
      delete_each store type applier gs now (delete_one store type applier g now db)

  unfoldable pub delete_with_isolation : ℕ → ℕ → SyncApplier T → List ℕ → ℕ → SyncDb T → SyncDb T
  delete_with_isolation store type applier [] now db = db
  delete_with_isolation store type applier (g ∷ gs) now db =
      elim (applier.apply_deletes store (g ∷ gs) db.tables) [
        | ok t ↦ record db { tables = t }
        | throws ↦ delete_each store type applier (g ∷ gs) now db
      ]

  module _ (registry : ApplierLookup T) (store now : ℕ) (changes : Changes) where
    -- The two loops of `applyChangesPage` over the registration order.
    unfoldable pub apply_upserts : List ℕ → List ℕ → SyncDb T → SyncDb T
    apply_upserts shadowed [] db = db
    apply_upserts shadowed (type ∷ types) db =
        apply_upserts shadowed types (elim (changes_of type changes) [
          | none ↦ db
          | some c ↦ elim (registry.get type) [
            | none ↦ db
            | some applier ↦
                upsert_with_isolation store type applier (filter (is_unshadowed shadowed) c.upserts)
                  now db
          ]
        ])

    unfoldable pub apply_tombstones : List ℕ → SyncDb T → SyncDb T
    apply_tombstones [] db = db
    apply_tombstones (type ∷ types) db = apply_tombstones types (elim (changes_of type changes) [
      | none ↦ db
      | some c ↦ elim (registry.get type) [
        | none ↦ db
        | some applier ↦ delete_with_isolation store type applier c.deletes now db
      ]
    ])

    -- `applyChangesPage`: the rows and the cursor in one transaction
    unfoldable pub apply_changes_page : ℕ → SyncDb T → SyncDb T
    apply_changes_page token db =
        let shadowed = live_guuids store db.queue in
        let db₁ = apply_upserts shadowed registry.entity_types db in
        let db₂ = apply_tombstones (reverse registry.entity_types) db₁ in
        record db₂ { cursors = set_cursor store token db₂.cursors }

  unfoldable pub record_attempt : ℕ → ℕ → SyncDb T → SyncDb T
  record_attempt id now db = record db { failed = bump_attempt id now db.failed }

  unfoldable pub delete_by_id : ℕ → SyncDb T → SyncDb T
  delete_by_id id db = record db {
    failed = filter (λ (f : FailedApply). not (f.id == id)) db.failed;
  }

  -- The call that a dead letter stands for; a delete without a text guuid throws.
  unfoldable pub retry_apply : ℕ → SyncApplier T → FailedApply → T → Result T
  retry_apply store applier f t = elim f.operation [
    | upsert ↦ applier.upsert_all store (f.row ∷ []) t
    | remove ↦ elim (f.row.guuid) [
      | none ↦ throws
      | some g ↦ applier.apply_deletes store (g ∷ []) t
    ]
  ]

  unfoldable pub retry_row : ApplierLookup T → ℕ → ℕ → FailedApply → SyncDb T → SyncDb T
  retry_row registry store now f db = elim (registry.get f.entity_type) [
    | none ↦ db
    | some applier ↦ elim (retry_apply store applier f db.tables) [
      | ok t ↦ delete_by_id f.id (record db { tables = t })
      | throws ↦ record_attempt f.id now db
    ]
  ]

  unfoldable pub retry_rows : ApplierLookup T → ℕ → ℕ → List FailedApply → SyncDb T → SyncDb T
  retry_rows registry store now [] db = db
  retry_rows registry store now (f ∷ fs) db =
      retry_rows registry store now fs (retry_row registry store now f db)

  -- `retryFailedApplies`
  unfoldable pub retry_failed_applies : ApplierLookup T → ℕ → ℕ → SyncDb T → SyncDb T
  retry_failed_applies registry store now db =
      retry_rows registry store now
        (list_retryable store retry_poison_cap retry_batch_size db.failed) db
