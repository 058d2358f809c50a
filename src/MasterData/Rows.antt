-- ===== src/MasterData/Rows.antt =====
-- The rows, tombstones, configuration and outcomes of apps/backend/src/sync/push/master-
-- data.handler.ts and sync/repositories/tombstone.repository.ts.
use ayphen_retail_pos.Common.{
  ℕ, Bool, true, false, ◌&&◌, Option, none, some, List, [], ◌∷◌, ◌==◌, if◌then◌else◌,
}
use ayphen_retail_pos.Ledger.{MutationAction, MutationContext}

pub data RejectCode : Type 0 where
  validation_failed not_found sync_missing_row_version : RejectCode
  guarded : ℕ → RejectCode

pub record Row (B : Type 0) : Type 0 where
  pub id : ℕ
  pub guuid : ℕ
  pub store_fk : ℕ
  pub row_version : ℕ
  pub alive : Bool
  pub columns : B

-- A field that refers to another table: left out, null, or a value to match.
pub data FkValue : Type 0 where
  left_out null_value : FkValue
  value : ℕ → FkValue

pub data FkScope : Type 0 where
  store_scope global_or_store global_scope : FkScope

pub record TargetRow : Type 0 where
  pub id : ℕ
  pub match_on : ℕ
  pub store_fk : Option ℕ

pub record FkResolver : Type 0 where
  pub field : ℕ
  pub column : ℕ
  pub scope : FkScope
  pub targets : List TargetRow

-- A payload that its schema has parsed.
pub record Parsed (P : Type 0) : Type 0 where
  pub guuid : ℕ
  pub fk_of : ℕ → FkValue
  pub fields : P

pub record MasterDataHandlerConfig (P B : Type 0) : Type 0 where
  pub entity_type : ℕ
  pub create_schema : P → Option (Parsed P)
  pub update_schema : P → Option (Parsed P)
  pub payload_guuid : P → Option ℕ
  pub blank : B
  pub map_columns : P → MutationContext → MutationAction → B → B
  pub write_fk : ℕ → Option ℕ → B → B
  pub fk_resolvers : List FkResolver
  pub guard_row : Row B → Option ℕ

pub record Tombstone : Type 0 where
  pub store_fk : ℕ
  pub entity_type : ℕ
  pub entity_guuid : ℕ
  pub entity_id : ℕ
  pub deleted_by : ℕ
  pub deleted_at : ℕ

pub record Tables (B : Type 0) : Type 0 where
  pub rows : List (Row B)
  pub tombstones : List Tombstone
  pub next_id : ℕ

-- `HandlerOutcome`: only `applied` commits, and `violates` is the unique key of the guuid.
pub data Outcome (B : Type 0) : Type 0 where
  applied : ℕ → Option (Row B) → Tables B → Outcome B
  conflict : ℕ → Row B → Outcome B
  rejected : RejectCode → Outcome B
  violates : Outcome B

-- `INSERT … ON CONFLICT (entity_type, entity_guuid) DO UPDATE`
unfoldable pub write_tombstone : Tombstone → List Tombstone → List Tombstone
write_tombstone t [] = t ∷ []
write_tombstone t (x ∷ xs) =
    if x.entity_type == t.entity_type && x.entity_guuid == t.entity_guuid
    then record x { deleted_at = t.deleted_at; deleted_by = t.deleted_by } ∷ xs
    else x ∷ write_tombstone t xs

-- The scope of a reference.
unfoldable pub in_scope : FkScope → ℕ → TargetRow → Bool
in_scope store_scope store t = elim t.store_fk [ none ↦ false | some s ↦ s == store ]
in_scope global_or_store store t = elim t.store_fk [ none ↦ true | some s ↦ s == store ]
in_scope global_scope store t = true
