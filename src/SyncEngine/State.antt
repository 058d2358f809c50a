-- ===== src/SyncEngine/State.antt =====
-- The state of a sync: repositories/sync-init-progress.repository.ts and sync-store-
-- meta.repository.ts of apps/mobile/src/core/sync, and the requests and answers of cold-start.ts
-- and delta-pull.ts.
use ayphen_retail_pos.Common.{
  ℕ, Bool, ◌&&◌, not, Option, none, some, List, [], ◌∷◌, map, ◌==◌, if◌then◌else◌, filter, find,
  member,
}
use ayphen_retail_pos.SyncDb.{WireRow, SyncDb}
use ayphen_retail_pos.Pull.{Changes}

pub record InitProgressRow : Type 0 where
  pub store_id : ℕ
  pub entity_type : ℕ
  pub cursor : Option ℕ
  pub in_progress : Bool

pub record StoreMetaRow : Type 0 where
  pub store_id : ℕ
  pub permissions_version : ℕ
  pub permissions : Option (List ℕ)

pub record EngineDb (T : Type 0) : Type 0 where
  pub sync : SyncDb T
  pub progress : List InitProgressRow
  pub meta : List StoreMetaRow

pub record InitialRequest : Type 0 where
  pub entity_type : Option ℕ
  pub cursor : Option ℕ

pub record InitialResult : Type 0 where
  pub entity_type : Option ℕ
  pub upserts : List WireRow
  pub page_cursor : Option ℕ
  pub has_more : Bool
  pub all_entities_complete : Bool
  pub next_delta_cursor : Option ℕ
  pub server_time : ℕ

pub record ChangesResult : Type 0 where
  pub changes : Changes
  pub sync_cursor : ℕ
  pub has_more : Bool
  pub server_time : ℕ

pub data Ending : Type 0 where
  finished failed unfinished : Ending

pub record Snapshot : Type 0 where
  pub permissions_version : ℕ
  pub permissions : Option (List ℕ)

abbrev pub max_batches_per_cycle : ℕ
max_batches_per_cycle = 20

-- `syncInitProgressRepository.savePage`
unfoldable pub save_page : ℕ → ℕ → Option ℕ → Bool → List InitProgressRow → List InitProgressRow
save_page store type cursor in_progress [] =
    record { store_id = store; entity_type = type; cursor = cursor; in_progress = in_progress } ∷ []
save_page store type cursor in_progress (r ∷ rs) =
    if r.store_id == store && r.entity_type == type
    then record r { cursor = cursor; in_progress = in_progress } ∷ rs
    else r ∷ save_page store type cursor in_progress rs

unfoldable pub reset_progress : ℕ → List InitProgressRow → List InitProgressRow
reset_progress store rows = filter (λ (r : InitProgressRow). not (r.store_id == store)) rows

unfoldable pub get_meta : ℕ → List StoreMetaRow → Option StoreMetaRow
get_meta store rows = find (λ (r : StoreMetaRow). r.store_id == store) rows

unfoldable pub set_permissions_version : ℕ → ℕ → List ℕ → List StoreMetaRow → List StoreMetaRow
set_permissions_version store version permissions [] =
    record { store_id = store; permissions_version = version; permissions = some permissions } ∷ []
set_permissions_version store version permissions (r ∷ rs) =
    if r.store_id == store
    then record r { permissions_version = version; permissions = some permissions } ∷ rs
    else r ∷ set_permissions_version store version permissions rs

-- The row that an interrupted cold start goes on with.
unfoldable pub resume_at : ℕ → List InitProgressRow → InitialRequest
resume_at store rows =
    elim (find (λ (r : InitProgressRow). r.store_id == store && r.in_progress) rows) [
      | none ↦ record { entity_type = none; cursor = none }
      | some r ↦ record { entity_type = some r.entity_type; cursor = r.cursor }
    ]

-- The entity types whose `view` grant was lost.
unfoldable pub revoked_types : List (ℕ × ℕ) → List ℕ → List ℕ → List ℕ
revoked_types entity_permission stored current =
    map (λ (e : ℕ × ℕ). e.0)
      (filter (λ (e : ℕ × ℕ). member e.1 stored && not (member e.1 current)) entity_permission)
