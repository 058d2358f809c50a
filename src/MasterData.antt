-- ===== src/MasterData.antt =====
-- The write path of master data, apps/backend/src/sync/push/master-data.handler.ts, with the tombstones
-- of sync/repositories/tombstone.repository.ts and the trigger `sync_touch_row` of
-- apps/backend/drizzle. A table is its structural columns and the rest, `B`; what a handler configures
-- (schemas, columns, resolvers, guard) is the record `MasterDataHandlerConfig`, over a payload type
-- `P`. Both ways to delete a row are its flag `alive`.
pub mod Rows
pub mod Find
pub mod Versions
pub mod Update
pub mod Remove
mod Tests
unfoldable pub use Rows.*
use ayphen_retail_pos.Common.{
  ℕ, suc, ◌+◌, Bool, true, false, ◌&&◌, ◌||◌, not, Option, none, some, List, [], ◌∷◌, ◌++◌, ◌==◌,
  if◌then◌else◌, find, any,
}
use ayphen_retail_pos.Ledger.{MutationAction, create, update, delete, MutationContext}

module _ {P B : Type 0} (cfg : MasterDataHandlerConfig P B) where
  -- `resolveFks`: the columns, or `none` where a reference is unknown
  unfoldable pub resolve_fks :
      List FkResolver → Parsed P → MutationContext → Option (List (ℕ × Option ℕ))
  resolve_fks [] d ctx = some []
  resolve_fks (r ∷ rs) d ctx = elim (resolve_fks rs d ctx) [
    | none ↦ none
    | some rest ↦ elim (d.fk_of r.field) [
      | left_out ↦ some rest
      | null_value ↦ some ((r.column, none) ∷ rest)
      | value v ↦
          elim (find (λ (t : TargetRow). t.match_on == v && in_scope r.scope ctx.store_id t)
            r.targets) [ none ↦ none | some t ↦ some ((r.column, some t.id) ∷ rest) ]
    ]
  ]

  unfoldable pub write_fks : List (ℕ × Option ℕ) → B → B
  write_fks [] b = b
  write_fks ((column, id) ∷ fks) b = write_fks fks (cfg.write_fk column id b)

  -- `findByGuuid`
  abbrev pub find_by_guuid : ℕ → ℕ → List (Row B) → Option (Row B)
  find_by_guuid guuid store rows =
      find (λ (r : Row B). r.guuid == guuid && r.store_fk == store) rows

  -- `guard`
  unfoldable pub guard : ℕ → MutationContext → Tables B → Option ℕ
  guard guuid ctx t = elim (find_by_guuid guuid ctx.store_id t.rows) [
    | none ↦ none
    | some r ↦ cfg.guard_row r
  ]

  -- `create`
  unfoldable pub create_row : P → MutationContext → Tables B → Outcome B
  create_row payload ctx t = elim (cfg.create_schema payload) [
    | none ↦ rejected validation_failed
    | some d ↦ elim (resolve_fks cfg.fk_resolvers d ctx) [
      | none ↦ rejected validation_failed
      | some fks ↦
          (let row : Row B = record {
            id = t.next_id;
            guuid = d.guuid;
            store_fk = ctx.store_id;
            row_version = 1;
            alive = true;
            columns = write_fks fks (cfg.map_columns d.fields ctx create cfg.blank);
          } in
            if any (λ (r : Row B). r.guuid == d.guuid) t.rows
            then violates
            else applied d.guuid (some row)
                (record t { rows = t.rows ++ row ∷ []; next_id = suc t.next_id }))
    ]
  ]

  -- The `WHERE` of an update: the live row of the store, at the expected version.
  abbrev pub is_current : ℕ → ℕ → ℕ → Row B → Bool
  is_current guuid store version r =
      ((r.guuid == guuid && r.store_fk == store) && r.alive) && r.row_version == version

  abbrev pub patched : P → List (ℕ × Option ℕ) → MutationContext → ℕ → Row B → Row B
  patched fields fks ctx version r = record r {
    row_version = version + 1;
    columns = write_fks fks (cfg.map_columns fields ctx update r.columns);
  }

  unfoldable pub update_rows :
      ℕ → P → List (ℕ × Option ℕ) → MutationContext → ℕ → List (Row B) → List (Row B)
  update_rows guuid fields fks ctx version [] = []
  update_rows guuid fields fks ctx version (r ∷ rs) =
      (if is_current guuid ctx.store_id version r then patched fields fks ctx version r else r)
      ∷ update_rows guuid fields fks ctx version rs

  -- No row was updated: the live row tells why.
  unfoldable pub explain : ℕ → MutationContext → Tables B → Outcome B
  explain guuid ctx t = elim (find_by_guuid guuid ctx.store_id t.rows) [
    | none ↦ rejected not_found
    | some r ↦ if r.alive then conflict guuid r else rejected not_found
  ]

  -- `update`
  unfoldable pub update_row : P → ℕ → MutationContext → Tables B → Outcome B
  update_row payload version ctx t = elim (cfg.update_schema payload) [
    | none ↦ rejected validation_failed
    | some d ↦ elim (guard d.guuid ctx t) [
      | some code ↦ rejected (guarded code)
      | none ↦ elim (resolve_fks cfg.fk_resolvers d ctx) [
        | none ↦ rejected validation_failed
        | some fks ↦ elim (find (is_current d.guuid ctx.store_id version) t.rows) [
          | some r ↦
              applied d.guuid (some (patched d.fields fks ctx version r))
                (record t { rows = update_rows d.guuid d.fields fks ctx version t.rows })
          | none ↦ explain d.guuid ctx t
        ]
      ]
    ]
  ]

  -- The `WHERE` and the `SET` of a delete; the trigger bumps the version.
  abbrev pub is_live_row : ℕ → ℕ → Row B → Bool
  is_live_row guuid store r = (r.guuid == guuid && r.store_fk == store) && r.alive

  unfoldable pub delete_rows : ℕ → ℕ → List (Row B) → List (Row B)
  delete_rows guuid store [] = []
  delete_rows guuid store (r ∷ rs) =
      (if is_live_row guuid store r
        then record r { alive = false; row_version = r.row_version + 1 }
        else r)
      ∷ delete_rows guuid store rs

  abbrev pub tombstone_of : ℕ → MutationContext → ℕ → Row B → Tombstone
  tombstone_of guuid ctx now r = record {
    store_fk = ctx.store_id;
    entity_type = cfg.entity_type;
    entity_guuid = guuid;
    entity_id = r.id;
    deleted_by = ctx.user_id;
    deleted_at = now;
  }

  -- `remove`; a row that is deleted already gets its tombstone again.
  unfoldable pub remove_guuid : ℕ → MutationContext → ℕ → Tables B → Outcome B
  remove_guuid guuid ctx now t = elim (guard guuid ctx t) [
    | some code ↦ rejected (guarded code)
    | none ↦ elim (find (is_live_row guuid ctx.store_id) t.rows) [
      | some r ↦ applied guuid none (record t {
        rows = delete_rows guuid ctx.store_id t.rows;
        tombstones = write_tombstone (tombstone_of guuid ctx now r) t.tombstones;
      })
      | none ↦ elim (find_by_guuid guuid ctx.store_id t.rows) [
        | none ↦ rejected not_found
        | some r ↦
            applied guuid none (record t {
              tombstones = write_tombstone (tombstone_of guuid ctx now r) t.tombstones;
            })
      ]
    ]
  ]

  unfoldable pub remove_row : P → MutationContext → ℕ → Tables B → Outcome B
  remove_row payload ctx now t = elim (cfg.payload_guuid payload) [
    | none ↦ rejected validation_failed
    | some guuid ↦ remove_guuid guuid ctx now t
  ]

  -- `apply`
  unfoldable pub apply : MutationAction → P → Option ℕ → MutationContext → ℕ → Tables B → Outcome B
  apply create payload version ctx now t = create_row payload ctx t
  apply update payload version ctx now t = elim version [
    | none ↦ rejected sync_missing_row_version
    | some v ↦ update_row payload v ctx t
  ]
  apply delete payload version ctx now t = remove_row payload ctx now t
