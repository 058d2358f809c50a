-- ===== src/MasterData/Remove.antt =====
-- The soft delete of apps/backend/src/sync/push/master-data.handler.ts and its tombstone.
use ayphen_retail_pos.Common.{
  ℕ, ◌≡◌, refl, subst, Bool, false, ◌&&◌, inl, inr, Option, some, List, [], ◌∷◌, ◌==◌, ==_refl,
  find, All, arith, Bool-cases, Option-cases,
}
use ayphen_retail_pos.Ledger.{MutationContext}
use ayphen_retail_pos.MasterData.{
  RejectCode, validation_failed, not_found, guarded, Row, Parsed, MasterDataHandlerConfig,
  Tombstone, Tables, Outcome, applied, rejected, violates, conflict, write_tombstone, resolve_fks,
  find_by_guuid, guard, is_current, explain, update_row, is_live_row, delete_rows, tombstone_of,
  remove_guuid, remove_row,
}
use ayphen_retail_pos.MasterData.Find.{find-none, none-All, find-true, find-All}

-- The key of a tombstone.
abbrev pub is_of : ℕ → ℕ → Tombstone → Bool
is_of entity guuid x = x.entity_type == entity && x.entity_guuid == guuid

-- The tombstone that a list has for a key, with its time and its user.
pub record IsBuried (entity guuid user now : ℕ) (ts : List Tombstone) : Type 0 where
  pub tombstone : Tombstone
  pub found : find (is_of entity guuid) ts ≡ some tombstone
  pub at_now : tombstone.deleted_at ≡ now
  pub by_user : tombstone.deleted_by ≡ user

write_tombstone-IsBuried :
    (t : Tombstone) (ts : List Tombstone)
    → IsBuried t.entity_type t.entity_guuid t.deleted_by t.deleted_at (write_tombstone t ts)
unfolding write_tombstone
write_tombstone-IsBuried t [] = record {
  tombstone = t;
  found = rw (==_refl t.entity_type, ==_refl t.entity_guuid) refl;
  at_now = refl;
  by_user = refl;
}
write_tombstone-IsBuried t (x ∷ xs) = elim (Bool-cases (is_of t.entity_type t.entity_guuid x)) [
  | inl same ↦ rw same (record {
    tombstone = record x { deleted_at = t.deleted_at; deleted_by = t.deleted_by };
    found = rw same refl;
    at_now = refl;
    by_user = refl;
  })
  | inr other ↦
      let rest = write_tombstone-IsBuried t xs in
      rw other (record {
        tombstone = rest.tombstone;
        found = rw other (rest.found);
        at_now = rest.at_now;
        by_user = rest.by_user;
      })
]

module _ {P B : Type 0} (cfg : MasterDataHandlerConfig P B) where
  delete_rows-none_live :
      (guuid store : ℕ) (rows : List (Row B))
      → All (λ r. is_live_row cfg guuid store r ≡ false) (delete_rows cfg guuid store rows)
  unfolding delete_rows
  delete_rows-none_live guuid store [] = tt
  delete_rows-none_live guuid store (r ∷ rs) = elim (Bool-cases (is_live_row cfg guuid store r)) [
    | inl live ↦ rw live (ground arith, delete_rows-none_live guuid store rs)
    | inr dead ↦ rw dead (dead, delete_rows-none_live guuid store rs)
  ]

  -- What an applied delete leaves.
  pub record IsRemoved (guuid : ℕ) (ctx : MutationContext) (now : ℕ) (t' : Tables B) : Type 0 where
    pub none_live : All (λ r. is_live_row cfg guuid ctx.store_id r ≡ false) t'.rows
    pub buried : IsBuried cfg.entity_type guuid ctx.user_id now t'.tombstones

  abbrev Removes : ℕ → MutationContext → ℕ → Outcome B → Type 0
  Removes guuid ctx now (applied g r t') = IsRemoved guuid ctx now t'
  Removes guuid ctx now (conflict g r) = Unit
  Removes guuid ctx now (rejected code) = Unit
  Removes guuid ctx now violates = Unit

  remove_guuid-Removes :
      (guuid : ℕ) (ctx : MutationContext) (now : ℕ) (t : Tables B)
      → Removes guuid ctx now (remove_guuid cfg guuid ctx now t)
  unfolding remove_guuid
  remove_guuid-Removes guuid ctx now t = elim (Option-cases (guard cfg guuid ctx t)) [
    | inr (code, vetoed) ↦ rw (vetoed, remove_guuid) tt
    | inl allowed ↦
        rw (allowed, remove_guuid)
          (elim (Option-cases (find (is_live_row cfg guuid ctx.store_id) t.rows)) [
            | inr (r, live) ↦
                rw (live, remove_guuid)
                  (record {
                    none_live = delete_rows-none_live guuid ctx.store_id t.rows;
                    buried =
                        write_tombstone-IsBuried (tombstone_of cfg guuid ctx now r) t.tombstones;
                  })
            | inl dead ↦
                rw (dead, remove_guuid)
                  (elim (Option-cases (find_by_guuid cfg guuid ctx.store_id t.rows)) [
                    | inl missing ↦ rw (missing, remove_guuid) tt
                    | inr (r, found) ↦
                        rw (found, remove_guuid)
                          (record {
                            none_live = none-All (is_live_row cfg guuid ctx.store_id) t.rows dead;
                            buried =
                                write_tombstone-IsBuried (tombstone_of cfg guuid ctx now r)
                                  t.tombstones;
                          })
                  ])
          ])
  ]

  none_current :
      (guuid store version : ℕ) (rows : List (Row B))
      → All (λ r. is_live_row cfg guuid store r ≡ false) rows
      → All (λ r. is_current cfg guuid store version r ≡ false) rows
  none_current guuid store version [] h = tt
  none_current guuid store version (r ∷ rs) h =
      (rw h.0 refl, none_current guuid store version rs h.1)

  explain-rejected :
      (guuid : ℕ) (ctx : MutationContext) (t : Tables B)
      → All (λ r. is_live_row cfg guuid ctx.store_id r ≡ false) t.rows
      → explain cfg guuid ctx t ≡ rejected not_found
  unfolding explain
  explain-rejected guuid ctx t h =
      elim (Option-cases (find_by_guuid cfg guuid ctx.store_id t.rows)) [
        | inl missing ↦ rw (missing, explain) refl
        | inr (r, found) ↦
            let test = λ (x : Row B). x.guuid == guuid && x.store_fk == ctx.store_id in
            let same = find-true test t.rows r found in
            let dead =
              find-All test (λ (x : Row B). is_live_row cfg guuid ctx.store_id x ≡ false) t.rows r h
                found in
            let shut : r.alive ≡ false = rw same at dead in rw (found, explain) (rw shut refl)
      ]

  -- An update of a guuid with no live row is rejected, whatever version it names.
  update_row-rejected :
      (payload : P) (d : Parsed P) (version : ℕ) (ctx : MutationContext) (t : Tables B)
      → cfg.update_schema payload ≡ some d
      → All (λ r. is_live_row cfg d.guuid ctx.store_id r ≡ false) t.rows
      → (code : RejectCode) × (update_row cfg payload version ctx t ≡ rejected code)
  unfolding update_row
  update_row-rejected payload d version ctx t parsed h =
      rw (parsed, update_row)
        (elim (Option-cases (guard cfg d.guuid ctx t)) [
          | inr (code, vetoed) ↦ rw (vetoed, update_row) (guarded code, refl)
          | inl allowed ↦
              rw (allowed, update_row)
                (elim (Option-cases (resolve_fks cfg cfg.fk_resolvers d ctx)) [
                  | inl unknown ↦ rw (unknown, update_row) (validation_failed, refl)
                  | inr (fks, resolved) ↦
                      rw (resolved, update_row)
                        (rw
                          (
                            find-none (is_current cfg d.guuid ctx.store_id version) t.rows
                                (none_current d.guuid ctx.store_id version t.rows h),
                            update_row,
                          )
                          (not_found, explain-rejected d.guuid ctx t h))
                ])
        ])

  removed_lem :
      (guuid : ℕ) (ctx : MutationContext) (now : ℕ) (t : Tables B) {g : ℕ} {r : Option (Row B)}
      {t' : Tables B}
      → remove_guuid cfg guuid ctx now t ≡ applied g r t'
      → IsRemoved guuid ctx now t'
  removed_lem guuid ctx now t h =
      subst (Removes guuid ctx now) h (remove_guuid-Removes guuid ctx now t)

  -- A delete that is applied leaves no live row of the guuid in the store, and a tombstone of the
  -- entity and guuid with the time and the user of this delete, also where the row was deleted before.
  -- Then an update of the guuid in the store is rejected, whatever version it names.
  pub remove_row-IsRemoved :
      (payload : P) (guuid : ℕ) (ctx : MutationContext) (now : ℕ) (t : Tables B) {g : ℕ}
      {r : Option (Row B)} {t' : Tables B}
      → cfg.payload_guuid payload ≡ some guuid
      → remove_row cfg payload ctx now t ≡ applied g r t'
      → IsRemoved guuid ctx now t'
        × ((later : P) (d : Parsed P) (version : ℕ) (ctx' : MutationContext)
            → cfg.update_schema later ≡ some d
            → d.guuid ≡ guuid
            → ctx'.store_id ≡ ctx.store_id
            → (code : RejectCode) × (update_row cfg later version ctx' t' ≡ rejected code))
  unfolding remove_row
  remove_row-IsRemoved payload guuid ctx now t {t' = t'} named h =
      let removed = removed_lem guuid ctx now t (rw (named, remove_row) at h) in
      (
        removed,
        λ later d version ctx' parsed same same_store.
            update_row-rejected later d version ctx' t' parsed
              (rw (same, same_store) (removed.none_live)),
      )
