-- ===== src/MasterData/Update.antt =====
-- The optimistic lock of apps/backend/src/sync/push/master-data.handler.ts.
use ayphen_retail_pos.Common.{
  ℕ, ◌+◌, ◌≤◌, ◌≡◌, sym, ap, subst, ◌∙◌, true, ◌&&◌, inl, inr, Option, some, List, [], ◌==◌, find,
  All, Bool-cases, Option-cases, some_injective,
}
use ayphen_retail_pos.Ledger.{MutationContext}
use ayphen_retail_pos.MasterData.{
  Row, Parsed, MasterDataHandlerConfig, Tables, Outcome, applied, conflict, rejected, violates,
  resolve_fks, find_by_guuid, guard, is_current, update_rows, explain, update_row,
}
use ayphen_retail_pos.MasterData.Find.{find-none, find-true, find-All}
use ayphen_retail_pos.MasterData.Versions.{IsUnique, IsAt, update_rows-IsAt, older-ne-current}

module _ {B : Type 0} where
  -- Not applied: rejected, or a conflict whose row is at the version.
  abbrev pub IsRefusedAt : ℕ → Outcome B → Type 0
  IsRefusedAt version (applied g r t) = ⊥
  IsRefusedAt version (conflict g r) = r.row_version ≡ version
  IsRefusedAt version (rejected code) = Unit
  IsRefusedAt version violates = ⊥

  rows_of : Outcome B → List (Row B) → List (Row B)
  rows_of (applied g r t) d = t.rows
  rows_of _ d = d

module _ {P B : Type 0} where
  -- What an applied update has passed and written.
  record Updated (cfg : MasterDataHandlerConfig P B) (payload : P) (version : ℕ)
      (ctx : MutationContext) (t t' : Tables B) : Type 0 where
    data_of : Parsed P
    fks : List (ℕ × Option ℕ)
    row : Row B
    parsed : cfg.update_schema payload ≡ some data_of
    found : find (is_current cfg data_of.guuid ctx.store_id version) t.rows ≡ some row
    rows_eq : t'.rows ≡ update_rows cfg data_of.guuid data_of.fields fks ctx version t.rows

  explain-ne-applied :
      (cfg : MasterDataHandlerConfig P B) (guuid : ℕ) (ctx : MutationContext) (t : Tables B) {g : ℕ}
      {r : Option (Row B)} {t' : Tables B}
      → explain cfg guuid ctx t ≡ applied g r t'
      → ⊥
  unfolding explain
  explain-ne-applied cfg guuid ctx t h =
      elim (Option-cases (find_by_guuid cfg guuid ctx.store_id t.rows)) [
        | inl missing ↦ cc (rw (missing, explain) at h)
        | inr (x, found) ↦ elim (Bool-cases x.alive) [
          | inl live ↦ cc (rw live at (rw (found, explain) at h))
          | inr dead ↦ cc (rw dead at (rw (found, explain) at h))
        ]
      ]

  update_row-Updated :
      (cfg : MasterDataHandlerConfig P B) (payload : P) (version : ℕ) (ctx : MutationContext)
      (t : Tables B) {g : ℕ} {r : Option (Row B)} {t' : Tables B}
      → update_row cfg payload version ctx t ≡ applied g r t'
      → Updated cfg payload version ctx t t'
  unfolding update_row rows_of
  update_row-Updated cfg payload version ctx t {t' = t'} h =
      elim (Option-cases (cfg.update_schema payload)) [
        | inl bad ↦ cc (rw (bad, update_row) at h)
        | inr (d, parsed) ↦ elim (Option-cases (guard cfg d.guuid ctx t)) [
          | inr (code, vetoed) ↦ cc (rw (vetoed, update_row) at (rw (parsed, update_row) at h))
          | inl allowed ↦ elim (Option-cases (resolve_fks cfg cfg.fk_resolvers d ctx)) [
            | inl unknown ↦ cc (
                rw (unknown, update_row) at
                  (rw (allowed, update_row) at (rw (parsed, update_row) at h)))
            | inr (fks, resolved) ↦
                elim (Option-cases (find (is_current cfg d.guuid ctx.store_id version) t.rows)) [
                  | inl stale ↦ absurd (
                      explain-ne-applied cfg d.guuid ctx t (
                        rw (stale, update_row) at
                          (rw (resolved, update_row) at
                            (rw (allowed, update_row) at (rw (parsed, update_row) at h)))))
                  | inr (row, found) ↦ record {
                    data_of = d;
                    fks = fks;
                    row = row;
                    parsed = parsed;
                    found = found;
                    rows_eq = sym (
                        ap (λ o. rows_of o [])
                          (rw (found, update_row) at
                            (rw (resolved, update_row) at
                              (rw (allowed, update_row) at (rw (parsed, update_row) at h)))));
                  }
                ]
          ]
        ]
      ]

  find_by_guuid-IsAt :
      (cfg : MasterDataHandlerConfig P B) (guuid store version : ℕ) (rows : List (Row B))
      (x : Row B)
      → All (IsAt guuid store version) rows
      → find_by_guuid cfg guuid store rows ≡ some x
      → (x.row_version ≡ version) × (x.alive ≡ true)
  find_by_guuid-IsAt cfg guuid store version rows x h found =
      let test = λ (r : Row B). r.guuid == guuid && r.store_fk == store in
      find-All test (IsAt guuid store version) rows x h found (find-true test rows x found)

  explain-IsRefusedAt :
      (cfg : MasterDataHandlerConfig P B) (guuid version : ℕ) (ctx : MutationContext) (t : Tables B)
      → All (IsAt guuid ctx.store_id version) t.rows
      → IsRefusedAt version (explain cfg guuid ctx t)
  unfolding explain
  explain-IsRefusedAt cfg guuid version ctx t h =
      elim (Option-cases (find_by_guuid cfg guuid ctx.store_id t.rows)) [
        | inl missing ↦ rw (missing, explain) tt
        | inr (x, found) ↦
            let at = find_by_guuid-IsAt cfg guuid ctx.store_id version t.rows x h found in
            rw (found, explain) (rw at.1 at.0)
      ]

  update_row-IsRefusedAt :
      (cfg : MasterDataHandlerConfig P B) (payload : P) (d : Parsed P) (version version' : ℕ)
      (ctx : MutationContext) (t : Tables B)
      → cfg.update_schema payload ≡ some d
      → version' ≤ version
      → All (IsAt d.guuid ctx.store_id (version + 1)) t.rows
      → IsRefusedAt (version + 1) (update_row cfg payload version' ctx t)
  unfolding update_row
  update_row-IsRefusedAt cfg payload d version version' ctx t parsed le h =
      rw (parsed, update_row)
        (elim (Option-cases (guard cfg d.guuid ctx t)) [
          | inr (code, vetoed) ↦ rw (vetoed, update_row) tt
          | inl allowed ↦
              rw (allowed, update_row)
                (elim (Option-cases (resolve_fks cfg cfg.fk_resolvers d ctx)) [
                  | inl unknown ↦ rw (unknown, update_row) tt
                  | inr (fks, resolved) ↦
                      rw (resolved, update_row)
                        (rw
                          (
                            find-none (is_current cfg d.guuid ctx.store_id version') t.rows (
                                older-ne-current cfg d.guuid d.fields fks ctx version version'
                                  t.rows le h),
                            update_row,
                          )
                          (explain-IsRefusedAt cfg d.guuid (version + 1) ctx t h))
                ])
        ])

  -- No update is lost: where an update at `version` has been applied, a second one of the same guuid
  -- and store that was made at that version or an older one is not applied. It is rejected, or it is a
  -- conflict whose row is at `version + 1`.
  pub update_row-IsRefused :
      (cfg : MasterDataHandlerConfig P B) (first second : P) (d d' : Parsed P)
      (version version' : ℕ) (ctx ctx' : MutationContext) (t : Tables B) {g : ℕ}
      {r : Option (Row B)} {t' : Tables B}
      → IsUnique t.rows
      → cfg.update_schema first ≡ some d
      → cfg.update_schema second ≡ some d'
      → d'.guuid ≡ d.guuid
      → ctx'.store_id ≡ ctx.store_id
      → version' ≤ version
      → update_row cfg first version ctx t ≡ applied g r t'
      → IsRefusedAt (version + 1) (update_row cfg second version' ctx' t')
  update_row-IsRefused cfg first second d d' version version' ctx ctx' t {t' = t'} unique parsed
        parsed' same_guuid same_store le done_first =
      let u = update_row-Updated cfg first version ctx t done_first in
      let same = ap (λ (x : Parsed P). x.guuid) (some_injective (sym (u.parsed) ∙ parsed)) in
      let at =
        update_rows-IsAt cfg (u.data_of).guuid (u.data_of).fields (u.fks) ctx version t.rows (u.row)
          unique (u.found) in
      update_row-IsRefusedAt cfg second d' version version' ctx' t' parsed' le (
        subst (λ s. All (IsAt d'.guuid s (version + 1)) t'.rows) (sym same_store)
          (subst (λ k. All (IsAt k ctx.store_id (version + 1)) t'.rows) (same ∙ sym same_guuid)
            (subst (All (IsAt (u.data_of).guuid ctx.store_id (version + 1))) (sym (u.rows_eq)) at)))
