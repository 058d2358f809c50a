-- ===== src/MasterData/Versions.antt =====
-- The versions of the rows that an update writes (apps/backend/src/sync/push/master-data.handler.ts).
use ayphen_retail_pos.Common.{
  ℕ, ◌+◌, ◌≤◌, ◌≡◌, refl, subst, true, false, ◌&&◌, inl, inr, Option, some, List, [], ◌∷◌, ◌==◌,
  ==→eq, find, All, arith, Bool-cases,
}
use ayphen_retail_pos.Ledger.{MutationContext}
use ayphen_retail_pos.MasterData.{Row, MasterDataHandlerConfig, is_current, update_rows}
use ayphen_retail_pos.MasterData.Find.{find-true, find-All}

module _ {B : Type 0} where
  -- The guuid is a unique key.
  abbrev pub IsUnique : List (Row B) → Type 0
  IsUnique [] = Unit
  IsUnique (x ∷ xs) = All (λ (y : Row B). (y.guuid == x.guuid) ≡ false) xs × IsUnique xs

  -- The row of the guuid in the store, if there is one, is live and at the version.
  abbrev pub IsAt : ℕ → ℕ → ℕ → Row B → Type 0
  IsAt guuid store version r =
      (r.guuid == guuid && r.store_fk == store) ≡ true
      → (r.row_version ≡ version) × (r.alive ≡ true)

module _ {P B : Type 0} where
  module _ (cfg : MasterDataHandlerConfig P B) (guuid : ℕ) (fields : P) (fks : List (ℕ × Option ℕ))
      (ctx : MutationContext) (version : ℕ) where
    others-IsAt :
        (rows : List (Row B)) (x : Row B)
        → All (λ (y : Row B). (y.guuid == x.guuid) ≡ false) rows
        → (x.guuid == guuid) ≡ true
        → All
            (IsAt guuid ctx.store_id (version + 1))
            (update_rows cfg guuid fields fks ctx version rows)
    unfolding update_rows
    others-IsAt [] x h e = tt
    others-IsAt (y ∷ ys) x h e =
        let same = ==→eq x.guuid guuid e in
        let other : (y.guuid == guuid) ≡ false = subst (λ g. (y.guuid == g) ≡ false) same (h.0) in
        (rw other (λ k. cc (rw other at k)), others-IsAt ys x h.1 e)

    not_found_later :
        (rows : List (Row B)) (r x : Row B)
        → All (λ (y : Row B). (y.guuid == x.guuid) ≡ false) rows
        → (x.guuid == guuid) ≡ true
        → find (is_current cfg guuid ctx.store_id version) rows ≡ some r
        → ⊥
    not_found_later rows r x others same found =
        let other =
          find-All (is_current cfg guuid ctx.store_id version)
            (λ (y : Row B). (y.guuid == x.guuid) ≡ false) rows r others found in
        let current = find-true (is_current cfg guuid ctx.store_id version) rows r found in
        ground (arith, other, current, same)

    pub update_rows-IsAt :
        (rows : List (Row B)) (r : Row B)
        → IsUnique rows
        → find (is_current cfg guuid ctx.store_id version) rows ≡ some r
        → All
            (IsAt guuid ctx.store_id (version + 1))
            (update_rows cfg guuid fields fks ctx version rows)
    unfolding update_rows
    update_rows-IsAt [] r u found = cc
    update_rows-IsAt (x ∷ xs) r u found =
        elim (Bool-cases (is_current cfg guuid ctx.store_id version x)) [
          | inl hit ↦
              rw hit
                ((λ _. (refl, ground (arith, hit))), others-IsAt xs x u.0 (ground (arith, hit)))
          | inr miss ↦
              let rest : find (is_current cfg guuid ctx.store_id version) xs ≡ some r =
                rw miss at found in
              rw miss (
                elim (Bool-cases (x.guuid == guuid)) [
                  | inr other ↦ (λ k. cc (rw other at k))
                  | inl same ↦ absurd (not_found_later xs r x u.0 same rest)
                ],
                update_rows-IsAt xs r u.1 rest,
              )
        ]

    pub older-ne-current :
        (version' : ℕ) (rows : List (Row B))
        → version' ≤ version
        → All (IsAt guuid ctx.store_id (version + 1)) rows
        → All (λ (r : Row B). is_current cfg guuid ctx.store_id version' r ≡ false) rows
    older-ne-current version' [] le h = tt
    older-ne-current version' (x ∷ xs) le h = (
      elim (Bool-cases (x.guuid == guuid && x.store_fk == ctx.store_id)) [
        | inr other ↦ rw other refl
        | inl same ↦ (let at_new = h.0 same in ground (arith, at_new.0, le))
      ],
      older-ne-current version' xs le h.1,
    )
