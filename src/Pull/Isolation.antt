-- ===== src/Pull/Isolation.antt =====
-- Isolation of bad rows: `upsertWithIsolation` of
-- apps/mobile/src/core/sync/engine/apply-with-isolation.ts as a run over the rows.
use ayphen_retail_pos.Common.{
  ℕ, ◌≡◌, refl, sym, subst, Bool, true, ◌⊎◌, inl, inr, List, [], ◌∷◌, any, arith, ==_refl,
}
use ayphen_retail_pos.SyncDb.{
  WireRow, Operation, upsert, RowKey, by_guuid, by_id, unknown, FailedApply, SyncDb, ok, throws,
  SyncApplier, Result-cases,
}
use ayphen_retail_pos.Pull.{
  key_eq, row_key, same_target, upsert_failed, record_failed, upsert_one, upsert_each,
  upsert_with_isolation,
}

key_eq_refl : (k : RowKey) → key_eq k k ≡ true
key_eq_refl (by_guuid a) = ==_refl a
key_eq_refl (by_id a) = ==_refl a
key_eq_refl unknown = refl

-- The dead-letter table holds a letter for the target.
abbrev pub has_letter : ℕ → ℕ → RowKey → List FailedApply → Bool
has_letter store type key fs = any (same_target store type key) fs

has_letter-upsert_failed_self :
    (id store type : ℕ) (key : RowKey) (op : Operation) (row : WireRow) (now : ℕ)
    (fs : List FailedApply)
    → has_letter store type key (upsert_failed id store type key op row now fs) ≡ true
unfolding upsert_failed
has_letter-upsert_failed_self id store type key op row now [] = ground (arith, key_eq_refl key)
has_letter-upsert_failed_self id store type key op row now (f ∷ fs) =
    ground (arith, has_letter-upsert_failed_self id store type key op row now fs)

-- A letter of another target stays.
has_letter-upsert_failed :
    (id store type s t : ℕ) (key k : RowKey) (op : Operation) (row : WireRow) (now : ℕ)
    (fs : List FailedApply)
    → has_letter s t k fs ≡ true
    → has_letter s t k (upsert_failed id store type key op row now fs) ≡ true
unfolding upsert_failed
has_letter-upsert_failed id store type s t key k op row now [] h = cc
has_letter-upsert_failed id store type s t key k op row now (f ∷ fs) h =
    ground (arith, has_letter-upsert_failed id store type s t key k op row now fs)

module _ {T : Type 0} (store type now : ℕ) (applier : SyncApplier T) where
  -- A run of the rows one by one, from `db` to `final`: each row is applied to the tables that the
  -- earlier ones left, or it throws on them, leaves them as they are, and has a dead letter in the end.
  abbrev pub IsolatedRun : List WireRow → SyncDb T → SyncDb T → Type 0
  IsolatedRun [] db final = db ≡ final
  IsolatedRun (row ∷ rows) db final =
      ((t : T) × (applier.upsert_all store (row ∷ []) db.tables ≡ ok t)
        × IsolatedRun rows (record db { tables = t }) final)
      ⊎ ((db' : SyncDb T) × (applier.upsert_all store (row ∷ []) db.tables ≡ throws)
          × (db'.tables ≡ db.tables)
          × (db'.queue ≡ db.queue)
          × (has_letter store type (row_key row) final.failed ≡ true)
          × IsolatedRun rows db' final)

  upsert_one-letters :
      (k : RowKey) (s t : ℕ) (row : WireRow) (db : SyncDb T)
      → has_letter s t k db.failed ≡ true
      → has_letter s t k (upsert_one store type applier row now db).failed ≡ true
  unfolding upsert_one record_failed
  upsert_one-letters k s t row db h =
      elim (Result-cases (applier.upsert_all store (row ∷ []) db.tables)) [
        | inl failed ↦
            rw (failed, upsert_one)
              (has_letter-upsert_failed db.next_failed_id store type s t (row_key row) k upsert row
                now db.failed h)
        | inr (t', done) ↦ rw (done, upsert_one) h
      ]

  upsert_each-letters :
      (k : RowKey) (s t : ℕ) (rows : List WireRow) (db : SyncDb T)
      → has_letter s t k db.failed ≡ true
      → has_letter s t k (upsert_each store type applier rows now db).failed ≡ true
  unfolding upsert_each
  upsert_each-letters k s t [] db h = h
  upsert_each-letters k s t (row ∷ rows) db h =
      upsert_each-letters k s t rows (upsert_one store type applier row now db)
        (upsert_one-letters k s t row db h)

  upsert_one-ok :
      (row : WireRow) (db : SyncDb T) {t : T}
      → applier.upsert_all store (row ∷ []) db.tables ≡ ok t
      → upsert_one store type applier row now db ≡ record db { tables = t }
  unfolding upsert_one
  upsert_one-ok row db done = rw (done, upsert_one)

  upsert_one-throws :
      (row : WireRow) (db : SyncDb T)
      → applier.upsert_all store (row ∷ []) db.tables ≡ throws
      → upsert_one store type applier row now db
        ≡ record_failed store type (row_key row) upsert row now db
  unfolding upsert_one
  upsert_one-throws row db failed = rw (failed, upsert_one)

  -- The one-by-one loop is such a run.
  upsert_each-IsolatedRun :
      (rows : List WireRow) (db : SyncDb T)
      → IsolatedRun rows db (upsert_each store type applier rows now db)
  unfolding upsert_each
  upsert_each-IsolatedRun [] db = refl
  upsert_each-IsolatedRun (row ∷ rows) db =
      elim (Result-cases (applier.upsert_all store (row ∷ []) db.tables)) [
        | inr (t, done) ↦ inl (
          t,
          done,
          rw (upsert_one-ok row db done) (upsert_each-IsolatedRun rows (record db { tables = t })),
        )
        | inl failed ↦
            let db' = record_failed store type (row_key row) upsert row now db in
            let stepped = upsert_one-throws row db failed in
            inr (
              db',
              failed,
              unfold record_failed in refl,
              unfold record_failed in refl,
              upsert_each-letters (row_key row) store type rows
                  (upsert_one store type applier row now db)
                  (rw stepped (
                    unfold record_failed in
                    has_letter-upsert_failed_self db.next_failed_id store type (row_key row) upsert
                      row now db.failed)),
              rw stepped (upsert_each-IsolatedRun rows db'),
            )
      ]

  -- The whole page in one statement.
  abbrev pub AppliedWhole : List WireRow → SyncDb T → SyncDb T → Type 0
  AppliedWhole rows db final =
      (t : T) × (applier.upsert_all store rows db.tables ≡ ok t)
      × (final ≡ record db { tables = t })

  -- A page of rows is applied at once, or it throws and its rows run one by one: no bad row keeps
  -- another from being applied, and each bad row ends in the dead-letter table.
  pub upsert_with_isolation-IsolatedRun :
      (rows : List WireRow) (db : SyncDb T)
      → let final = upsert_with_isolation store type applier rows now db in
        AppliedWhole rows db final ⊎ IsolatedRun rows db final
  unfolding upsert_with_isolation
  upsert_with_isolation-IsolatedRun [] db = inr refl
  upsert_with_isolation-IsolatedRun (row ∷ rows) db =
      elim (Result-cases (applier.upsert_all store (row ∷ rows) db.tables)) [
        | inr (t, done) ↦ inl (t, done, rw (done, upsert_with_isolation))
        | inl failed ↦
            let eq : upsert_with_isolation store type applier (row ∷ rows) now db
                ≡ upsert_each store type applier (row ∷ rows) now db =
              rw (failed, upsert_with_isolation) in
            inr (
              subst (IsolatedRun (row ∷ rows) db) (sym eq)
                (upsert_each-IsolatedRun (row ∷ rows) db))
      ]
