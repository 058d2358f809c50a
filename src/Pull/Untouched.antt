-- ===== src/Pull/Untouched.antt =====
-- A pulled page writes the local tables, the dead letters and the cursor
-- (apps/mobile/src/core/sync/engine/apply-changes.ts): the outbound queue is no part of it.
use ayphen_retail_pos.Common.{
  ℕ, ◌≡◌, refl, ◌∙◌, inl, inr, none, some, List, [], ◌∷◌, filter, Option-cases,
}
use mathlib.Core.List.{reverse}
use ayphen_retail_pos.SyncDb.{WireRow, SyncDb, Result-cases, SyncApplier, ApplierLookup}
use ayphen_retail_pos.MutationQueue.{live_guuids}
use ayphen_retail_pos.Pull.{
  Changes, changes_of, is_unshadowed, record_failed, upsert_one, upsert_each, upsert_with_isolation,
  delete_one, delete_each, delete_with_isolation, apply_upserts, apply_tombstones,
  apply_changes_page,
}

module _ {T : Type 0} (store now : ℕ) where
  module _ (type : ℕ) (applier : SyncApplier T) where
    queue-upsert_one :
        (row : WireRow) (db : SyncDb T)
        → (upsert_one store type applier row now db).queue ≡ db.queue
    unfolding upsert_one record_failed
    queue-upsert_one row db = elim (Result-cases (applier.upsert_all store (row ∷ []) db.tables)) [
      | inl failed ↦ rw (failed, upsert_one)
      | inr (t, done) ↦ rw (done, upsert_one)
    ]

    queue-upsert_each :
        (rows : List WireRow) (db : SyncDb T)
        → (upsert_each store type applier rows now db).queue ≡ db.queue
    unfolding upsert_each
    queue-upsert_each [] db = refl
    queue-upsert_each (row ∷ rows) db =
        queue-upsert_each rows (upsert_one store type applier row now db) ∙ queue-upsert_one row db

    pub queue-upsert_with_isolation :
        (rows : List WireRow) (db : SyncDb T)
        → (upsert_with_isolation store type applier rows now db).queue ≡ db.queue
    unfolding upsert_with_isolation
    queue-upsert_with_isolation [] db = refl
    queue-upsert_with_isolation (row ∷ rows) db =
        elim (Result-cases (applier.upsert_all store (row ∷ rows) db.tables)) [
          | inl failed ↦ rw (failed, upsert_with_isolation) (queue-upsert_each (row ∷ rows) db)
          | inr (t, done) ↦ rw (done, upsert_with_isolation)
        ]

    queue-delete_one :
        (g : ℕ) (db : SyncDb T) → (delete_one store type applier g now db).queue ≡ db.queue
    unfolding delete_one record_failed
    queue-delete_one g db = elim (Result-cases (applier.apply_deletes store (g ∷ []) db.tables)) [
      | inl failed ↦ rw (failed, delete_one)
      | inr (t, done) ↦ rw (done, delete_one)
    ]

    queue-delete_each :
        (gs : List ℕ) (db : SyncDb T) → (delete_each store type applier gs now db).queue ≡ db.queue
    unfolding delete_each
    queue-delete_each [] db = refl
    queue-delete_each (g ∷ gs) db =
        queue-delete_each gs (delete_one store type applier g now db) ∙ queue-delete_one g db

    queue-delete_with_isolation :
        (gs : List ℕ) (db : SyncDb T)
        → (delete_with_isolation store type applier gs now db).queue ≡ db.queue
    unfolding delete_with_isolation
    queue-delete_with_isolation [] db = refl
    queue-delete_with_isolation (g ∷ gs) db =
        elim (Result-cases (applier.apply_deletes store (g ∷ gs) db.tables)) [
          | inl failed ↦ rw (failed, delete_with_isolation) (queue-delete_each (g ∷ gs) db)
          | inr (t, done) ↦ rw (done, delete_with_isolation)
        ]

  module _ (registry : ApplierLookup T) (changes : Changes) where
    queue-apply_upserts :
        (shadowed types : List ℕ) (db : SyncDb T)
        → (apply_upserts registry store now changes shadowed types db).queue ≡ db.queue
    unfolding apply_upserts
    queue-apply_upserts shadowed [] db = refl
    queue-apply_upserts shadowed (type ∷ types) db = queue-apply_upserts shadowed types _ ∙ step
      where
        step :
            (let stepped : SyncDb T = elim (changes_of type changes) [
              | none ↦ db
              | some c ↦ elim (registry.get type) [
                | none ↦ db
                | some applier ↦
                    upsert_with_isolation store type applier
                      (filter (is_unshadowed shadowed) c.upserts)
                      now
                      db
              ]
            ] in
              stepped.queue)
            ≡ db.queue
        step = elim (Option-cases (changes_of type changes)) [
          | inl absent ↦ rw absent
          | inr (c, present) ↦ elim (Option-cases (registry.get type)) [
            | inl unsupported ↦ rw (present, unsupported)
            | inr (applier, registered) ↦
                rw (present, registered) (queue-upsert_with_isolation type applier _ db)
          ]
        ]

    queue-apply_tombstones :
        (types : List ℕ) (db : SyncDb T)
        → (apply_tombstones registry store now changes types db).queue ≡ db.queue
    unfolding apply_tombstones
    queue-apply_tombstones [] db = refl
    queue-apply_tombstones (type ∷ types) db = queue-apply_tombstones types _ ∙ step
      where
        step :
            (let stepped : SyncDb T = elim (changes_of type changes) [
              | none ↦ db
              | some c ↦ elim (registry.get type) [
                | none ↦ db
                | some applier ↦ delete_with_isolation store type applier c.deletes now db
              ]
            ] in
              stepped.queue)
            ≡ db.queue
        step = elim (Option-cases (changes_of type changes)) [
          | inl absent ↦ rw absent
          | inr (c, present) ↦ elim (Option-cases (registry.get type)) [
            | inl unsupported ↦ rw (present, unsupported)
            | inr (applier, registered) ↦
                rw (present, registered) (queue-delete_with_isolation type applier c.deletes db)
          ]
        ]

    pub queue-apply_changes_page :
        (token : ℕ) (db : SyncDb T)
        → (apply_changes_page registry store now changes token db).queue ≡ db.queue
    unfolding apply_changes_page
    queue-apply_changes_page token db =
        queue-apply_tombstones (reverse registry.entity_types) _
        ∙ queue-apply_upserts (live_guuids store db.queue) registry.entity_types db
