-- ===== src/Pull/Shadow.antt =====
-- The pending-mutation shadow of apps/mobile/src/core/sync/engine/apply-changes.ts.
use ayphen_retail_pos.Common.{
  ℕ, ◌≡◌, refl, sym, ap, subst, ◌∙◌, Bool, true, false, not, inl, inr, Option, none, some, List, [],
  ◌∷◌, ◌==◌, filter, member, arith, Bool-cases, Option-cases, ==→eq, some_injective,
}
use mathlib.Core.List.{reverse}
use ayphen_retail_pos.SyncDb.{WireRow, SyncDb, ApplierLookup, get_cursor, set_cursor}
use ayphen_retail_pos.MutationQueue.{live_guuids}
use ayphen_retail_pos.Pull.{
  EntityChanges, Changes, changes_of, is_unshadowed, upsert_with_isolation, delete_with_isolation,
  apply_upserts, apply_tombstones, apply_changes_page,
}
use ayphen_retail_pos.Pull.Untouched.{queue-apply_changes_page}

pub get_cursor-set :
    (store token : ℕ) (cs : List (ℕ × ℕ))
    → get_cursor store (set_cursor store token cs) ≡ some token
get_cursor-set store token [] = ground arith
get_cursor-set store token ((s, t) ∷ cs) = ground (arith, get_cursor-set store token cs)

-- The row is not the one of guuid `g`.
abbrev pub is_other : ℕ → WireRow → Bool
is_other g r = elim r.guuid [ none ↦ true | some h ↦ not (h == g) ]

-- The changes of an entity without the upserts of `g`, and a page without them.
abbrev pub without_upserts : ℕ → EntityChanges → EntityChanges
without_upserts g c = record c { upserts = filter (is_other g) c.upserts }

abbrev pub page_without : ℕ → Changes → Changes
page_without g [] = []
page_without g ((type, c) ∷ cs) = (type, without_upserts g c) ∷ page_without g cs

changes_of-none :
    (g type : ℕ) (cs : Changes)
    → changes_of type cs ≡ none
    → changes_of type (page_without g cs) ≡ none
changes_of-none g type [] h = refl
changes_of-none g type ((t, c) ∷ cs) h = elim (Bool-cases (t == type)) [
  | inl hit ↦ cc (rw hit at h)
  | inr miss ↦ rw miss (changes_of-none g type cs (rw miss at h))
]

changes_of-some :
    (g type : ℕ) (cs : Changes) (c : EntityChanges)
    → changes_of type cs ≡ some c
    → changes_of type (page_without g cs) ≡ some (without_upserts g c)
changes_of-some g type [] c h = cc h
changes_of-some g type ((t, d) ∷ cs) c h = elim (Bool-cases (t == type)) [
  | inl hit ↦ rw hit (ap (λ e. some (without_upserts g e)) (some_injective (rw hit at h)))
  | inr miss ↦ rw miss (changes_of-some g type cs c (rw miss at h))
]

-- A row of a shadowed guuid is shadowed.
shadowed-row :
    (g : ℕ) (shadowed : List ℕ) (r : WireRow)
    → member g shadowed ≡ true
    → is_other g r ≡ false
    → is_unshadowed shadowed r ≡ false
shadowed-row g shadowed r m o = elim (Option-cases r.guuid) [
  | inl unnamed ↦ cc (rw unnamed at o)
  | inr (h, named) ↦ elim (Bool-cases (h == g)) [
    | inr other ↦ cc (rw other at (rw named at o))
    | inl same ↦
        let found : member h shadowed ≡ true =
          subst (λ k. member k shadowed ≡ true) (sym (==→eq h g same)) m in
        rw (named, found) refl
  ]
]

filter-shadowed :
    (g : ℕ) (shadowed : List ℕ) (rows : List WireRow)
    → member g shadowed ≡ true
    → filter (is_unshadowed shadowed) (filter (is_other g) rows)
      ≡ filter (is_unshadowed shadowed) rows
filter-shadowed g shadowed [] m = refl
filter-shadowed g shadowed (r ∷ rows) m = elim (Bool-cases (is_other g r)) [
  | inr own ↦ rw (own, shadowed-row g shadowed r m own) (filter-shadowed g shadowed rows m)
  | inl other ↦ elim (Bool-cases (is_unshadowed shadowed r)) [
    | inl kept ↦ rw (other, kept) (ap (λ xs. r ∷ xs) (filter-shadowed g shadowed rows m))
    | inr dropped ↦ rw (other, dropped) (filter-shadowed g shadowed rows m)
  ]
]

module _ {T : Type 0} (registry : ApplierLookup T) (store now g : ℕ) (changes : Changes) where
  -- What the two loops do with the changes of one entity.
  abbrev upsert_over : ℕ → SyncDb T → List WireRow → SyncDb T
  upsert_over type db rows = elim (registry.get type) [
    | none ↦ db
    | some applier ↦ upsert_with_isolation store type applier rows now db
  ]

  abbrev upserts_of : List ℕ → ℕ → SyncDb T → Option EntityChanges → SyncDb T
  upserts_of shadowed type db found = elim found [
    | none ↦ db
    | some c ↦ upsert_over type db (filter (is_unshadowed shadowed) c.upserts)
  ]

  abbrev deletes_of : ℕ → SyncDb T → Option EntityChanges → SyncDb T
  deletes_of type db found = elim found [
    | none ↦ db
    | some c ↦ elim (registry.get type) [
      | none ↦ db
      | some applier ↦ delete_with_isolation store type applier c.deletes now db
    ]
  ]

  upserts_of-without :
      (shadowed : List ℕ) (type : ℕ) (db : SyncDb T)
      → member g shadowed ≡ true
      → upserts_of shadowed type db (changes_of type (page_without g changes))
        ≡ upserts_of shadowed type db (changes_of type changes)
  upserts_of-without shadowed type db m = elim (Option-cases (changes_of type changes)) [
    | inl absent ↦ rw (absent, changes_of-none g type changes absent) refl
    | inr (c, present) ↦
        rw (present, changes_of-some g type changes c present)
          (ap (upsert_over type db) (filter-shadowed g shadowed c.upserts m))
  ]

  deletes_of-without :
      (type : ℕ) (db : SyncDb T)
      → deletes_of type db (changes_of type (page_without g changes))
        ≡ deletes_of type db (changes_of type changes)
  deletes_of-without type db = elim (Option-cases (changes_of type changes)) [
    | inl absent ↦ rw (absent, changes_of-none g type changes absent) refl
    | inr (c, present) ↦ rw (present, changes_of-some g type changes c present) refl
  ]

  apply_upserts-shadowed :
      (shadowed types : List ℕ) (db : SyncDb T)
      → member g shadowed ≡ true
      → apply_upserts registry store now (page_without g changes) shadowed types db
        ≡ apply_upserts registry store now changes shadowed types db
  unfolding apply_upserts
  apply_upserts-shadowed shadowed [] db m = refl
  apply_upserts-shadowed shadowed (type ∷ types) db m =
      apply_upserts-shadowed shadowed types _ m
      ∙ ap (apply_upserts registry store now changes shadowed types)
          (upserts_of-without shadowed type db m)

  apply_tombstones-shadowed :
      (types : List ℕ) (db : SyncDb T)
      → apply_tombstones registry store now (page_without g changes) types db
        ≡ apply_tombstones registry store now changes types db
  unfolding apply_tombstones
  apply_tombstones-shadowed [] db = refl
  apply_tombstones-shadowed (type ∷ types) db =
      apply_tombstones-shadowed types _
      ∙ ap (apply_tombstones registry store now changes types) (deletes_of-without type db)

  -- What a pulled page upserts for a guuid with an unresolved local write has no effect: whatever the
  -- appliers do, the page leaves the database that it leaves without these rows. The page leaves the
  -- queue as it is, and moves the cursor of the store to the page's token.
  pub apply_changes_page-shadows :
      (token : ℕ) (db : SyncDb T)
      → member g (live_guuids store db.queue) ≡ true
      → let db' = apply_changes_page registry store now changes token db in
        (db' ≡ apply_changes_page registry store now (page_without g changes) token db)
        × (db'.queue ≡ db.queue)
        × (get_cursor store db'.cursors ≡ some token)
  unfolding apply_changes_page
  apply_changes_page-shadows token db m =
      let shadowed = live_guuids store db.queue in
      let upserted = apply_upserts-shadowed shadowed registry.entity_types db m in
      let types = reverse registry.entity_types in
      (
        ap (λ (d : SyncDb T). record d { cursors = set_cursor store token d.cursors })
            (sym (
              ap (apply_tombstones registry store now (page_without g changes) types) upserted
              ∙ apply_tombstones-shadowed types _)),
        queue-apply_changes_page store now registry changes token db,
        get_cursor-set store token _,
      )
