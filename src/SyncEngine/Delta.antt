-- ===== src/SyncEngine/Delta.antt =====
-- What pulling does to the outbound queue, and its end (apps/mobile/src/core/sync/engine/delta-pull.ts).
use ayphen_retail_pos.Common.{
  ℕ, zero, ◌<◌, ap, true, false, some, arith, suc, ◌≡◌, refl, ◌∙◌, inl, inr, Option, List, [], ◌∷◌,
  if◌then◌else◌, Bool-cases, Option-cases,
}
use ayphen_retail_pos.SyncDb.{FailedApply, SyncDb, Result-cases, ApplierLookup, get_cursor}
use ayphen_retail_pos.Pull.{
  Changes, apply_changes_page, retry_apply, record_attempt, delete_by_id, retry_row, retry_rows,
  retry_failed_applies,
}
use ayphen_retail_pos.Pull.Shadow.{get_cursor-set}
use ayphen_retail_pos.Pull.Untouched.{queue-apply_changes_page}
use ayphen_retail_pos.SyncEngine.{Ending, ChangesResult, finished, pull_delta_to_completion}

module _ {T : Type 0} (registry : ApplierLookup T) (store : ℕ) where
  -- The queue and the cursors are as they were.
  abbrev Leaves : SyncDb T → SyncDb T → Type 0
  Leaves db db' = (db'.queue ≡ db.queue) × (db'.cursors ≡ db.cursors)

  retry_row-Leaves :
      (now : ℕ) (f : FailedApply) (db : SyncDb T) → Leaves db (retry_row registry store now f db)
  unfolding retry_row record_attempt delete_by_id
  retry_row-Leaves now f db = elim (Option-cases (registry.get f.entity_type)) [
    | inl unsupported ↦ rw (unsupported, retry_row) (refl, refl)
    | inr (applier, registered) ↦ elim (Result-cases (retry_apply store applier f db.tables)) [
      | inl bad ↦ rw (registered, retry_row) (rw (bad) (refl, refl))
      | inr (t, done) ↦ rw (registered, retry_row) (rw (done) (refl, refl))
    ]
  ]

  retry_rows-Leaves :
      (now : ℕ) (fs : List FailedApply) (db : SyncDb T)
      → Leaves db (retry_rows registry store now fs db)
  unfolding retry_rows
  retry_rows-Leaves now [] db = (refl, refl)
  retry_rows-Leaves now (f ∷ fs) db =
      let first = retry_row-Leaves now f db in
      let rest = retry_rows-Leaves now fs (retry_row registry store now f db) in
      (rest.0 ∙ first.0, rest.1 ∙ first.1)

  retry_failed_applies-Leaves :
      (now : ℕ) (db : SyncDb T) → Leaves db (retry_failed_applies registry store now db)
  unfolding retry_failed_applies
  retry_failed_applies-Leaves now db = retry_rows-Leaves now _ db

  pub queue-pull_delta_to_completion :
      (server : ℕ → ℕ → Option ChangesResult) (now fuel : ℕ) (db : SyncDb T)
      → (pull_delta_to_completion registry store server now fuel db).1.queue ≡ db.queue
  unfolding pull_delta_to_completion
  queue-pull_delta_to_completion server now zero db = refl
  queue-pull_delta_to_completion server now (suc fuel) db =
      elim (Option-cases (get_cursor store db.cursors)) [
        | inl absent ↦ rw (absent, pull_delta_to_completion) refl
        | inr (cursor, present) ↦ elim (Option-cases (server fuel cursor)) [
          | inl refused ↦ rw (present, pull_delta_to_completion) (rw (refused) refl)
          | inr (result, got) ↦
              rw (present, pull_delta_to_completion)
                (rw (got) (after_page result (queue-pull_delta_to_completion server now fuel)))
        ]
      ]
    where
      after_page :
          (result : ChangesResult)
          → ((d : SyncDb T)
              → (pull_delta_to_completion registry store server now fuel d).1.queue ≡ d.queue)
          → (let db₁ =
                apply_changes_page registry store result.server_time result.changes
                  result.sync_cursor db in
              let rest = pull_delta_to_completion registry store server now fuel db₁ in
              if result.has_more
              then rest
              else (finished, retry_failed_applies registry store now db₁)).1.queue
            ≡ db.queue
      after_page result others =
          let page =
            queue-apply_changes_page store result.server_time registry result.changes
              result.sync_cursor db in
          elim (Bool-cases result.has_more) [
            | inl more ↦ rw more (others _ ∙ page)
            | inr last ↦ rw last ((retry_failed_applies-Leaves now _).0 ∙ page)
          ]

  pub cursor-apply_changes_page :
      (now : ℕ) (changes : Changes) (token : ℕ) (db : SyncDb T)
      → get_cursor store (apply_changes_page registry store now changes token db).cursors
        ≡ some token
  unfolding apply_changes_page
  cursor-apply_changes_page now changes token db = get_cursor-set store token _

  -- A server that answers every request, where no cursor is followed by more than `left` pages.
  abbrev pub IsPaging : (ℕ → ℕ) → (ℕ → ℕ → Option ChangesResult) → Type 0
  IsPaging left server =
      (n cursor : ℕ)
      → (result : ChangesResult) × (server n cursor ≡ some result)
        × (result.has_more ≡ true → left result.sync_cursor < left cursor)

  -- The server has answered with a last page at the token.
  abbrev pub IsLastAt : (ℕ → ℕ → Option ChangesResult) → ℕ → Type 0
  IsLastAt server token =
      (n : ℕ) × (cursor : ℕ) × (result : ChangesResult) × (server n cursor ≡ some result)
      × (result.has_more ≡ false)
      × (result.sync_cursor ≡ token)

  -- Finished, with the cursor of the store at that of a last page.
  abbrev pub IsPulled : (ℕ → ℕ → Option ChangesResult) → Ending × SyncDb T → Type 0
  IsPulled server e =
      (e.0 ≡ finished)
      × ((token : ℕ) × IsLastAt server token × (get_cursor store e.1.cursors ≡ some token))

  -- Where the server answers every request and its pages come to an end, a pull from a cursor with
  -- fewer pages to come than there is fuel finishes.
  pub pull_delta_to_completion-IsPulled :
      (left : ℕ → ℕ) (server : ℕ → ℕ → Option ChangesResult) (now fuel cursor : ℕ) (db : SyncDb T)
      → IsPaging left server
      → get_cursor store db.cursors ≡ some cursor
      → left cursor < fuel
      → IsPulled server (pull_delta_to_completion registry store server now fuel db)
  unfolding pull_delta_to_completion
  pull_delta_to_completion-IsPulled left server now zero cursor db paging present enough =
      absurd (omega (arith, enough))
  pull_delta_to_completion-IsPulled left server now (suc fuel) cursor db paging present enough =
      let (result, got, fewer) = paging fuel cursor in
      let db₁ =
        apply_changes_page registry store result.server_time result.changes result.sync_cursor db in
      let at_page =
        cursor-apply_changes_page result.server_time result.changes result.sync_cursor db in
      rw (present, pull_delta_to_completion)
        (rw (got) (elim (Bool-cases result.has_more) [
          | inl more ↦ rw more (
              pull_delta_to_completion-IsPulled left server now fuel result.sync_cursor db₁ paging
                at_page (omega (arith, enough, fewer more)))
          | inr last ↦ rw last (
            refl,
            (
              result.sync_cursor,
              (fuel, cursor, result, got, last, refl),
              ap (get_cursor store) (retry_failed_applies-Leaves now db₁).1 ∙ at_page,
            ),
          )
        ]))
