-- ===== src/Pull/Tests.antt =====
-- Tests of the pull side on the registry of Pull/Fixture.antt.
use ayphen_retail_pos.Common.{true, ◌≡◌, ◌⊎◌, refl, some, List, [], ◌∷◌, member}
use ayphen_retail_pos.SyncDb.{WireRow, get_cursor}
use ayphen_retail_pos.MutationQueue.{live_guuids}
use ayphen_retail_pos.Pull.{
  Changes, record_failed, upsert_one, upsert_each, upsert_with_isolation, apply_changes_page,
}
use ayphen_retail_pos.Pull.Isolation.{AppliedWhole, IsolatedRun, upsert_with_isolation-IsolatedRun}
use ayphen_retail_pos.Pull.Shadow.{page_without, apply_changes_page-shadows}
use ayphen_retail_pos.Pull.Fixture.{table_applier, registry, row_of, device}

abbrev mixed : List WireRow
mixed = row_of 20 1 ∷ row_of 21 99 ∷ row_of 22 3 ∷ []

isolated :
    (upsert_with_isolation 1 1 table_applier mixed 70 device).tables
    ≡ (22, 3) ∷ (20, 1) ∷ (10, 5) ∷ (11, 6) ∷ []
unfolding upsert_with_isolation upsert_each upsert_one record_failed
isolated = refl

upsert_with_isolation-IsolatedRun_example :
    AppliedWhole 1 1 70 table_applier mixed device
      (upsert_with_isolation 1 1 table_applier mixed 70 device)
    ⊎ IsolatedRun 1 1 70 table_applier mixed device
        (upsert_with_isolation 1 1 table_applier mixed 70 device)
upsert_with_isolation-IsolatedRun_example =
    upsert_with_isolation-IsolatedRun 1 1 70 table_applier mixed device

-- The guuid 10 has an unresolved local write.
abbrev page : Changes
page =
    (1, record { upserts = row_of 10 7 ∷ row_of 11 8 ∷ row_of 12 9 ∷ []; deletes = 30 ∷ [] }) ∷ []

page-shadowed : member 10 (live_guuids 1 device.queue) ≡ true
unfolding live_guuids
page-shadowed = refl

apply_changes_page-shadows_example :
    let db' = apply_changes_page registry 1 70 page 5 device in
    (db' ≡ apply_changes_page registry 1 70 (page_without 10 page) 5 device)
    × (db'.queue ≡ device.queue)
    × (get_cursor 1 db'.cursors ≡ some 5)
apply_changes_page-shadows_example =
    apply_changes_page-shadows registry 1 70 10 page 5 device page-shadowed
