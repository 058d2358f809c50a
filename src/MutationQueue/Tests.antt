-- ===== src/MutationQueue/Tests.antt =====
-- Tests of the outbound queue.
use ayphen_retail_pos.Common.{map, ◌≡◌, refl, List, [], ◌∷◌}
use ayphen_retail_pos.SyncDb.{QueueRow}
use ayphen_retail_pos.MutationQueue.{insert_row, sort_rows, take_drainable}
use ayphen_retail_pos.MutationQueue.Order.{IsPicked, take_drainable-IsPicked}
use ayphen_retail_pos.Pull.Fixture.{queued}

abbrev rows : List QueueRow
rows = queued 1 10 0 50 ∷ queued 2 11 5 60 ∷ queued 3 12 0 40 ∷ []

drain_order : map (λ (r : QueueRow). r.mutation_id) (take_drainable 1 2 rows) ≡ 2 ∷ 3 ∷ []
unfolding take_drainable sort_rows insert_row
drain_order = refl

take_drainable-IsPicked_example : IsPicked 1 2 rows (take_drainable 1 2 rows)
take_drainable-IsPicked_example = take_drainable-IsPicked 1 2 rows
