-- ===== src/MutationQueue.antt =====
-- The outbound queue of apps/mobile/src/core/sync/repositories/mutation-queue.repository.ts: each
-- operation as a function on the rows. `ORDER BY priority DESC, created_at ASC` is a stable
-- insertion sort; SQL leaves the order of ties open.
pub mod Order
mod Tests
use ayphen_retail_pos.Common.{
  ℕ, ◌+◌, Bool, true, false, ◌&&◌, ◌||◌, not, Option, none, some, List, [], ◌∷◌, ◌++◌, map, ltb,
  leb, ◌==◌, if◌then◌else◌, or_default, take, filter, member,
}
use ayphen_retail_pos.SyncDb.{
  WireRow, Action, QueueRow, QueueStatus, pending, inflight, applied, rejected, conflict, dead,
}

abbrev pub max_attempts_before_dead : ℕ
max_attempts_before_dead = 7

abbrev pub is_pending : QueueStatus → Bool
is_pending pending = true
is_pending _ = false

abbrev pub is_inflight : QueueStatus → Bool
is_inflight inflight = true
is_inflight _ = false

-- `inArray(status, ['pending', 'inflight', 'conflict'])`
abbrev pub is_live : QueueStatus → Bool
is_live pending = true
is_live inflight = true
is_live conflict = true
is_live _ = false

pub record EnqueueInput : Type 0 where
  pub mutation_id : ℕ
  pub store_id : ℕ
  pub entity_type : ℕ
  pub entity_guuid : ℕ
  pub action : Action
  pub payload : ℕ
  pub expected_row_version : Option ℕ
  pub client_modified_at : ℕ
  pub parent_guuid : Option ℕ
  pub priority : Option ℕ
  pub pre_image : Option WireRow
  pub now : ℕ

unfoldable pub enqueue : EnqueueInput → List QueueRow → List QueueRow
enqueue e q =
    q
    ++ record {
      mutation_id = e.mutation_id;
      store_id = e.store_id;
      entity_type = e.entity_type;
      entity_guuid = e.entity_guuid;
      action = e.action;
      payload = e.payload;
      expected_row_version = e.expected_row_version;
      client_modified_at = e.client_modified_at;
      parent_guuid = e.parent_guuid;
      priority = or_default e.priority 0;
      pre_image = e.pre_image;
      server_row = none;
      status = pending;
      attempts = 0;
      error_code = none;
      error_message = none;
      first_failure_at = none;
      last_failure_at = none;
      created_at = e.now;
    }
      ∷ []

-- The drain order: the higher priority first, then the older.
abbrev pub precedes : QueueRow → QueueRow → Bool
precedes a b =
    ltb b.priority a.priority || (a.priority == b.priority && leb a.created_at b.created_at)

unfoldable pub insert_row : QueueRow → List QueueRow → List QueueRow
insert_row r [] = r ∷ []
insert_row r (s ∷ ss) = if precedes r s then r ∷ s ∷ ss else s ∷ insert_row r ss

unfoldable pub sort_rows : List QueueRow → List QueueRow
sort_rows [] = []
sort_rows (r ∷ rs) = insert_row r (sort_rows rs)

abbrev pub is_drainable : ℕ → QueueRow → Bool
is_drainable store r = r.store_id == store && is_pending r.status

unfoldable pub take_drainable : ℕ → ℕ → List QueueRow → List QueueRow
take_drainable store limit q = take limit (sort_rows (filter (is_drainable store) q))

-- `UPDATE … SET … WHERE inArray(mutation_id, ids)`
abbrev pub update_rows : List ℕ → (QueueRow → QueueRow) → List QueueRow → List QueueRow
update_rows ids f [] = []
update_rows ids f (r ∷ rs) = (if member r.mutation_id ids then f r else r) ∷ update_rows ids f rs

abbrev pub set_inflight : QueueRow → QueueRow
set_inflight r = record r { status = inflight }

unfoldable pub mark_inflight : List ℕ → List QueueRow → List QueueRow
mark_inflight ids = update_rows ids set_inflight

abbrev pub set_applied : QueueRow → QueueRow
set_applied r = record r { status = applied }

unfoldable pub mark_applied : ℕ → List QueueRow → List QueueRow
mark_applied id = update_rows (id ∷ []) set_applied

abbrev pub set_rejected : ℕ → ℕ → ℕ → QueueRow → QueueRow
set_rejected code message now r = record r {
  status = rejected;
  error_code = some code;
  error_message = some message;
  last_failure_at = some now;
}

unfoldable pub mark_rejected : ℕ → ℕ → ℕ → ℕ → List QueueRow → List QueueRow
mark_rejected id code message now = update_rows (id ∷ []) (set_rejected code message now)

abbrev pub set_conflict : Option WireRow → QueueRow → QueueRow
set_conflict server r = record r { status = conflict; server_row = server }

unfoldable pub mark_conflict : ℕ → Option WireRow → List QueueRow → List QueueRow
mark_conflict id server = update_rows (id ∷ []) (set_conflict server)

abbrev pub set_retry : ℕ → QueueRow → QueueRow
set_retry now r = record r { status = pending; last_failure_at = some now }

unfoldable pub record_retry_later : ℕ → ℕ → List QueueRow → List QueueRow
record_retry_later id now = update_rows (id ∷ []) (set_retry now)

abbrev pub set_transport_failure : ℕ → ℕ → QueueRow → QueueRow
set_transport_failure message now r = record r {
  status = pending;
  last_failure_at = some now;
  error_message = some message;
}

unfoldable pub record_transport_failure_batch : List ℕ → ℕ → ℕ → List QueueRow → List QueueRow
record_transport_failure_batch ids message now = update_rows ids (set_transport_failure message now)

-- `COALESCE(first_failure_at, now)`
abbrev pub coalesce : Option ℕ → ℕ → Option ℕ
coalesce none now = some now
coalesce (some t) now = some t

abbrev pub set_poison_failure : ℕ → ℕ → QueueRow → QueueRow
set_poison_failure message now r = record r {
  attempts = r.attempts + 1;
  status = if leb max_attempts_before_dead (r.attempts + 1) then dead else pending;
  first_failure_at = coalesce r.first_failure_at now;
  last_failure_at = some now;
  error_message = some message;
}

unfoldable pub record_poison_failure_batch : List ℕ → ℕ → ℕ → List QueueRow → List QueueRow
record_poison_failure_batch ids message now = update_rows ids (set_poison_failure message now)

-- 1 stands for `IDEMPOTENCY_EXPIRED`, 2 for the message.
abbrev pub set_expired : ℕ → QueueRow → QueueRow
set_expired now r = record r {
  status = dead;
  error_code = some 1;
  error_message = some 2;
  first_failure_at = coalesce r.first_failure_at now;
  last_failure_at = some now;
}

unfoldable pub mark_expired_batch : List ℕ → ℕ → List QueueRow → List QueueRow
mark_expired_batch ids now = update_rows ids (set_expired now)

unfoldable pub reset_orphaned_inflight : ℕ → List QueueRow → List QueueRow
reset_orphaned_inflight store [] = []
reset_orphaned_inflight store (r ∷ rs) =
    (if r.store_id == store && is_inflight r.status then record r { status = pending } else r)
    ∷ reset_orphaned_inflight store rs

-- The guuids of the store's unresolved local writes.
unfoldable pub live_guuids : ℕ → List QueueRow → List ℕ
live_guuids store q =
    map (λ (r : QueueRow). r.entity_guuid)
      (filter (λ (r : QueueRow). r.store_id == store && is_live r.status) q)

unfoldable pub list_by_store : ℕ → List QueueRow → List QueueRow
list_by_store store = filter (λ (r : QueueRow). r.store_id == store)

unfoldable pub find_by_entity_guuid : ℕ → List QueueRow → List QueueRow
find_by_entity_guuid guuid = filter (λ (r : QueueRow). r.entity_guuid == guuid)

unfoldable pub remove : ℕ → List QueueRow → List QueueRow
remove id = filter (λ (r : QueueRow). not (r.mutation_id == id))
