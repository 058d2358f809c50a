-- ===== src/Push.antt =====
-- The push side of the server: apps/backend/src/sync/push/delta.service.ts with
-- sync/repositories/sync-idempotency.repository.ts, sync-mutation-failure.repository.ts and
-- sync-conflict.repository.ts. `D` is the business database, which only the handlers write. Messages
-- are left out, and of a payload its guuid and its size in bytes are told apart. `rival` is what other
-- requests commit between the preflight and the transaction of this one; a reply `none` is the 503 of
-- a lost race.
pub mod State
pub mod Process
pub mod Cases
pub mod Replay
pub mod Atomic
pub mod Gates
pub mod Waves
pub mod Sort
pub mod Cycles
pub mod Batch
mod Tests
unfoldable pub use State.*
use ayphen_retail_pos.Common.{
  ℕ, ◌+◌, ◌*◌, ◌-◌, Bool, true, false, ◌&&◌, ◌||◌, not, Option, none, some, List, [], ◌∷◌, ◌++◌,
  ltb, leb, ◌==◌, if◌then◌else◌, is_some, filter, find, any, member,
}
use ayphen_retail_pos.Ledger.{MutationAction, create, update, delete}

-- The primary key (mutation, user, store).
abbrev pub has_key : SyncMutation → MutationEnv → IdempotencyRow → Bool
has_key m env r =
    (r.mutation_id == m.mutation_id && r.user_fk == env.user_id) && r.store_fk == env.store_id

abbrev pub find_row : SyncMutation → MutationEnv → List IdempotencyRow → Option IdempotencyRow
find_row m env rows = find (has_key m env) rows

abbrev pub ttl_of : IdempotencyStatus → ℕ
ttl_of was_conflict = idempotency_conflict_ttl_ms
ttl_of _ = server_idempotency_ttl_ms

-- `now - created_at < ttl`
abbrev pub is_live : IdempotencyRow → ℕ → Bool
is_live r now = ltb now (r.created_at + ttl_of r.status)

-- `INSERT … ON CONFLICT DO NOTHING`
unfoldable pub insert_row :
    SyncMutation
    → MutationEnv
    → IdempotencyStatus
    → Wire
    → List IdempotencyRow
    → List IdempotencyRow
insert_row m env status wire rows =
    if is_some (find_row m env rows)
    then rows
    else rows
      ++ record {
        mutation_id = m.mutation_id;
        user_fk = env.user_id;
        store_fk = env.store_id;
        entity_type = m.entity_type;
        action = m.action;
        status = status;
        result = wire;
        created_at = env.now;
      }
        ∷ []

unfoldable pub remove_row : SyncMutation → MutationEnv → List IdempotencyRow → List IdempotencyRow
remove_row m env rows = filter (λ r. not (has_key m env r)) rows

-- The cached result without the server row of a conflict.
abbrev pub sanitize : IdempotencyStatus → Wire → Wire
sanitize was_conflict (wire_conflict row) = wire_conflict none
sanitize _ wire = wire

abbrev pub has_failure_key : SyncMutation → MutationEnv → FailureRow → Bool
has_failure_key m env r =
    (r.mutation_id == m.mutation_id && r.user_fk == env.user_id) && r.store_fk == env.store_id

unfoldable pub failure_count : SyncMutation → MutationEnv → List FailureRow → ℕ
failure_count m env rows = elim (find (has_failure_key m env) rows) [
  | none ↦ 0
  | some r ↦ r.failure_count
]

unfoldable pub bump_failure : SyncMutation → MutationEnv → List FailureRow → List FailureRow
bump_failure m env [] =
    record {
      mutation_id = m.mutation_id;
      user_fk = env.user_id;
      store_fk = env.store_id;
      failure_count = 1;
    }
    ∷ []
bump_failure m env (r ∷ rs) =
    if has_failure_key m env r
    then record r { failure_count = r.failure_count + 1 } ∷ rs
    else r ∷ bump_failure m env rs

unfoldable pub record_conflict :
    SyncMutation → MutationEnv → Option ℕ → Option ℕ → List ConflictRow → List ConflictRow
record_conflict m env guuid row [] =
    record {
      mutation_id = m.mutation_id;
      user_fk = env.user_id;
      store_fk = env.store_id;
      entity_guuid = guuid;
      server_row = row;
      client_payload = m.payload;
    }
    ∷ []
record_conflict m env guuid row (c ∷ cs) =
    if (c.mutation_id == m.mutation_id && c.user_fk == env.user_id) && c.store_fk == env.store_id
    then record c { server_row = row; client_payload = m.payload } ∷ cs
    else c ∷ record_conflict m env guuid row cs

-- `mapConstraintViolation`
unfoldable pub map_constraint_violation : ℕ → Option PushCode
map_constraint_violation code =
    if code == 23505
    then some duplicate_entry
    else if code == 23503
    then some foreign_key_violation
    else none

-- The skew clamp.
unfoldable pub effective_as_of : SyncMutation → MutationEnv → ℕ
effective_as_of m env = elim m.client_modified_at [
  | none ↦ env.now
  | some t ↦ if ltb t env.now then t else env.now
]

unfoldable pub parent_has_failed : SyncMutation → MutationEnv → Bool
parent_has_failed m env = elim m.parent_guuid [ none ↦ false | some g ↦ member g env.failed_guuids ]

abbrev pub is_update : MutationAction → Bool
is_update update = true
is_update _ = false

-- What a gate of the preflight says: go on, a cached rejection, or `retry_later`.
pub data Gate : Type 0 where
  pass : Gate
  deny later : PushCode → Gate
