-- ===== src/Pull/Fixture.antt =====
-- A registry with one table for the tests: the table is a list of guuids with a content, the newest
-- first, and content 99 makes a statement throw.
use ayphen_retail_pos.Common.{
  ℕ, Bool, Option, none, some, List, [], ◌∷◌, ◌==◌, if◌then◌else◌, any, member,
}
use ayphen_retail_pos.SyncDb.{
  WireRow, create, QueueRow, pending, SyncDb, ok, throws, SyncApplier, ApplierLookup,
}

abbrev pub Table : Type 0
Table = List (ℕ × ℕ)

abbrev pub put : WireRow → Table → Table
put r t = elim r.guuid [ none ↦ t | some g ↦ (g, r.content) ∷ t ]

abbrev pub put_all : List WireRow → Table → Table
put_all [] t = t
put_all (r ∷ rs) t = put_all rs (put r t)

abbrev pub drop_all : List ℕ → Table → Table
drop_all gs [] = []
drop_all gs ((g, c) ∷ t) = if member g gs then drop_all gs t else (g, c) ∷ drop_all gs t

abbrev pub lookup : Table → ℕ → Option ℕ
lookup [] g = none
lookup ((h, c) ∷ t) g = if h == g then some c else lookup t g

abbrev pub is_bad : WireRow → Bool
is_bad r = r.content == 99

abbrev pub table_applier : SyncApplier Table
table_applier = record {
  upsert_all = λ store rows t. if any is_bad rows then throws else ok (put_all rows t);
  apply_deletes = λ store gs t. ok (drop_all gs t);
  delete_all_for_store = λ store t. ok [];
}

abbrev pub registry : ApplierLookup Table
registry = record { get = λ type. some table_applier; entity_types = 1 ∷ [] }

abbrev pub row_of : ℕ → ℕ → WireRow
row_of g c = record { guuid = some g; id = some g; row_version = 1; content = c }

-- A queued create of store 1 with a priority and an age.
abbrev pub queued : ℕ → ℕ → ℕ → ℕ → QueueRow
queued id g priority at = record {
  mutation_id = id;
  store_id = 1;
  entity_type = 1;
  entity_guuid = g;
  action = create;
  payload = 0;
  expected_row_version = none;
  client_modified_at = at;
  parent_guuid = none;
  priority = priority;
  pre_image = none;
  server_row = none;
  status = pending;
  attempts = 0;
  error_code = none;
  error_message = none;
  first_failure_at = none;
  last_failure_at = none;
  created_at = at;
}

abbrev pub device : SyncDb Table
device = record {
  tables = (10, 5) ∷ (11, 6) ∷ [];
  queue = queued 1 10 0 50 ∷ queued 2 11 5 60 ∷ [];
  failed = [];
  next_failed_id = 1;
  cursors = [];
}
