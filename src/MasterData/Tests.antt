-- ===== src/MasterData/Tests.antt =====
-- Tests of master data: a table of categories with a name and a parent.
use ayphen_retail_pos.Common.{
  ℕ, ◌+◌, ◌≤◌, ◌≡◌, refl, true, false, Option, none, some, List, [], ◌∷◌, arith,
}
use ayphen_retail_pos.Ledger.{MutationContext, create, update}
use ayphen_retail_pos.MasterData.{
  RejectCode, validation_failed, sync_missing_row_version, Row, FkValue, left_out, value,
  global_or_store, TargetRow, Parsed, MasterDataHandlerConfig, Tombstone, Tables, applied, conflict,
  rejected, violates, write_tombstone, in_scope, resolve_fks, write_fks, guard, create_row,
  update_rows, explain, update_row, delete_rows, remove_guuid, remove_row, apply,
}
use ayphen_retail_pos.MasterData.Versions.{IsUnique}
use ayphen_retail_pos.MasterData.Update.{IsRefusedAt, update_row-IsRefused}
use ayphen_retail_pos.MasterData.Remove.{IsRemoved, remove_row-IsRemoved}

record Category : Type 0 where
  name : ℕ
  parent : Option ℕ

record Payload : Type 0 where
  guuid : ℕ
  name : ℕ
  parent : FkValue

abbrev parse : Payload → Option (Parsed Payload)
parse p = some (record { guuid = p.guuid; fk_of = λ _. p.parent; fields = p })

abbrev with_parent : Option ℕ → Category → Category
with_parent id c = record c { parent = id }

abbrev with_name : ℕ → Category → Category
with_name n c = record c { name = n }

-- The parents that a category may have: one of every store, one of store 1, one of store 2.
abbrev parents : List TargetRow
parents =
    record { id = 70; match_on = 7; store_fk = none }
    ∷ record { id = 80; match_on = 8; store_fk = some 1 }
    ∷ record { id = 90; match_on = 9; store_fk = some 2 }
    ∷ []

abbrev categories : MasterDataHandlerConfig Payload Category
categories = record {
  entity_type = 3;
  create_schema = parse;
  update_schema = parse;
  payload_guuid = λ p. some p.guuid;
  blank = record { name = 0; parent = none };
  map_columns = λ p ctx action c. with_name p.name c;
  write_fk = λ column id c. with_parent id c;
  fk_resolvers = record { field = 1; column = 1; scope = global_or_store; targets = parents } ∷ [];
  guard_row = λ r. none;
}

abbrev ctx : MutationContext
ctx = record { store_id = 1; user_id = 5; device_id = 2 }

abbrev payload : ℕ → ℕ → FkValue → Payload
payload g n p = record { guuid = g; name = n; parent = p }

abbrev tables : List (Row Category) → List Tombstone → Tables Category
tables rows ts = record { rows = rows; tombstones = ts; next_id = 12 }

abbrev category : ℕ → ℕ → Option ℕ → Row Category
category g version parent = record {
  id = g + 10;
  guuid = g;
  store_fk = 1;
  row_version = version;
  alive = true;
  columns = record { name = 4; parent = parent };
}

abbrev two : Tables Category
two = tables (category 0 1 none ∷ category 1 3 none ∷ []) []

abbrev renamed : Row Category
renamed = record (category 1 4 (some 80)) { columns = record { name = 6; parent = some 80 } }

abbrev updated : Tables Category
updated = tables (category 0 1 none ∷ renamed ∷ []) []

update_applied :
    update_row categories (payload 1 6 (value 8)) 3 ctx two ≡ applied 1 (some renamed) updated
unfolding update_row guard resolve_fks in_scope write_fks update_rows
update_applied = refl

unique : IsUnique (two.rows)
unique = ((refl, tt), (tt, tt))

same_version : 3 ≤ 3
same_version = ground arith

update_row-IsRefused_example :
    IsRefusedAt 4 (update_row categories (payload 1 9 left_out) 3 ctx updated)
update_row-IsRefused_example =
    update_row-IsRefused categories (payload 1 6 (value 8)) (payload 1 9 left_out)
      (record { guuid = 1; fk_of = λ _. value 8; fields = payload 1 6 (value 8) })
      (record { guuid = 1; fk_of = λ _. left_out; fields = payload 1 9 left_out }) 3 3 ctx ctx two
      unique refl refl refl refl same_version update_applied

-- The second update is a conflict with the row of the first.
update_conflict : update_row categories (payload 1 9 left_out) 3 ctx updated ≡ conflict 1 renamed
unfolding update_row guard resolve_fks explain
update_conflict = refl

-- A parent of another store is unknown.
update_foreign :
    update_row categories (payload 1 9 (value 9)) 3 ctx two ≡ rejected validation_failed
unfolding update_row guard resolve_fks in_scope
update_foreign = refl

create_applied :
    apply categories create (payload 2 4 (value 7)) none ctx 9 two
    ≡ applied 2 (some (category 2 1 (some 70))) (record {
      rows = category 0 1 none ∷ category 1 3 none ∷ category 2 1 (some 70) ∷ [];
      tombstones = [];
      next_id = 13;
    })
unfolding apply create_row resolve_fks in_scope write_fks
create_applied = refl

create_again : apply categories create (payload 1 4 left_out) none ctx 9 two ≡ violates
unfolding apply create_row resolve_fks
create_again = refl

update_unversioned :
    apply categories update (payload 1 4 left_out) none ctx 9 two
    ≡ rejected sync_missing_row_version
unfolding apply
update_unversioned = refl

abbrev deleted : Tables Category
deleted = tables (category 0 1 none ∷ record (category 1 4 none) { alive = false } ∷ []) (
    record {
      store_fk = 1;
      entity_type = 3;
      entity_guuid = 1;
      entity_id = 11;
      deleted_by = 5;
      deleted_at = 90;
    }
    ∷ [])

remove_applied : remove_row categories (payload 1 0 left_out) ctx 90 two ≡ applied 1 none deleted
unfolding remove_row remove_guuid guard delete_rows write_tombstone
remove_applied = refl

remove_row-IsRemoved_example :
    IsRemoved categories 1 ctx 90 deleted
    × ((later : Payload) (d : Parsed Payload) (version : ℕ) (ctx' : MutationContext)
        → parse later ≡ some d
        → d.guuid ≡ 1
        → ctx'.store_id ≡ 1
        → (code : RejectCode) × (update_row categories later version ctx' deleted ≡ rejected code))
remove_row-IsRemoved_example =
    remove_row-IsRemoved categories (payload 1 0 left_out) 1 ctx 90 two refl remove_applied
