-- ===== src/Singleton.antt =====
-- The one row of the tables rvinfo and owner_info, and the statements on it in internal/db/db.go and
-- internal/state/rvinfo.go. The table's check allows no other key than 1.
pub mod Laws
pub mod Http
pub mod Documents
pub mod Migration
pub mod V2
use go_fdo_server.Prelude.{◌==◌, Bytes, [], ◌∷◌, map_err, if◌then◌else◌}
use go_fdo_server.Prelude.Action.{Action, lift, raise, pure, handle, ◌>>=◌}
use go_fdo_server.Prelude.Table.{DbError, record_not_found, duplicated_key, Table}

-- `E` is what a parser reports: `invalid` is ErrInvalidRvInfo or ErrInvalidOwnerInfo with the parser's
-- error, `unparsed` the parser's error as it is.
pub data RowError (E : Type 0) : Type 0 where
  invalid unparsed : E → RowError E
  cannot_marshal cannot_unmarshal : RowError E
  db : DbError → RowError E

abbrev pub row_key : Bytes
row_key = 1 ∷ []

module _ {S E : Type 0} (t : Table S Bytes) where
  -- `Where("id = ?", 1).First(&row)`
  unfoldable pub fetch_value : Action S (RowError E) Bytes
  fetch_value = handle (t.first row_key) (λ r. lift (map_err db r))

  -- `Clauses(clause.OnConflict{DoNothing: true}).Create(&row)`
  unfoldable pub insert_value : Bytes → Action S (RowError E) (Unit {0})
  insert_value value = do
    count ← handle (t.create_or_ignore row_key value) (λ r. lift (map_err db r))
    if count == 0 then raise (db duplicated_key) else pure tt

  -- `Model(…).Where("id = ?", 1).Update("value", value)`
  unfoldable pub update_value : Bytes → Action S (RowError E) (Unit {0})
  update_value value = do
    count ← handle (t.update row_key (λ old. value)) (λ r. lift (map_err db r))
    if count == 0 then raise (db record_not_found) else pure tt

  -- `Save(&row)`
  unfoldable pub upsert_value : Bytes → Action S (RowError E) (Unit {0})
  upsert_value value = handle (t.save row_key value) (λ r. lift (map_err db r))

  -- `Where("id = ?", 1).Delete(&RvInfo{})`
  unfoldable pub delete_value : Action S (RowError E) (Unit {0})
  delete_value = do
    count ← handle (t.delete row_key) (λ r. lift (map_err db r))
    if count == 0 then raise (db record_not_found) else pure tt
