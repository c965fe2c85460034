-- ===== src/Singleton/V2.antt =====
-- The handlers of internal/handlers/rvinfo/handler.go over the methods of internal/state/rvinfo.go that
-- they call. ErrRvInfoNotFound stands here as the database's error for a missing row.
pub mod RoundTrip
pub mod Removal
use go_fdo_server.Prelude.{
  ℕ, ◌≡◌, Option, none, some, List, [], Bytes, Result, ok, err, or_err, ◌>>=◌,
}
use go_fdo_server.Prelude.Action.{Action}
use go_fdo_server.Prelude.Codec.{Codec}
use go_fdo_server.Prelude.Table.{Table, record_not_found}
use go_fdo_server.Rv.{RvInstruction}
use go_fdo_server.Rv.Json.{Object}
use go_fdo_server.Rv.Cbor.{Platform}
use go_fdo_server.V2.Directives.{parse_v2_json}
use go_fdo_server.V2.Converter.{convert_to_v2_json}
use go_fdo_server.Singleton.{
  RowError, db, cannot_unmarshal, cannot_marshal, fetch_value, upsert_value, delete_value,
}
use go_fdo_server.Singleton.Documents.{answer_of}
use go_fdo_server.Prelude.Action

-- components.RVInfo, whose items keep the JSON that they were read from, and encoding/json on it.
-- `to_objects` is json.Marshal and the json.Unmarshal of parseV2JSON, `of_objects` the reverse.
pub record RvInfoDocuments (D : Type 0) : Type 0 where
  pub empty : D
  pub to_objects : D → Option (List (List Object))
  pub of_objects : List (List Object) → Option D
  pub to_objects-of_objects :
      (o : List (List Object)) {d : D} → of_objects o ≡ some d → to_objects d ≡ some o

pub record Reply (D : Type 0) : Type 0 where
  pub status : ℕ
  pub document : Option D

abbrev pub refusal : {D : Type 0} → ℕ → Reply D
refusal status = record { status = status; document = none }

abbrev pub accepted : {D : Type 0} → D → Reply D
accepted d = record { status = 200; document = some d }

abbrev pub NoError : Type 0
NoError = ⊥

module _ {S D : Type 0} (p : Platform) (infos : Codec (List (List RvInstruction)))
    (docs : RvInfoDocuments D) (t : Table S Bytes) where
  -- `FetchRvInfo`
  unfoldable pub fetch_rv_info : Action S (RowError NoError) (List (List RvInstruction))
  fetch_rv_info =
      Action.handle (fetch_value t)
        (λ r. Action.lift (r >>= λ value. or_err (infos.unmarshal value) cannot_unmarshal))

  -- `UpsertRvInfo`
  unfoldable pub upsert_rv_info : List (List RvInstruction) → Action S (RowError NoError) (Unit {0})
  upsert_rv_info directives =
      Action.continue (or_err (infos.marshal directives) cannot_marshal) (upsert_value t)

  -- `DeleteRvInfo`
  abbrev pub delete_rv_info : Action S (RowError NoError) (Unit {0})
  delete_rv_info = delete_value t

  -- `convertToV2JSON` and `json.Unmarshal`, both of which answer 500.
  unfoldable pub show_rv_info : List (List RvInstruction) → Option D
  show_rv_info directives = elim (convert_to_v2_json p directives) [
    | ok objects ↦ docs.of_objects objects
    | err e ↦ none
  ]

  unfoldable pub get_reply : Result (RowError NoError) (List (List RvInstruction)) → Reply D
  get_reply (err (db record_not_found)) = accepted docs.empty
  get_reply (err e) = refusal 500
  get_reply (ok directives) = elim (show_rv_info directives) [
    | some d ↦ accepted d
    | none ↦ refusal 500
  ]

  unfoldable pub get_rendezvous_info : S → Reply D × S
  get_rendezvous_info s = (get_reply (fetch_rv_info s).0, (fetch_rv_info s).1)

  unfoldable pub update_reply : D → Result (RowError NoError) (Unit {0}) → Reply D
  update_reply d (ok u) = accepted d
  update_reply d (err e) = refusal 500

  -- The branches from the marshalled body on; a body that cannot be marshalled answers 400.
  unfoldable pub update_objects : D → List (List Object) → S → Reply D × S
  update_objects d objects s = elim (parse_v2_json p objects) [
    | err e ↦ (refusal 400, s)
    | ok directives ↦
        (update_reply d (upsert_rv_info directives s).0, (upsert_rv_info directives s).1)
  ]

  unfoldable pub update_rendezvous_info : Option D → S → Reply D × S
  update_rendezvous_info none s = (refusal 400, s)
  update_rendezvous_info (some d) s = elim (docs.to_objects d) [
    | none ↦ (refusal 400, s)
    | some objects ↦ update_objects d objects s
  ]

  -- The branches of a deletion from the fetched instructions on.
  unfoldable pub delete_shown : D → S → Reply D × S
  delete_shown d s = (update_reply d (delete_rv_info s).0, (delete_rv_info s).1)

  unfoldable pub delete_fetched :
      Result (RowError NoError) (List (List RvInstruction)) → S → Reply D × S
  delete_fetched (err (db record_not_found)) s = (accepted docs.empty, s)
  delete_fetched (err e) s = (refusal 500, s)
  delete_fetched (ok directives) s = elim (show_rv_info directives) [
    | none ↦ (refusal 500, s)
    | some d ↦ delete_shown d s
  ]

  unfoldable pub delete_rendezvous_info : S → Reply D × S
  delete_rendezvous_info s = delete_fetched (fetch_rv_info s).0 (fetch_rv_info s).1
