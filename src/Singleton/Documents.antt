-- ===== src/Singleton/Documents.antt =====
-- The contents of the two rows: rendezvous instructions, as V1 documents and as CBOR, and the addresses
-- of the owner. The functions of internal/db/db.go and internal/state/rvinfo.go on them.
use go_fdo_server.Prelude.{
  ◌≡◌, Option, none, some, List, Bytes, Text, Result, ok, err, or_err, map_err, ◌>>=◌, Result-cases,
  inl, inr,
}
use go_fdo_server.Prelude.Action.{Action, lift, handle, continue}
use go_fdo_server.Prelude.Codec.{Codec}
use go_fdo_server.Prelude.Table.{Table}
use go_fdo_server.Rv.{RvInstruction}
use go_fdo_server.Rv.Cbor.{Platform, Net}
use go_fdo_server.V1.Human.{RvHuman, HumanError, parse_human_readable_rv_json}
use go_fdo_server.V1.Convert.{convert_directives}
use go_fdo_server.V1.To2Addr.{
  To2Human, To2Error, Transports, RvTo2Addr, parse_human_to_to2_addrs_json,
}
use go_fdo_server.Singleton.{
  RowError, invalid, unparsed, cannot_marshal, cannot_unmarshal, fetch_value, insert_value,
  update_value, upsert_value,
}
use go_fdo_server.Singleton.Http.{Info, Request, Response, insert, update, fetch, info_handler}

-- A parser's error, or that of json.Unmarshal before it.
pub data DocumentError (E : Type 0) : Type 0 where
  no_json : DocumentError E
  refused : E → DocumentError E

abbrev pub answer_of : {E A : Type 0} → Result E A → Option A
answer_of (ok a) = some a
answer_of (err e) = none

-- `json_texts` is `json.Marshal` of a []string; `json` is encoding/json for the V1 documents, and
-- `infos` is cbor for [][]protocol.RvInstruction.
module _ (p : Platform) (json_texts : List Text → Option Text) (json : Codec (List RvHuman))
    (infos : Codec (List (List RvInstruction))) where
  -- ParseHumanReadableRvJSON
  unfoldable pub parse_v1 : Bytes → Result (DocumentError HumanError) (List (List RvInstruction))
  parse_v1 text_in = do
    items ← or_err (json.unmarshal text_in) no_json
    map_err refused (parse_human_readable_rv_json p items)

  -- ConvertRvInstructionsToV1JSON
  unfoldable pub format_v1 : List (List RvInstruction) → Option Bytes
  format_v1 directives = elim (convert_directives p json_texts directives) [
    | ok items ↦ json.marshal items
    | err e ↦ none
  ]

  abbrev pub encode_cbor : {E : Type 0} → List (List RvInstruction) → Result (RowError E) Bytes
  encode_cbor directives = or_err (infos.marshal directives) cannot_marshal

  abbrev pub decode_cbor : {E : Type 0} → Bytes → Result (RowError E) (List (List RvInstruction))
  decode_cbor value = or_err (infos.unmarshal value) cannot_unmarshal

  abbrev pub rv_info : Info (DocumentError HumanError) (List (List RvInstruction))
  rv_info = record {
    encode = λ text_in. map_err invalid (parse_v1 text_in) >>= encode_cbor;
    decode = decode_cbor;
    format = format_v1;
  }

  module _ {S : Type 0} (t : Table S Bytes) where
    abbrev pub insert_rv_info : Bytes → Action S (RowError (DocumentError HumanError)) (Unit {0})
    insert_rv_info = insert rv_info t

    abbrev pub update_rv_info : Bytes → Action S (RowError (DocumentError HumanError)) (Unit {0})
    update_rv_info = update rv_info t

    abbrev pub fetch_rv_info :
        Action S (RowError (DocumentError HumanError)) (List (List RvInstruction))
    fetch_rv_info = fetch rv_info t

    abbrev pub rv_info_handler : Request → S → Response × S
    rv_info_handler = info_handler rv_info t

    unfoldable pub insert_rv_info_cbor :
        {E : Type 0} → List (List RvInstruction) → Action S (RowError E) (Unit {0})
    insert_rv_info_cbor directives = continue (encode_cbor directives) (insert_value t)

    unfoldable pub update_rv_info_cbor :
        {E : Type 0} → List (List RvInstruction) → Action S (RowError E) (Unit {0})
    update_rv_info_cbor directives = continue (encode_cbor directives) (update_value t)

    unfoldable pub upsert_rv_info_cbor :
        {E : Type 0} → List (List RvInstruction) → Action S (RowError E) (Unit {0})
    upsert_rv_info_cbor directives = continue (encode_cbor directives) (upsert_value t)

    -- `InsertRvInfo` parses and calls `InsertRvInfoCBOR`; `UpdateRvInfo` does so with its own.
    pub insert_rv_info_lem :
        (text_in : Bytes) (s : S)
        → insert_rv_info text_in s
          ≡ continue (map_err invalid (parse_v1 text_in)) insert_rv_info_cbor s
    unfolding insert insert_rv_info_cbor
    insert_rv_info_lem text_in s = elim (Result-cases (parse_v1 text_in)) [
      | inl (e, bad) ↦ rw bad
      | inr (directives, good) ↦ rw good
    ]

    pub update_rv_info_lem :
        (text_in : Bytes) (s : S)
        → update_rv_info text_in s
          ≡ continue (map_err invalid (parse_v1 text_in)) update_rv_info_cbor s
    unfolding update update_rv_info_cbor
    update_rv_info_lem text_in s = elim (Result-cases (parse_v1 text_in)) [
      | inl (e, bad) ↦ rw bad
      | inr (directives, good) ↦ rw good
    ]

-- parseHumanToTO2AddrsJSON; `json` is encoding/json for the documents of addresses.
module _ (net : Net) (k : Transports) (json : Codec (List To2Human)) where
  unfoldable pub parse_owner_info : Bytes → Result (DocumentError To2Error) (List RvTo2Addr)
  parse_owner_info text_in = do
    items ← or_err (json.unmarshal text_in) no_json
    map_err refused (parse_human_to_to2_addrs_json net k items)

  -- The text is stored and shown as it is.
  abbrev pub owner_info : Info (DocumentError To2Error) Bytes
  owner_info = record {
    encode = λ text_in. map_err invalid (parse_owner_info text_in) >>= λ addresses. ok text_in;
    decode = λ value. ok value;
    format = λ value. some value;
  }

  module _ {S : Type 0} (t : Table S Bytes) where
    abbrev pub insert_owner_info : Bytes → Action S (RowError (DocumentError To2Error)) (Unit {0})
    insert_owner_info = insert owner_info t

    abbrev pub update_owner_info : Bytes → Action S (RowError (DocumentError To2Error)) (Unit {0})
    update_owner_info = update owner_info t

    abbrev pub fetch_owner_info_json : Action S (RowError (DocumentError To2Error)) Bytes
    fetch_owner_info_json = fetch_value t

    unfoldable pub fetch_owner_info : Action S (RowError (DocumentError To2Error)) (List RvTo2Addr)
    fetch_owner_info =
        handle fetch_owner_info_json
          (λ r. lift (r >>= λ value. map_err unparsed (parse_owner_info value)))

    abbrev pub owner_info_handler : Request → S → Response × S
    owner_info_handler = info_handler owner_info t
