-- ===== src/Singleton/Http.antt =====
-- The handlers of api/handlers/rvinfo.go and api/handlers/ownerinfo.go. The two have the same
-- statements around different parsers. A body that is `none` cannot be read; of an error the response
-- keeps the status and not the text.
pub mod Refines
use go_fdo_server.Prelude.{ℕ, Option, none, some, Bytes, Result, ok, err}
use go_fdo_server.Prelude.Action.{Action, lift, continue, ◌>>=◌}
use go_fdo_server.Prelude.Table.{Table, record_not_found, duplicated_key}
use go_fdo_server.Singleton.{RowError, invalid, db, fetch_value, insert_value, update_value}

pub data Method : Type 0 where
  get post put : Method
  other_method : Method

pub record Request : Type 0 where
  pub method : Method
  pub body : Option Bytes

pub record Response : Type 0 where
  pub status : ℕ
  pub content : Option Bytes

abbrev pub failure : ℕ → Response
failure status = record { status = status; content = none }

abbrev pub answer : ℕ → Bytes → Response
answer status content = record { status = status; content = some content }

-- What a body is stored as, how the column is decoded, and how the value is shown.
pub record Info (E V : Type 0) : Type 0 where
  pub encode : Bytes → Result (RowError E) Bytes
  pub decode : Bytes → Result (RowError E) V
  pub format : V → Option Bytes

-- The response of a call that may fail, in the state that it leaves.
abbrev pub respond : {S E A : Type 0} → Action S E A → (Result E A → Response) → S → Response × S
respond call response s = (response (call s).0, (call s).1)

abbrev pub shown : Option Bytes → Response
shown none = failure 500
shown (some content) = answer 200 content

module _ {E V : Type 0} (i : Info E V) where
  -- The branches of `getRvInfo` and `getOwnerInfo`.
  unfoldable pub get_response : Result (RowError E) V → Response
  get_response (ok v) = shown (i.format v)
  get_response (err (db record_not_found)) = failure 404
  get_response (err e) = failure 500

  -- The branches of `createRvInfo` and `createOwnerInfo`.
  unfoldable pub create_response : Bytes → Result (RowError E) (Unit {0}) → Response
  create_response body (ok u) = answer 201 body
  create_response body (err (db duplicated_key)) = failure 409
  create_response body (err (invalid e)) = failure 400
  create_response body (err e) = failure 500

  -- The branches of `updateRvInfo` and `updateOwnerInfo`.
  unfoldable pub update_response : Bytes → Result (RowError E) (Unit {0}) → Response
  update_response body (ok u) = answer 200 body
  update_response body (err (db record_not_found)) = failure 404
  update_response body (err (invalid e)) = failure 400
  update_response body (err e) = failure 500

  module _ {S : Type 0} (t : Table S Bytes) where
    unfoldable pub fetch : Action S (RowError E) V
    fetch = do value ← fetch_value t; lift (i.decode value)

    unfoldable pub insert : Bytes → Action S (RowError E) (Unit {0})
    insert data_in = do value ← lift (i.encode data_in); insert_value t value

    unfoldable pub update : Bytes → Action S (RowError E) (Unit {0})
    update data_in = do value ← lift (i.encode data_in); update_value t value

    unfoldable pub get_info : S → Response × S
    get_info = respond fetch get_response

    unfoldable pub create_info : Option Bytes → S → Response × S
    create_info none s = (failure 500, s)
    create_info (some body) s = respond (insert body) (create_response body) s

    unfoldable pub update_info : Option Bytes → S → Response × S
    update_info none s = (failure 500, s)
    update_info (some body) s = respond (update body) (update_response body) s

    -- The switch of `RvInfoHandler` and `OwnerInfoHandler`.
    unfoldable pub handle_method : Method → Option Bytes → S → Response × S
    handle_method get body s = get_info s
    handle_method post body s = create_info body s
    handle_method put body s = update_info body s
    handle_method other_method body s = (failure 405, s)

    abbrev pub info_handler : Request → S → Response × S
    info_handler r = handle_method r.method r.body
