-- ===== src/Singleton/Http/Refines.antt =====
-- The handlers as a register that is created once, overwritten, and read.
use go_fdo_server.Prelude.{◌≡◌, ◌⊎◌, Option, none, some, Bytes, Result, ok, err}
use go_fdo_server.Prelude.Table.{Table}
use go_fdo_server.Singleton.{RowError}
use go_fdo_server.Singleton.Http.{
  Method, Response, failure, answer, Info, get_response, create_response, update_response,
}

module _ {E V : Type 0} (i : Info E V) where
  -- What the register promises: the response, and what is stored afterwards.
  abbrev pub promised_get : Option Bytes → Response × Option Bytes
  promised_get none = (failure 404, none)
  promised_get (some v) = (get_response i (i.decode v), some v)

  abbrev pub promised_create :
      Bytes → Result (RowError E) Bytes → Option Bytes → Response × Option Bytes
  promised_create body (err e) o = (create_response i body (err e), o)
  promised_create body (ok v) none = (answer 201 body, some v)
  promised_create body (ok v) (some old) = (failure 409, some old)

  abbrev pub promised_update :
      Bytes → Result (RowError E) Bytes → Option Bytes → Response × Option Bytes
  promised_update body (err e) o = (update_response i body (err e), o)
  promised_update body (ok v) none = (failure 404, none)
  promised_update body (ok v) (some old) = (answer 200 body, some v)

  abbrev pub promised_for : Method → Option Bytes → Option Bytes → Response × Option Bytes
  promised_for Method.get body o = promised_get o
  promised_for Method.post none o = (failure 500, o)
  promised_for Method.post (some body) o = promised_create body (i.encode body) o
  promised_for Method.put none o = (failure 500, o)
  promised_for Method.put (some body) o = promised_update body (i.encode body) o
  promised_for Method.other_method body o = (failure 405, o)

  -- A call keeps the promise, or it answers 500 and stores nothing.
  abbrev pub Keeps : Response × Option Bytes → Option Bytes → Response → Option Bytes → Type 0
  Keeps promise before r after =
      ((r ≡ promise.0) × (after ≡ promise.1)) ⊎ ((r ≡ failure 500) × (after ≡ before))
