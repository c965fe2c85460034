-- ===== src/Owner/To2.antt =====
-- The TO2 state of internal/db/state_to2.go, and `GetReplacementGUID` of internal/db/state.go.
pub mod Promise
pub mod Represents
pub mod Refines
use go_fdo_server.Prelude.{
  ℕ, Bool, Option, some, List, [], Bytes, Text, ok, or_err, copy_into, ◌>>=◌, Result,
}
use go_fdo_server.Prelude.Action.{Action}
use go_fdo_server.Prelude.Codec.{Codec}
use go_fdo_server.Prelude.Table.{Table}
use go_fdo_server.Rendezvous.Session.{Base64, SessionError, cannot_marshal, not_found}
use go_fdo_server.Owner.Columns.{read_row, store_row}
use go_fdo_server.Owner.Rows.{
  To2Session, ReplacementVoucher, KeyExchange, KeyExchangeLibrary, new_to2_session,
  new_replacement_voucher, guid_size, array_column, decode_column, bytes_of, mtu_value, read_devmod,
  encode_devmod, to_array, encode_x_session, decode_x_session, pos,
}

-- The columns that the setters assign.
abbrev pub with_guid : Bytes → To2Session → To2Session
with_guid g row = record row { guid = g }

abbrev pub with_rv_info : Bytes → To2Session → To2Session
with_rv_info x row = record row { rv_info = some x }

abbrev pub with_prove_device : Bytes → To2Session → To2Session
with_prove_device x row = record row { prove_device = some x }

abbrev pub with_setup_device : Bytes → To2Session → To2Session
with_setup_device x row = record row { setup_device = some x }

abbrev pub with_mtu : ℕ → To2Session → To2Session
with_mtu x row = record row { mtu = some (pos x) }

abbrev pub with_devmod : Bytes × Bytes × Bool → To2Session → To2Session
with_devmod (x, y, complete) row = record row {
  devmod = some x;
  modules = some y;
  devmod_complete = some complete;
}

abbrev pub with_replacement : Bytes → ReplacementVoucher → ReplacementVoucher
with_replacement g row = record row { guid = g }

abbrev pub with_hmac : Bytes → ReplacementVoucher → ReplacementVoucher
with_hmac x row = record row { hmac = some x }

module _ {S Q : Type 0} (b : Base64) (sessions : Table S Q) (t : Table S To2Session) where
  unfoldable pub set_guid : Option Text → Bytes → Action S SessionError (Unit {0})
  set_guid token g =
      store_row b sessions (ok tt) (λ id v. t.first_or_create id (new_to2_session g) (with_guid g))
        token

  unfoldable pub guid : Option Text → Action S SessionError Bytes
  guid = read_row b sessions t (λ row. ok (copy_into guid_size row.guid))

  unfoldable pub set_rv_info :
      {A : Type 0} → Codec A → Option Text → A → Action S SessionError (Unit {0})
  set_rv_info c token info =
      store_row b sessions (or_err (c.marshal info) cannot_marshal)
        (λ id v. t.update id (with_rv_info v)) token

  unfoldable pub rv_info : {A : Type 0} → Codec A → Option Text → Action S SessionError A
  rv_info c = read_row b sessions t (λ row. or_err row.rv_info not_found >>= decode_column c)

  unfoldable pub set_prove_device_nonce : Option Text → Bytes → Action S SessionError (Unit {0})
  set_prove_device_nonce token nonce =
      store_row b sessions (ok nonce) (λ id v. t.update id (with_prove_device v)) token

  unfoldable pub prove_device_nonce : Option Text → Action S SessionError Bytes
  prove_device_nonce = read_row b sessions t (λ row. array_column row.prove_device)

  unfoldable pub set_setup_device_nonce : Option Text → Bytes → Action S SessionError (Unit {0})
  set_setup_device_nonce token nonce =
      store_row b sessions (ok nonce) (λ id v. t.update id (with_setup_device v)) token

  unfoldable pub setup_device_nonce : Option Text → Action S SessionError Bytes
  setup_device_nonce = read_row b sessions t (λ row. array_column row.setup_device)

  -- The MTU is a uint16.
  unfoldable pub set_mtu : Option Text → ℕ → Action S SessionError (Unit {0})
  set_mtu token size = store_row b sessions (ok size) (λ id v. t.update id (with_mtu v)) token

  unfoldable pub mtu : Option Text → Action S SessionError ℕ
  mtu = read_row b sessions t (λ row. mtu_value row.mtu)

  module _ {D : Type 0} (devmods : Codec D) (lists : Codec (List Text)) where
    unfoldable pub set_devmod :
        Option Text → D → List Text → Bool → Action S SessionError (Unit {0})
    set_devmod token d names complete =
        store_row b sessions (encode_devmod devmods lists d names complete)
          (λ id v. t.update id (with_devmod v)) token

    -- `zero_value` is the zero value of serviceinfo.Devmod.
    unfoldable pub devmod : D → Option Text → Action S SessionError (D × List Text × Bool)
    devmod zero_value = read_row b sessions t (read_devmod devmods lists zero_value)

module _ {S Q : Type 0} (b : Base64) (sessions : Table S Q) (t : Table S ReplacementVoucher) where
  unfoldable pub set_replacement_guid : Option Text → Bytes → Action S SessionError (Unit {0})
  set_replacement_guid token g =
      store_row b sessions (ok tt)
        (λ id v. t.first_or_create id (new_replacement_voucher g) (with_replacement g)) token

  unfoldable pub replacement_guid : Option Text → Action S SessionError Bytes
  replacement_guid = read_row b sessions t (λ row. ok (copy_into guid_size row.guid))

  unfoldable pub get_replacement_guid : Option Text → Action S SessionError Bytes
  get_replacement_guid = read_row b sessions t (λ row. to_array row.guid)

  unfoldable pub set_replacement_hmac :
      {H : Type 0} → Codec H → Option Text → H → Action S SessionError (Unit {0})
  set_replacement_hmac c token hmac =
      store_row b sessions (or_err (c.marshal hmac) cannot_marshal)
        (λ id v. t.update id (with_hmac v)) token

  unfoldable pub replacement_hmac : {H : Type 0} → Codec H → Option Text → Action S SessionError H
  replacement_hmac c = read_row b sessions t (λ row. decode_column c (bytes_of row.hmac))

module _ {S Q X : Type 0} (b : Base64) (sessions : Table S Q) (t : Table S KeyExchange)
    (lib : KeyExchangeLibrary X) where
  unfoldable pub set_x_session : Option Text → Text → X → Action S SessionError (Unit {0})
  set_x_session token suite x =
      store_row b sessions (encode_x_session lib x)
        (λ id v. t.save id (record { suite = suite; cbor = v })) token

  unfoldable pub x_session : Option Text → Action S SessionError (Text × X)
  x_session = read_row b sessions t (decode_x_session lib)
