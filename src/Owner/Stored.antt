-- ===== src/Owner/Stored.antt =====
-- What is stored for a session of DI and TO2 outside to2_sessions is what is found again.
use go_fdo_server.Prelude.{
  ◌≡◌, refl, true, Option, none, some, Bytes, Text, ok, or_err-eq-ok, length, copy_into,
  copy_into-length, ◌=ᵇ◌, =ᵇ_iff, arith,
}
use go_fdo_server.Prelude.Table.{Table, Apart, assigned}
use go_fdo_server.Rendezvous.Session.{Base64, SessionError, cannot_marshal, Shows}
use go_fdo_server.Rendezvous.Token.{decode_token}
use go_fdo_server.Owner.Columns.Laws.{read_row-Shows, store_row-first_or_create, store_row-save}
use go_fdo_server.Owner.Rows.{
  ReplacementVoucher, KeyExchange, KeyExchangeLibrary, encode_x_session, decode_x_session,
  guid_size, new_replacement_voucher, to_array,
}
use go_fdo_server.Owner.To2.{
  set_replacement_guid, replacement_guid, get_replacement_guid, set_x_session, x_session,
  with_replacement,
}

=ᵇ-refl : (a : Bytes) → (a =ᵇ a) ≡ true
=ᵇ-refl a = ground (arith, =ᵇ_iff a a)

module _ {S Q : Type 0} (b : Base64) (sessions : Table S Q) (t : Table S ReplacementVoucher)
    (k : Apart sessions t) (k' : Apart t sessions) where
  assigned-replacement :
      (g : Bytes) (o : Option ReplacementVoucher)
      → (assigned (new_replacement_voucher g) (with_replacement g) o).guid ≡ g
  assigned-replacement g none = refl
  assigned-replacement g (some row) = refl

  to_array_lem : (g : Bytes) → length g ≡ guid_size → to_array g ≡ ok g
  to_array_lem g h =
      let same : copy_into guid_size g ≡ g = rw (← h) (copy_into-length g) in ground (arith, same)

  -- A replacement GUID of 16 bytes that was stored for a session is what both getters find, and the one
  -- that converts the column to an array does not panic, unless the database fails.
  pub get_replacement_guid-set_replacement_guid :
      (token : Option Text) (id : Bytes) (g : Bytes) (s : S)
      → length g ≡ guid_size
      → decode_token b sessions token ≡ ok id
      → (set_replacement_guid b sessions t token g s).0 ≡ ok tt
      → let after = (set_replacement_guid b sessions t token g s).1 in
        Shows (ok g) (replacement_guid b sessions t token after).0
        × Shows (ok g) (get_replacement_guid b sessions t token after).0
  unfolding set_replacement_guid replacement_guid get_replacement_guid
  get_replacement_guid-set_replacement_guid token id g s size named h =
      let (live, rows) =
        store_row-first_or_create b sessions t k k' (new_replacement_voucher g) (with_replacement g)
          token id s named h in
      let after = (set_replacement_guid b sessions t token g s).1 in
      let row : t.rows after id
          ≡ some (assigned (new_replacement_voucher g) (with_replacement g) (t.rows s id)) =
        rw (rows id, =ᵇ-refl id) in
      let same : copy_into guid_size g ≡ g = rw (← size) (copy_into-length g) in
      let shows =
        read_row-Shows b sessions t k (λ r. ok (copy_into guid_size r.guid)) token id after named
          live in
      let shows' = read_row-Shows b sessions t k (λ r. to_array r.guid) token id after named live in
      (
        rw (row, assigned-replacement g (t.rows s id), same) at shows,
        rw (row, assigned-replacement g (t.rows s id), to_array_lem g size) at shows',
      )

module _ {S Q X : Type 0} (b : Base64) (sessions : Table S Q) (t : Table S KeyExchange)
    (lib : KeyExchangeLibrary X) (k : Apart sessions t) (k' : Apart t sessions) where
  encode_x_session_inv :
      (x : X) {v : Bytes} → encode_x_session lib x ≡ ok v → lib.marshal_binary x ≡ some v
  unfolding encode_x_session
  encode_x_session_inv x {v} h =
      ground (arith, or_err-eq-ok {E = SessionError} (lib.marshal_binary x) cannot_marshal)

  -- A key exchange that a new one of its suite can take over from its encoding is found again after it
  -- was stored, with its suite, unless the database fails.
  pub x_session-set_x_session :
      (token : Option Text) (id : Bytes) (suite : Text) (x : X) (s : S)
      → lib.is_unmarshaler (lib.new suite) ≡ true
      → ((e : Bytes)
          → lib.marshal_binary x ≡ some e
          → lib.unmarshal_binary (lib.new suite) e ≡ some x)
      → decode_token b sessions token ≡ ok id
      → (set_x_session b sessions t lib token suite x s).0 ≡ ok tt
      → Shows
          (ok (suite, x))
          (x_session b sessions t lib token (set_x_session b sessions t lib token suite x s).1).0
  unfolding set_x_session x_session encode_x_session decode_x_session
  x_session-set_x_session token id suite x s able same named h =
      let (v, encoded, live, rows) =
        store_row-save b sessions t k k' (encode_x_session lib x)
          (λ e. record { suite = suite; cbor = e }) token id s named h in
      let after = (set_x_session b sessions t lib token suite x s).1 in
      let stored : KeyExchange = record { suite = suite; cbor = v } in
      let row : t.rows after id ≡ some stored = rw (rows id, =ᵇ-refl id) in
      let restored = same v (encode_x_session_inv x encoded) in
      let decoded : decode_x_session lib stored ≡ ok (suite, x) = rw able (rw restored) in
      let shows = read_row-Shows b sessions t k (decode_x_session lib) token id after named live in
      rw (row, decoded) at shows
