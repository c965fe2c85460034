-- ===== src/Owner/To2/Represents.antt =====
-- How a row of to2_sessions stands for a view, and that setting a column keeps that up.
use go_fdo_server.Prelude.{
  ℕ, ◌≡◌, ◌≤◌, refl, Bool, false, Option, none, some, List, [], Bytes, Text, Result, ok, or_err,
  length, copy_into, copy_into-length, arith, ◌>>=◌, or_err-eq-ok, >>=-eq-ok,
}
use mathlib.Core.Option
use go_fdo_server.Prelude.Codec.{Codec}
use go_fdo_server.Prelude.Table.{assigned}
use go_fdo_server.Rendezvous.Session.{SessionError, cannot_marshal, not_found}
use go_fdo_server.Owner.Rows.{
  read_devmod, encode_devmod, pos, new_to2_session, To2Session, guid_size, max_uint16, array_column,
  decode_column, mtu_value, devmod_column,
}
use go_fdo_server.Owner.To2.{with_guid, with_rv_info, with_devmod, with_guid}
use go_fdo_server.Owner.To2.Promise.{View, To2Write, new_view, promised}

-- A value that is stored as it is.
abbrev pub stored_as : {V : Type 0} → V → Result SessionError V
stored_as v = ok v

module _ {A D : Type 0} (infos : Codec A) (devmods : Codec D) (lists : Codec (List Text))
    (zero_value : D) where
  abbrev pub devmod_of : Option (D × List Text × Bool) → D × List Text × Bool
  devmod_of none = (zero_value, [], false)
  devmod_of (some d) = d

  abbrev pub rv_info_value : To2Session → Result SessionError A
  rv_info_value row = or_err row.rv_info not_found >>= decode_column infos

  -- A row shows a view: every getter decodes from it what the view has.
  abbrev pub ShowsView : To2Session → View A D → Type 0
  ShowsView row v =
      (copy_into guid_size row.guid ≡ v.guid)
      × (rv_info_value row ≡ or_err v.rv_info not_found)
      × (array_column row.prove_device ≡ or_err v.prove_device not_found)
      × (array_column row.setup_device ≡ or_err v.setup_device not_found)
      × (mtu_value row.mtu ≡ or_err v.mtu not_found)
      × (read_devmod devmods lists zero_value row ≡ ok (devmod_of v.devmod))

  abbrev pub Represents : Option To2Session → Option (View A D) → Type 0
  Represents none none = Unit
  Represents (some row) (some v) = ShowsView row v
  Represents none (some v) = ⊥
  Represents (some row) none = ⊥

  copy_into_array : (g : Bytes) → length g ≡ guid_size → copy_into guid_size g ≡ g
  copy_into_array g h = rw (← h) (copy_into-length g)

  pub new_to2_session-Represents :
      (g : Bytes) → length g ≡ guid_size → ShowsView (new_to2_session g) (new_view g)
  unfolding mtu_value read_devmod devmod_column
  new_to2_session-Represents g h = (copy_into_array g h, refl, refl, refl, refl, refl)

  pub with_guid-Represents :
      (g : Bytes) (o : Option To2Session) (p : Option (View A D))
      → length g ≡ guid_size
      → Represents o p
      → Represents
          (some (assigned (new_to2_session g) (with_guid g) o))
          (promised (To2Write.guid g) p)
  unfolding read_devmod
  with_guid-Represents g none none h r = new_to2_session-Represents g h
  with_guid-Represents g (some row) (some v) h (_, a, n, m, u, d) =
      (copy_into_array g h, a, n, m, u, d)
  with_guid-Represents g none (some v) h r = absurd r
  with_guid-Represents g (some row) none h r = absurd r

  -- Setting a column of a row that is there, and doing nothing when it is not there.
  pub map-Represents :
      (f : To2Session → To2Session) (w : To2Write A D) (o : Option To2Session)
      (p : Option (View A D))
      → promised w none ≡ none
      → ((row : To2Session) (v : View A D)
          → ShowsView row v
          → Represents (some (f row)) (promised w (some v)))
      → Represents o p
      → Represents (Option.map f o) (promised w p)
  map-Represents f w none none quiet k r = rw quiet tt
  map-Represents f w (some row) (some v) quiet k r = k row v r
  map-Represents f w none (some v) quiet k r = absurd r
  map-Represents f w (some row) none quiet k r = absurd r

  pub rv_info-Represents :
      (a : A) {x : Bytes} (row : To2Session) (v : View A D)
      → or_err (infos.marshal a) cannot_marshal ≡ ok x
      → ShowsView row v
      → ShowsView (with_rv_info x row) (record v { rv_info = some a })
  unfolding read_devmod
  rv_info-Represents a {x} row v h (g, _, n, m, u, d) =
      let known_a = infos.unmarshal-marshal a (or_err-eq-ok (infos.marshal a) cannot_marshal h) in
      (g, rw known_a, n, m, u, d)

  pub nonce-Represents :
      (n : Bytes) {x : Bytes}
      → length n ≡ guid_size
      → stored_as n ≡ ok x
      → array_column (some x) ≡ ok n
  nonce-Represents n {x} h e = let same : n ≡ x = cc e in rw (← same) (rw (copy_into_array n h))

  pub mtu-Represents :
      (n : ℕ) {x : ℕ} → n ≤ max_uint16 → stored_as n ≡ ok x → mtu_value (some (pos x)) ≡ ok n
  unfolding mtu_value
  mtu-Represents n h e = ground arith

  pub devmod-Represents :
      (d : D) (names : List Text) (complete : Bool) {x : Bytes × Bytes × Bool} (row : To2Session)
      → encode_devmod devmods lists d names complete ≡ ok x
      → read_devmod devmods lists zero_value (with_devmod x row) ≡ ok (d, names, complete)
  unfolding encode_devmod read_devmod devmod_column
  devmod-Represents d names complete {x} row h =
      let (y, marshalled, more) = >>=-eq-ok (or_err (devmods.marshal d) cannot_marshal) _ h in
      let (z, listed, same) = >>=-eq-ok (or_err (lists.marshal names) cannot_marshal) _ more in
      let known_d =
        devmods.unmarshal-marshal d (or_err-eq-ok (devmods.marshal d) cannot_marshal marshalled) in
      let known_names =
        lists.unmarshal-marshal names (or_err-eq-ok (lists.marshal names) cannot_marshal listed) in
      let same' : (y, z, complete) ≡ x = cc same in rw (← same') (rw (known_d, known_names))
