-- ===== src/Owner/To2/Refines.antt =====
-- The TO2 session of internal/db/state_to2.go keeps its promise: what the setters have stored is what
-- the getters answer.
use go_fdo_server.Prelude.{
  ◌≡◌, refl, Option, none, some, List, [], ◌∷◌, Bytes, Text, Result, ok, or_err, ◌=ᵇ◌, =ᵇ_iff,
  false, true, arith, Result-cases, inl, inr,
}
use go_fdo_server.Prelude.Action.{Action, pure, ◌>>◌}
use go_fdo_server.Prelude.Codec.{Codec}
use go_fdo_server.Prelude.Table.{Table, Apart}
use go_fdo_server.Rendezvous.Session.{Base64, SessionError, cannot_marshal, not_found, Shows}
use go_fdo_server.Rendezvous.Token.{decode_token}
use go_fdo_server.Rendezvous.Token.Lifetime.{known}
use go_fdo_server.Owner.Columns.Laws.{read_row-Shows, store_row-update, store_row-first_or_create}
use go_fdo_server.Owner.Columns.{store_row, row_value, read_row}
use go_fdo_server.Owner.Rows.{To2Session, new_to2_session, encode_devmod, read_devmod}
use go_fdo_server.Owner.To2.{
  set_guid, guid, set_rv_info, rv_info, set_prove_device_nonce, prove_device_nonce,
  set_setup_device_nonce, setup_device_nonce, set_mtu, mtu, set_devmod, devmod, with_guid,
  with_rv_info, with_prove_device, with_setup_device, with_mtu, with_devmod,
}
use go_fdo_server.Owner.To2.Promise.{View, To2Write, IsTyped, AreTyped, promised, promised_all}
use go_fdo_server.Owner.To2.Represents.{
  Represents, ShowsView, with_guid-Represents, map-Represents, rv_info-Represents, nonce-Represents,
  mtu-Represents, devmod-Represents, devmod_of,
}

=ᵇ-refl : (a : Bytes) → (a =ᵇ a) ≡ true
=ᵇ-refl a = ground (arith, =ᵇ_iff a a)

module _ {S Q A D : Type 0} (b : Base64) (sessions : Table S Q) (t : Table S To2Session)
    (infos : Codec A) (devmods : Codec D) (lists : Codec (List Text)) (zero_value : D)
    (k : Apart sessions t) (k' : Apart t sessions) where
  unfoldable pub perform : To2Write A D → Option Text → Action S SessionError (Unit {0})
  perform (To2Write.guid g) token = set_guid b sessions t token g
  perform (To2Write.rv_info a) token = set_rv_info b sessions t infos token a
  perform (To2Write.prove_device n) token = set_prove_device_nonce b sessions t token n
  perform (To2Write.setup_device n) token = set_setup_device_nonce b sessions t token n
  perform (To2Write.mtu n) token = set_mtu b sessions t token n
  perform (To2Write.devmod d names complete) token =
      set_devmod b sessions t devmods lists token d names complete

  abbrev pub Reps : Option To2Session → Option (View A D) → Type 0
  Reps = Represents infos devmods lists zero_value

  -- A write keeps the session, its row represents what is promised, and other rows are as they were.
  abbrev Kept : To2Write A D → Bytes → S → S → Type 0
  Kept w id s after =
      (known id (sessions.rows after id) ≡ ok id)
      × ((p : Option (View A D)) → Reps (t.rows s id) p → Reps (t.rows after id) (promised w p))
      × ((j : Bytes) → (id =ᵇ j) ≡ false → t.rows after j ≡ t.rows s j)

  update-Kept :
      {V : Type 0} (w : To2Write A D) (value : Result SessionError V)
      (f : V → To2Session → To2Session) (token : Option Text) (id : Bytes) (s : S)
      → promised w none ≡ none
      → ((v : V) (row : To2Session) (p : View A D)
          → value ≡ ok v
          → ShowsView infos devmods lists zero_value row p
          → Reps (some (f v row)) (promised w (some p)))
      → decode_token b sessions token ≡ ok id
      → (store_row b sessions value (λ i v. t.update i (f v)) token s).0 ≡ ok tt
      → Kept w id s (store_row b sessions value (λ i v. t.update i (f v)) token s).1
  update-Kept w value f token id s quiet sets named h =
      let (v, encoded, live, rows) =
        store_row-update b sessions t k k' value f token id s named h in
      (
        live,
        λ p r.
            rw (rows id, =ᵇ-refl id)
              (map-Represents infos devmods lists zero_value (f v) w (t.rows s id) p quiet
                (λ row q. sets v row q encoded) r),
        λ j other. rw (rows j, other),
      )

  perform-Kept :
      (w : To2Write A D) (token : Option Text) (id : Bytes) (s : S)
      → IsTyped w
      → decode_token b sessions token ≡ ok id
      → (perform w token s).0 ≡ ok tt
      → Kept w id s (perform w token s).1
  unfolding perform set_guid set_rv_info set_prove_device_nonce set_setup_device_nonce set_mtu
      set_devmod read_devmod
  perform-Kept (To2Write.guid g) token id s typed named h =
      let (live, rows) =
        store_row-first_or_create b sessions t k k' (new_to2_session g) (with_guid g) token id s
          named h in
      (
        live,
        λ p r.
            rw (rows id, =ᵇ-refl id)
              (with_guid-Represents infos devmods lists zero_value g (t.rows s id) p typed r),
        λ j other. rw (rows j, other),
      )
  perform-Kept (To2Write.rv_info a) token id s typed named h =
      update-Kept (To2Write.rv_info a) (or_err (infos.marshal a) cannot_marshal) with_rv_info token
        id s refl (λ x row v. rv_info-Represents infos devmods lists zero_value a row v) named h
  perform-Kept (To2Write.prove_device n) token id s typed named h =
      update-Kept (To2Write.prove_device n) (ok n) with_prove_device token id s refl
        (λ x row v e (g, i, _, m, u, d).
          (g, i, nonce-Represents infos devmods lists zero_value n typed e, m, u, d))
        named h
  perform-Kept (To2Write.setup_device n) token id s typed named h =
      update-Kept (To2Write.setup_device n) (ok n) with_setup_device token id s refl
        (λ x row v e (g, i, m, _, u, d).
          (g, i, m, nonce-Represents infos devmods lists zero_value n typed e, u, d))
        named h
  perform-Kept (To2Write.mtu n) token id s typed named h =
      update-Kept (To2Write.mtu n) (ok n) with_mtu token id s refl
        (λ x row v e (g, i, m, u, _, d).
          (g, i, m, u, mtu-Represents infos devmods lists zero_value n typed e, d))
        named h
  perform-Kept (To2Write.devmod d names complete) token id s typed named h =
      update-Kept (To2Write.devmod d names complete) (encode_devmod devmods lists d names complete)
        with_devmod token id s refl
        (λ x row v e (g, i, m, u, n, _).
          (g, i, m, u, n, devmod-Represents infos devmods lists zero_value d names complete row e))
        named h

  -- Setters one after the other, up to the first that fails.
  unfoldable pub perform_all : List (To2Write A D) → Option Text → Action S SessionError (Unit {0})
  perform_all [] token = pure tt
  perform_all (w ∷ ws) token = perform w token >> perform_all ws token

  -- The setter's success and the state that it leaves.
  perform_all-cons :
      (w : To2Write A D) (ws : List (To2Write A D)) (token : Option Text) (s : S)
      → (perform_all (w ∷ ws) token s).0 ≡ ok tt
      → ((perform w token s).0 ≡ ok tt)
        × (perform_all (w ∷ ws) token s ≡ perform_all ws token (perform w token s).1)
  unfolding perform_all
  perform_all-cons w ws token s h = elim (Result-cases (perform w token s).0) [
    | inl (e, bad) ↦ cc (rw bad at h)
    | inr (u, good) ↦ (rw good, rw good)
  ]

  perform_all-Kept :
      (ws : List (To2Write A D)) (token : Option Text) (id : Bytes) (s : S) (p : Option (View A D))
      → AreTyped ws
      → decode_token b sessions token ≡ ok id
      → known id (sessions.rows s id) ≡ ok id
      → Reps (t.rows s id) p
      → (perform_all ws token s).0 ≡ ok tt
      → (known id (sessions.rows (perform_all ws token s).1 id) ≡ ok id)
        × Reps (t.rows (perform_all ws token s).1 id) (promised_all ws p)
        × ((j : Bytes) → (id =ᵇ j) ≡ false → t.rows (perform_all ws token s).1 j ≡ t.rows s j)
  unfolding perform_all
  perform_all-Kept [] token id s p typed named live r h = (live, r, λ j other. refl)
  perform_all-Kept (w ∷ ws) token id s p (first, rest) named live r h =
      let (done, same) = perform_all-cons w ws token s h in
      let next = (perform w token s).1 in
      let (live', reps, others) = perform-Kept w token id s first named done in
      let more = rw same at h in
      let (live'', reps', others') =
        perform_all-Kept ws token id next (promised w p) rest named live' (reps p r) more in
      (rw same live'', rw same reps', λ j other. rw (same, others' j other, others j other))

  -- What the six getters answer is what the view has; before the session's state has begun they
  -- answer that nothing is found. Each may fail with the database.
  abbrev pub Seen : Option (View A D) → Option Text → S → Type 0
  Seen p token s =
      Shows (row_value (λ v. ok v.guid) p) (guid b sessions t token s).0
      × Shows (row_value (λ v. or_err v.rv_info not_found) p) (rv_info b sessions t infos token s).0
      × Shows (row_value (λ v. or_err v.prove_device not_found) p)
          (prove_device_nonce b sessions t token s).0
      × Shows (row_value (λ v. or_err v.setup_device not_found) p)
          (setup_device_nonce b sessions t token s).0
      × Shows (row_value (λ v. or_err v.mtu not_found) p) (mtu b sessions t token s).0
      × Shows (row_value (λ v. ok (devmod_of infos devmods lists zero_value v.devmod)) p)
          (devmod b sessions t devmods lists zero_value token s).0

  row_value-Reps :
      {C : Type 0} (read : To2Session → Result SessionError C)
      (has : View A D → Result SessionError C) (o : Option To2Session) (p : Option (View A D))
      → ((row : To2Session) (v : View A D)
          → ShowsView infos devmods lists zero_value row v
          → read row ≡ has v)
      → Reps o p
      → row_value read o ≡ row_value has p
  row_value-Reps read has none none same r = refl
  row_value-Reps read has (some row) (some v) same r = same row v r
  row_value-Reps read has none (some v) same r = absurd r
  row_value-Reps read has (some row) none same r = absurd r

  read_row-Reps :
      {C : Type 0} (read : To2Session → Result SessionError C)
      (has : View A D → Result SessionError C) (p : Option (View A D)) (token : Option Text)
      (id : Bytes) (s : S)
      → Reps (t.rows s id) p
      → decode_token b sessions token ≡ ok id
      → known id (sessions.rows s id) ≡ ok id
      → ((row : To2Session) (v : View A D)
          → ShowsView infos devmods lists zero_value row v
          → read row ≡ has v)
      → Shows (row_value has p) (read_row b sessions t read token s).0
  read_row-Reps read has p token id s r named live same =
      rw (← row_value-Reps read has (t.rows s id) p same r)
        (read_row-Shows b sessions t k read token id s named live)

  Reps-Seen :
      (p : Option (View A D)) (token : Option Text) (id : Bytes) (s : S)
      → Reps (t.rows s id) p
      → decode_token b sessions token ≡ ok id
      → known id (sessions.rows s id) ≡ ok id
      → Seen p token s
  unfolding guid rv_info prove_device_nonce setup_device_nonce mtu devmod
  Reps-Seen p token id s r named live = (
    read_row-Reps _ _ p token id s r named live (λ row v (g, i, m, n, u, d). rw g),
    read_row-Reps _ _ p token id s r named live (λ row v (g, i, m, n, u, d). i),
    read_row-Reps _ _ p token id s r named live (λ row v (g, i, m, n, u, d). m),
    read_row-Reps _ _ p token id s r named live (λ row v (g, i, m, n, u, d). n),
    read_row-Reps _ _ p token id s r named live (λ row v (g, i, m, n, u, d). u),
    read_row-Reps _ _ p token id s r named live (λ row v (g, i, m, n, u, d). d),
  )

  -- When the setters of a list all succeed for one token, whose session is there and whose row
  -- represents a view, then every getter answers what the view has after the promised changes,
  -- unless the database fails, and the rows of other sessions are as before. (Arguments are arrays of
  -- 16 bytes and uint16; the two tables' rows do not change with each other; what is marshalled
  -- unmarshals to itself.)
  pub perform_all-Seen :
      (ws : List (To2Write A D)) (token : Option Text) (id : Bytes) (s : S) (p : Option (View A D))
      → AreTyped ws
      → decode_token b sessions token ≡ ok id
      → known id (sessions.rows s id) ≡ ok id
      → Reps (t.rows s id) p
      → (perform_all ws token s).0 ≡ ok tt
      → Seen (promised_all ws p) token (perform_all ws token s).1
        × ((j : Bytes) → (id =ᵇ j) ≡ false → t.rows (perform_all ws token s).1 j ≡ t.rows s j)
  perform_all-Seen ws token id s p typed named live r h =
      let (live', reps, others) = perform_all-Kept ws token id s p typed named live r h in
      (Reps-Seen (promised_all ws p) token id (perform_all ws token s).1 reps named live', others)
