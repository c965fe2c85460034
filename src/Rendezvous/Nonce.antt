-- ===== src/Rendezvous/Nonce.antt =====
-- The nonces of internal/state/to0.go and internal/state/to1.go: one table for each protocol, keyed
-- by sessions. Both files store and read a nonce by the same statements.
use go_fdo_server.Prelude.{
  ℕ, ◌≡◌, inl, inr, Option, none, some, Bytes, Text, Result, ok, err, map_err, length, copy_into,
  copy_into-length, Result-cases, arith, =ᵇ_iff,
}
use go_fdo_server.Prelude.Action.{Action, lift, pure, handle, continue, ◌>>=◌}
use go_fdo_server.Prelude.Table.{DbError, Table, Answers, Apart}
use go_fdo_server.Rendezvous.Session.{Base64, SessionError, not_found, db, query_error, Shows}
use go_fdo_server.Rendezvous.Token.{decode_token, get_session_id}
use go_fdo_server.Rendezvous.Token.Lifetime.{known, get_session_id-Shows, get_session_id_inv}

-- `protocol.Nonce` is an array of 16 bytes.
abbrev pub nonce_size : ℕ
nonce_size = 16

-- `sessions` is the table of sessions, `t` the table of nonces, of one database.
module _ {S Q : Type 0} (b : Base64) (sessions : Table S Q) (t : Table S Bytes) where
  -- The body of `SetTO0SignNonce` and `SetTO1ProofNonce`.
  unfoldable pub set_nonce : Option Text → Bytes → Action S SessionError (Unit {0})
  set_nonce token nonce = do
    id ← get_session_id b sessions token
    handle (t.save id nonce) (λ r. lift (map_err db r))

  -- The body of `TO0SignNonce` and `TO1ProofNonce`.
  unfoldable pub get_nonce : Option Text → Action S SessionError Bytes
  get_nonce token = do
    id ← get_session_id b sessions token
    stored ← handle (t.first id) (λ r. lift (map_err query_error r))
    pure (copy_into nonce_size stored)

  -- internal/state/to0.go, over the table to0_sessions.
  abbrev pub set_to0_sign_nonce : Option Text → Bytes → Action S SessionError (Unit {0})
  set_to0_sign_nonce = set_nonce

  abbrev pub to0_sign_nonce : Option Text → Action S SessionError Bytes
  to0_sign_nonce = get_nonce

  -- internal/state/to1.go, over the table to1_sessions.
  abbrev pub set_to1_proof_nonce : Option Text → Bytes → Action S SessionError (Unit {0})
  set_to1_proof_nonce = set_nonce

  abbrev pub to1_proof_nonce : Option Text → Action S SessionError Bytes
  to1_proof_nonce = get_nonce

  -- What the nonce table's row says.
  abbrev pub stored_nonce : Option Bytes → Result SessionError Bytes
  stored_nonce none = err not_found
  stored_nonce (some stored) = ok (copy_into nonce_size stored)

  Answers-Shows :
      (o : Option Bytes) (a : Result DbError Bytes) (s : S)
      → Answers o a
      → Shows
          (stored_nonce o)
          (continue (map_err query_error a) (λ stored. pure (copy_into nonce_size stored)) s).0
  Answers-Shows (some x) a s (inl e) = inl (rw e)
  Answers-Shows (some x) a s (inr (n, e)) = inr (n, rw e)
  Answers-Shows none a s (inl e) = inl (rw e)
  Answers-Shows none a s (inr (n, e)) = inr (n, rw e)

  -- What `get_nonce` answers for a session that is there.
  get_nonce-Shows :
      Apart sessions t
      → (token : Option Text) (id : Bytes) (s : S) → decode_token b sessions token ≡ ok id
      → known id (sessions.rows s id) ≡ ok id
      → Shows (stored_nonce (t.rows s id)) (get_nonce token s).0
  unfolding get_nonce
  get_nonce-Shows k token id s named live =
      let shows = get_session_id-Shows b sessions token id s named in
      elim (rw live at shows) [
        | inr (n, e) ↦ inr (n, rw e)
        | inl e ↦
            let next = (sessions.first id s).1 in
            let answers =
              Answers-Shows (t.rows next id) (t.first id next).0 (t.first id next).1
                (t.first_law next id) in
            let row = k.rows_after_first s id id in
            let (_, _, state) = get_session_id_inv b sessions token s e in
            rw (e, state, ← row) answers
      ]

  set_nonce_inv :
      Apart sessions t
      → Apart t sessions
      → (token : Option Text) (nonce : Bytes) (s : S) → (set_nonce token nonce s).0 ≡ ok tt
      → (id : Bytes) × (decode_token b sessions token ≡ ok id)
        × (known id (sessions.rows (set_nonce token nonce s).1 id) ≡ ok id)
        × (t.rows (set_nonce token nonce s).1 id ≡ some nonce)
  unfolding set_nonce
  set_nonce_inv k k' token nonce s h = elim (Result-cases (get_session_id b sessions token s).0) [
    | inl (e, bad) ↦ cc (rw bad at h)
    | inr (id, good) ↦
        let (named, live, state) = get_session_id_inv b sessions token s good in
        let after = (sessions.first id s).1 in
        (
          id,
          named,
          rw (good, state)
              (rw (k'.rows_after_save after id nonce id, sessions.rows-first s id id) live),
          ground
              (arith, t.rows-save (get_session_id b sessions token s).1 id nonce id, =ᵇ_iff id id),
        )
  ]

  -- When neither table's rows change as the other is read or written, a nonce of 16 bytes that was
  -- stored for a session is the nonce that the next query for the session finds, unless the database
  -- fails.
  pub get_nonce-set_nonce :
      Apart sessions t
      → Apart t sessions
      → (token : Option Text) (nonce : Bytes) (s : S) → length nonce ≡ nonce_size
      → (set_nonce token nonce s).0 ≡ ok tt
      → Shows (ok nonce) (get_nonce token (set_nonce token nonce s).1).0
  get_nonce-set_nonce k k' token nonce s size h =
      let (id, named, live, row) = set_nonce_inv k k' token nonce s h in
      let after = (set_nonce token nonce s).1 in
      let shows = get_nonce-Shows k token id after named live in
      let same : copy_into nonce_size nonce ≡ nonce = rw (← size) (copy_into-length nonce) in
      rw (row, same) at shows
