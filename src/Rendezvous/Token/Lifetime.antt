-- ===== src/Rendezvous/Token/Lifetime.antt =====
-- The lifetime of a token: made, invalidated, or cleaned up.
use go_fdo_server.Prelude.{
  ℕ, ◌+◌, ◌≡◌, inl, inr, Option, none, some, Bytes, Text, Result, ok, err, map_err, ltb, arith,
  refl, AreBytes, Result-cases, =ᵇ_iff,
}
use go_fdo_server.Prelude.Action.{continue, pure}
use go_fdo_server.Prelude.Table.{DbError, Table, Answers, unless}
use go_fdo_server.Rendezvous.Session.{
  Session, Base64, SessionError, invalid_session, session_error, Shows,
}
use go_fdo_server.Rendezvous.Token.{
  new_token, decode_token, invalidate_token, get_session_id, cleanup_expired_sessions,
}

-- What a session's row says of its identifier.
abbrev pub known : {R : Type 0} → Bytes → Option R → Result SessionError Bytes
known id none = err invalid_session
known id (some session) = ok id

module _ {S R : Type 0} (b : Base64) (t : Table S R) where
  Answers-Shows :
      (id : Bytes) (o : Option R) (a : Result DbError R) (s : S)
      → Answers o a
      → Shows (known id o) (continue (map_err session_error a) (λ _. pure id) s).0
  Answers-Shows id (some x) a s (inl e) = inl (rw e)
  Answers-Shows id (some x) a s (inr (n, e)) = inr (n, rw e)
  Answers-Shows id none a s (inl e) = inl (rw e)
  Answers-Shows id none a s (inr (n, e)) = inr (n, rw e)

  -- A token that decodes to an identifier is good exactly while the session's row is there.
  pub get_session_id-Shows :
      (token : Option Text) (id : Bytes) (s : S)
      → decode_token b t token ≡ ok id
      → Shows (known id (t.rows s id)) (get_session_id b t token s).0
  unfolding get_session_id
  get_session_id-Shows token id s h =
      rw h (Answers-Shows id (t.rows s id) (t.first id s).0 (t.first id s).1 (t.first_law s id))

  Answers-ok :
      (id : Bytes) (o : Option R) (a : Result DbError R) {x : R}
      → Answers o a
      → a ≡ ok x
      → known id o ≡ ok id
  Answers-ok id (some x) a h good = refl
  Answers-ok id none a (inl e) good = cc (rw e at good)
  Answers-ok id none a (inr (n, e)) good = cc (rw e at good)

  -- What a successful check says: the token names the identifier, and its session is there.
  pub get_session_id_inv :
      (token : Option Text) (s : S) {id : Bytes}
      → (get_session_id b t token s).0 ≡ ok id
      → (decode_token b t token ≡ ok id)
        × (known id (t.rows s id) ≡ ok id)
        × ((get_session_id b t token s).1 ≡ (t.first id s).1)
  unfolding get_session_id
  get_session_id_inv token s {id} h = elim (Result-cases (decode_token b t token)) [
    | inl (e, bad) ↦ cc (rw bad at h)
    | inr (found, good) ↦ elim (Result-cases (t.first found s).0) [
      | inl (e, bad) ↦ cc (rw (good, bad) at h)
      | inr (x, there) ↦
          let same : found ≡ id = cc (rw (good, there) at h) in
          let live =
            Answers-ok found (t.rows s found) (t.first found s).0 (t.first_law s found) there in
          (rw same at good, rw same at live, ground (arith, good, there, same))
    ]
  ]

  pub rows-get_session_id :
      (token : Option Text) (s : S) (j : Bytes)
      → t.rows (get_session_id b t token s).1 j ≡ t.rows s j
  unfolding get_session_id
  rows-get_session_id token s j = elim (Result-cases (decode_token b t token)) [
    | inl (e, bad) ↦ rw bad
    | inr (id, good) ↦ rw good (ground (arith, t.rows-first s id j))
  ]

  decode_token_lem : (id : Bytes) → AreBytes id → decode_token b t (some (b.encode id)) ≡ ok id
  unfolding decode_token
  decode_token_lem id bytes = rw (b.decode-encode id bytes)

  invalidate_token_inv :
      (token : Option Text) (s : S)
      → (invalidate_token b t token s).0 ≡ ok tt
      → (id : Bytes) × (decode_token b t token ≡ ok id)
        × (t.rows (invalidate_token b t token s).1 id ≡ none)
  unfolding invalidate_token
  invalidate_token_inv token s h = elim (Result-cases (decode_token b t token)) [
    | inl (e, bad) ↦ cc (rw bad at h)
    | inr (id, good) ↦ elim (Result-cases (t.delete id s).0) [
      | inl (e, bad) ↦ cc (rw (good, bad) at h)
      | inr (n, deleted) ↦ (id, good, ground (arith, t.rows-delete s id id, =ᵇ_iff id id))
    ]
  ]

  -- An invalidated token is good for nothing: its session is not found again.
  pub get_session_id-invalidate_token :
      (token : Option Text) (s : S)
      → (invalidate_token b t token s).0 ≡ ok tt
      → Shows (err invalid_session) (get_session_id b t token (invalidate_token b t token s).1).0
  get_session_id-invalidate_token token s h =
      let (id, good, row) = invalidate_token_inv token s h in
      let shows = get_session_id-Shows token id (invalidate_token b t token s).1 good in
      rw row at shows

module _ {S : Type 0} (b : Base64) (t : Table S Session) where
  new_token_inv :
      (id : Bytes) (proto now : ℕ) (s : S) {token : Text}
      → (new_token b t (some id) proto now s).0 ≡ ok token
      → (token ≡ b.encode id)
        × (t.rows (new_token b t (some id) proto now s).1 id
            ≡ some (record { protocol = proto; created_at = now }))
  unfolding new_token
  new_token_inv id proto now s h =
      let session : Session = record { protocol = proto; created_at = now } in
      elim (Result-cases (t.create id session s).0) [
        | inl (e, bad) ↦ cc (rw bad at h)
        | inr (u, good) ↦
            (ground arith, ground (arith, t.rows-create s id session id, =ᵇ_iff id id))
      ]

  -- In the state that making a token of an identifier's bytes leaves, the token names the session that
  -- it was made for, unless the database fails.
  pub get_session_id-new_token :
      (id : Bytes) (proto now : ℕ) (s : S) {token : Text}
      → AreBytes id
      → (new_token b t (some id) proto now s).0 ≡ ok token
      → Shows (ok id) (get_session_id b t (some token) (new_token b t (some id) proto now s).1).0
  get_session_id-new_token id proto now s {token} bytes h =
      let (same, row) = new_token_inv id proto now s h in
      let after = (new_token b t (some id) proto now s).1 in
      let good : decode_token b t (some token) ≡ ok id = rw same (decode_token_lem b t id bytes) in
      let shows = get_session_id-Shows b t (some token) id after good in rw row at shows

  -- A cleanup removes the sessions that are older than the maximal age, and no other.
  pub rows-cleanup_expired_sessions :
      (now max_age : ℕ) (id : Bytes) (s : S) {n : ℕ}
      → (cleanup_expired_sessions b t now max_age s).0 ≡ ok n
      → t.rows (cleanup_expired_sessions b t now max_age s).1 id
        ≡ unless (λ session. ltb (session.created_at + max_age) now) (t.rows s id)
  unfolding cleanup_expired_sessions
  rows-cleanup_expired_sessions now max_age id s h =
      rw (t.rows-delete_where s (λ session. ltb (session.created_at + max_age) now) id, h)
