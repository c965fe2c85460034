-- ===== src/Tests/Rendezvous.antt =====
-- The rendezvous server's tables: a sample codec, and the theorems applied to a sample database.
use go_fdo_server.Prelude.{
  ◌≡◌, ◌≤◌, ◌<◌, ◌⊎◌, ◌↔◌, refl, true, Option, none, some, List, [], ◌∷◌, Bytes, Text, ok, err, ltb,
  ◌=ᵇ◌, if◌then◌else◌, arith, length, sym,
}
use go_fdo_server.Rendezvous.Blob.{
  RvBlob, BlobCodec, not_found, set_rv_blob, rv_blob, cleanup_expired_blobs,
}
use go_fdo_server.Rendezvous.Visible.{
  Shows, IsLive, shown, rv_blob-set_rv_blob, shown-cleanup_expired_blobs,
}
use go_fdo_server.Rendezvous.Wait.{
  WaitLimits, is_valid, accept_voucher, accept_voucher_bounds, accept_voucher_granted_iff,
}
use go_fdo_server.Rendezvous.Session.{Session, Base64, SessionError, invalid_session}
use go_fdo_server.Rendezvous.Session
use go_fdo_server.Rendezvous.Token.{new_token, invalidate_token, get_session_id}
use go_fdo_server.Rendezvous.Token.Lifetime.{
  get_session_id-new_token, get_session_id-invalidate_token,
}
use go_fdo_server.Rendezvous.Nonce.{set_nonce, get_nonce, get_nonce-set_nonce}
use go_fdo_server.Rendezvous.Cleanup.{
  tick, CleanupEvent, start_periodic_cleanup, start_periodic_cleanup-blob,
  start_periodic_cleanup-sessions,
}
use go_fdo_server.Tests.Database.{
  Database, set_sessions, set_blobs, blobs, sessions, nonces, sessions-nonces, nonces-sessions,
  blobs-sessions, sessions-blobs, empty_database, put,
}

-- Blobs and vouchers that are their own encodings; a voucher is its GUID.
abbrev codec : BlobCodec Bytes Bytes
codec = record {
  marshal_to1d = λ x. some x;
  unmarshal_to1d = λ b. some b;
  marshal_voucher = λ x. some x;
  unmarshal_voucher = λ b. some b;
  guid_of = λ x. x;
  to1d_law = λ x b h. sym h;
  voucher_law = λ x b h. sym h;
}

abbrev base64 : Base64
base64 = record { encode = λ b. b; decode = λ s. some s; decode-encode = λ b h. refl }

abbrev guid : Bytes
guid = 7 ∷ []

abbrev token : Text
token = 9 ∷ []

abbrev session : Session
session = record { protocol = 1; created_at = 100 }

abbrev signed_in : Database
signed_in = set_sessions (put (λ k. none) token (some session)) empty_database

abbrev blob : RvBlob
blob = record { rv = 1 ∷ []; voucher = guid; exp = 50 }

abbrev published : Database
published = set_blobs (put (λ k. none) guid (some blob)) empty_database

set_rv_blob-ok : (set_rv_blob codec blobs guid (1 ∷ []) 50 empty_database).0 ≡ ok tt
unfolding set_rv_blob
set_rv_blob-ok = refl

rv_blob-set_rv_blob_example :
    Shows
      (if guid =ᵇ guid
        then (if ltb 50 40 then err not_found else ok (1 ∷ [], guid))
        else shown codec blobs 40 none)
      (rv_blob codec blobs 40 guid (set_rv_blob codec blobs guid (1 ∷ []) 50 empty_database).1).0
rv_blob-set_rv_blob_example =
    rv_blob-set_rv_blob codec blobs guid (1 ∷ []) 50 40 guid empty_database set_rv_blob-ok

cleanup-ok : (cleanup_expired_blobs codec blobs 60 published).0 ≡ ok 0
unfolding cleanup_expired_blobs
cleanup-ok = refl

shown-cleanup_expired_blobs_example :
    (shown codec blobs 60 (blobs.rows (cleanup_expired_blobs codec blobs 60 published).1 guid)
      ≡ shown codec blobs 60 (blobs.rows published guid))
    × IsLive 60 (blobs.rows (cleanup_expired_blobs codec blobs 60 published).1 guid)
shown-cleanup_expired_blobs_example =
    shown-cleanup_expired_blobs codec blobs 60 60 guid published cleanup-ok (omega arith)

abbrev limits : WaitLimits
limits = record { min_wait_secs = 60; max_wait_secs = 3600 }

abbrev trusted : Option Text
trusted = none

limits-valid : is_valid limits ≡ true
unfolding is_valid
limits-valid = refl

accepted : accept_voucher limits trusted 7200 ≡ ok 3600
unfolding accept_voucher
accepted = refl

accept_voucher_bounds_example :
    (60 ≤ 3600) × (3600 ≤ 3600) × (3600 ≤ 7200) × ((limits.max_wait_secs ≡ 7200) ⊎ (3600 < 7200))
accept_voucher_bounds_example = accept_voucher_bounds limits trusted 7200 limits-valid accepted

accept_voucher_granted_iff_example :
    (accept_voucher limits trusted 7200 ≡ ok (if ltb 3600 7200 then 3600 else 7200))
    ↔ ((trusted ≡ none) × (60 ≤ 7200))
accept_voucher_granted_iff_example = accept_voucher_granted_iff limits trusted 7200

new_token-ok : (new_token base64 sessions (some token) 1 100 empty_database).0 ≡ ok token
unfolding new_token
new_token-ok = refl

get_session_id-new_token_example :
    Session.Shows
      (ok token)
      (get_session_id base64 sessions
        (some token)
        (new_token base64 sessions (some token) 1 100 empty_database).1).0
get_session_id-new_token_example =
    get_session_id-new_token base64 sessions token 1 100 empty_database (omega arith, tt)
      new_token-ok

invalidate_token-ok : (invalidate_token base64 sessions (some token) signed_in).0 ≡ ok tt
unfolding invalidate_token go_fdo_server.Rendezvous.Token.decode_token ◌=ᵇ◌
invalidate_token-ok = refl

get_session_id-invalidate_token_example :
    Session.Shows
      (err invalid_session)
      (get_session_id base64 sessions
        (some token)
        (invalidate_token base64 sessions (some token) signed_in).1).0
get_session_id-invalidate_token_example =
    get_session_id-invalidate_token base64 sessions (some token) signed_in invalidate_token-ok

abbrev nonce : Bytes
nonce = 1 ∷ 2 ∷ 3 ∷ 4 ∷ 5 ∷ 6 ∷ 7 ∷ 8 ∷ 9 ∷ 10 ∷ 11 ∷ 12 ∷ 13 ∷ 14 ∷ 15 ∷ 16 ∷ []

nonce-length : length nonce ≡ 16
unfolding length
nonce-length = refl

set_nonce-ok : (set_nonce base64 sessions nonces (some token) nonce signed_in).0 ≡ ok tt
unfolding set_nonce get_session_id go_fdo_server.Rendezvous.Token.decode_token ◌=ᵇ◌
set_nonce-ok = refl

get_nonce-set_nonce_example :
    Session.Shows
      (ok nonce)
      (get_nonce base64 sessions nonces
        (some token)
        (set_nonce base64 sessions nonces (some token) nonce signed_in).1).0
get_nonce-set_nonce_example =
    get_nonce-set_nonce base64 sessions nonces sessions-nonces nonces-sessions (some token) nonce
      signed_in nonce-length set_nonce-ok

abbrev ticks : List CleanupEvent
ticks = tick 20 21 ∷ tick 40 41 ∷ []

published-row : blobs.rows published guid ≡ some blob
unfolding ◌=ᵇ◌
published-row = refl

start_periodic_cleanup-blob_example :
    blobs.rows (start_periodic_cleanup codec base64 blobs sessions 20 30 ticks published) guid
    ≡ some blob
start_periodic_cleanup-blob_example =
    start_periodic_cleanup-blob codec base64 blobs sessions sessions-blobs 20 30 ticks published
      guid published-row (omega arith, (omega arith, tt))

start_periodic_cleanup-sessions_example :
    sessions.rows (start_periodic_cleanup codec base64 blobs sessions 20 0 ticks signed_in) token
    ≡ sessions.rows signed_in token
start_periodic_cleanup-sessions_example =
    start_periodic_cleanup-sessions codec base64 blobs sessions blobs-sessions 20 ticks signed_in
      token
