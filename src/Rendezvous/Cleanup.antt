-- ===== src/Rendezvous/Cleanup.antt =====
-- `StartPeriodicCleanup` and `runCleanup` of internal/handlers/rendezvous/handler.go. The events that
-- the loop selects are a sequence, each tick with the times that the two deletions read.
use go_fdo_server.Prelude.{
  ℕ, ◌+◌, ◌≤◌, ◌≡◌, ◌∙◌, some, List, [], ◌∷◌, ◌++◌, Bytes, Result, ok, err, ltb, ◌==◌,
  if◌then◌else◌, arith, refl,
}
use go_fdo_server.Prelude.Table.{DbError, Table, Unlinked}
use go_fdo_server.Rendezvous.Blob.{RvBlob, BlobCodec, cleanup_expired_blobs}
use go_fdo_server.Rendezvous.Session.{Session, Base64}
use go_fdo_server.Rendezvous.Token.{cleanup_expired_sessions}

-- What a run logs.
pub record CleanupReport : Type 0 where
  pub blobs_deleted : ℕ
  pub sessions_deleted : ℕ
  pub errors : List DbError

pub data CleanupEvent : Type 0 where
  done : CleanupEvent
  tick : ℕ → ℕ → CleanupEvent

abbrev deleted : Result DbError ℕ → ℕ
deleted (ok n) = n
deleted (err e) = 0

abbrev errors_of : Result DbError ℕ → List DbError
errors_of (ok n) = []
errors_of (err e) = e ∷ []

module _ {To1d Voucher S : Type 0} (c : BlobCodec To1d Voucher) (b : Base64)
    (blobs : Table S RvBlob) (sessions : Table S Session) where
  -- The second deletion, which an age of 0 turns off.
  cleanup_sessions : ℕ → ℕ → S → Result DbError ℕ × S
  cleanup_sessions now max_age s =
      if ltb 0 max_age then cleanup_expired_sessions b sessions now max_age s else (ok 0, s)

  unfoldable pub run_cleanup : ℕ → ℕ → ℕ → S → CleanupReport × S
  unfolding cleanup_sessions
  run_cleanup now later max_age s =
      let first = cleanup_expired_blobs c blobs now s in
      let second = cleanup_sessions later max_age first.1 in
      (
        record {
          blobs_deleted = deleted first.0;
          sessions_deleted = deleted second.0;
          errors = errors_of first.0 ++ errors_of second.0;
        },
        second.1,
      )

  run_events : ℕ → List CleanupEvent → S → S
  run_events max_age [] s = s
  run_events max_age (done ∷ es) s = s
  run_events max_age (tick now later ∷ es) s =
      run_events max_age es (run_cleanup now later max_age s).1

  -- An interval of 0 turns the cleanup off.
  unfoldable pub start_periodic_cleanup : ℕ → ℕ → List CleanupEvent → S → S
  unfolding run_events
  start_periodic_cleanup interval max_age events s =
      if interval == 0 then s else run_events max_age events s

  -- The last tick at which a row of the blobs can expire.
  abbrev pub AreBefore : ℕ → List CleanupEvent → Type 0
  AreBefore exp [] = Unit
  AreBefore exp (done ∷ es) = Unit
  AreBefore exp (tick now later ∷ es) = (now ≤ exp) × AreBefore exp es

  cleanup_sessions-blobs :
      Unlinked sessions blobs
      → (now max_age : ℕ) (s : S) (guid : Bytes)
      → blobs.rows (cleanup_sessions now max_age s).1 guid ≡ blobs.rows s guid
  unfolding cleanup_sessions cleanup_expired_sessions
  cleanup_sessions-blobs k now max_age s guid =
      ground (arith, k.rows_after_delete_where s (λ x. ltb (x.created_at + max_age) now) guid)

  -- A blob that has not expired when a run starts is there after it, whatever fails.
  run_cleanup-blob :
      Unlinked sessions blobs
      → (now later max_age : ℕ) (s : S) (guid : Bytes) {x : RvBlob} → blobs.rows s guid ≡ some x
      → now ≤ x.exp
      → blobs.rows (run_cleanup now later max_age s).1 guid ≡ some x
  unfolding run_cleanup cleanup_expired_blobs
  run_cleanup-blob k now later max_age s guid {x} h live =
      let first = (cleanup_expired_blobs c blobs now s).1 in
      cleanup_sessions-blobs k later max_age first guid
      ∙ ground (arith, blobs.rows-delete_where s (λ y. ltb y.exp now) guid, h)

  run_events-blob :
      Unlinked sessions blobs
      → (max_age : ℕ) (events : List CleanupEvent) (s : S) (guid : Bytes) {x : RvBlob}
      → blobs.rows s guid ≡ some x
      → AreBefore x.exp events
      → blobs.rows (run_events max_age events s) guid ≡ some x
  unfolding run_events
  run_events-blob k max_age [] s guid h before = h
  run_events-blob k max_age (done ∷ es) s guid h before = h
  run_events-blob k max_age (tick now later ∷ es) s guid h (live, before) =
      run_events-blob k max_age es (run_cleanup now later max_age s).1 guid
        (run_cleanup-blob k now later max_age s guid h live) before

  -- When no blob depends on a session's row, no sequence of cleanups removes a blob that has not
  -- expired at any of their ticks, whatever age the sessions may have and whatever fails.
  pub start_periodic_cleanup-blob :
      Unlinked sessions blobs
      → (interval max_age : ℕ) (events : List CleanupEvent) (s : S) (guid : Bytes) {x : RvBlob}
      → blobs.rows s guid ≡ some x
      → AreBefore x.exp events
      → blobs.rows (start_periodic_cleanup interval max_age events s) guid ≡ some x
  unfolding start_periodic_cleanup
  start_periodic_cleanup-blob k interval max_age events s guid h before =
      ground (arith, h, run_events-blob k max_age events s guid h before)

  run_cleanup-session :
      Unlinked blobs sessions
      → (now later : ℕ) (s : S) (id : Bytes)
      → sessions.rows (run_cleanup now later 0 s).1 id ≡ sessions.rows s id
  unfolding run_cleanup cleanup_sessions cleanup_expired_blobs
  run_cleanup-session k now later s id = k.rows_after_delete_where s (λ y. ltb y.exp now) id

  run_events-sessions :
      Unlinked blobs sessions
      → (events : List CleanupEvent) (s : S) (id : Bytes)
      → sessions.rows (run_events 0 events s) id ≡ sessions.rows s id
  unfolding run_events
  run_events-sessions k [] s id = refl
  run_events-sessions k (done ∷ es) s id = refl
  run_events-sessions k (tick now later ∷ es) s id =
      run_events-sessions k es (run_cleanup now later 0 s).1 id
      ∙ run_cleanup-session k now later s id

  -- When no session depends on a blob's row, no sequence of cleanups with a maximal age of 0 changes
  -- or removes a session.
  pub start_periodic_cleanup-sessions :
      Unlinked blobs sessions
      → (interval : ℕ) (events : List CleanupEvent) (s : S) (id : Bytes)
      → sessions.rows (start_periodic_cleanup interval 0 events s) id ≡ sessions.rows s id
  unfolding start_periodic_cleanup
  start_periodic_cleanup-sessions k interval events s id =
      ground (arith, run_events-sessions k events s id)
