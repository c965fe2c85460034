-- ===== src/Rendezvous/Visible.antt =====
-- What a lookup of a blob shows, by the rows of the table: after a registration, and across a
-- cleanup.
use go_fdo_server.Prelude.{
  ℕ, ◌≡◌, ◌≤◌, ◌⊎◌, inl, inr, Option, none, some, Bytes, Result, ok, err, map_err, ltb,
  if◌then◌else◌, arith, refl, ◌=ᵇ◌, Option-cases,
}
use go_fdo_server.Prelude.Action.{continue, lift}
use go_fdo_server.Prelude.Table.{DbError, failed, Table, Answers, unless}
use go_fdo_server.Rendezvous.Blob.{
  RvBlob, BlobCodec, BlobError, not_found, db, query_error, set_rv_blob, decode_blob, rv_blob,
  cleanup_expired_blobs,
}

-- The answer of a call is the expected one, unless the database fails.
abbrev pub Shows {ℓ} : {A : Type ℓ} → Result BlobError A → Result BlobError A → Type ℓ
Shows expected r = (r ≡ expected) ⊎ ((n : ℕ) × (r ≡ err (db (failed n))))

-- No expired row stands under a key.
abbrev pub IsLive : ℕ → Option RvBlob → Type 0
IsLive now none = Unit
IsLive now (some b) = now ≤ b.exp

unless-IsLive : (now : ℕ) (o : Option RvBlob) → IsLive now (unless (λ b. ltb b.exp now) o)
unless-IsLive now none = tt
unless-IsLive now (some b) = ground arith

module _ {To1d Voucher S : Type 0} (c : BlobCodec To1d Voucher) (t : Table S RvBlob) where
  -- What a row shows at time `now`.
  abbrev pub shown : ℕ → Option RvBlob → Result BlobError (To1d × Voucher)
  shown now none = err not_found
  shown now (some b) = decode_blob c t now b

  Answers-Shows :
      (now : ℕ) (o : Option RvBlob) (a : Result DbError RvBlob) (s : S)
      → Answers o a
      → Shows
          (shown now o)
          (continue (map_err query_error a) (λ b. lift (decode_blob c t now b)) s).0
  Answers-Shows now (some b) a s (inl e) = inl (rw e)
  Answers-Shows now (some b) a s (inr (n, e)) = inr (n, rw e)
  Answers-Shows now none a s (inl e) = inl (rw e)
  Answers-Shows now none a s (inr (n, e)) = inr (n, rw e)

  -- A lookup shows the row under its GUID, unless the database fails.
  pub rv_blob-Shows :
      (now : ℕ) (guid : Bytes) (s : S)
      → Shows (shown now (t.rows s guid)) (rv_blob c t now guid s).0
  unfolding rv_blob
  rv_blob-Shows now guid s =
      Answers-Shows now (t.rows s guid) (t.first guid s).0 (t.first guid s).1 (t.first_law s guid)

  -- What is shown of a row with the given encodings.
  decode_blob_of_law :
      (now : ℕ) (b : RvBlob) (voucher : Voucher) (to1d : To1d)
      → c.marshal_to1d to1d ≡ some b.rv
      → c.marshal_voucher voucher ≡ some b.voucher
      → decode_blob c t now b ≡ (if ltb b.exp now then err not_found else ok (to1d, voucher))
  unfolding decode_blob
  decode_blob_of_law now b voucher to1d h k =
      rw (c.to1d_law to1d b.rv h, c.voucher_law voucher b.voucher k)

  set_rv_blob_inv :
      (voucher : Voucher) (to1d : To1d) (exp : ℕ) (s : S)
      → (set_rv_blob c t voucher to1d exp s).0 ≡ ok tt
      → (b : RvBlob) × (b.exp ≡ exp)
        × (c.marshal_to1d to1d ≡ some b.rv)
        × (c.marshal_voucher voucher ≡ some b.voucher)
        × ((j : Bytes)
            → t.rows (set_rv_blob c t voucher to1d exp s).1 j
              ≡ (if c.guid_of voucher =ᵇ j then some b else t.rows s j))
  unfolding set_rv_blob
  set_rv_blob_inv voucher to1d exp s h = elim (Option-cases (c.marshal_to1d to1d)) [
    | inl bad ↦ cc (rw bad at h)
    | inr (rv, good) ↦ elim (Option-cases (c.marshal_voucher voucher)) [
      | inl bad ↦ cc (rw (good, bad) at h)
      | inr (vb, good') ↦
          let b : RvBlob = record { rv = rv; voucher = vb; exp = exp } in
          (b, refl, good, good', λ j. ground (arith, t.rows-save s (c.guid_of voucher) b j))
    ]
  ]

  -- After a successful registration, a lookup of any GUID at any time shows, unless the database
  -- fails: for the voucher's own GUID the registered blob and voucher until they expire, and nothing
  -- from then on; for every other GUID what it showed before.
  pub rv_blob-set_rv_blob :
      (voucher : Voucher) (to1d : To1d) (exp now : ℕ) (guid : Bytes) (s : S)
      → (set_rv_blob c t voucher to1d exp s).0 ≡ ok tt
      → Shows
          (if c.guid_of voucher =ᵇ guid
            then (if ltb exp now then err not_found else ok (to1d, voucher))
            else shown now (t.rows s guid))
          (rv_blob c t now guid (set_rv_blob c t voucher to1d exp s).1).0
  rv_blob-set_rv_blob voucher to1d exp now guid s h =
      let (b, same_exp, rv, vb, rows) = set_rv_blob_inv voucher to1d exp s h in
      let after = (set_rv_blob c t voucher to1d exp s).1 in
      let expected : shown now (t.rows after guid) ≡ (
          if c.guid_of voucher =ᵇ guid
          then (if ltb exp now then err not_found else ok (to1d, voucher))
          else shown now (t.rows s guid)) =
        ground (arith, rows guid, decode_blob_of_law now b voucher to1d rv vb) in
      rw (← expected) (rv_blob-Shows now guid after)

  -- Deleting the blobs that have expired at `now` changes no lookup from `now` on.
  shown-unless :
      (now later : ℕ) (o : Option RvBlob)
      → now ≤ later
      → shown later (unless (λ b. ltb b.exp now) o) ≡ shown later o
  unfolding decode_blob
  shown-unless now later none h = refl
  shown-unless now later (some b) h = ground arith

  -- A cleanup at `now` that succeeds leaves no row that has expired, and changes nothing that a
  -- lookup at `now` or later shows, under any GUID.
  pub shown-cleanup_expired_blobs :
      (now later : ℕ) (guid : Bytes) (s : S) {n : ℕ}
      → (cleanup_expired_blobs c t now s).0 ≡ ok n
      → now ≤ later
      → (shown later (t.rows (cleanup_expired_blobs c t now s).1 guid)
          ≡ shown later (t.rows s guid))
        × IsLive now (t.rows (cleanup_expired_blobs c t now s).1 guid)
  unfolding cleanup_expired_blobs
  shown-cleanup_expired_blobs now later guid s h k = (
    ground (
      arith,
      t.rows-delete_where s (λ b. ltb b.exp now) guid,
      shown-unless now later (t.rows s guid) k,
    ),
    rw (t.rows-delete_where s (λ b. ltb b.exp now) guid, h) (unless-IsLive now (t.rows s guid)),
  )
