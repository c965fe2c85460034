-- ===== src/DeviceCa/Handlers/Pool.antt =====
-- The pool of trusted certificates after a request of internal/handlers/deviceca/handler.go.
use go_fdo_server.Prelude.{ℕ, ◌≡◌, ◌⊎◌, refl, inl, inr, List, Text, Result, ok, err, Result-cases}
use go_fdo_server.Prelude.Action.{Action}
use go_fdo_server.Prelude.Table.{DbError, failed, Table}
use go_fdo_server.DeviceCa.{
  Certificate, DeviceCaCertificate, X509, DeviceCaError, not_found, count_failed, create_failed,
  get_failed, delete_failed, load_failed, pem_not_decoded, not_parsed, parse_all,
  delete_device_ca_certificate,
}
use go_fdo_server.DeviceCa.Handlers.{
  CaServer, CaResponse, refused, no_content, load_trusted_device_cas, reload, removed,
  delete_trusted_device_ca_cert,
}

-- A query of every row answers `all` of the database, or fails, and changes nothing.
abbrev pub FindsAll :
    {S : Type 0}
    → (S → List DeviceCaCertificate)
    → Action S DbError (List DeviceCaCertificate)
    → Type 0
FindsAll {S} all find_all =
    (s : S) → (find_all s ≡ (ok (all s), s)) ⊎ ((n : ℕ) × (find_all s ≡ (err (failed n), s)))

module _ {S : Type 0} (x : X509) (t : Table S DeviceCaCertificate)
    (find_all : Action S DbError (List DeviceCaCertificate))
    (all : S → List DeviceCaCertificate) where
  -- The pool holds the certificates that the rows of the database hold.
  abbrev pub Current : CaServer S → Type 0
  Current v = parse_all x t (all v.database) ≡ ok v.pool

  -- The response stands with the pool of the database, or refuses with the pool of before.
  abbrev pub Reloaded : CaResponse → List Certificate → CaResponse × CaServer S → Type 0
  Reloaded response pool r =
      ((r.0 ≡ response) × Current r.1) ⊎ (((n : ℕ) × (r.0 ≡ refused n)) × (r.1.pool ≡ pool))

  reload-Reloaded :
      FindsAll all find_all
      → (response : CaResponse) (v : CaServer S)
      → Reloaded response v.pool (reload x t find_all response v)
  unfolding reload load_trusted_device_cas
  reload-Reloaded law response v = elim (law v.database) [
    | inr (n, e) ↦ rw e (inr ((500, refl), refl))
    | inl e ↦ elim (Result-cases (parse_all x t (all v.database))) [
      | inl (c, bad) ↦ rw e (rw bad (inr ((500, refl), refl)))
      | inr (certs, good) ↦ rw e (rw good (inl (refl, good)))
    ]
  ]

  removed-Reloaded :
      FindsAll all find_all
      → (pool : List Certificate) (r : Result DeviceCaError (Unit {0})) (s : S)
      → Reloaded no_content pool (removed x t find_all pool r s)
  unfolding removed
  removed-Reloaded law pool (err not_found) s = inr ((404, refl), refl)
  removed-Reloaded law pool (err (count_failed e)) s = inr ((500, refl), refl)
  removed-Reloaded law pool (err (create_failed e)) s = inr ((500, refl), refl)
  removed-Reloaded law pool (err (get_failed e)) s = inr ((500, refl), refl)
  removed-Reloaded law pool (err (delete_failed e)) s = inr ((500, refl), refl)
  removed-Reloaded law pool (err (load_failed e)) s = inr ((500, refl), refl)
  removed-Reloaded law pool (err (pem_not_decoded g)) s = inr ((500, refl), refl)
  removed-Reloaded law pool (err (not_parsed g)) s = inr ((500, refl), refl)
  removed-Reloaded law pool (ok u) s =
      reload-Reloaded law no_content (record { database = s; pool = pool })

  -- When the query of every row answers all the rows or fails without changing them, a deletion is
  -- answered with 204 and a pool of exactly the certificates that are then stored, in their order, or
  -- it is refused and the pool is that of before.
  pub delete_trusted_device_ca_cert-Reloaded :
      FindsAll all find_all
      → (fingerprint : Text) (v : CaServer S)
      → Reloaded no_content v.pool (delete_trusted_device_ca_cert x t find_all fingerprint v)
  unfolding delete_trusted_device_ca_cert
  delete_trusted_device_ca_cert-Reloaded law fingerprint v =
      let r = delete_device_ca_certificate x t fingerprint v.database in
      removed-Reloaded law v.pool r.0 r.1
