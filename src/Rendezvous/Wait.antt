-- ===== src/Rendezvous/Wait.antt =====
-- `acceptVoucher` of internal/handlers/rendezvous/handler.go, and the configuration check of
-- cmd/rendezvous.go.
use go_fdo_server.Prelude.{
  ℕ, ◌≤◌, ◌<◌, ◌≡◌, ◌⊎◌, ◌↔◌, Bool, ◌&&◌, Option, none, some, Result, ok, err, arith, ltb,
  if◌then◌else◌,
}

-- The fields of `Rendezvous` that the wait time depends on: uint32 values.
pub record WaitLimits : Type 0 where
  pub min_wait_secs : ℕ
  pub max_wait_secs : ℕ

-- `E` is the type of the library's verification errors.
pub data AcceptError (E : Type 0) : Type 0 where
  untrusted : E → AcceptError E
  below_minimum : AcceptError E

-- `(rv *RendezvousConfig) validate`: false is its error.
unfoldable pub is_valid : WaitLimits → Bool
is_valid c = if ltb c.max_wait_secs c.min_wait_secs then Bool.false else Bool.true

module _ {E : Type 0} where
  -- `verified` is what `ov.VerifyDeviceCertChain(certPool)` returned.
  unfoldable pub accept_voucher : WaitLimits → Option E → ℕ → Result (AcceptError E) ℕ
  accept_voucher c (some e) requested = err (untrusted e)
  accept_voucher c none requested =
      if ltb 0 c.min_wait_secs && ltb requested c.min_wait_secs
      then err below_minimum
      else if ltb c.max_wait_secs requested
      then ok c.max_wait_secs
      else ok requested

  -- Under a configuration that passes validation, a granted wait lies between the two limits and is
  -- no longer than the requested one; it is the requested one unless that is above the maximum.
  pub accept_voucher_bounds :
      (c : WaitLimits) (verified : Option E) (requested : ℕ) {ttl : ℕ}
      → is_valid c ≡ Bool.true
      → accept_voucher c verified requested ≡ ok ttl
      → (c.min_wait_secs ≤ ttl)
        × (ttl ≤ c.max_wait_secs)
        × (ttl ≤ requested)
        × ((ttl ≡ requested) ⊎ (c.max_wait_secs < requested))
  unfolding is_valid accept_voucher
  accept_voucher_bounds c (some e) requested valid h = ground arith
  accept_voucher_bounds c none requested valid h = ground arith

  -- The wait that is granted is the requested one, capped at the maximum; it is granted exactly
  -- when the certificate chain is trusted and the request is not below the minimum.
  pub accept_voucher_granted_iff :
      (c : WaitLimits) (verified : Option E) (requested : ℕ)
      → (accept_voucher c verified requested
          ≡ ok (if ltb c.max_wait_secs requested then c.max_wait_secs else requested))
        ↔ ((verified ≡ none) × (c.min_wait_secs ≤ requested))
  unfolding accept_voucher
  accept_voucher_granted_iff c (some e) requested = ground arith
  accept_voucher_granted_iff c none requested = ground arith
