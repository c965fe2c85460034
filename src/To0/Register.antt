-- ===== src/To0/Register.antt =====
-- `RegisterRvBlob` of internal/to0/to0.go. The TO0 client, the rendezvous instructions that the
-- library finds usable for the owner, and the stored owner addresses come from outside.
use go_fdo_server.Prelude.{
  ℕ, Bool, true, false, Option, none, some, List, [], ◌∷◌, Bytes, Text, Result, ok, err, or_err,
  map_err, ◌>>=◌ as and_then, length, ◌==◌, if◌then◌else◌,
}
use go_fdo_server.Prelude.Hex
use go_fdo_server.Prelude.Action.{Action, lift, raise, handle, ◌>>=◌}

-- The part of `protocol.OwnerRvInfo` that the loop reads.
pub record OwnerDirective (Url : Type 0) : Type 0 where
  pub bypass : Bool
  pub urls : List Url

pub data RegisterError (E : Type 0) : Type 0 where
  invalid_hex not_16_bytes no_usable_info unable_to_register : RegisterError E
  owner_info : E → RegisterError E

-- `RegisterBlob` is a TO0 client's call for a URL, which may change the world `W`.
pub record To0Client (W E Url Addr : Type 0) : Type 0 where
  pub fetch_owner_info : Action W E (List Addr)
  pub register_blob : Url → Bytes → List Addr → Action W E ℕ

module _ {W E Url Addr : Type 0} (client : To0Client W E Url Addr) where
  -- The loop over the URLs of a directive: the refresh time of the first that takes the blob.
  unfoldable pub register_urls : Bytes → List Addr → List Url → W → Option ℕ × W
  register_urls guid addrs [] w = (none, w)
  register_urls guid addrs (u ∷ us) w =
      let tried = client.register_blob u guid addrs w in
      elim tried.0 [
        | ok refresh ↦ (some refresh, tried.1)
        | err e ↦ register_urls guid addrs us tried.1
      ]

  -- The loop over the directives; `all_bypass` is the flag before it.
  unfoldable pub register_directives :
      Bytes → List Addr → Bool → List (OwnerDirective Url) → Action W (RegisterError E) ℕ
  register_directives guid addrs all_bypass [] w =
      if all_bypass then (ok 0, w) else (err unable_to_register, w)
  register_directives guid addrs all_bypass (rv ∷ rvs) w = elim rv.bypass [
    | true ↦ register_directives guid addrs all_bypass rvs w
    | false ↦
        let tried = register_urls guid addrs rv.urls w in
        elim tried.0 [
          | some refresh ↦ (ok refresh, tried.1)
          | none ↦ register_directives guid addrs false rvs tried.1
        ]
  ]

  parse_guid : Text → Result (RegisterError E) Bytes
  parse_guid to0_guid =
      and_then (or_err (Hex.decode to0_guid) invalid_hex)
        (λ guid. if length guid == 16 then ok guid else err not_16_bytes)

  -- `owner_rv_info` is what `protocol.ParseOwnerRvInfo` made of the device's instructions.
  unfoldable pub register_rv_blob : List (OwnerDirective Url) → Text → Action W (RegisterError E) ℕ
  unfolding parse_guid
  register_rv_blob owner_rv_info to0_guid = do
    guid ← lift (parse_guid to0_guid)
    addrs ← handle client.fetch_owner_info (λ r. lift (map_err owner_info r))
    if length owner_rv_info == 0
        then raise no_usable_info
        else register_directives guid addrs true owner_rv_info
