-- ===== src/To0/Candidates.antt =====
-- What a registration tries: the URLs of the directives that are no bypass, in their order.
use go_fdo_server.Prelude.{
  ℕ, ◌≡◌, Bool, true, false, ◌&&◌, Option, none, some, List, [], ◌∷◌, ◌++◌, Bytes, Result, ok, err,
  refl, if◌then◌else◌, inl, inr, Bool-cases, Result-cases,
}
use go_fdo_server.To0.Register.{
  OwnerDirective, RegisterError, unable_to_register, To0Client, register_urls, register_directives,
}

abbrev pub candidates : {Url : Type 0} → List (OwnerDirective Url) → List Url
candidates [] = []
candidates (rv ∷ rvs) = if rv.bypass then candidates rvs else rv.urls ++ candidates rvs

abbrev pub are_bypass : {Url : Type 0} → List (OwnerDirective Url) → Bool
are_bypass [] = true
are_bypass (rv ∷ rvs) = rv.bypass && are_bypass rvs

module _ {W E Url Addr : Type 0} (client : To0Client W E Url Addr) where
  -- The answer after all candidates have been tried.
  abbrev pub answer : Bool → Option ℕ × W → Result (RegisterError E) ℕ × W
  answer all_bypass (some refresh, w) = (ok refresh, w)
  answer all_bypass (none, w) = if all_bypass then (ok 0, w) else (err unable_to_register, w)

  -- Going on in the world that is left when nothing has been found.
  abbrev or_else : Option ℕ × W → (W → Option ℕ × W) → Option ℕ × W
  or_else (some refresh, w) f = (some refresh, w)
  or_else (none, w) f = f w

  register_urls_failed :
      (guid : Bytes) (addrs : List Addr) (u : Url) (us : List Url) (w : W) {e : E}
      → (client.register_blob u guid addrs w).0 ≡ err e
      → register_urls client guid addrs (u ∷ us) w
        ≡ register_urls client guid addrs us (client.register_blob u guid addrs w).1
  unfolding register_urls
  register_urls_failed guid addrs u us w failed = rw (failed, register_urls)

  register_urls_taken :
      (guid : Bytes) (addrs : List Addr) (u : Url) (us : List Url) (w : W) {refresh : ℕ}
      → (client.register_blob u guid addrs w).0 ≡ ok refresh
      → register_urls client guid addrs (u ∷ us) w
        ≡ (some refresh, (client.register_blob u guid addrs w).1)
  unfolding register_urls
  register_urls_taken guid addrs u us w taken = rw (taken, register_urls)

  register_urls_nil :
      (guid : Bytes) (addrs : List Addr) (w : W) → register_urls client guid addrs [] w ≡ (none, w)
  unfolding register_urls
  register_urls_nil guid addrs w = refl

  register_urls-append :
      (guid : Bytes) (addrs : List Addr) (us vs : List Url) (w : W)
      → register_urls client guid addrs (us ++ vs) w
        ≡ or_else (register_urls client guid addrs us w) (register_urls client guid addrs vs)
  register_urls-append guid addrs [] vs w = rw (register_urls_nil guid addrs w)
  register_urls-append guid addrs (u ∷ us) vs w =
      elim (Result-cases (client.register_blob u guid addrs w).0) [
        | inl (e, failed) ↦
            rw
              (
                register_urls_failed guid addrs u us w failed,
                register_urls_failed guid addrs u (us ++ vs) w failed,
              )
              (register_urls-append guid addrs us vs (client.register_blob u guid addrs w).1)
        | inr (refresh, taken) ↦ rw (
          register_urls_taken guid addrs u us w taken,
          register_urls_taken guid addrs u (us ++ vs) w taken,
        )
      ]

  register_directives_cons :
      (guid : Bytes) (addrs : List Addr) (all_bypass : Bool) (rv : OwnerDirective Url)
      (rvs : List (OwnerDirective Url)) (w : W)
      → rv.bypass ≡ false
      → register_directives client guid addrs all_bypass (rv ∷ rvs) w
        ≡ elim (register_urls client guid addrs rv.urls w).0 [
          | some refresh ↦ (ok refresh, (register_urls client guid addrs rv.urls w).1)
          | none ↦
              register_directives client guid addrs false rvs
                (register_urls client guid addrs rv.urls w).1
        ]
  unfolding register_directives
  register_directives_cons guid addrs all_bypass rv rvs w by = rw by

  register_directives_bypass :
      (guid : Bytes) (addrs : List Addr) (all_bypass : Bool) (rv : OwnerDirective Url)
      (rvs : List (OwnerDirective Url)) (w : W)
      → rv.bypass ≡ true
      → register_directives client guid addrs all_bypass (rv ∷ rvs) w
        ≡ register_directives client guid addrs all_bypass rvs w
  unfolding register_directives
  register_directives_bypass guid addrs all_bypass rv rvs w by = rw by

  -- One directive that is no bypass, before others for which the lemma holds.
  answer-step :
      (all_bypass : Bool) (tried : Option ℕ × W) (f : W → Option ℕ × W)
      (g : W → Result (RegisterError E) ℕ × W)
      → ((w : W) → g w ≡ answer false (f w))
      → elim tried.0 [ some refresh ↦ (ok refresh, tried.1) | none ↦ g tried.1 ]
        ≡ answer (all_bypass && false) (or_else tried f)
  answer-step true (some refresh, w) f g h = refl
  answer-step false (some refresh, w) f g h = refl
  answer-step true (none, w) f g h = h w
  answer-step false (none, w) f g h = h w

  register_directives_lem :
      (guid : Bytes) (addrs : List Addr) (all_bypass : Bool) (rvs : List (OwnerDirective Url))
      (w : W)
      → register_directives client guid addrs all_bypass rvs w
        ≡ answer (all_bypass && are_bypass rvs) (register_urls client guid addrs (candidates rvs) w)
  unfolding register_directives register_urls
  register_directives_lem guid addrs true [] w = refl
  register_directives_lem guid addrs false [] w = refl
  register_directives_lem guid addrs all_bypass (rv ∷ rvs) w = elim (Bool-cases rv.bypass) [
    | inl by ↦
        rw (register_directives_bypass guid addrs all_bypass rv rvs w by, by)
          (register_directives_lem guid addrs all_bypass rvs w)
    | inr by ↦
        rw
          (
            register_directives_cons guid addrs all_bypass rv rvs w by,
            by,
            register_urls-append guid addrs rv.urls (candidates rvs) w,
          )
          (answer-step all_bypass (register_urls client guid addrs rv.urls w)
            (register_urls client guid addrs (candidates rvs))
            (register_directives client guid addrs false rvs)
            (register_directives_lem guid addrs false rvs))
  ]

  -- A registration tries the URLs of the directives that are no bypass one after the other, in
  -- order, up to the first that takes the blob, and answers its refresh time. When none does, it
  -- succeeds with 0 if every directive is a bypass and fails otherwise.
  pub register_directives-candidates :
      (guid : Bytes) (addrs : List Addr) (rvs : List (OwnerDirective Url)) (w : W)
      → register_directives client guid addrs true rvs w
        ≡ answer (are_bypass rvs) (register_urls client guid addrs (candidates rvs) w)
  register_directives-candidates guid addrs rvs w = register_directives_lem guid addrs true rvs w
