-- ===== src/Machines/Order.antt =====
-- The order in which a device is sent its modules, and the separation of the tokens.
use go_fdo_server.Prelude.{
  ℕ, zero, suc, ◌<◌, ◌≡◌, ◌≢◌, ◌⊎◌, inl, inr, true, false, Option, none, some, List, [], ◌∷◌, Text,
  Result, ok, err, Bool, length, =ᵇ_iff, arith, refl,
}
use go_fdo_server.Machines.{
  MachineError, not_called, Machine, States, set_state, next, module_of, next_module,
  cleanup_modules,
}

-- The modules that the calls of NextModule and Module show, and the answer of NextModule that ends
-- them, which is none when all calls are used.
abbrev pub Visit : Type 0 → Type 0
Visit M = List (Text × Option M) × Option (Result MachineError Bool)

module _ {M : Type 0} where
  abbrev pub visit : Result MachineError (Text × Option M) → Visit M → Visit M
  visit (err e) rest = ([], some (err e))
  visit (ok shown) rest = (shown ∷ rest.0, rest.1)

  unfoldable pub visited : ℕ → Option (List (Text × M)) → Text → States M → Visit M
  visited zero devmod token states = ([], none)
  visited (suc n) devmod token states =
      let step = next_module devmod (some token) states in
      let rest = visited n devmod token step.1 in
      elim step.0 [
        | err e ↦ ([], some (err e))
        | ok true ↦ visit (module_of (some token) step.1) rest
        | ok false ↦ ([], some (ok false))
      ]

  abbrev pub as_shown : List (Text × M) → List (Text × Option M)
  as_shown [] = []
  as_shown (x ∷ xs) = (x.0, some x.1) ∷ as_shown xs

  -- A call for a token changes the state of no other token.
  pub next_module-other :
      (devmod : Option (List (Text × M))) (token other : Text) (states : States M)
      → token ≢ other
      → (next_module devmod (some token) states).1 other ≡ states other
  unfolding next_module set_state
  next_module-other devmod token other states h = ground (arith, =ᵇ_iff token other)

  -- After a cleanup the token's state is gone.
  pub module_of-cleanup_modules :
      (token : Text) (states : States M)
      → module_of (some token) (cleanup_modules (some token) states) ≡ err not_called
  unfolding module_of cleanup_modules set_state
  module_of-cleanup_modules token states = ground (arith, =ᵇ_iff token token)

  -- The next call for a token shows the modules `ms`: they remain, or the token is new and they are
  -- the device's.
  IsAt : Option (List (Text × M)) → Text → List (Text × M) → States M → Type 0
  IsAt devmod token ms states =
      ((m : Machine M) × (states token ≡ some m) × (m.remaining ≡ ms))
      ⊎ ((states token ≡ none) × (devmod ≡ some ms))

  -- A call with a module to come.
  next_module_cons :
      (devmod : Option (List (Text × M))) (token : Text) (x : Text × M) (rest : List (Text × M))
      (states : States M)
      → IsAt devmod token (x ∷ rest) states
      → ((next_module devmod (some token) states).0 ≡ ok true)
        × (module_of (some token) (next_module devmod (some token) states).1 ≡ ok (x.0, some x.1))
        × IsAt devmod token rest (next_module devmod (some token) states).1
  unfolding IsAt next_module module_of set_state next
  next_module_cons devmod token x rest states (inl (m, found, left)) = (
    ground (arith, found, left),
    ground (arith, found, left, =ᵇ_iff token token),
    inl (
      record { name = x.0; impl = some x.1; remaining = rest },
      ground (arith, found, left, =ᵇ_iff token token),
      refl,
    ),
  )
  next_module_cons devmod token x rest states (inr (fresh, modules)) = (
    ground (arith, fresh, modules),
    ground (arith, fresh, modules, =ᵇ_iff token token),
    inl (
      record { name = x.0; impl = some x.1; remaining = rest },
      ground (arith, fresh, modules, =ᵇ_iff token token),
      refl,
    ),
  )

  -- A call with none to come.
  next_module_nil :
      (devmod : Option (List (Text × M))) (token : Text) (states : States M)
      → IsAt devmod token [] states
      → (next_module devmod (some token) states).0 ≡ ok false
  unfolding IsAt next_module next
  next_module_nil devmod token states (inl (m, found, left)) = ground (arith, found, left)
  next_module_nil devmod token states (inr (fresh, modules)) = ground (arith, fresh, modules)

  visited-as_shown :
      (n : ℕ) (devmod : Option (List (Text × M))) (token : Text) (ms : List (Text × M))
      (states : States M)
      → IsAt devmod token ms states
      → length ms < n
      → visited n devmod token states ≡ (as_shown ms, some (ok false))
  unfolding visited length
  visited-as_shown zero devmod token ms states at h = ground arith
  visited-as_shown (suc n) devmod token [] states at h =
      ground (arith, next_module_nil devmod token states at)
  visited-as_shown (suc n) devmod token (x ∷ rest) states at h =
      let (more, shown, at') = next_module_cons devmod token x rest states at in
      let after = (next_module devmod (some token) states).1 in
      ground (arith, more, shown, visited-as_shown n devmod token rest after at' (omega arith))

  -- The calls for a new token show the modules of the device one after the other, each once and in
  -- order, and then NextModule answers false, however many more calls are allowed.
  pub next_module-visits :
      (n : ℕ) (token : Text) (modules : List (Text × M)) (states : States M)
      → states token ≡ none
      → length modules < n
      → visited n (some modules) token states ≡ (as_shown modules, some (ok false))
  unfolding IsAt
  next_module-visits n token modules states fresh h =
      visited-as_shown n (some modules) token modules states (inr (fresh, refl)) h
