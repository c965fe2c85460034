-- ===== src/Machines.antt =====
-- `moduleStateMachines` of cmd/owner.go: for each token the modules that a device is still sent.
-- `M` is the type of the modules; the sequence that iter.Pull2 pulls from is a list; stopping
-- it has no effect that the states show.
pub mod Order
use go_fdo_server.Prelude.{
  ℕ, Bool, true, false, Option, none, some, List, [], ◌∷◌, Text, Result, ok, err, ◌=ᵇ◌,
  if◌then◌else◌,
}

pub data MachineError : Type 0 where
  no_token not_called devmod_failed : MachineError

-- `moduleStateMachineState`: the current module, and what Next will return.
pub record Machine (M : Type 0) : Type 0 where
  pub name : Text
  pub impl : Option M
  pub remaining : List (Text × M)

-- `states map[string]*moduleStateMachineState`
abbrev pub States : Type 0 → Type 0
States M = Text → Option (Machine M)

module _ {M : Type 0} where
  unfoldable pub set_state : States M → Text → Option (Machine M) → States M
  set_state states token m t = if token =ᵇ t then m else states t

  -- `module.Next()`: the machine after it, and whether there was a module.
  unfoldable pub next : Machine M → Machine M × Bool
  next m = elim m.remaining [
    | [] ↦ (record { name = []; impl = none; remaining = [] }, false)
    | x ∷ rest ↦ (record { name = x.0; impl = some x.1; remaining = rest }, true)
  ]

  abbrev pub new_machine : List (Text × M) → Machine M
  new_machine modules = record { name = []; impl = none; remaining = modules }

  unfoldable pub module_of : Option Text → States M → Result MachineError (Text × Option M)
  module_of none states = err no_token
  module_of (some token) states = elim (states token) [
    | none ↦ err not_called
    | some m ↦ ok (m.name, m.impl)
  ]

  advance : Text → Machine M → States M → Result MachineError Bool × States M
  unfolding set_state next
  advance token m states = (ok (next m).1, set_state states token (some (next m).0))

  -- `devmod` is what the device's devmod says it supports, if it can be read, as the sequence that
  -- `ownerModules` makes of it.
  unfoldable pub next_module :
      Option (List (Text × M)) → Option Text → States M → Result MachineError Bool × States M
  unfolding advance
  next_module devmod none states = (err no_token, states)
  next_module devmod (some token) states = elim (states token) [
    | some m ↦ advance token m states
    | none ↦ elim devmod [
      | none ↦ (err devmod_failed, states)
      | some modules ↦ advance token (new_machine modules) states
    ]
  ]

  unfoldable pub cleanup_modules : Option Text → States M → States M
  unfolding set_state
  cleanup_modules none states = states
  cleanup_modules (some token) states = elim (states token) [
    | none ↦ states
    | some m ↦ set_state states token none
  ]
