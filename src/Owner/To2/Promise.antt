-- ===== src/Owner/To2/Promise.antt =====
-- The TO2 session of internal/db/state_to2.go as a promise: `View` is the session as a client of the FDO
-- library sees it, without tables and encodings.
use go_fdo_server.Prelude.{
  ℕ, ◌≡◌, ◌≤◌, Bool, Option, none, some, List, [], ◌∷◌, Bytes, Text, length,
}
use go_fdo_server.Owner.Rows.{guid_size, max_uint16}

pub record View (A D : Type 0) : Type 0 where
  pub guid : Bytes
  pub rv_info : Option A
  pub prove_device : Option Bytes
  pub setup_device : Option Bytes
  pub mtu : Option ℕ
  pub devmod : Option (D × List Text × Bool)

-- A call of a setter.
pub data To2Write (A D : Type 0) : Type 0 where
  guid : Bytes → To2Write A D
  rv_info : A → To2Write A D
  prove_device : Bytes → To2Write A D
  setup_device : Bytes → To2Write A D
  mtu : ℕ → To2Write A D
  devmod : D → List Text → Bool → To2Write A D

-- The arguments are Go's arrays of 16 bytes and uint16.
abbrev pub IsTyped : {A D : Type 0} → To2Write A D → Type 0
IsTyped (To2Write.guid g) = length g ≡ guid_size
IsTyped (To2Write.rv_info a) = Unit
IsTyped (To2Write.prove_device n) = length n ≡ guid_size
IsTyped (To2Write.setup_device n) = length n ≡ guid_size
IsTyped (To2Write.mtu n) = n ≤ max_uint16
IsTyped (To2Write.devmod d names complete) = Unit

abbrev pub AreTyped : {A D : Type 0} → List (To2Write A D) → Type 0
AreTyped [] = Unit
AreTyped (w ∷ ws) = IsTyped w × AreTyped ws

abbrev pub new_view : {A D : Type 0} → Bytes → View A D
new_view g = record {
  guid = g;
  rv_info = none;
  prove_device = none;
  setup_device = none;
  mtu = none;
  devmod = none;
}

-- What a call promises. Only `SetGUID` begins a session's state; the others do nothing before it.
abbrev pub promised : {A D : Type 0} → To2Write A D → Option (View A D) → Option (View A D)
promised (To2Write.guid g) none = some (new_view g)
promised (To2Write.guid g) (some v) = some (record v { guid = g })
promised (To2Write.rv_info a) none = none
promised (To2Write.rv_info a) (some v) = some (record v { rv_info = some a })
promised (To2Write.prove_device n) none = none
promised (To2Write.prove_device n) (some v) = some (record v { prove_device = some n })
promised (To2Write.setup_device n) none = none
promised (To2Write.setup_device n) (some v) = some (record v { setup_device = some n })
promised (To2Write.mtu n) none = none
promised (To2Write.mtu n) (some v) = some (record v { mtu = some n })
promised (To2Write.devmod d names complete) none = none
promised (To2Write.devmod d names complete) (some v) =
    some (record v { devmod = some (d, names, complete) })

abbrev pub promised_all :
    {A D : Type 0} → List (To2Write A D) → Option (View A D) → Option (View A D)
promised_all [] v = v
promised_all (w ∷ ws) v = promised_all ws (promised w v)
