-- ===== src/Rv/Json.antt =====
-- What `json.Unmarshal` makes of a JSON text when the target is interface{}: the dynamic values of
-- Go, and the type assertions on them.
use go_fdo_server.Prelude.{
  ℕ, suc, ◌≡◌, refl, Bool, Option, none, some, List, [], ◌∷◌, Text, Result, ok, err, ◌>>=◌,
}
use go_fdo_server.Prelude.Float.{Float64}

mutual
  pub data Value : Type 0 where
    null : Value
    bool : Bool → Value
    number : Float64 → Value
    str : Text → Value
    array : Items → Value
    object : Fields → Value

  pub data Items : Type 0 where
    nil : Items
    cons : Value → Items → Items

  pub data Fields : Type 0 where
    end : Fields
    field : Text → Value → Fields → Fields

-- A map[string]interface{}: its entries, whose keys differ.
abbrev pub Object : Type 0
Object = List (Text × Value)

-- `s, ok := value.(string)`, and so on.
unfoldable pub as_string : Value → Option Text
as_string (str s) = some s
as_string v = none

unfoldable pub as_bool : Value → Option Bool
as_bool (bool b) = some b
as_bool v = none

unfoldable pub as_number : Value → Option Float64
as_number (number f) = some f
as_number v = none

unfoldable pub as_array : Value → Option Items
as_array (array vs) = some vs
as_array v = none

-- The loop that converts []interface{} to []string, from index `i`.
unfoldable pub as_strings : ℕ → Items → Result ℕ (List Text)
unfolding as_string
as_strings i nil = ok []
as_strings i (cons v vs) = elim (as_string v) [
  | none ↦ err i
  | some s ↦ (do rest ← as_strings (suc i) vs; ok (s ∷ rest))
]

-- A []string as the value that it decodes to.
unfoldable pub of_strings : List Text → Items
of_strings [] = nil
of_strings (s ∷ ss) = cons (str s) (of_strings ss)

pub as_strings-of_strings : (i : ℕ) (ss : List Text) → as_strings i (of_strings ss) ≡ ok ss
unfolding as_strings of_strings
as_strings-of_strings i [] = refl
as_strings-of_strings i (s ∷ ss) = rw (as_strings-of_strings (suc i) ss)
