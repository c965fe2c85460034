-- ===== src/V2/Shape.antt =====
-- What every accepted V2 document holds.
use go_fdo_server.Prelude.{
  ℕ, suc, ◌≡◌, ◌⊎◌, inl, inr, Bool, true, false, ◌||◌, List, [], ◌∷◌, ok, arith, refl,
}
use go_fdo_server.Rv.{RvInstruction}
use go_fdo_server.Rv.Json.{Object}
use go_fdo_server.Rv.Cbor.{Platform}
use go_fdo_server.V2.Directives.{is_address, parse_group, parse_from, parse_v2_json}
use go_fdo_server.V2.RoundTrip.{parse_group_inv, parse_from_inv}

-- Some instruction names a DNS name or an address.
abbrev pub HasAddress : List RvInstruction → Type 0
HasAddress [] = ⊥
HasAddress (i ∷ is) = (is_address i.variable ≡ true) ⊎ HasAddress is

-- One instruction for each object of the directive.
abbrev pub SameLength : List Object → List RvInstruction → Type 0
SameLength [] [] = Unit
SameLength (o ∷ os) (i ∷ is) = SameLength os is
SameLength os is = ⊥

-- One directive for each directive, each with an address.
abbrev pub IsComplete : List (List Object) → List (List RvInstruction) → Type 0
IsComplete [] [] = Unit
IsComplete (g ∷ gs) (is ∷ out) = SameLength g is × HasAddress is × IsComplete gs out
IsComplete gs out = ⊥

module _ (p : Platform) where
  parse_group-SameLength :
      (d j : ℕ) (has : Bool) (os : List Object) {g : List RvInstruction × Bool}
      → parse_group p d j has os ≡ ok g
      → SameLength os g.0
  parse_group-SameLength d j has [] h = unfold parse_group in ground arith
  parse_group-SameLength d j has (o ∷ os) h =
      let (i, is, out, single, group, same) = parse_group_inv p d j has o os h in
      rw same (parse_group-SameLength d (suc j) (has || is_address i.variable) os group)

  -- The flag is set at the end exactly if it was set before, or an instruction sets it.
  parse_group_has :
      (d j : ℕ) (has : Bool) (os : List Object) {g : List RvInstruction × Bool}
      → parse_group p d j has os ≡ ok g
      → g.1 ≡ true
      → (has ≡ true) ⊎ HasAddress g.0
  parse_group_has d j has [] h k = unfold parse_group in ground arith
  parse_group_has d j has (o ∷ os) h k =
      let (i, is, out, single, group, same) = parse_group_inv p d j has o os h in
      ground (arith, same, parse_group_has d (suc j) (has || is_address i.variable) os group)

  has_address : (is : List RvInstruction) → (false ≡ true) ⊎ HasAddress is → HasAddress is
  has_address is (inl e) = cc
  has_address is (inr h) = h

  parse_from-IsComplete :
      (d : ℕ) (gs : List (List Object)) {out : List (List RvInstruction)}
      → parse_from p d gs ≡ ok out
      → IsComplete gs out
  parse_from-IsComplete d [] h = unfold parse_from in ground arith
  parse_from-IsComplete d (g ∷ gs) h =
      let (is, rest, group, more, same) = parse_from_inv p d g gs h in
      rw same (
        parse_group-SameLength d 0 false g group,
        has_address is (parse_group_has d 0 false g group refl),
        parse_from-IsComplete (suc d) gs more,
      )

  -- An accepted document has one list of instructions for each directive, one instruction for each
  -- object, and in each directive a DNS name or an IP address.
  pub parse_v2_json-IsComplete :
      (directives : List (List Object)) {out : List (List RvInstruction)}
      → parse_v2_json p directives ≡ ok out
      → IsComplete directives out
  unfolding parse_v2_json
  parse_v2_json-IsComplete directives h = parse_from-IsComplete 0 directives h
