-- ===== src/V2/RoundTrip.antt =====
-- What `parseV2JSON` accepts, `convertToV2JSON` writes back: parsing the result again gives the
-- same instructions.
use go_fdo_server.Prelude.{
  ℕ, suc, ◌≡◌, Bool, true, false, ◌||◌, List, [], ◌∷◌, Text, Result, ok, err, map_err, >>=-eq-ok,
  map_err-eq-ok, inl, inr, ◌>>=◌, if◌then◌else◌, arith, refl, Option-cases, ap, ◌∙◌,
}
use go_fdo_server.Rv.{RvVar, other, RvInstruction}
use go_fdo_server.Rv.Json.{Value, Object}
use go_fdo_server.Rv.Cbor.{Platform}
use go_fdo_server.V2.Parser.{parse_port_value, parse_variable, parse_rv_instruction, key_variable}
use go_fdo_server.V2.Directives.{
  ParseError, no_address, invalid, at, is_address, parse_single, parse_group, parse_from,
  parse_v2_json,
}
use go_fdo_server.V2.Converter.{
  item_key, item_value, convert_variable, convert_instruction, convert_group, convert_to_v2_json,
}
use go_fdo_server.V2.Kept.{variable-Kept, variable-parse_variable, key_variable-item_key}

module _ (p : Platform) where
  -- The accepted instruction was built by the case of some variable.
  parse_rv_instruction_inv :
      (key : Text) (value : Value) (i : RvInstruction)
      → parse_rv_instruction p key value parse_port_value ≡ ok i
      → (v : RvVar) × (parse_variable p parse_port_value key v value ≡ ok i)
  unfolding parse_rv_instruction
  parse_rv_instruction_inv key value i h = elim (Option-cases (key_variable key)) [
    | inl unknown ↦ ground arith
    | inr (v, known) ↦ (v, ground arith)
  ]

  convert_variable_named :
      (v : RvVar) (i : RvInstruction) (w : Value)
      → item_value p i v ≡ ok w
      → parse_variable p parse_port_value (item_key v) v w ≡ ok i
      → convert_variable p i v ≡ ok ((item_key v, w) ∷ [])
  convert_variable_named (other n) i w h k = unfold parse_variable in cc
  convert_variable_named v i w h k = unfold convert_variable in rw h

  convert_instruction_named :
      (v : RvVar) (i : RvInstruction) (w : Value)
      → i.variable ≡ v
      → item_value p i v ≡ ok w
      → parse_variable p parse_port_value (item_key v) v w ≡ ok i
      → convert_instruction p i ≡ ok ((item_key v, w) ∷ [])
  unfolding convert_instruction
  convert_instruction_named v i w same h k =
      ap (convert_variable p i) same ∙ convert_variable_named v i w h k

  parse_single_named :
      (v : RvVar) (i : RvInstruction) (w : Value)
      → parse_variable p parse_port_value (item_key v) v w ≡ ok i
      → parse_single p ((item_key v, w) ∷ []) ≡ ok i
  unfolding parse_single parse_rv_instruction
  parse_single_named v i w k = ground (arith, key_variable-item_key p v w i k)

  parse_single_readback :
      (o : Object) (i : RvInstruction)
      → parse_single p o ≡ ok i
      → (o' : Object) × (convert_instruction p i ≡ ok o') × (parse_single p o' ≡ ok i)
  parse_single_readback ((key, value) ∷ []) i h =
      let (v, built) =
        parse_rv_instruction_inv key value i (map_err-eq-ok invalid _ (unfold parse_single in h)) in
      let (w, written, parsed) = variable-Kept p v key value i built in
      (
        (item_key v, w) ∷ [],
        convert_instruction_named v i w (variable-parse_variable p v key value i built) written
            parsed,
        parse_single_named v i w parsed,
      )
  parse_single_readback [] i h = unfold parse_single in cc
  parse_single_readback (kv ∷ kv' ∷ o) i h = unfold parse_single in cc

  parse_group_cons :
      (d j : ℕ) (has out : Bool) (o : Object) (os : List Object) (i : RvInstruction)
      (is : List RvInstruction)
      → parse_single p o ≡ ok i
      → parse_group p d (suc j) (has || is_address i.variable) os ≡ ok (is, out)
      → parse_group p d j has (o ∷ os) ≡ ok (i ∷ is, out)
  unfolding parse_group
  parse_group_cons d j has out o os i is h k = rw (h, k)

  pub parse_group_inv :
      (d j : ℕ) (has : Bool) (o : Object) (os : List Object) {g : List RvInstruction × Bool}
      → parse_group p d j has (o ∷ os) ≡ ok g
      → (i : RvInstruction) × (is : List RvInstruction) × (out : Bool) × (parse_single p o ≡ ok i)
        × (parse_group p d (suc j) (has || is_address i.variable) os ≡ ok (is, out))
        × (g ≡ (i ∷ is, out))
  unfolding parse_group
  parse_group_inv d j has o os h =
      let (i, single, h') = >>=-eq-ok (map_err (at d j) (parse_single p o)) _ h in
      let (rest, group, same) =
        >>=-eq-ok (parse_group p d (suc j) (has || is_address i.variable) os) _ h' in
      (i, rest.0, rest.1, map_err-eq-ok (at d j) _ single, group, cc same)

  convert_group_cons :
      (i : RvInstruction) (is : List RvInstruction) (o : Object) (os : List Object)
      → convert_instruction p i ≡ ok o
      → convert_group p is ≡ ok os
      → convert_group p (i ∷ is) ≡ ok (o ∷ os)
  unfolding convert_group
  convert_group_cons i is o os h k = rw (h, k)

  parse_group_readback :
      (d j : ℕ) (has : Bool) (os : List Object) {g : List RvInstruction × Bool}
      → parse_group p d j has os ≡ ok g
      → (os' : List Object) × (convert_group p g.0 ≡ ok os') × (parse_group p d j has os' ≡ ok g)
  parse_group_readback d j has [] h = ([], unfold parse_group convert_group in ground arith, h)
  parse_group_readback d j has (o ∷ os) h =
      let (i, is, out, single, group, same) = parse_group_inv d j has o os h in
      let (o', written, parsed) = parse_single_readback o i single in
      let (os', written', parsed') =
        parse_group_readback d (suc j) (has || is_address i.variable) os group in
      rw same (
        o' ∷ os',
        convert_group_cons i is o' os' written written',
        parse_group_cons d j has out o' os' i is parsed parsed',
      )

  checked_inv :
      (has : Bool) (is : List RvInstruction) (m : Result ParseError (List (List RvInstruction)))
      (e : ParseError) {out : List (List RvInstruction)}
      → (if has then (do rest ← m; ok (is ∷ rest)) else err e) ≡ ok out
      → (has ≡ true) × (rest : List (List RvInstruction)) × (m ≡ ok rest) × (out ≡ is ∷ rest)
  checked_inv true is (ok rest) e h = (refl, rest, refl, cc)
  checked_inv true is (err e') e h = cc
  checked_inv false is m e h = cc

  pub parse_from_inv :
      (d : ℕ) (g : List Object) (gs : List (List Object)) {out : List (List RvInstruction)}
      → parse_from p d (g ∷ gs) ≡ ok out
      → (is : List RvInstruction) × (rest : List (List RvInstruction)) × (parse_group p d 0 false g
          ≡ ok (is, true))
        × (parse_from p (suc d) gs ≡ ok rest)
        × (out ≡ is ∷ rest)
  unfolding parse_from
  parse_from_inv d g gs h =
      let ((is, has), group, h') = >>=-eq-ok (parse_group p d 0 false g) _ h in
      let (passed, rest, more, same) =
        checked_inv has is (parse_from p (suc d) gs) (no_address d) h' in
      (is, rest, rw (← passed) group, more, same)

  parse_from_cons :
      (d : ℕ) (g : List Object) (gs : List (List Object)) (is : List RvInstruction)
      (rest : List (List RvInstruction))
      → parse_group p d 0 false g ≡ ok (is, true)
      → parse_from p (suc d) gs ≡ ok rest
      → parse_from p d (g ∷ gs) ≡ ok (is ∷ rest)
  unfolding parse_from
  parse_from_cons d g gs is rest h k = rw (h, k)

  convert_to_v2_json_cons :
      (is : List RvInstruction) (rest : List (List RvInstruction)) (g : List Object)
      (gs : List (List Object))
      → convert_group p is ≡ ok g
      → convert_to_v2_json p rest ≡ ok gs
      → convert_to_v2_json p (is ∷ rest) ≡ ok (g ∷ gs)
  unfolding convert_to_v2_json
  convert_to_v2_json_cons is rest g gs h k = rw (h, k)

  parse_from_readback :
      (d : ℕ) (gs : List (List Object)) {out : List (List RvInstruction)}
      → parse_from p d gs ≡ ok out
      → (gs' : List (List Object)) × (convert_to_v2_json p out ≡ ok gs')
        × (parse_from p d gs' ≡ ok out)
  parse_from_readback d [] h = ([], unfold parse_from convert_to_v2_json in ground arith, h)
  parse_from_readback d (g ∷ gs) h =
      let (is, rest, group, more, same) = parse_from_inv d g gs h in
      let (g', written, parsed) = parse_group_readback d 0 false g group in
      let (gs', written', parsed') = parse_from_readback (suc d) gs more in
      rw same (
        g' ∷ gs',
        convert_to_v2_json_cons is rest g' gs' written written',
        parse_from_cons d g' gs' is rest parsed parsed',
      )

  -- What `parseV2JSON` accepts, `convertToV2JSON` can write back, and parsing what it writes gives
  -- the same instructions.
  pub parse_v2_json-convert_to_v2_json :
      (directives : List (List Object)) {out : List (List RvInstruction)}
      → parse_v2_json p directives ≡ ok out
      → (written : List (List Object)) × (convert_to_v2_json p out ≡ ok written)
        × (parse_v2_json p written ≡ ok out)
  unfolding parse_v2_json
  parse_v2_json-convert_to_v2_json directives h = parse_from_readback 0 directives h
