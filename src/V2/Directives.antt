-- ===== src/V2/Directives.antt =====
-- `parseV2JSON` of internal/handlers/rvinfo/parser.go, after `json.Unmarshal` has made an array of
-- arrays of objects of the text.
use go_fdo_server.Prelude.{
  ℕ, suc, Bool, true, false, ◌||◌, List, [], ◌∷◌, Result, ok, err, map_err, ◌>>=◌, if◌then◌else◌,
}
use go_fdo_server.Rv.{RvVar, dns, ip_address, RvInstruction}
use go_fdo_server.Rv.Json.{Object}
use go_fdo_server.Rv.Cbor.{Platform}
use go_fdo_server.V2.Parser.{InstructionError, parse_port_value, parse_rv_instruction}

pub data GroupError : Type 0 where
  not_single_key : ℕ → GroupError
  invalid : InstructionError → GroupError

-- `rvinfo[i][j]: …` and `rvinfo[i]: at least one of dns or ip must be specified`
pub data ParseError : Type 0 where
  at : ℕ → ℕ → GroupError → ParseError
  no_address : ℕ → ParseError

abbrev pub is_address : RvVar → Bool
is_address dns = true
is_address ip_address = true
is_address v = false

abbrev count_keys : Object → ℕ
count_keys [] = 0
count_keys (kv ∷ o) = suc (count_keys o)

module _ (p : Platform) where
  unfoldable pub parse_single : Object → Result GroupError RvInstruction
  parse_single ((key, value) ∷ []) =
      map_err invalid (parse_rv_instruction p key value parse_port_value)
  parse_single o = err (not_single_key (count_keys o))

  -- The loop over the instructions of directive `i`, from index `j`; `has` is `hasDNSorIP`.
  unfoldable pub parse_group :
      ℕ → ℕ → Bool → List Object → Result ParseError (List RvInstruction × Bool)
  unfolding parse_single
  parse_group i j has [] = ok ([], has)
  parse_group i j has (o ∷ os) = do
    instr ← map_err (at i j) (parse_single o)
    rest ← parse_group i (suc j) (has || is_address instr.variable) os
    ok (instr ∷ rest.0, rest.1)

  unfoldable pub parse_from : ℕ → List (List Object) → Result ParseError (List (List RvInstruction))
  parse_from i [] = ok []
  parse_from i (g ∷ gs) = do
    group ← parse_group i 0 false g
    if group.1 then (do rest ← parse_from (suc i) gs; ok (group.0 ∷ rest)) else err (no_address i)

  unfoldable pub parse_v2_json : List (List Object) → Result ParseError (List (List RvInstruction))
  unfolding parse_from
  parse_v2_json directives = parse_from 0 directives
