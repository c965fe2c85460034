-- ===== src/V1/Port.antt =====
-- `parsePortValue` of internal/db/db.go: numbers and decimal texts.
use go_fdo_server.Prelude.{
  ℕ, ◌≤◌, ◌≡◌, ◌||◌, Option, none, some, [], Result, ok, err, arith, ltb, ◌=ᵇ◌, =ᵇ_iff,
  if◌then◌else◌,
}
use go_fdo_server.Prelude.Decimal.{
  ℤ, pos, negsuc, atoi, format_uint, atoi-format_uint, format_uint-ne-nil,
}
use go_fdo_server.Prelude.Float.{is_whole, lt_const, gt_const, magnitude, magnitude_bounds}
use go_fdo_server.Rv.Json.{Value, number, str}

pub data PortError : Type 0 where
  not_integer out_of_range empty_port not_decimal unsupported_type : PortError

-- `i < 1 || i > 65535`, on the signed result of Atoi.
abbrev in_port_range : ℤ → Result PortError ℕ
in_port_range (pos n) = if ltb n 1 || ltb 65535 n then err out_of_range else ok n
in_port_range (negsuc n) = err out_of_range

abbrev decimal_port : Option ℤ → Result PortError ℕ
decimal_port none = err not_decimal
decimal_port (some i) = in_port_range i

unfoldable pub parse_port_value : Value → Result PortError ℕ
parse_port_value (number t) =
    if is_whole t
    then (if lt_const t 1 || gt_const t 65535 then err out_of_range else ok (magnitude t))
    else err not_integer
parse_port_value (str t) = if t =ᵇ [] then err empty_port else decimal_port (atoi t)
parse_port_value v = err unsupported_type

-- An accepted port lies between 1 and 65535.
pub parse_port_value_bounds :
    (v : Value) {n : ℕ} → parse_port_value v ≡ ok n → (1 ≤ n) × (n ≤ 65535)
unfolding parse_port_value
parse_port_value_bounds (number f) h = ground (arith, magnitude_bounds f 1 65535)
parse_port_value_bounds v h = ground arith

-- A port that is printed in decimal is read back.
pub parse_port_value-format_uint :
    (n : ℕ) → 1 ≤ n → n ≤ 65535 → parse_port_value (str (format_uint n)) ≡ ok n
unfolding parse_port_value
parse_port_value-format_uint n h k =
    ground (arith, atoi-format_uint n, =ᵇ_iff (format_uint n) [], format_uint-ne-nil n)
