-- ===== src/Prelude/Float.antt =====
-- Go's float64, as `json.Unmarshal` makes it from a number: a finite value, hence a signed integer
-- over a power of two.
use Prim.Native.Nat.{ℕ, zero, suc, ◌*◌, ◌/◌, ◌%◌, ◌^◌, ◌≤◌, ◌<◌}
use native.Mathlib.Nat.{pow-suc}
use mathlib.Core.Path.{◌≡◌}
use mathlib.Core.Bool.{Bool, true, false, ◌&&◌, not}
use native.Mathlib.Omega.{arith}
use go_fdo_server.Prelude.Tests.{ltb, ◌==◌, if◌then◌else◌}

-- The value is mantissa / 2 ^ shift, or its negation.
pub record Float64 : Type 0 where
  pub negative : Bool
  pub mantissa : ℕ
  pub shift : ℕ

abbrev pub of_ℕ : ℕ → Float64
of_ℕ n = record { negative = false; mantissa = n; shift = 0 }

-- `f == math.Trunc(f)`
unfoldable pub is_whole : Float64 → Bool
is_whole f = f.mantissa % 2 ^ f.shift == 0

-- `f < n`, for a constant n ≥ 0
unfoldable pub lt_const : Float64 → ℕ → Bool
lt_const f n =
    if f.negative then not (f.mantissa == 0 && n == 0) else ltb f.mantissa (n * 2 ^ f.shift)

-- `f > n`, for a constant n ≥ 0
unfoldable pub gt_const : Float64 → ℕ → Bool
gt_const f n = if f.negative then false else ltb (n * 2 ^ f.shift) f.mantissa

-- The integer part of the magnitude. A conversion `uint16(f)` of a whole, non-negative number in
-- range is this number; out of range Go leaves the result to the implementation.
unfoldable pub magnitude : Float64 → ℕ
magnitude f = f.mantissa / 2 ^ f.shift

div_bounds : (m d lo hi : ℕ) → 0 < d → lo * d ≤ m → m ≤ hi * d → (lo ≤ m / d) × (m / d ≤ hi)
div_bounds m d lo hi h p q = (grind arith, grind arith)

pow-pos : (n : ℕ) → 0 < 2 ^ n
pow-pos zero = omega arith
pow-pos (suc n) = rw (pow-suc 2 n) (omega (arith, pow-pos n))

-- A number that passes both range checks has its integer part in the range.
pub magnitude_bounds :
    (f : Float64) (lo hi : ℕ)
    → 0 < lo
    → lt_const f lo ≡ false
    → gt_const f hi ≡ false
    → (lo ≤ magnitude f) × (magnitude f ≤ hi)
unfolding lt_const gt_const magnitude
magnitude_bounds f lo hi p h k =
    ground (arith, pow-pos f.shift, div_bounds f.mantissa (2 ^ f.shift) lo hi)

-- A whole number in a range, written as an integer, is read back.
pub of_ℕ_lem : (n : ℕ) → (is_whole (of_ℕ n) ≡ true) × (magnitude (of_ℕ n) ≡ n)
unfolding is_whole magnitude
of_ℕ_lem n = (ground arith, omega arith)

pub of_ℕ_bounds :
    (n lo hi : ℕ)
    → lo ≤ n
    → n ≤ hi
    → (lt_const (of_ℕ n) lo ≡ false) × (gt_const (of_ℕ n) hi ≡ false)
unfolding lt_const gt_const
of_ℕ_bounds n lo hi h k = (ground arith, ground arith)
