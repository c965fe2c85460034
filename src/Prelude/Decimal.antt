-- ===== src/Prelude/Decimal.antt =====
-- Go's strconv: `FormatUint(n, 10)` and `Atoi`.
use Prim.Native.Nat.{ℕ, zero, suc, ◌+◌, ◌-◌, ◌*◌, ◌/◌, ◌%◌, ◌^◌, ◌≤◌, ◌<◌}
use mathlib.Core.Path.{◌≡◌, refl, ap}
use mathlib.Core.Logic.{◌≢◌}
use mathlib.Core.Bool.{◌&&◌}
use mathlib.Core.Option.{Option, none, some}
use mathlib.Core.List.{[], ◌∷◌}
use native.Mathlib.Omega.{arith}
use go_fdo_server.Prelude.Tests.{leb, ltb, ◌==◌, if◌then◌else◌}
use go_fdo_server.Prelude.Slices.{Text, codes}

-- `negsuc n` is -(n + 1).
pub data ℤ : Type 0 where
  pos : ℕ → ℤ
  negsuc : ℕ → ℤ

-- The digits of `n`, written in front of `out`; the fuel bounds their number.
format_digits : ℕ → ℕ → Text → Text
format_digits zero n out = out
format_digits (suc fuel) n out =
    let out' = (b'0' + n % 10) ∷ out in
    let rest = format_digits fuel (n / 10) out' in if n / 10 == 0 then out' else rest

-- Enough fuel for a 64-bit number: it has at most 20 digits.
unfoldable pub format_uint : ℕ → Text
unfolding format_digits
format_uint n = format_digits 20 n []

-- The number that digits spell behind `n`, with no bound: `Atoi` checks the bound at the end.
scan : Text → ℕ → Option ℕ
scan [] n = some n
scan (c ∷ s) n = if leb b'0' c && leb c b'9' then scan s (n * 10 + (c - b'0')) else none

digits : Text → Option ℕ
unfolding scan
digits [] = none
digits (c ∷ s) = scan (c ∷ s) 0

-- The range of a 64-bit `int`.
abbrev to_positive : Option ℕ → Option ℤ
to_positive none = none
to_positive (some n) = if ltb n (2 ^ 63) then some (pos n) else none

abbrev to_negative : Option ℕ → Option ℤ
to_negative none = none
to_negative (some zero) = some (pos 0)
to_negative (some (suc n)) = if ltb n (2 ^ 63) then some (negsuc n) else none

unfoldable pub atoi : Text → Option ℤ
unfolding digits
atoi [] = none
atoi (c ∷ s) =
    if c == b'-'
    then to_negative (digits s)
    else if c == b'+'
    then to_positive (digits s)
    else to_positive (digits (c ∷ s))

atoi_tests :
    (atoi (codes "8080") ≡ some (pos 8080))
    × (atoi (codes "+007") ≡ some (pos 7))
    × (atoi (codes "-1") ≡ some (negsuc 0))
    × (atoi (codes "80a") ≡ none)
    × (atoi (codes "9223372036854775808") ≡ none)
    × (format_uint 65535 ≡ codes "65535")
    × (format_uint 0 ≡ codes "0")
unfolding atoi format_uint
atoi_tests = (refl, refl, refl, refl, refl, refl, refl)

scan_last : (n : ℕ) (out : Text) → scan ((b'0' + n % 10) ∷ out) (n / 10) ≡ scan out n
unfolding scan
scan_last n out = ground arith

scan-format_digits :
    (fuel n : ℕ) (out : Text) → n < 10 ^ fuel → scan (format_digits fuel n out) 0 ≡ scan out n
unfolding format_digits
scan-format_digits zero n out h = let e : ◌≡◌ {A = ℕ} 0 n = omega arith in ap (scan out) e
scan-format_digits (suc fuel) n out h =
    ground (arith, scan_last n out, scan-format_digits fuel (n / 10) ((b'0' + n % 10) ∷ out))

abbrev StartsWithDigit : Text → Type 0
StartsWithDigit [] = ⊥
StartsWithDigit (c ∷ s) = (b'0' ≤ c) × (c ≤ b'9')

format_digits-StartsWithDigit :
    (fuel n : ℕ) (out : Text) → StartsWithDigit out → StartsWithDigit (format_digits fuel n out)
unfolding format_digits
format_digits-StartsWithDigit zero n out h = h
format_digits-StartsWithDigit (suc fuel) n out h =
    ground (arith, format_digits-StartsWithDigit fuel (n / 10) ((b'0' + n % 10) ∷ out))

format_uint-StartsWithDigit : (n : ℕ) → StartsWithDigit (format_uint n)
unfolding format_uint
format_uint-StartsWithDigit n =
    ground (arith, format_digits-StartsWithDigit 19 (n / 10) ((b'0' + n % 10) ∷ []))

atoi_of_StartsWithDigit : (s : Text) → StartsWithDigit s → atoi s ≡ to_positive (scan s 0)
unfolding atoi
atoi_of_StartsWithDigit [] h = absurd h
atoi_of_StartsWithDigit (c ∷ s) h = ground arith

scan-format_uint : (n : ℕ) → n < 10 ^ 20 → scan (format_uint n) 0 ≡ some n
unfolding format_uint scan
scan-format_uint n h = scan-format_digits 20 n [] h

-- `Atoi` reads back what `FormatUint` prints.
pub atoi-format_uint : (n : ℕ) → n < 2 ^ 63 → atoi (format_uint n) ≡ some (pos n)
atoi-format_uint n h =
    rw
      (
        atoi_of_StartsWithDigit (format_uint n) (format_uint-StartsWithDigit n),
        scan-format_uint n (omega arith),
      )
      (ground arith)

pub format_uint-ne-nil : (n : ℕ) → format_uint n ≢ []
format_uint-ne-nil n e = rw e at (format_uint-StartsWithDigit n)
