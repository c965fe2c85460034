-- ===== src/Prelude/Slices.antt =====
-- Go's byte slices and strings: a Go string is a sequence of bytes too.
use Prim.Native.Nat.{ℕ, zero, suc, ◌+◌, ◌≤◌}
use Prim.Native.Char.{code}
use Prim.Native.String.{String}
use mathlib.Core.Path.{◌≡◌, refl, ap}
use mathlib.Core.Logic.{◌↔◌}
use mathlib.Core.Bool.{Bool, true, false, ◌&&◌}
use mathlib.Core.List.{List, [], ◌∷◌, ◌++◌}
use native.Mathlib.Omega.{arith}
use go_fdo_server.Prelude.Tests.{◌==◌}

abbrev pub Bytes : Type 0
Bytes = List ℕ

-- A Go string.
abbrev pub Text : Type 0
Text = List ℕ

-- The bytes of an ASCII literal.
abbrev pub codes : String → Text
codes String.[] = []
codes (String.◌∷◌ c s) = code c ∷ codes s

-- `==` on strings, `bytes.Equal` on slices.
infix 50 ◌=ᵇ◌
unfoldable pub ◌=ᵇ◌ : Bytes → Bytes → Bool
[] =ᵇ [] = true
[] =ᵇ (y ∷ ys) = false
(x ∷ xs) =ᵇ [] = false
(x ∷ xs) =ᵇ (y ∷ ys) = (x == y) && (xs =ᵇ ys)

pub =ᵇ_iff : (xs ys : Bytes) → ((xs =ᵇ ys) ≡ true) ↔ (xs ≡ ys)
unfolding ◌=ᵇ◌
=ᵇ_iff [] [] = ground arith
=ᵇ_iff [] (y ∷ ys) = ground arith
=ᵇ_iff (x ∷ xs) [] = ground arith
=ᵇ_iff (x ∷ xs) (y ∷ ys) = ground (arith, =ᵇ_iff xs ys)

-- `len`.
unfoldable pub length {ℓ} : {A : Type ℓ} → List A → ℕ
length [] = 0
length (x ∷ xs) = suc (length xs)

pub length-append {ℓ} : {A : Type ℓ} (xs ys : List A) → length (xs ++ ys) ≡ length xs + length ys
unfolding length
length-append [] ys = ground arith
length-append (x ∷ xs) ys = ground (arith, length-append xs ys)

-- `copy(a[:], b)` into an array of n zeros.
unfoldable pub copy_into : ℕ → Bytes → Bytes
copy_into zero b = []
copy_into (suc n) [] = 0 ∷ copy_into n []
copy_into (suc n) (x ∷ b) = x ∷ copy_into n b

pub copy_into-length : (b : Bytes) → copy_into (length b) b ≡ b
unfolding copy_into length
copy_into-length [] = refl
copy_into-length (x ∷ b) = ap (λ rest. x ∷ rest) (copy_into-length b)

-- The values that a Go byte can have.
abbrev pub AreBytes : List ℕ → Type 0
AreBytes [] = Unit
AreBytes (x ∷ xs) = (x ≤ 255) × AreBytes xs
