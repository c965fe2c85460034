-- ===== src/Prelude/Hex.antt =====
-- Go's encoding/hex: `EncodeToString` and `DecodeString`.
use Prim.Native.Nat.{ℕ, ◌+◌, ◌-◌, ◌*◌, ◌/◌, ◌%◌, ◌<◌}
use mathlib.Core.Path.{◌≡◌, refl}
use mathlib.Core.Bool.{◌&&◌}
use mathlib.Core.Option.{Option, none, some}
use mathlib.Core.List.{[], ◌∷◌}
use native.Mathlib.Omega.{arith}
use go_fdo_server.Prelude.Tests.{leb, if◌then◌else◌}
use go_fdo_server.Prelude.Slices.{Bytes, Text, AreBytes}

-- The lower-case digit of a value below 16.
to_digit : ℕ → ℕ
to_digit n = if leb n 9 then b'0' + n else b'a' + (n - 10)

from_digit : ℕ → Option ℕ
from_digit c =
    if leb b'0' c && leb c b'9'
    then some (c - b'0')
    else if leb b'a' c && leb c b'f'
    then some (c - b'a' + 10)
    else if leb b'A' c && leb c b'F'
    then some (c - b'A' + 10)
    else none

unfoldable pub encode : Bytes → Text
unfolding to_digit
encode [] = []
encode (b ∷ bs) = to_digit (b / 16) ∷ to_digit (b % 16) ∷ encode bs

abbrev join : Option ℕ → Option ℕ → Option Bytes → Option Bytes
join (some h) (some l) (some rest) = some ((h * 16 + l) ∷ rest)
join (some h) (some l) none = none
join (some h) none rest = none
join none l rest = none

-- A text of odd length, or with another character, is an error.
unfoldable pub decode : Text → Option Bytes
unfolding from_digit
decode [] = some []
decode (c ∷ []) = none
decode (c ∷ d ∷ s) = join (from_digit c) (from_digit d) (decode s)

from_digit-to_digit : (n : ℕ) → n < 16 → from_digit (to_digit n) ≡ some n
unfolding from_digit to_digit
from_digit-to_digit n h = ground arith

from_digit-lt : (c : ℕ) {n : ℕ} → from_digit c ≡ some n → n < 16
unfolding from_digit
from_digit-lt c h = ground arith

-- The equations of the two functions over shut digits.
encode-cons :
    (b : ℕ) (bs : Bytes) → encode (b ∷ bs) ≡ to_digit (b / 16) ∷ to_digit (b % 16) ∷ encode bs
unfolding encode
encode-cons b bs = refl

decode-nil : decode [] ≡ some []
unfolding decode
decode-nil = refl

decode-cons_cons :
    (c d : ℕ) (s : Text) → decode (c ∷ d ∷ s) ≡ join (from_digit c) (from_digit d) (decode s)
unfolding decode
decode-cons_cons c d s = refl

join-eq-some : (b : ℕ) (bs : Bytes) → join (some (b / 16)) (some (b % 16)) (some bs) ≡ some (b ∷ bs)
join-eq-some b bs = ground arith

pub decode-encode : (bs : Bytes) → AreBytes bs → decode (encode bs) ≡ some bs
decode-encode [] h = unfold encode decode in refl
decode-encode (b ∷ bs) (small, h) =
    rw
      (
        encode-cons b bs,
        decode-cons_cons (to_digit (b / 16)) (to_digit (b % 16)) (encode bs),
        from_digit-to_digit (b / 16) (omega arith),
        from_digit-to_digit (b % 16) (omega arith),
        decode-encode bs h,
      )
      (join-eq-some b bs)

join_inv :
    (h l : Option ℕ) (rest : Option Bytes) {bs : Bytes}
    → join h l rest ≡ some bs
    → (a b : ℕ) × (r : Bytes) × (h ≡ some a)
      × (l ≡ some b)
      × (rest ≡ some r)
      × (bs ≡ (a * 16 + b) ∷ r)
join_inv (some a) (some b) (some r) e = (a, b, r, refl, refl, refl, cc)
join_inv (some a) (some b) none e = cc
join_inv (some a) none rest e = cc
join_inv none l rest e = cc

-- What is decoded is a sequence of bytes.
pub decode-AreBytes : (s : Text) {bs : Bytes} → decode s ≡ some bs → AreBytes bs
decode-AreBytes [] {bs} e = let same : ◌≡◌ {A = Bytes} [] bs = cc decode-nil in rw (← same) tt
decode-AreBytes (c ∷ []) e = unfold decode in cc
decode-AreBytes (c ∷ d ∷ s) e =
    let (a, b, r, ha, hb, hr, same) =
      join_inv (from_digit c) (from_digit d) (decode s) (rw (decode-cons_cons c d s) at e) in
    rw same (omega (arith, from_digit-lt c ha, from_digit-lt d hb), decode-AreBytes s hr)
