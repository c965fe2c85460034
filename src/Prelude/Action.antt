-- ===== src/Prelude/Action.antt =====
-- Calls that change a state and may fail. What was written before a failure stays written.
use go_fdo_server.Prelude.Errors.{Result, ok, err}

abbrev pub Action {ℓ κ μ} : Type ℓ → Type κ → Type μ → Type (ℓ ⊔ κ ⊔ μ)
Action S E A = S → Result E A × S

abbrev pub pure {ℓ κ μ} : {S : Type ℓ} {E : Type κ} {A : Type μ} → A → Action S E A
pure a s = (ok a, s)

abbrev pub raise {ℓ κ μ} : {S : Type ℓ} {E : Type κ} {A : Type μ} → E → Action S E A
raise e s = (err e, s)

abbrev pub lift {ℓ κ μ} : {S : Type ℓ} {E : Type κ} {A : Type μ} → Result E A → Action S E A
lift r s = (r, s)

abbrev pub continue {ℓ κ μ ν} :
    {S : Type ℓ} {E : Type κ} {A : Type μ} {B : Type ν}
    → Result E A
    → (A → Action S E B)
    → Action S E B
continue (ok a) f s = f a s
continue (err e) f s = (err e, s)

infixl 5 ◌>>=◌ ◌>>◌
abbrev pub ◌>>=◌ {ℓ κ μ ν} :
    {S : Type ℓ} {E : Type κ} {A : Type μ} {B : Type ν}
    → Action S E A
    → (A → Action S E B)
    → Action S E B
◌>>=◌ m f s = continue (m s).0 f (m s).1

abbrev pub ◌>>◌ {ℓ κ μ ν} :
    {S : Type ℓ} {E : Type κ} {A : Type μ} {B : Type ν} → Action S E A → Action S E B → Action S E B
m >> n = m >>= λ _. n

-- A call whose error is handled: the handler sees the result and goes on in the state that is left.
abbrev pub handle {ℓ κ μ ν ξ} :
    {S : Type ℓ} {E : Type κ} {F : Type μ} {A : Type ν} {B : Type ξ}
    → Action S E A
    → (Result E A → Action S F B)
    → Action S F B
handle m f s = f (m s).0 (m s).1

-- A result is an error, or its value has a property.
abbrev pub Holds {ℓ κ} : {E : Type ℓ} {A : Type κ} → (A → Type 0) → Result E A → Type 0
Holds P (ok a) = P a
Holds P (err e) = Unit

pub Holds-continue {ℓ κ μ ν} :
    {S : Type ℓ} {E : Type κ} {A : Type μ} {B : Type ν} (P : A → Type 0) (Q : B → Type 0)
    (r : Result E A) (f : A → Action S E B) (s : S)
    → Holds P r
    → ((a : A) → P a → Holds Q (f a s).0)
    → Holds Q (continue r f s).0
Holds-continue P Q (ok a) f s h k = k a h
Holds-continue P Q (err e) f s h k = tt
