-- ===== src/Prelude/Fallible.antt =====
-- Rust's `Result`, and operations that change a state and may fail.

pub data Result {ℓ κ} (E : Type ℓ) (A : Type κ) : Type (ℓ ⊔ κ) where
  ok : A → Result E A
  err : E → Result E A

-- A fallible operation on a state: the state survives an error, as a device does.
abbrev pub Action {ℓ κ μ} : Type ℓ → Type κ → Type μ → Type (ℓ ⊔ κ ⊔ μ)
Action S E A = S → Result E A × S

abbrev pub pure {ℓ κ μ} : {S : Type ℓ} {E : Type κ} {A : Type μ} → A → Action S E A
pure a s = (ok a, s)

abbrev pub fail {ℓ κ μ} : {S : Type ℓ} {E : Type κ} {A : Type μ} → E → Action S E A
fail e s = (err e, s)

-- `and_then` after an operation has run: `?` returns its error at once.
abbrev pub and_then {ℓ κ μ ν} :
    {S : Type ℓ} {E : Type κ} {A : Type μ} {B : Type ν}
    → Result E A × S
    → (A → Action S E B)
    → Result E B × S
and_then (ok a, s) f = f a s
and_then (err e, s) f = (err e, s)

infixl 5 ◌>>=◌ ◌>>◌
abbrev pub ◌>>=◌ {ℓ κ μ ν} :
    {S : Type ℓ} {E : Type κ} {A : Type μ} {B : Type ν}
    → Action S E A
    → (A → Action S E B)
    → Action S E B
◌>>=◌ m f s = and_then (m s) f

abbrev pub ◌>>◌ {ℓ κ ν} :
    {S : Type ℓ} {E : Type κ} {B : Type ν} → Action S E (Unit {0}) → Action S E B → Action S E B
m >> k = m >>= λ _. k

-- Total correctness: the run succeeds, and its value and final state meet `Q`.
pub data Ensures {ℓ κ μ ν} {S : Type ℓ} {E : Type κ} {A : Type μ} (Q : A → S → Type ν)
    : Result E A × S → Type (ℓ ⊔ κ ⊔ μ ⊔ ν) where
  ensures : {a : A} {s : S} → Q a s → Ensures Q (ok a, s)

module _ {ℓ κ μ ν ρ} {S : Type ℓ} {E : Type κ} {A : Type μ} {P : A → S → Type ν} where
  pub Ensures-mono :
      {Q : A → S → Type ρ} {r : Result E A × S}
      → Ensures P r
      → ((a : A) (s : S) → P a s → Q a s)
      → Ensures Q r
  Ensures-mono (ensures p) weaken = ensures (weaken _ _ p)

module _ {ℓ κ μ ν ρ ξ} {S : Type ℓ} {E : Type κ} {A : Type μ} {P : A → S → Type ν} where
  pub Ensures-bind :
      {B : Type ξ} {Q : B → S → Type ρ} {r : Result E A × S} {f : A → Action S E B}
      → Ensures P r
      → ((a : A) (s : S) → P a s → Ensures Q (f a s))
      → Ensures Q (and_then r f)
  Ensures-bind (ensures p) next = next _ _ p

-- Partial correctness, for runs on any host: a value that is returned meets `Q`.
pub data OnOk {ℓ κ μ ν} {S : Type ℓ} {E : Type κ} {A : Type μ} (Q : A → S → Type ν)
    : Result E A × S → Type (ℓ ⊔ κ ⊔ μ ⊔ ν) where
  on_ok : {a : A} {s : S} → Q a s → OnOk Q (ok a, s)
  on_err : {e : E} {s : S} → OnOk Q (err e, s)

module _ {ℓ κ μ ρ ξ} {S : Type ℓ} {E : Type κ} {A : Type μ} {B : Type ξ} {Q : B → S → Type ρ} where
  pub OnOk-bind :
      (r : Result E A × S) {f : A → Action S E B}
      → ((a : A) (s : S) → OnOk Q (f a s))
      → OnOk Q (and_then r f)
  OnOk-bind (ok a, s) next = next a s
  OnOk-bind (err e, s) next = on_err

module _ {ℓ κ μ ν ρ ξ} {S : Type ℓ} {E : Type κ} {A : Type μ} {B : Type ξ} {P : A → S → Type ν}
    {Q : B → S → Type ρ} where
  pub OnOk-then :
      {r : Result E A × S} {f : A → Action S E B}
      → OnOk P r
      → ((a : A) (s : S) → P a s → OnOk Q (f a s))
      → OnOk Q (and_then r f)
  OnOk-then (on_ok p) next = next _ _ p
  OnOk-then on_err next = on_err

module _ {ℓ κ μ ν ρ} {S : Type ℓ} {E : Type κ} {A : Type μ} {P : A → S → Type ν}
    {Q : A → S → Type ρ} where
  pub OnOk-mono : {r : Result E A × S} → OnOk P r → ((a : A) (s : S) → P a s → Q a s) → OnOk Q r
  OnOk-mono (on_ok p) weaker = on_ok (weaker _ _ p)
  OnOk-mono on_err weaker = on_err
