-- ===== src/Prelude/Results.antt =====
-- Rust's `Result`, with `?` as the bind of a `do` block.
use mathlib.Core.Path.{◌≡◌, refl}
use mathlib.Core.Logic.{◌⊎◌, inl, inr}
use mathlib.Core.Option.{Option, none, some}

pub data Result {ℓ κ} (E : Type κ) (A : Type ℓ) : Type (ℓ ⊔ κ) where
  ok : A → Result E A
  err : E → Result E A

-- How code fails: by an error, or by a panic, which no input should reach.
pub data Failure {ℓ} (E : Type ℓ) : Type ℓ where
  error : E → Failure E
  panic : Failure E

abbrev pub map_failure {ℓ κ} : {E : Type ℓ} {F : Type κ} → (E → F) → Failure E → Failure F
map_failure f (error e) = error (f e)
map_failure f panic = panic

infixl 5 ◌>>=◌
abbrev pub ◌>>=◌ {ℓ κ μ} :
    {F : Type μ} {X : Type ℓ} {Y : Type κ} → Result F X → (X → Result F Y) → Result F Y
ok x >>= next = next x
err e >>= next = err e

abbrev pub map_err {ℓ κ μ} :
    {F : Type κ} {G : Type μ} {X : Type ℓ} → (F → G) → Result F X → Result G X
map_err f (ok x) = ok x
map_err f (err e) = err (f e)

abbrev pub ok_or {ℓ κ} : {F : Type κ} {X : Type ℓ} → Option X → F → Result F X
ok_or none e = err e
ok_or (some x) e = ok x

-- Both steps of a chain that succeeds have succeeded.
pub >>=-eq-ok {ℓ κ μ} :
    {F : Type μ} {X : Type ℓ} {Y : Type κ} (first : Result F X) (next : X → Result F Y) {y : Y}
    → (first >>= next) ≡ ok y
    → (x : X) × (first ≡ ok x) × (next x ≡ ok y)
>>=-eq-ok (ok x) next done = (x, refl, done)
>>=-eq-ok (err e) next done = cc

pub Result-cases {ℓ κ} :
    {E : Type κ} {A : Type ℓ} (r : Result E A) → ((a : A) × (r ≡ ok a)) ⊎ ((e : E) × (r ≡ err e))
Result-cases (ok a) = inl (a, refl)
Result-cases (err e) = inr (e, refl)

pub ok-injective {ℓ κ} :
    {E : Type κ} {A : Type ℓ} (a b : A) → ◌≡◌ {A = Result E A} (ok a) (ok b) → a ≡ b
ok-injective a b h = cc

pub map_err-eq-ok {ℓ κ μ} :
    {E : Type κ} {F : Type μ} {A : Type ℓ} (f : E → F) (r : Result E A) (a : A)
    → map_err f r ≡ ok a
    → r ≡ ok a
map_err-eq-ok f (ok b) a h = cc
map_err-eq-ok f (err e) a h = cc
