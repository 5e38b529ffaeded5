-- ===== src/Prelude/Exceptions.antt =====
-- Python's exceptions as values: a call returns `ok` or raises `err`.
use mathlib.Core.Path.{◌≡◌, refl}
use mathlib.Core.Bool.{Bool, true, false}

pub data Result {ℓ κ} (E : Type ℓ) (A : Type κ) : Type (ℓ ⊔ κ) where
  ok : A → Result E A
  err : E → Result E A

-- `except E as e: raise f(e)`
abbrev pub map_error {ℓ κ μ} :
    {E : Type ℓ} {F : Type κ} {A : Type μ} → (E → F) → Result E A → Result F A
map_error f (err e) = err (f e)
map_error f (ok a) = ok a

-- A call after a call: what the first one raises stops the second.
infixl 5 ◌>>=◌
abbrev pub ◌>>=◌ {ℓ κ μ} :
    {E : Type ℓ} {A : Type κ} {B : Type μ} → Result E A → (A → Result E B) → Result E B
err raised >>= next = err raised
ok value >>= next = next value

-- `if not test: raise e`
abbrev pub require {ℓ} : {E : Type ℓ} → Bool → E → Result E (Unit {0})
require false e = err e
require true e = ok tt

infixl 5 ◌>>◌
abbrev pub ◌>>◌ {ℓ μ} : {E : Type ℓ} {B : Type μ} → Result E (Unit {0}) → Result E B → Result E B
check >> next = check >>= λ done. next

-- A chain of two calls that returns: the first one returned, and so did the second on its value.
pub >>=-eq-ok {ℓ κ μ} :
    {E : Type ℓ} {A : Type κ} {B : Type μ} (call : Result E A) (next : A → Result E B) {last : B}
    → (call >>= next) ≡ ok last
    → (value : A) × (call ≡ ok value) × (next value ≡ ok last)
>>=-eq-ok (err raised) next returned = cc
>>=-eq-ok (ok value) next returned = (value, refl, returned)

pub require-eq-ok {ℓ} :
    {E : Type ℓ} (b : Bool) (e : E) {u : Unit {0}} → require b e ≡ ok u → b ≡ true
require-eq-ok true e h = refl
require-eq-ok false e h = cc

-- A call on a world, after a call on a world.
abbrev pub bind {ℓ κ μ ν} :
    {E : Type ℓ} {A : Type κ} {B : Type μ} {W : Type ν}
    → Result E A × W
    → (A → W → Result E B × W)
    → Result E B × W
bind (err raised, w) next = (err raised, w)
bind (ok value, w) next = next value w

-- What holds of every error, and of what follows the value of the first call, holds of both calls.
pub bind-cases {ℓ κ μ ν ξ} :
    {E : Type ℓ} {A : Type κ} {B : Type μ} {W : Type ν} (P : Result E B × W → Type ξ)
    (call : Result E A × W) (next : A → W → Result E B × W)
    → ((e : E) → (w : W) → call ≡ (err e, w) → P (err e, w))
    → ((value : A) → (w : W) → call ≡ (ok value, w) → P (next value w))
    → P (bind call next)
bind-cases P (err e, w) next raised follows = raised e w refl
bind-cases P (ok value, w) next raised follows = follows value w refl
