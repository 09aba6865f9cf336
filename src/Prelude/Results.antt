-- ===== src/Prelude/Results.antt =====
-- A computation that may raise: the value, or the exception.
use Prim.Native.Nat.{suc}
use mathlib.Core.Path.{◌≡◌, refl, ap, subst}
use mathlib.Core.Bool.{Bool, true, false}
use mathlib.Core.List.{List, [], ◌∷◌}
use proxy_gateway_plus.Prelude.Tests.{if◌then◌else◌}
use proxy_gateway_plus.Prelude.Lists.{All, length}

pub data Result {ℓ κ} (E : Type ℓ) (A : Type κ) : Type (ℓ ⊔ κ) where
  ok : A → Result E A
  err : E → Result E A

-- An exception skips the rest of the block.
infixl 5 ◌>>=◌
abbrev pub ◌>>=◌ {ℓ κ μ} :
    {E : Type ℓ} {A : Type κ} {B : Type μ} → Result E A → (A → Result E B) → Result E B
step >>= rest = elim step [ err e ↦ err e | ok a ↦ rest a ]

infixl 5 ◌>>◌
abbrev pub ◌>>◌ {ℓ κ} : {E : Type ℓ} {B : Type κ} → Result E (Unit {0}) → Result E B → Result E B
check >> rest = elim check [ err e ↦ err e | ok _ ↦ rest ]

-- `if not passed: raise e`
abbrev pub guard {ℓ} : {E : Type ℓ} → Bool → E → Result E (Unit {0})
guard passed e = if passed then ok tt else err e

-- A loop that calls a function on each item and stops at the first exception.
unfoldable pub map_result {ℓ κ μ} :
    {E : Type ℓ} {A : Type κ} {B : Type μ} → (A → Result E B) → List A → Result E (List B)
map_result f [] = ok []
map_result f (x ∷ xs) = do y ← f x; ys ← map_result f xs; ok (y ∷ ys)

-- What holds of the value, if there is one.
abbrev pub Ensures {ℓ κ μ} : {E : Type ℓ} {A : Type κ} → (A → Type μ) → Result E A → Type μ
Ensures P (ok a) = P a
Ensures P (err e) = Unit

-- The rest of a block may use what its first step ensures.
pub Ensures-bind {ℓ κ μ ν ξ} :
    {E : Type ℓ} {A : Type κ} {B : Type μ} (Q : A → Type ν) (P : B → Type ξ) (m : Result E A)
    (f : A → Result E B)
    → Ensures Q m
    → ((a : A) → Q a → Ensures P (f a))
    → Ensures P (m >>= f)
Ensures-bind Q P (ok a) f q k = k a q
Ensures-bind Q P (err e) f q k = tt

-- The rest of a block may use that a guard passed.
pub Ensures-guard {ℓ κ ν} :
    {E : Type ℓ} {B : Type κ} (P : B → Type ν) (b : Bool) (e : E) (m : Result E B)
    → (b ≡ true → Ensures P m)
    → Ensures P (guard b e >>= λ _. m)
Ensures-guard P true e m k = k refl
Ensures-guard P false e m k = tt

pub Ensures-eq {ℓ κ ν} :
    {E : Type ℓ} {A : Type κ} (P : A → Type ν) (m : Result E A) (a : A)
    → Ensures P m
    → m ≡ ok a
    → P a
Ensures-eq P m a h e = subst (Ensures P) e h

pub Ensures-map_result {ℓ κ μ ν} :
    {E : Type ℓ} {A : Type κ} {B : Type μ} (P : B → Type ν) (f : A → Result E B) (xs : List A)
    → ((x : A) → Ensures P (f x))
    → Ensures (λ ys. (length ys ≡ length xs) × All P ys) (map_result f xs)
unfolding map_result
Ensures-map_result P f [] h = (refl, tt)
Ensures-map_result P f (x ∷ xs) h =
    Ensures-bind P (λ ys. (length ys ≡ suc (length xs)) × All P ys) (f x) _ (h x)
      (λ y p.
        Ensures-bind (λ ys. (length ys ≡ length xs) × All P ys) _ (map_result f xs) _
          (Ensures-map_result P f xs h) (λ ys q. (ap suc q.0, (p, q.1))))

pub Ensures-weaken {ℓ κ ν ξ} :
    {E : Type ℓ} {A : Type κ} (P : A → Type ν) (Q : A → Type ξ) (m : Result E A)
    → ((a : A) → P a → Q a)
    → Ensures P m
    → Ensures Q m
Ensures-weaken P Q (ok a) w h = w a h
Ensures-weaken P Q (err e) w h = tt

-- Of a step of which nothing is needed.
pub Ensures-any {ℓ κ} : {E : Type ℓ} {A : Type κ} (m : Result E A) → Ensures (λ _. Unit {0}) m
Ensures-any (ok a) = tt
Ensures-any (err e) = tt

-- What holds of the exception, if one is raised.
abbrev pub Raises {ℓ κ μ} : {E : Type ℓ} {A : Type κ} → (E → Type μ) → Result E A → Type μ
Raises P (ok a) = Unit
Raises P (err e) = P e

pub Raises-bind {ℓ κ μ ν} :
    {E : Type ℓ} {A : Type κ} {B : Type μ} (P : E → Type ν) (m : Result E A) (f : A → Result E B)
    → Raises P m
    → ((a : A) → m ≡ ok a → Raises P (f a))
    → Raises P (m >>= f)
Raises-bind P (ok a) f r k = k a refl
Raises-bind P (err e) f r k = r

-- The rest of a block may use what its first step returned.
pub Ensures-step {ℓ κ μ ξ} :
    {E : Type ℓ} {A : Type κ} {B : Type μ} (P : B → Type ξ) (m : Result E A) (f : A → Result E B)
    → ((a : A) → m ≡ ok a → Ensures P (f a))
    → Ensures P (m >>= f)
Ensures-step P (ok a) f k = k a refl
Ensures-step P (err e) f k = tt

pub ok-injective {ℓ κ} :
    {E : Type ℓ} {A : Type κ} {x y : A} → ◌≡◌ {A = Result E A} (ok x) (ok y) → x ≡ y
ok-injective e = cc
