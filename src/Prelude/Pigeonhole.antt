-- ===== src/Prelude/Pigeonhole.antt =====
-- A list without repetitions whose items are all in another list is not longer than that.
use Prim.Native.Nat.{suc, ◌≤◌}
use mathlib.Core.Path.{◌≡◌, subst}
use mathlib.Core.Logic.{◌≢◌}
use mathlib.Core.Bool.{true, false}
use mathlib.Core.List.{List, [], ◌∷◌}
use native.Mathlib.Omega.{arith}
use proxy_gateway_plus.Prelude.Tests.{if◌then◌else◌}
use proxy_gateway_plus.Prelude.Lists.{length}
use proxy_gateway_plus.Prelude.Equality.{Equality, ◌==◌, ==_iff, contains}
use proxy_gateway_plus.Prelude.Contains.{contains_head, contains_tail}

module _ {ℓ} {A : Type ℓ} ⦃q : Equality A⦄ where
  abbrev pub Unique : List A → Type 0
  Unique [] = Unit
  Unique (x ∷ xs) = (contains x xs ≡ false) × Unique xs

  -- The list without the first `x`.
  unfoldable remove : A → List A → List A
  remove x [] = []
  remove x (y ∷ ys) = if y == x then ys else y ∷ remove x ys

  length-remove :
      (x : A) (ys : List A) → contains x ys ≡ true → suc (length (remove x ys)) ≡ length ys
  unfolding remove contains
  length-remove x [] h = cc
  length-remove x (y ∷ ys) h = ground (arith, length-remove x ys)

  contains-remove :
      (x z : A) (ys : List A) → z ≢ x → contains z ys ≡ true → contains z (remove x ys) ≡ true
  unfolding remove contains
  contains-remove x z [] n h = h
  contains-remove x z (y ∷ ys) n h =
      ground (arith, ==_iff y x, ==_iff y z, contains-remove x z ys n)

  pub pigeonhole :
      (xs ys : List A)
      → Unique xs
      → ((x : A) → contains x xs ≡ true → contains x ys ≡ true)
      → length xs ≤ length ys
  unfolding contains
  pigeonhole [] ys u h = omega arith
  pigeonhole (x ∷ xs) ys (fresh, u) h = omega (
    arith,
    length-remove x ys (h x (contains_head x xs)),
    pigeonhole xs (remove x ys) u
        (λ z m. contains-remove x z ys (apart z m) (h z (contains_tail z x xs m))),
  )
    where
      apart : (z : A) → contains z xs ≡ true → z ≢ x
      apart z m e = cc (subst (λ w. contains w xs ≡ true) e m)
