-- ===== src/Prelude/Contains.antt =====
-- Membership of a list by a test: `x in xs`.
use mathlib.Core.Path.{◌≡◌, refl, subst}
use mathlib.Core.Logic.{◌⊎◌, inl, inr}
use mathlib.Core.Bool.{Bool, true, false}
use mathlib.Core.List.{List, [], ◌∷◌, ◌++◌}
use native.Mathlib.Omega.{arith}
use proxy_gateway_plus.Prelude.Tests.{&&_true}
use proxy_gateway_plus.Prelude.Lists.{all}
use proxy_gateway_plus.Prelude.Equality.{Equality, ==_iff, ==_refl, contains}

module _ {ℓ} {A : Type ℓ} ⦃q : Equality A⦄ where
  pub contains_head : (x : A) (xs : List A) → contains x (x ∷ xs) ≡ true
  unfolding contains
  contains_head x xs = ground (arith, ==_refl x)

  pub contains_tail : (x y : A) (xs : List A) → contains x xs ≡ true → contains x (y ∷ xs) ≡ true
  unfolding contains
  contains_tail x y xs h = ground arith

  pub contains-cases :
      (x y : A) (xs : List A) → contains x (y ∷ xs) ≡ true → (y ≡ x) ⊎ (contains x xs ≡ true)
  unfolding contains
  contains-cases x y xs h = ground (arith, ==_iff y x)

  pub contains-nil : (x : A) → contains x [] ≡ false
  unfolding contains
  contains-nil x = refl

  -- What holds of all items holds of each.
  pub all-item :
      (p : A → Bool) (xs : List A) (x : A) → all p xs ≡ true → contains x xs ≡ true → p x ≡ true
  unfolding contains
  all-item p [] x a h = cc
  all-item p (y ∷ xs) x a h = elim (contains-cases x y xs h) [
    | inl e ↦ subst (λ z. p z ≡ true) e (&&_true (p y) (all p xs) a).0
    | inr t ↦ all-item p xs x (&&_true (p y) (all p xs) a).1 t
  ]

  -- A test of all items passes if it passes on each.
  pub all-intro :
      (p : A → Bool) (xs : List A) → ((x : A) → contains x xs ≡ true → p x ≡ true) → all p xs ≡ true
  all-intro p [] h = refl
  all-intro p (x ∷ xs) h =
      ground (arith, h x (contains_head x xs), all-intro p xs (λ y m. h y (contains_tail y x xs m)))

  pub contains-left : (x : A) (xs ys : List A) → contains x xs ≡ true → contains x (xs ++ ys) ≡ true
  unfolding contains
  contains-left x [] ys h = cc
  contains-left x (y ∷ xs) ys h = ground (arith, contains-left x xs ys)

  pub contains-right :
      (x : A) (xs ys : List A) → contains x ys ≡ true → contains x (xs ++ ys) ≡ true
  unfolding contains
  contains-right x [] ys h = h
  contains-right x (y ∷ xs) ys h = ground (arith, contains-right x xs ys h)

  pub contains-append :
      (x : A) (xs ys : List A)
      → contains x (xs ++ ys) ≡ true
      → (contains x xs ≡ true) ⊎ (contains x ys ≡ true)
  unfolding contains
  contains-append x [] ys h = inr h
  contains-append x (y ∷ xs) ys h = ground (arith, contains-append x xs ys)
