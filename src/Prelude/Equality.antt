-- ===== src/Prelude/Equality.antt =====
-- Python's `==` on the types that the programs compare, as an instance argument.
use Prim.Native.Nat.{ℕ}
use Prim.Native.String.{String}
use mathlib.Core.Path.{◌≡◌, refl, subst}
use mathlib.Core.Logic.{◌↔◌, ◌≢◌}
use mathlib.Core.Bool.{Bool, true, false, ◌&&◌, ◌||◌}
use mathlib.Core.List.{List, [], ◌∷◌}
use mathlib.Core.Option.{Option, none, some}
use native.Mathlib.Omega.{arith}
use text.Mathlib.Text.{◌==◌ as text_eq}
use text.Mathlib.TextPositions.{eq_refl}
use text.Mathlib.TextEquality.{eq_iff}
use proxy_gateway_plus.Prelude.Tests.{nat_eq}

-- A test of equality that is right in both directions.
pub record Equality {ℓ} (A : Type ℓ) : Type ℓ where
  pub test : A → A → Bool
  pub test_sound : (x y : A) → test x y ≡ true → x ≡ y
  pub test_refl : (x : A) → test x x ≡ true

infix 50 ◌==◌
abbrev pub ◌==◌ {ℓ} : {A : Type ℓ} ⦃q : Equality A⦄ → A → A → Bool
◌==◌ ⦃q⦄ x y = q.test x y

pub ==_iff {ℓ} : {A : Type ℓ} ⦃q : Equality A⦄ (x y : A) → ((x == y) ≡ true) ↔ (x ≡ y)
==_iff ⦃q⦄ x y = (q.test_sound x y, λ e. subst (λ z. q.test x z ≡ true) e (q.test_refl x))

pub ==_refl {ℓ} : {A : Type ℓ} ⦃q : Equality A⦄ (x : A) → (x == x) ≡ true
==_refl ⦃q⦄ x = q.test_refl x

pub ==_ne {ℓ} : {A : Type ℓ} ⦃q : Equality A⦄ (x y : A) → x ≢ y → (x == y) ≡ false
==_ne x y h = ground (arith, ==_iff x y)

pub nat_eq_refl : (n : ℕ) → nat_eq n n ≡ true
nat_eq_refl n = ground arith

pub nat_eq_sound : (m n : ℕ) → nat_eq m n ≡ true → m ≡ n
nat_eq_sound m n h = ground arith

pub text_sound : (s t : String) → text_eq s t ≡ true → s ≡ t
text_sound s t h = (eq_iff s t).0 h

instance abbrev pub ℕ_eq : Equality ℕ
ℕ_eq = record { test = nat_eq; test_sound = nat_eq_sound; test_refl = nat_eq_refl }

instance abbrev pub String_eq : Equality String
String_eq = record { test = text_eq; test_sound = text_sound; test_refl = eq_refl }

module _ {ℓ} {A : Type ℓ} ⦃q : Equality A⦄ where
  -- Lists are equal item by item.
  unfoldable pub list_beq : List A → List A → Bool
  list_beq [] [] = true
  list_beq (x ∷ xs) (y ∷ ys) = (x == y) && list_beq xs ys
  list_beq _ _ = false

  pub list_beq_sound : (xs ys : List A) → list_beq xs ys ≡ true → xs ≡ ys
  unfolding list_beq
  list_beq_sound [] [] h = refl
  list_beq_sound (x ∷ xs) (y ∷ ys) h = ground (arith, ==_iff x y, list_beq_sound xs ys)
  list_beq_sound _ _ h = cc

  pub list_beq_refl : (xs : List A) → list_beq xs xs ≡ true
  unfolding list_beq
  list_beq_refl [] = refl
  list_beq_refl (x ∷ xs) = ground (arith, ==_refl x, list_beq_refl xs)

  unfoldable pub option_beq : Option A → Option A → Bool
  option_beq none none = true
  option_beq (some x) (some y) = x == y
  option_beq _ _ = false

  pub option_beq_sound : (o p : Option A) → option_beq o p ≡ true → o ≡ p
  unfolding option_beq
  option_beq_sound none none h = refl
  option_beq_sound (some x) (some y) h = ground (arith, ==_iff x y)
  option_beq_sound _ _ h = cc

  pub option_beq_refl : (o : Option A) → option_beq o o ≡ true
  unfolding option_beq
  option_beq_refl none = refl
  option_beq_refl (some x) = ==_refl x

  instance abbrev pub List_eq : Equality (List A)
  List_eq = record { test = list_beq; test_sound = list_beq_sound; test_refl = list_beq_refl }

  instance abbrev pub Option_eq : Equality (Option A)
  Option_eq = record {
    test = option_beq;
    test_sound = option_beq_sound;
    test_refl = option_beq_refl;
  }

  -- `x in xs`
  unfoldable pub contains : A → List A → Bool
  contains a [] = false
  contains a (x ∷ xs) = (x == a) || contains a xs
