-- ===== src/Prelude/Json.antt =====
-- The values that Python's json module reads: a dict is its items in order, looked up by key.
use Prim.Native.Nat.{ℕ}
use Prim.Native.String.{String}
use mathlib.Core.Path.{◌≡◌, refl}
use mathlib.Core.Bool.{Bool}
use mathlib.Core.List.{List, [], ◌∷◌}
use mathlib.Core.Option.{Option, none, some}
use proxy_gateway_plus.Prelude.Tests.{if◌then◌else◌}
use proxy_gateway_plus.Prelude.Equality.{◌==◌, String_eq}

-- `negsuc n` is -(n + 1).
pub data ℤ : Type 0 where
  pos : ℕ → ℤ
  negsuc : ℕ → ℤ

mutual
  -- `float` is a float of a whole value; `not_finite` is NaN or an infinity.
  pub data Json : Type 0 where
    null : Json
    bool : Bool → Json
    int : ℤ → Json
    float : ℤ → Json
    not_finite : Json
    str : String → Json
    arr : Items → Json
    obj : Fields → Json

  pub data Items : Type 0 where
    nil : Items
    cons : Json → Items → Items

  pub data Fields : Type 0 where
    end : Fields
    field : String → Json → Fields → Fields

abbrev pub to_list : Items → List Json
to_list nil = []
to_list (cons x xs) = x ∷ to_list xs

abbrev pub of_list : List Json → Items
of_list [] = nil
of_list (x ∷ xs) = cons x (of_list xs)

-- `d.get(k)`, with `none` for a missing key.
abbrev pub get : Fields → String → Option Json
get end k = none
get (field j v fs) k = if j == k then some v else get fs k

abbrev pub keys : Fields → List String
keys end = []
keys (field k v fs) = k ∷ keys fs

pub to_list-of_list : (xs : List Json) → to_list (of_list xs) ≡ xs
to_list-of_list [] = refl
to_list-of_list (x ∷ xs) = λ i. x ∷ to_list-of_list xs i
