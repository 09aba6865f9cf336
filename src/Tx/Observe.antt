-- ===== src/Tx/Observe.antt =====
-- `Tx._observe` of deploy/bot/pdgtx.py: what a transaction must find after its actions.
use Prim.Native.String.{◌++◌ as text_append}
use text.Mathlib.Text.{starts_with}
use proxy_gateway_plus.Prelude.{
  ◌≢◌, refl, String, Bool, true, false, not, ◌&&◌, ◌||◌, Option, none, some, List, [], ◌∷◌,
  if◌then◌else◌, ◌==◌, String_eq, contains, ◌≡◌, arith, All,
}
use proxy_gateway_plus.Tx.{assoc, Target}
use proxy_gateway_plus.Tx.Action.{Action, Want, active, wants}

-- `_TARGET_SVC` and the prefixes of `target_service`.
unfoldable pub target_service : String → Option String
target_service name =
    if contains name ("model" ∷ "mihomo_cfg" ∷ "rs_meta" ∷ [])
    then some "mihomo"
    else if contains name (
        "mosdns_conf" ∷ "mitm_hijack" ∷ "ruleset_direct" ∷ "ruleset_hijack" ∷ "cert_fullchain"
        ∷ "cert_privkey" ∷ [])
    then some "mosdns"
    else if name == "mitm_json"
    then some "pdg-mitm"
    else if starts_with name "mosdns_rule:"
    then some "mosdns"
    else if starts_with name "ruleset:" || starts_with name "mihomo_provider:"
    then some "mihomo"
    else none

unfoldable pub add_unit : Option String → List String → List String
add_unit none units = units
add_unit (some u) units = if contains u units then units else u ∷ units

unfoldable pub unit_of : Option (String × Want) → Option String
unit_of none = none
unit_of (some (u, w)) = some u

unfoldable pub target_units : List Target → List String
target_units [] = []
target_units (t ∷ rest) = add_unit (target_service t.name) (target_units rest)

unfoldable pub action_units : List Action → List String → List String
action_units [] units = units
action_units (a ∷ rest) units = add_unit (unit_of (wants a)) (action_units rest units)

unfoldable pub guard_units : List (String × Want) → List String → List String
guard_units [] units = units
guard_units ((u, w) ∷ rest) units = add_unit (some u) (guard_units rest units)

-- The units whose health a transaction looks at, each once.
unfoldable pub services : List Target → List Action → List (String × Want) → List String
services targets actions guards = guard_units guards (action_units actions (target_units targets))

-- The results of a health snapshot, by check.
abbrev pub Health : Type 0
Health = List (String × Bool)

-- `svc:` + unit
abbrev pub unit_check : String → String
unit_check u = text_append "svc:" u

-- A unit whose end state was not asked for and that was down before is left as it was.
excused : Option Want → Option Bool → Bool
excused none (some false) = true
excused _ _ = false

want_or_active : Option Want → Want
want_or_active none = active
want_or_active (some w) = w

module _ (stable : String → Want → Bool) (base : Health) (expected : List (String × Want)) where
  unfoldable pub units_hold : List String → Bool
  unfolding excused want_or_active
  units_hold [] = true
  units_hold (u ∷ rest) =
      (stable u (want_or_active (assoc u expected))
        || excused (assoc u expected) (assoc (unit_check u) base))
      && units_hold rest

-- `base.get(k, True)`
was_good : Option Bool → Bool
was_good none = true
was_good (some b) = b

module _ (base : Health) where
  unfoldable pub not_worse : Health → Bool
  unfolding was_good
  not_worse [] = true
  not_worse ((k, good) ∷ rest) = (good || not (was_good (assoc k base))) && not_worse rest

-- A unit whose end state was asked for has reached it, and any other is active unless it was down
-- before.
abbrev pub Reached : (String → Want → Bool) → Health → List (String × Want) → String → Type 0
Reached stable base expected u =
    ((w : Want) → assoc u expected ≡ some w → stable u w ≡ true)
    × (assoc u expected ≡ none → assoc (unit_check u) base ≢ some false → stable u active ≡ true)

-- What was not bad before is good afterwards.
abbrev pub NotWorse : Health → String × Bool → Type 0
NotWorse base (k, good) = assoc k base ≢ some false → good ≡ true

held :
    (up : Want → Bool) (want : Option Want) (before : Option Bool)
    → (up (want_or_active want) || excused want before) ≡ true
    → ((w : Want) → want ≡ some w → up w ≡ true)
      × (want ≡ none → before ≢ some false → up active ≡ true)
unfolding want_or_active excused
held up none none h = ((λ w e. cc), λ _ _. ground (arith, h))
held up none (some true) h = ((λ w e. cc), λ _ _. ground (arith, h))
held up none (some false) h = ((λ w e. cc), λ _ other. absurd (other refl))
held up (some want) none h = ((λ w e. ground (arith, h, e)), λ e _. cc)
held up (some want) (some b) h = ((λ w e. ground (arith, h, e)), λ e _. cc)

pub units_hold-Reached :
    (stable : String → Want → Bool) (base : Health) (expected : List (String × Want))
    (units : List String)
    → units_hold stable base expected units ≡ true
    → All (Reached stable base expected) units
unfolding units_hold
units_hold-Reached stable base expected [] h = tt
units_hold-Reached stable base expected (u ∷ rest) h = (
  held (stable u) (assoc u expected) (assoc (unit_check u) base) (ground arith),
  units_hold-Reached stable base expected rest (ground arith),
)

better :
    (good : Bool) (before : Option Bool)
    → (good || not (was_good before)) ≡ true
    → before ≢ some false
    → good ≡ true
unfolding was_good
better good none h other = ground (arith, h)
better good (some true) h other = ground (arith, h)
better good (some false) h other = absurd (other refl)

pub not_worse-NotWorse :
    (base after : Health) → not_worse base after ≡ true → All (NotWorse base) after
unfolding not_worse
not_worse-NotWorse base [] h = tt
not_worse-NotWorse base ((k, good) ∷ rest) h =
    (better good (assoc k base) (ground arith), not_worse-NotWorse base rest (ground arith))
