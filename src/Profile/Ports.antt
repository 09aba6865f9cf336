-- ===== src/Profile/Ports.antt =====
-- The ports for TLS after `retarget_platform_text` of deploy/bot/pdgprofile.py.
use proxy_gateway_plus.Prelude.{
  ℕ, Bool, true, false, ◌||◌, not, Ensures, Option, Ensures-guard, Ensures-weaken, List, [], ◌∷◌,
  ◌++◌, if◌then◌else◌, ◌==◌, ==_iff, ==_refl, ℕ_eq, List_eq, contains, list_beq, ok, guard, ◌>>◌,
  ◌≡◌, inl, inr, refl, sym, ◌∙◌, subst, arith, Bool-cases, Ensures-step,
}
use proxy_gateway_plus.Prelude.Texts.{Text, codes}
use proxy_gateway_plus.Profile.{platforms}
use proxy_gateway_plus.Profile.Retarget.{retarget_ports}
use proxy_gateway_plus.Profile.Sorted.{contains-sorted_set}
use proxy_gateway_plus.Profile.Retarget.{gms_ports, remove_ports, stored_ports}
use proxy_gateway_plus.Profile.{no_ports_left}
use proxy_gateway_plus.Profile.Numbers.{sorted_set}

contains-remove :
    (k : ℕ) (unwanted ns : List ℕ)
    → contains k (remove_ports unwanted ns) ≡ (if contains k unwanted then false else contains k ns)
unfolding contains
contains-remove k unwanted [] = ground arith
contains-remove k unwanted (n ∷ ns) = elim (Bool-cases (n == k)) [
  | inl same ↦
      subst
        (λ m.
          contains m (remove_ports unwanted (n ∷ ns))
          ≡ (if contains m unwanted then false else contains m (n ∷ ns)))
        ((==_iff n k).0 same) (ground (arith, ==_refl n, contains-remove n unwanted ns))
  | inr apart ↦ ground (arith, contains-remove k unwanted ns)
]

contains-append :
    (k : ℕ) (ns ms : List ℕ) → contains k (ns ++ ms) ≡ (contains k ns || contains k ms)
unfolding contains
contains-append k [] ms = refl
contains-append k (n ∷ ns) ms = ground (arith, contains-append k ns ms)

-- The ports that are left: there is one, those of Google's services are there on Android and not on
-- iOS, and the others are those that there were.
pub record AreSwitched (target : Text) (before ports : List ℕ) : Type 0 where
  pub nonempty : (ports == []) ≡ false
  pub each :
      (port : ℕ)
      → contains port ports
        ≡ (if contains port gms_ports then target == codes "android" else contains port before)

removed :
    (before : List ℕ) (port : ℕ)
    → contains port (remove_ports gms_ports before)
      ≡ (if contains port gms_ports then false else contains port before)
removed before port = contains-remove port gms_ports before

added :
    (before : List ℕ) (port : ℕ)
    → contains port (sorted_set (before ++ gms_ports))
      ≡ (if contains port gms_ports then true else contains port before)
added before port =
    contains-sorted_set port (before ++ gms_ports)
    ∙ contains-append port before gms_ports
    ∙ ground arith

checked :
    (target : Text) (before ports : List ℕ)
    → ((port : ℕ)
        → contains port ports
          ≡ (if contains port gms_ports then target == codes "android" else contains port before))
    → Ensures (AreSwitched target before) (guard (not (ports == [])) no_ports_left >> ok ports)
checked target before ports h =
    Ensures-guard (AreSwitched target before) (not (ports == [])) no_ports_left (ok ports)
      (λ some_left. record { nonempty = ground (arith, some_left); each = h })

switched :
    (target : Text) (before : List ℕ) (b : Bool)
    → contains target platforms ≡ true
    → (target == codes "ios") ≡ b
    → (port : ℕ)
    → contains port (if b then remove_ports gms_ports before else sorted_set (before ++ gms_ports))
      ≡ (if contains port gms_ports then target == codes "android" else contains port before)
unfolding contains list_beq
switched target before true p e port =
    subst
      (λ t.
        contains port (remove_ports gms_ports before)
        ≡ (if contains port gms_ports then t == codes "android" else contains port before))
      (sym ((==_iff target (codes "ios")).0 e)) (removed before port)
switched target before false p e port =
    subst
      (λ t.
        contains port (sorted_set (before ++ gms_ports))
        ≡ (if contains port gms_ports then t else contains port before))
      (ground (arith, p, e)) (added before port)

-- What `retarget_ports` returns.
pub retarget_ports-AreSwitched :
    (target : Text) (stored : Option Text)
    → contains target platforms ≡ true
    → Ensures
        (λ ports.
          (before : List ℕ) × (stored_ports target stored ≡ ok before)
          × AreSwitched target before ports)
        (retarget_ports target stored)
unfolding retarget_ports
retarget_ports-AreSwitched target stored p =
    Ensures-step _ (stored_ports target stored) _ (λ before e.
      Ensures-weaken (AreSwitched target before) _ _ (λ ports h. (before, e, h))
        (checked target before _ (switched target before (target == codes "ios") p refl)))
