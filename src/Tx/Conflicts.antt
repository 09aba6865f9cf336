-- ===== src/Tx/Conflicts.antt =====
-- What a list of actions without conflicts asks for, and what `Tx.service` of
-- deploy/bot/pdgtx.py lets through.
use proxy_gateway_plus.Prelude.{
  String, true, false, not, Option, none, some, List, [], ◌∷◌, ◌++◌, if◌then◌else◌, ◌==◌, ==_iff,
  String_eq, ◌≡◌, refl, arith, All, Result, ok, ◌>>=◌, any, ==_refl, Ensures, if-split, All-append,
}
use proxy_gateway_plus.Tx.{assoc}
use proxy_gateway_plus.Tx.Action.{
  Action, ServiceError, Want, active, inactive, wants, put_want, note_want, expected_from,
  expected_states, clashes, conflicts_step, conflicts_from, action_conflicts, same_want, is_listed,
  service, same_action,
}

assoc-put_want :
    (u v : String) (w : Want) (acc : List (String × Want))
    → assoc v (put_want u w acc) ≡ (if u == v then some w else assoc v acc)
unfolding put_want
assoc-put_want u v w [] = refl
assoc-put_want u v w ((j, x) ∷ acc) =
    ground (arith, ==_iff u v, ==_iff j u, ==_iff j v, assoc-put_want u v w acc)

same_want-eq : (w x : Want) → same_want w x ≡ true → w ≡ x
unfolding same_want
same_want-eq active active h = refl
same_want-eq inactive inactive h = refl
same_want-eq active inactive h = cc
same_want-eq inactive active h = cc

-- A noted want stays where the next action does not clash with it.
note_want-keeps :
    (u : String) (w : Want) (seen : List (String × Want)) (next : Option (String × Want))
    → assoc u seen ≡ some w
    → conflicts_step seen next ≡ false
    → assoc u (note_want next seen) ≡ some w
unfolding note_want conflicts_step clashes
note_want-keeps u w seen none h k = h
note_want-keeps u w seen (some (v, x)) h k =
    ground (arith, assoc-put_want v u x seen, ==_iff v u, same_want-eq x w, same_want-eq w x)

expected_from-keeps :
    (u : String) (w : Want) (seen : List (String × Want)) (rest : List Action)
    → assoc u seen ≡ some w
    → conflicts_from seen rest ≡ false
    → assoc u (expected_from seen rest) ≡ some w
unfolding expected_from conflicts_from
expected_from-keeps u w seen [] h k = h
expected_from-keeps u w seen (a ∷ rest) h k =
    expected_from-keeps u w (note_want (wants a) seen) rest
      (note_want-keeps u w seen (wants a) h (ground arith)) (ground arith)

-- The end state that an action asks for is the one expected of its unit.
abbrev pub Met : List (String × Want) → Action → Type 0
Met expected a = (u : String) (w : Want) → wants a ≡ some (u, w) → assoc u expected ≡ some w

expected_from-Met :
    (seen : List (String × Want)) (rest : List Action)
    → conflicts_from seen rest ≡ false
    → All (Met (expected_from seen rest)) rest
unfolding expected_from conflicts_from
expected_from-Met seen [] k = tt
expected_from-Met seen (a ∷ rest) k = (
  λ u w e. expected_from-keeps u w (note_want (wants a) seen) rest (noted u w e) (ground arith),
  expected_from-Met (note_want (wants a) seen) rest (ground arith),
)
  where
    noted :
        (u : String) (w : Want)
        → wants a ≡ some (u, w)
        → assoc u (note_want (wants a) seen) ≡ some w
    noted u w e = rw e (unfold note_want in ground (arith, assoc-put_want u u w seen, ==_refl u))

-- Without a conflict the expected end states meet every action, in whatever order they stand.
pub action_conflicts-Met :
    (actions : List Action)
    → action_conflicts actions ≡ false
    → All (Met (expected_states actions)) actions
unfolding action_conflicts expected_states
action_conflicts-Met actions h = expected_from-Met [] actions h

-- A list of actions as `service` builds it up.
pub record Collected (actions : List Action) : Type 0 where
  pub listed : All (λ a. is_listed a ≡ true) actions
  pub agree : action_conflicts actions ≡ false

-- Whatever is asked of `service`, in whatever order, what it collects is on the whitelist and asks
-- for one end state of each unit.
pub service-Collected :
    (a : Action) (actions : List Action) → Collected actions → Ensures Collected (service a actions)
unfolding service
service-Collected a actions h =
    if-split (Ensures Collected) (not (is_listed a)) _ _ (λ _. tt)
      (λ on_list.
        if-split (Ensures Collected) (any (same_action a) actions) _ _ (λ _. h)
          (λ _.
            if-split (Ensures Collected) (action_conflicts (actions ++ a ∷ [])) _ _ (λ _. tt)
              (λ clear. record {
                listed =
                    All-append (λ b. is_listed b ≡ true) actions (a ∷ []) h.listed
                      (ground arith, tt);
                agree = clear;
              })))

unfoldable pub collect : List Action → List Action → Result ServiceError (List Action)
collect [] actions = ok actions
collect (a ∷ rest) actions = do next ← service a actions; collect rest next
