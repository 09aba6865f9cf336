-- ===== src/Profile/Kept.antt =====
-- `retarget_platform_text` of deploy/bot/pdgprofile.py as a whole: what it keeps and what it writes.
use proxy_gateway_plus.Prelude.{
  ℕ, Bool, true, false, Result, ◌>>=◌, Ensures, Ensures-bind, List, [], ◌∷◌, ℕ_eq, List_eq,
  contains, list_beq, ok, ok-injective, guard, ◌>>◌, ◌≡◌, refl, subst, Ensures-step, Ensures-eq,
}
use proxy_gateway_plus.Prelude.Texts.{Text, codes, splitlines}
use proxy_gateway_plus.Profile.{
  bad_choice, ProfileError, Values, value_of, choice, platforms, read_values,
}
use proxy_gateway_plus.Profile.Numbers.{ports_line}
use proxy_gateway_plus.Profile.Resolve.{setting}
use proxy_gateway_plus.Profile.Retarget.{update_lines, updates_of, retarget_ports, retarget_lines}
use proxy_gateway_plus.Profile.Updates.{lines_with, other_lines, IsPlain}
use proxy_gateway_plus.Profile.Others.{other_lines-update}
use proxy_gateway_plus.Profile.Written.{lines_with-update}
use proxy_gateway_plus.Profile.Ports.{AreSwitched, retarget_ports-AreSwitched}
use proxy_gateway_plus.Profile.Retarget.{stored_ports}

-- What the lines of a candidate are: `ports` are its ports for TLS, `before` those of the profile.
pub record IsRetargeted (profile target : Text) (lines : List Text) : Type 0 where
  pub values : Values
  pub before : List ℕ
  pub ports : List ℕ
  pub read : read_values profile ≡ ok values
  pub stored : stored_ports target (value_of values (codes "PDG_HIJACK_TLS_TCP_PORTS")) ≡ ok before
  pub switched : AreSwitched target before ports
  pub others :
      other_lines (updates_of target ports) lines
      ≡ other_lines (updates_of target ports) (splitlines profile)
  pub platform :
      lines_with (codes "PDG_PLATFORM") lines ≡ setting (codes "PDG_PLATFORM") target ∷ []
  pub tls :
      lines_with (codes "PDG_HIJACK_TLS_TCP_PORTS") lines
      ≡ setting (codes "PDG_HIJACK_TLS_TCP_PORTS") (ports_line ports) ∷ []

plain : (target : Text) (ports : List ℕ) → IsPlain (updates_of target ports)
unfolding list_beq
plain target ports = ((λ w. refl), refl, ((λ w. refl), refl, tt))

pub chosen :
    {value : Text} {chosen' : Text} (choices : List Text)
    → choice value choices ≡ ok chosen'
    → (contains value choices ≡ true) × (value ≡ chosen')
unfolding choice
chosen {value} {chosen'} choices h = by_test (contains value choices) h
  where
    by_test :
        (b : Bool) → (guard b bad_choice >> ok value) ≡ ok chosen' → (b ≡ true) × (value ≡ chosen')
    by_test true h = (refl, ok-injective h)
    by_test false h = cc

-- The candidate that the switch to a platform makes of a profile has the lines of the profile whose
-- keys are neither of the two that are switched, as they were and in order. It has one line with the
-- platform and one with the ports for TLS. These are the ports that the profile had, or else those of
-- the platform, with 5228, 5229 and 5230 for Android and without them for iOS; there is at least one.
pub retarget-Kept :
    (profile target : Text) (lines : List Text)
    → retarget_lines profile target ≡ ok lines
    → IsRetargeted profile target lines
unfolding retarget_lines list_beq contains
retarget-Kept profile target lines e =
    Ensures-eq (IsRetargeted profile target) (retarget_lines profile target) lines
      (Ensures-step _ (choice target platforms) _ (λ target' is_target.
        subst (λ t. Ensures (IsRetargeted profile target) (switch t))
          ((chosen platforms is_target).1)
          (Ensures-step _ (read_values profile) _ (λ values read.
            Ensures-bind _ _ (retarget_ports target _) _
              (retarget_ports-AreSwitched target _ ((chosen platforms is_target).0))
              (λ ports (before, stored, switched). record {
                values = values;
                before = before;
                ports = ports;
                read = read;
                stored = stored;
                switched = switched;
                others =
                    other_lines-update (updates_of target ports) (plain target ports)
                      (splitlines profile) [];
                platform =
                    lines_with-update (updates_of target ports) (codes "PDG_PLATFORM") target
                      (plain target ports) refl (splitlines profile) [];
                tls =
                    lines_with-update (updates_of target ports) (codes "PDG_HIJACK_TLS_TCP_PORTS")
                      (ports_line ports) (plain target ports) refl (splitlines profile) [];
              })))))
      e
  where
    switch : Text → Result ProfileError (List Text)
    switch target = do
      values ← read_values profile
      ports ← retarget_ports target (value_of values (codes "PDG_HIJACK_TLS_TCP_PORTS"))
      ok (update_lines (updates_of target ports) [] (splitlines profile))
