-- ===== src/Policy/Rename/Renamed.antt =====
-- A renaming replaces each reference to the old name, and no other.
use proxy_gateway_plus.Prelude.{
  String, Bool, false, ◌==◌, String_eq, ◌≡◌, ◌∙◌, Ensures, Ensures-bind, Ensures-step,
}
use proxy_gateway_plus.Prelude.Json.{Json, Fields, get}
use proxy_gateway_plus.Policy.Dicts.{get-put_other}
use proxy_gateway_plus.Policy.Cycle.Paths.{none-some}
use proxy_gateway_plus.Policy.Rename.{rename_in_route, rename_in_groups, rename_references}
use proxy_gateway_plus.Policy.Rename.Put.{GroupsRenamed-rename}

-- A renaming changes nothing but the metadata and the route.
pub get-rename :
    (old new : String) (b : Bool) (model : Fields)
    → Ensures
        (λ after.
          (key : String)
          → ("_pdg" == key) ≡ false
          → ("route" == key) ≡ false
          → get after key ≡ get model key)
        (rename_references old new b model)
unfolding rename_references
get-rename old new b model =
    Ensures-bind _ _ (rename_in_groups old new b model) _ (GroupsRenamed-rename old new b model)
      (λ before (_, same).
        none-some
          (Ensures (λ after.
            (key : String)
            → ("_pdg" == key) ≡ false
            → ("route" == key) ≡ false
            → get after key ≡ get model key))
          (get before "route") _ _ (λ _ key p _. same key p)
          (λ route _.
            Ensures-step _ (rename_in_route old new route) _
              (λ after _ key p r. get-put_other before "route" key after r ∙ same key p)))
