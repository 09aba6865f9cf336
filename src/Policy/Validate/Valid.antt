-- ===== src/Policy/Validate/Valid.antt =====
-- What a model says that `validate` accepts: its names are free, its groups' members are known, no
-- group depends on itself, and the route's targets are known.
use proxy_gateway_plus.Prelude.{String, List, ◌∷◌, ◌++◌, String_eq, ◌≡◌, All}
use proxy_gateway_plus.Prelude.Json.{Json, arr, Items, Fields}
use proxy_gateway_plus.Policy.{fetch}
use proxy_gateway_plus.Policy.Group.{Part, policy_groups, list_or_empty}
use proxy_gateway_plus.Policy.Cycle.Paths.{Walk}
use proxy_gateway_plus.Policy.Rename.{provider_names}
use proxy_gateway_plus.Policy.Validate.{group_names, block_tags}
use proxy_gateway_plus.Policy.Validate.Reading.{tags_of, exits_in, parts_of, dependencies}
use proxy_gateway_plus.Policy.Validate.Scanned.{OutboundReads}
use proxy_gateway_plus.Policy.Validate.Parts.{Fits, GroupReads}
use proxy_gateway_plus.Policy.Validate.Namespace.{AreFree}
use proxy_gateway_plus.Policy.Validate.Targets.{RouteFits}

-- The outbounds, the groups and the names of a model.
abbrev pub outbounds_of : Fields → List Json
outbounds_of model = list_or_empty (fetch model "outbounds")

abbrev pub groups_of : Fields → List Part
groups_of model = parts_of (policy_groups model)

abbrev pub targets_of : Fields → List String
targets_of model = exits_in (outbounds_of model) ++ group_names (groups_of model)

abbrev pub names_of : Fields → List String
names_of model =
    tags_of (outbounds_of model)
    ++ group_names (groups_of model)
    ++ provider_names model "proxy-providers"
    ++ provider_names model "rule-providers"

-- What the groups of a model must be, for the exits, blocks and names that it has otherwise.
pub record GroupsFit (tags exits blocks providers rule_providers : List String) (parts : List Part)
    : Type 0 where
  pub free : AreFree (tags ++ group_names parts ++ providers ++ rule_providers)
  pub members : All (Fits ("REJECT" ∷ (exits ++ group_names parts)) blocks providers) parts
  pub acyclic : (name : String) → ¬ Walk (dependencies (group_names parts) parts) name name

-- What a valid model says.
pub record IsValid (model : Fields) : Type 0 where
  pub outbounds : (items : Items) × (fetch model "outbounds" ≡ arr items)
  pub each_outbound : All OutboundReads (outbounds_of model)
  pub each_group : All GroupReads (policy_groups model)
  pub free : AreFree (names_of model)
  pub members :
      All
        (Fits
          ("REJECT" ∷ targets_of model)
          (block_tags (outbounds_of model))
          (provider_names model "proxy-providers"))
        (groups_of model)
  pub acyclic :
      (name : String)
      → ¬ Walk (dependencies (group_names (groups_of model)) (groups_of model)) name name
  pub route : RouteFits (targets_of model) (fetch model "route")
