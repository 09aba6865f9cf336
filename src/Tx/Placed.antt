-- ===== src/Tx/Placed.antt =====
-- The paths that `resolve_target` of deploy/bot/pdgtx.py can give.
use proxy_gateway_plus.Prelude.{
  ℕ, Bool, true, false, not, ◌||◌, Option, none, some, List, [], ◌∷◌, ◌++◌, ◌==◌, ℕ_eq, List_eq,
  contains, nat_eq, Result, ok, err, ◌≡◌, ◌≢◌, refl, arith, Ensures, if-split, inl, inr, ◌⊎◌,
}
use proxy_gateway_plus.Tx.Whitelist.{
  Text, codes, Place, private_mode, shared_mode, static_targets, find_text, after_prefix, is_unsafe,
  is_rule, is_ruleset, is_unit, is_provider, TargetError, in_directory, resolve_unit,
  resolve_ruleset, resolve_rule, resolve_provider, resolve_static, resolve_target,
}

-- The name of a file in a directory: no path of its own, and not hidden.
abbrev pub Plain : Text → Type 0
Plain leaf = (contains b'/' leaf ≡ false) × ((rest : Text) → leaf ≢ b'.' ∷ rest)

is_unsafe-Plain : (leaf : Text) → is_unsafe leaf ≡ false → Plain leaf
unfolding is_unsafe contains
is_unsafe-Plain [] h = (refl, λ rest e. cc)
is_unsafe-Plain (c ∷ leaf) h =
    (ground (arith, h), λ rest e. visible rest (first e) (ground (arith, h)))
  where
    first : {l k : Text} {a b : ℕ} → a ∷ l ≡ b ∷ k → a ≡ b
    first e = cc

    visible : (rest : Text) → c ≡ b'.' → nat_eq c b'.' ≡ false → ⊥
    visible rest e k = ground (arith, e, k)

abbrev pub directories : List Text
directories =
    codes "/etc/mihomo/providers/"
    ∷ codes "/etc/mosdns/rules/"
    ∷ codes "/etc/sing-box/rs/"
    ∷ codes "/etc/systemd/system/"
    ∷ []

-- One of a list of texts.
abbrev pub OneOf : Text → List Text → Type 0
OneOf t [] = ⊥
OneOf t (u ∷ us) = (t ≡ u) ⊎ OneOf t us

-- A file directly in one of the directories.
abbrev pub Direct : Text → Place → Type 0
Direct root place =
    (base : Text) × (leaf : Text) × OneOf base directories
    × (place.path ≡ root ++ (base ++ leaf))
    × Plain leaf

-- What the whitelist allows for a name.
abbrev pub Allowed : Text → Text → Text → Place → Type 0
Allowed root cert_dir name place =
    (place.path ≡ root ++ (cert_dir ++ codes "/fullchain.pem"))
    ⊎ (place.path ≡ root ++ (cert_dir ++ codes "/privkey.pem"))
    ⊎ ((p : Place) × (find_text name static_targets ≡ some p) × (place.path ≡ root ++ p.path))
    ⊎ Direct root place

module _ (root cert_dir : Text) where
  in_directory-Direct :
      (allows : Text → Bool) (base : Text) (mode : ℕ) (secret : Bool) (leaf : Text)
      → OneOf base directories
      → Ensures (Direct root) (in_directory root cert_dir allows base mode secret leaf)
  unfolding in_directory
  in_directory-Direct allows base mode secret leaf one =
      if-split (Ensures (Direct root)) (not (allows leaf) || is_unsafe leaf) _
        (ok (record { path = root ++ (base ++ leaf); mode = mode; secret = secret })) (λ _. tt)
        (λ safe. (base, leaf, one, refl, is_unsafe-Plain leaf (ground (arith, safe))))

  unit-Direct :
      (name : Text) (o : Option Text) → Ensures (Direct root) (resolve_unit root cert_dir name o)
  unfolding resolve_unit
  unit-Direct name none = tt
  unit-Direct name (some leaf) =
      in_directory-Direct is_unit _ shared_mode false leaf (inr (inr (inr (inl refl))))

  ruleset-Direct :
      (name : Text) (o : Option Text) → Ensures (Direct root) (resolve_ruleset root cert_dir name o)
  unfolding resolve_ruleset
  ruleset-Direct name none = unit-Direct name (after_prefix (codes "unit:") name)
  ruleset-Direct name (some leaf) =
      in_directory-Direct is_ruleset _ shared_mode false leaf (inr (inr (inl refl)))

  rule-Direct :
      (name : Text) (o : Option Text) → Ensures (Direct root) (resolve_rule root cert_dir name o)
  unfolding resolve_rule
  rule-Direct name none = ruleset-Direct name (after_prefix (codes "ruleset:") name)
  rule-Direct name (some leaf) =
      in_directory-Direct is_rule _ shared_mode false leaf (inr (inl refl))

  provider-Direct :
      (name : Text) (o : Option Text)
      → Ensures (Direct root) (resolve_provider root cert_dir name o)
  unfolding resolve_provider
  provider-Direct name none = rule-Direct name (after_prefix (codes "mosdns_rule:") name)
  provider-Direct name (some leaf) =
      in_directory-Direct is_provider _ private_mode true leaf (inl refl)

  allow :
      (name : Text) (r : Result TargetError Place)
      → Ensures (Direct root) r
      → Ensures (Allowed root cert_dir name) r
  allow name (ok place) h = inr (inr (inr h))
  allow name (err e) h = tt

  static-Allowed :
      (name : Text) (o : Option Place)
      → find_text name static_targets ≡ o
      → Ensures (Allowed root cert_dir name) (resolve_static root cert_dir name o)
  unfolding resolve_static
  static-Allowed name none e =
      allow name _ (provider-Direct name (after_prefix (codes "mihomo_provider:") name))
  static-Allowed name (some place) e = inr (inr (inl (place, e, refl)))

  -- Whatever name is given, a target that is not refused is one of the two certificate files, a
  -- listed file, or a file directly in one of four directories.
  pub resolve_target-Allowed :
      (name : Text) → Ensures (Allowed root cert_dir name) (resolve_target root cert_dir name)
  unfolding resolve_target
  resolve_target-Allowed name =
      if-split (Ensures (Allowed root cert_dir name)) (name == codes "cert_fullchain")
        (ok (record {
          path = root ++ (cert_dir ++ codes "/fullchain.pem");
          mode = shared_mode;
          secret = false;
        }))
        _ (λ _. inl refl)
        (λ _.
          if-split (Ensures (Allowed root cert_dir name)) (name == codes "cert_privkey")
            (ok (record {
              path = root ++ (cert_dir ++ codes "/privkey.pem");
              mode = private_mode;
              secret = true;
            }))
            _ (λ _. inr (inl refl)) (λ _. static-Allowed name (find_text name static_targets) refl))
