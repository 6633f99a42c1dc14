-- ===== src/Authz/Excess.antt =====
-- permissions.go: permissions that an agent has beyond those of its role.
use primaza.Common.{Bool, ◌||◌, String, ◌<>◌, List, [], ◌∷◌, ◌++◌}
use primaza.Common.{Eq, ◌==◌, string_eq, contains, if◌then◌else◌}
use primaza.Common.Effects.{Action, pure, ◌>>=◌}

pub record Permission : Type 0 where
  pub api_groups : List String
  pub resources : List String
  pub resource_names : List String
  pub namespace : String
  pub name : String
  pub verbs : List String

-- `authzv1.ResourceRule`
pub record ResourceRule : Type 0 where
  pub verbs : List String
  pub api_groups : List String
  pub resources : List String
  pub resource_names : List String

-- The key `[4]string{ag, rs, rn, vb}`.
pub record RuleKey : Type 0 where
  pub group : String
  pub resource : String
  pub resource_name : String
  pub verb : String

rule_dec : Discrete RuleKey
rule_dec = hlevel string_eq.dec

instance unfoldable pub rule_eq : Eq RuleKey
unfolding rule_dec
rule_eq = record { dec = rule_dec }

-- An empty list stands for the empty text alone.
abbrev pub or_blank : List String → List String
or_blank [] = "" ∷ []
or_blank (x ∷ xs) = x ∷ xs

-- A loop that appends what each round gives.
abbrev pub each_of {ℓ} : {A : Type ℓ} → (String → List A) → List String → List A
each_of f [] = []
each_of f (x ∷ xs) = f x ++ each_of f xs

-- The four nested loops over groups, resources, names and verbs.
unfoldable pub each_rule {ℓ} :
    {A : Type ℓ}
    → (RuleKey → List A)
    → List String
    → List String
    → List String
    → List String
    → List A
each_rule f groups resources names verbs =
    each_of
      (λ ag.
        each_of
          (λ rs.
            each_of
              (λ rn.
                each_of
                  (λ vb. f (record { group = ag; resource = rs; resource_name = rn; verb = vb }))
                  verbs)
              names)
          resources)
      groups

-- `fmt.Sprintf("Excess permission: …")`
unfoldable pub excess_text : String → RuleKey → String
excess_text ns k =
    "Excess permission: namespace=" <> ns <> ",resource=" <> k.resource <> "." <> k.group
    <> ",resource-name=" <> k.resource_name <> ",verbs=" <> k.verb

abbrev pub is_wildcard : RuleKey → Bool
is_wildcard k = k.group == "*" || k.resource == "*"

-- The body of the innermost loop: a wildcard is reported, and a rule that is not defined; a rule
-- that is both is reported twice.
unfoldable pub excess_of : String → List RuleKey → RuleKey → List String
excess_of ns defined_rules k =
    (if is_wildcard k then excess_text ns k ∷ [] else [])
    ++ (if contains defined_rules k then [] else excess_text ns k ∷ [])

-- `createUnwantedPermissions`
unfoldable pub create_unwanted_permissions : List ResourceRule → String → List RuleKey → List String
create_unwanted_permissions [] ns defined_rules = []
create_unwanted_permissions (rr ∷ rules) ns defined_rules =
    each_rule (excess_of ns defined_rules) (or_blank rr.api_groups) rr.resources
      (or_blank rr.resource_names) rr.verbs
    ++ create_unwanted_permissions rules ns defined_rules

-- The loops of `AccessList` that fill `definedRules`, a map that is used as a set.
unfoldable pub defined_rules_of : List Permission → List RuleKey
defined_rules_of [] = []
defined_rules_of (p ∷ pl) =
    each_rule (λ k. k ∷ []) (or_blank p.api_groups) p.resources (or_blank p.resource_names) p.verbs
    ++ defined_rules_of pl

-- `SelfSubjectRulesReviews().Create` in a namespace, whose answer is `Status.ResourceRules`.
module _ {W : Type 0} (create_rules_review : String → Action W (List ResourceRule)) where
  -- `createUnwantedPermissionsList`
  unfoldable pub create_unwanted_permissions_list : String → List RuleKey → Action W (List String)
  create_unwanted_permissions_list ns defined_rules = do
    resource_rules ← create_rules_review ns
    pure (create_unwanted_permissions resource_rules ns defined_rules)

  -- `AccessList`
  unfoldable pub access_list : List Permission → List String → Action W (List String)
  access_list pl [] = pure []
  access_list pl (ns ∷ namespaces) = do
    up ← create_unwanted_permissions_list ns (defined_rules_of pl)
    rest ← access_list pl namespaces
    pure (up ++ rest)
