-- ===== src/Tests/Texts.antt =====
-- Environment tags, sets, strategies, names and permissions at concrete inputs.
use primaza.Common.{
  ◌≡◌, ◌↔◌, refl, Bool, true, false, not, ◌&&◌, List, [], ◌∷◌, String, ◌==◌, string_eq,
}
use primaza.Common.{any, all, contains, arith}
use primaza.Common.Errors.{ok}
use primaza.Common.Effects.{Action, pure}
use primaza.EnvTag.{matches}
use primaza.EnvTag.Laws.{matches-eq, admits, excludes}
use primaza.ControlPlane.Naming.{application, get_agent_role_names}
use primaza.Authz.{
  ResourcePermissions, AccessReview, NamespacedPermissionsReport, check_permissions_in_namespace,
  all_satisfied,
}
use primaza.Authz.Granted.{Granted, permissions_of, check_permissions_in_namespace_lem}
use primaza.Authz.Excess.{
  ResourceRule, Permission, RuleKey, is_wildcard, create_unwanted_permissions, defined_rules_of,
}
use primaza.Authz.Laws.{grants, asks, create_unwanted_permissions_iff}

matches-eq_example :
    (matches "dev" [] ≡ true)
    × (matches "dev" ("!prod" ∷ "dev" ∷ []) ≡ (
        all (λ c. not (excludes "dev" c)) ("!prod" ∷ "dev" ∷ [])
        && any (admits "dev") ("!prod" ∷ "dev" ∷ [])))
matches-eq_example = matches-eq "dev" "!prod" ("dev" ∷ [])

same_constraints :
    (c : String) → contains ("dev" ∷ "!prod" ∷ []) c ≡ contains ("!prod" ∷ "dev" ∷ "dev" ∷ []) c
same_constraints c = ground arith

abbrev listed : List String
listed = "a" ∷ "b" ∷ "a" ∷ []

abbrev dropped : List String
dropped = "b" ∷ []

claimer : contains (get_agent_role_names application) "primaza-claimer" ≡ true
unfolding get_agent_role_names string_eq
claimer = refl

abbrev reads_pods : ResourcePermissions
reads_pods = record {
  verbs = "get" ∷ "list" ∷ [];
  group = "";
  version = "v1";
  resource = "pods";
  name = "";
}

-- A cluster that allows all but listing, and has no state.
abbrev allows_all_but_list : AccessReview → Action (Unit {0}) Bool
allows_all_but_list review = pure (not (review.verb == "list"))

check_permissions_in_namespace_lem_example :
    ((r : NamespacedPermissionsReport)
      → (check_permissions_in_namespace allows_all_but_list (reads_pods ∷ []) "apps" tt).0 ≡ ok r
      → all_satisfied r ≡ true
      → Granted allows_all_but_list
          (permissions_of "apps" (reads_pods ∷ []))
          tt
          (check_permissions_in_namespace allows_all_but_list (reads_pods ∷ []) "apps" tt).1)
    × ((v : Unit {0})
        → Granted allows_all_but_list (permissions_of "apps" (reads_pods ∷ [])) tt v
        → (r : NamespacedPermissionsReport) × (check_permissions_in_namespace allows_all_but_list
              (reads_pods ∷ [])
              "apps"
              tt
            ≡ (ok r, v))
          × (all_satisfied r ≡ true))
check_permissions_in_namespace_lem_example =
    check_permissions_in_namespace_lem allows_all_but_list (reads_pods ∷ []) "apps" tt

abbrev pod_rule : ResourceRule
pod_rule = record {
  verbs = "get" ∷ [];
  api_groups = "" ∷ [];
  resources = "pods" ∷ [];
  resource_names = [];
}

abbrev pod_permission : Permission
pod_permission = record {
  api_groups = [];
  resources = "pods" ∷ [];
  resource_names = [];
  namespace = "apps";
  name = "pods";
  verbs = "get" ∷ "list" ∷ [];
}

create_unwanted_permissions_iff_example :
    (create_unwanted_permissions (pod_rule ∷ []) "apps" (defined_rules_of (pod_permission ∷ []))
      ≡ [])
    ↔ ((k : RuleKey)
        → any (λ rr. grants rr k) (pod_rule ∷ []) ≡ true
        → (is_wildcard k ≡ false) × (any (λ p. asks p k) (pod_permission ∷ []) ≡ true))
create_unwanted_permissions_iff_example =
    create_unwanted_permissions_iff (pod_rule ∷ []) "apps" (pod_permission ∷ [])
