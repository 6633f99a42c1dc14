-- ===== src/Environments/Status.antt =====
-- controllers/clusterenvironment_controller.go: the status of an environment. The functions change the
-- object of the caller, which the model returns also where they fail.
use primaza.Common.{none, Bool, String, ◌<>◌, List, [], ◌∷◌, ◌++◌}
use primaza.Common.{◌==◌, string_eq, if◌then◌else◌}
use primaza.Common.Errors.{Error, Result, ok, err, panic, message}
use primaza.Common.Effects.{Action, pure, lift, crash, attempt, ◌>>=◌, ◌>>◌, errors_of}
use primaza.Api.{Condition, ClusterEnvironment, ClusterEnvironmentState, partial}
use primaza.Cluster.{Platform}
use primaza.ControlPlane.{
  spaced, ConnectionStatus, connection_condition, test_connection_status, wrap,
}
use primaza.ControlPlane.Naming.{NamespaceType, application, service}
use primaza.Authz.{
  AccessReview, ResourcePermissions, NamespacedPermissionsReport, all_satisfied, check_permissions,
}
use primaza.Authz.Excess.{ResourceRule, access_list}
use primaza.Authz.Lists.{
  app_permission_list, svc_permission_list, get_agent_app_required_permissions,
  get_agent_svc_required_permissions,
}

-- The reviews that a cluster makes of what the caller may do.
pub record Reviews (W Config : Type 0) : Type 0 where
  pub create_review : Config → AccessReview → Action W Bool
  pub create_rules_review : Config → String → Action W (List ResourceRule)

-- An environment, and the result of a function that has changed it.
abbrev pub Tested : Type 0 → Type 0
Tested A = ClusterEnvironment × Result A

-- `permissionRequiredReason`
abbrev pub permission_required_reason : NamespaceType → String
permission_required_reason application = "ApplicationNamespacePermissionsRequired"
permission_required_reason service = "ServiceNamespacePermissionsRequired"

-- `buildPermissionCondition`
unfoldable pub build_permission_condition : NamespaceType → List String → Condition
build_permission_condition kind [] = record {
  type = permission_required_reason kind;
  status = "False";
  reason = "PermissionsGranted";
  message = "all required permissions are granted";
  observed_generation = 0;
  last_transition_time = none;
}
build_permission_condition kind (ns ∷ failed) = record {
  type = permission_required_reason kind;
  status = "True";
  reason = "PermissionsNotGranted";
  message = "namespaces missing required permissions: [" <> spaced (ns ∷ failed) <> "]";
  observed_generation = 0;
  last_transition_time = none;
}

-- The loop of `testTypedNamespacesPermissions`.
unfoldable pub failed_namespaces : List (String × NamespacedPermissionsReport) → List String
failed_namespaces [] = []
failed_namespaces ((ns, rp) ∷ pr) =
    let failed = failed_namespaces pr in if all_satisfied rp then failed else ns ∷ failed

abbrev pub excess_condition : String → String → String → Condition
excess_condition type text status = record {
  type = type;
  status = status;
  reason = "ExcessPermissions";
  message = text;
  observed_generation = 0;
  last_transition_time = none;
}

module _ (set_condition : List Condition → Condition → List Condition) where
  abbrev pub with_condition : Condition → ClusterEnvironment → ClusterEnvironment
  with_condition c ce = record ce {
    status = record (ce.status) { conditions = set_condition ce.status.conditions c };
  }

  -- `updateClusterEnvironmentStatus`
  unfoldable pub update_cluster_environment_status :
      ConnectionStatus → ClusterEnvironment → ClusterEnvironment
  update_cluster_environment_status cs ce = record ce {
    status = record {
      state = cs.state;
      conditions = set_condition ce.status.conditions (connection_condition cs);
    };
  }

  -- A branch of `checkExcessPermissions`.
  abbrev pub with_excess :
      Condition → Result (List String) → ClusterEnvironment → ClusterEnvironment
  with_excess c (ok []) ce = ce
  with_excess c (ok (p ∷ ep)) ce = with_condition c ce
  with_excess c (err e) ce = ce
  with_excess c panic ce = ce

  abbrev pub with_state : ClusterEnvironmentState → ClusterEnvironment → ClusterEnvironment
  with_state s ce = record ce { status = record (ce.status) { state = s } }

  -- The end of `testNamespacesPermissions`.
  unfoldable pub with_partial : List String → List String → ClusterEnvironment → ClusterEnvironment
  with_partial [] [] ce = ce
  with_partial [] (ns ∷ snsp) ce = with_state partial ce
  with_partial (ns ∷ ansp) snsp ce = with_state partial ce

  abbrev pub typed_tested :
      NamespaceType
      → ClusterEnvironment
      → Result (List (String × NamespacedPermissionsReport))
      → Tested (List String)
  typed_tested kind ce (ok pr) =
      let failed = failed_namespaces pr in
      (with_condition (build_permission_condition kind failed) ce, ok failed)
  typed_tested kind ce (err e) = (ce, err e)
  typed_tested kind ce panic = (ce, panic)

  module _ {W Config : Type 0} (platform : Platform W Config) (reviews : Reviews W Config) where
    -- `testConnection`
    unfoldable pub test_connection : Config → ClusterEnvironment → Action W (Tested (Unit {0}))
    test_connection cfg ce = do
      cr ← test_connection_status platform cfg
      let ce' = update_cluster_environment_status cr ce
      pure (
        ce',
        if cr.reason == "ConnectionSuccessful"
            then ok tt
            else err (message "can not connect to target cluster"),
      )

    -- `checkExcessPermissions`
    unfoldable pub check_excess_permissions :
        Config → ClusterEnvironment → Action W (ClusterEnvironment × List Error)
    check_excess_permissions cfg ce = do
      a ← attempt (
          access_list (reviews.create_rules_review cfg) app_permission_list
            ce.spec.application_namespaces)
      s ← attempt (
          access_list (reviews.create_rules_review cfg) svc_permission_list
            ce.spec.service_namespaces)
      let app =
          excess_condition "ExcessPermissionsInApplicationNamespaces"
            "More permissions than required granted for Application Namespaces" "True"
      let svc =
          excess_condition "ExcessPermissionsInServiceNamespaces"
            "More permissions than required granted for Service Namespaces" "False"
      pure (with_excess svc s (with_excess app a ce), errors_of a ++ errors_of s)

    -- `TestResourcePermissions`
    unfoldable pub test_resource_permissions :
        Config
        → List String
        → List ResourcePermissions
        → Action W (List (String × NamespacedPermissionsReport))
    test_resource_permissions cfg namespaces permissions = do
      lift (wrap "error creating the client" (platform.new_for_config cfg))
      check_permissions (reviews.create_review cfg) namespaces permissions

    -- `testTypedNamespacesPermissions`
    unfoldable pub test_typed_namespaces_permissions :
        Config
        → ClusterEnvironment
        → NamespaceType
        → List ResourcePermissions
        → List String
        → Action W (Tested (List String))
    test_typed_namespaces_permissions cfg ce kind permissions namespaces = do
      pr ← attempt (test_resource_permissions cfg namespaces permissions)
      pure (typed_tested kind ce pr)

    unfoldable pub services_tested :
        List String → Tested (List String) → Action W (Tested (List String × List String))
    services_tested ansp (ce, ok snsp) = pure (with_partial ansp snsp ce, ok (ansp, snsp))
    services_tested ansp (ce, err e) = pure (ce, err e)
    services_tested ansp (ce, panic) = crash

    unfoldable pub applications_tested :
        Config → Tested (List String) → Action W (Tested (List String × List String))
    applications_tested cfg (ce, ok ansp) = do
      t ←
          test_typed_namespaces_permissions cfg ce service get_agent_svc_required_permissions
            ce.spec.service_namespaces
      services_tested ansp t
    applications_tested cfg (ce, err e) = pure (ce, err e)
    applications_tested cfg (ce, panic) = crash

    -- `testNamespacesPermissions`
    unfoldable pub test_namespaces_permissions :
        Config → ClusterEnvironment → Action W (Tested (List String × List String))
    test_namespaces_permissions cfg ce = do
      t ←
          test_typed_namespaces_permissions cfg ce application get_agent_app_required_permissions
            ce.spec.application_namespaces
      applications_tested cfg t
