-- ===== src/Authz/Lists.antt =====
-- permission_list_app.go, permission_list_svc.go, and pkg/primaza/workercluster/authz/agents.go: what the
-- agents need, and what they may have.
use primaza.Common.{String, List, [], ◌∷◌}
use primaza.Authz.Reports.{ResourcePermissions}
use primaza.Authz.Excess.{Permission}

-- `AppPermissionList`
abbrev pub app_permission_list : List Permission
app_permission_list =
    record {
      api_groups = "primaza.io" ∷ [];
      resources = "servicebindings" ∷ "serviceclaims" ∷ "servicecatalogs" ∷ [];
      resource_names = [];
      namespace = "system";
      name = "primaza:app:manager";
      verbs = "get" ∷ "list" ∷ "watch" ∷ "update" ∷ "patch" ∷ "delete" ∷ "deletecollection" ∷ [];
    }
    ∷ record {
      api_groups = "primaza.io" ∷ [];
      resources = "serviceclaims/status" ∷ [];
      resource_names = [];
      namespace = "system";
      name = "primaza:app:manager";
      verbs = "get" ∷ "list" ∷ "watch" ∷ "update" ∷ [];
    }
    ∷ record {
      api_groups = "primaza.io" ∷ [];
      resources = "servicebindings/status" ∷ [];
      resource_names = [];
      namespace = "system";
      name = "primaza:app:manager";
      verbs = "get" ∷ "list" ∷ "watch" ∷ "update" ∷ [];
    }
    ∷ record {
      api_groups = "apps" ∷ [];
      resources = "deployments" ∷ [];
      resource_names = [];
      namespace = "system";
      name = "primaza:app:manager";
      verbs = "get" ∷ "list" ∷ "watch" ∷ "update" ∷ "patch" ∷ [];
    }
    ∷ record {
      api_groups = "apps" ∷ [];
      resources = "deployments" ∷ "deployments/finalizers" ∷ [];
      resource_names = "primaza-app-agent" ∷ [];
      namespace = "system";
      name = "primaza:app:manager";
      verbs = "update" ∷ [];
    }
    ∷ record {
      api_groups = "" ∷ [];
      resources = "secrets" ∷ [];
      resource_names = [];
      namespace = "system";
      name = "primaza:app:manager";
      verbs = "list" ∷ "get" ∷ "delete" ∷ "watch" ∷ "update" ∷ [];
    }
    ∷ record {
      api_groups = "primaza.io" ∷ [];
      resources = "servicebindings/finalizers" ∷ [];
      resource_names = [];
      namespace = "system";
      name = "primaza:app:manager";
      verbs = "update" ∷ [];
    }
    ∷ record {
      api_groups = "coordination.k8s.io" ∷ [];
      resources = "leases" ∷ [];
      resource_names = [];
      namespace = "system";
      name = "primaza:app:leader-election";
      verbs = "get" ∷ "list" ∷ "watch" ∷ "create" ∷ "update" ∷ "patch" ∷ "delete" ∷ [];
    }
    ∷ record {
      api_groups = "" ∷ [];
      resources = "events" ∷ [];
      resource_names = [];
      namespace = "system";
      name = "primaza:app:leader-election";
      verbs = "create" ∷ "patch" ∷ [];
    }
    ∷ []

-- `SvcPermissionList`
abbrev pub svc_permission_list : List Permission
svc_permission_list =
    record {
      api_groups = "primaza.io" ∷ [];
      resources = "serviceclasses" ∷ "registeredservices" ∷ [];
      resource_names = [];
      namespace = "system";
      name = "primaza:svc:manager";
      verbs =
          "create" ∷ "delete" ∷ "deletecollection" ∷ "get" ∷ "list" ∷ "patch" ∷ "update" ∷ "watch"
          ∷ [];
    }
    ∷ record {
      api_groups = "primaza.io" ∷ [];
      resources = "serviceclasses/status" ∷ [];
      resource_names = [];
      namespace = "system";
      name = "primaza:svc:manager";
      verbs = "get" ∷ "patch" ∷ "update" ∷ [];
    }
    ∷ record {
      api_groups = "" ∷ [];
      resources = "secrets" ∷ [];
      resource_names = [];
      namespace = "system";
      name = "primaza:svc:manager";
      verbs = "create" ∷ "delete" ∷ "update" ∷ "get" ∷ "list" ∷ "watch" ∷ [];
    }
    ∷ record {
      api_groups = "apps" ∷ [];
      resources = "deployments" ∷ [];
      resource_names = [];
      namespace = "system";
      name = "primaza:svc:manager";
      verbs = "get" ∷ "list" ∷ "watch" ∷ [];
    }
    ∷ record {
      api_groups = "apps" ∷ [];
      resources = "deployments" ∷ "deployments/finalizers" ∷ [];
      resource_names = "primaza-svc-agent" ∷ [];
      namespace = "system";
      name = "primaza:svc:manager";
      verbs = "update" ∷ [];
    }
    ∷ record {
      api_groups = "" ∷ [];
      resources = "configmaps" ∷ [];
      resource_names = [];
      namespace = "system";
      name = "primaza:svc:leader-election";
      verbs = "get" ∷ "list" ∷ "watch" ∷ "create" ∷ "update" ∷ "patch" ∷ "delete" ∷ [];
    }
    ∷ record {
      api_groups = "coordination.k8s.io" ∷ [];
      resources = "leases" ∷ [];
      resource_names = [];
      namespace = "system";
      name = "primaza:svc:leader-election";
      verbs = "get" ∷ "list" ∷ "watch" ∷ "create" ∷ "update" ∷ "patch" ∷ "delete" ∷ [];
    }
    ∷ record {
      api_groups = "" ∷ [];
      resources = "events" ∷ [];
      resource_names = [];
      namespace = "system";
      name = "primaza:svc:leader-election";
      verbs = "create" ∷ "patch" ∷ [];
    }
    ∷ []

-- To create any deployment, and to delete the agent's.
abbrev pub deployment_permissions : String → List ResourcePermissions
deployment_permissions agent =
    record {
      verbs = "create" ∷ [];
      group = "apps";
      version = "";
      resource = "deployments";
      name = "";
    }
    ∷ record {
      verbs = "delete" ∷ [];
      group = "apps";
      version = "";
      resource = "deployments";
      name = agent;
    }
    ∷ []

-- `GetAgentAppRequiredPermissions`
abbrev pub get_agent_app_required_permissions : List ResourcePermissions
get_agent_app_required_permissions = deployment_permissions "primaza-app-agent"

-- `GetAgentSvcRequiredPermissions`
abbrev pub get_agent_svc_required_permissions : List ResourcePermissions
get_agent_svc_required_permissions = deployment_permissions "primaza-svc-agent"
