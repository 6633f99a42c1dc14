-- ===== src/ControlPlane/Naming.antt =====
-- types.go, agents.go, labels.go: the kinds of namespaces, and the names and labels of roles.
use primaza.Common.{String, ◌<>◌, List, [], ◌∷◌, trim_prefix}

-- `NamespaceType`
pub data NamespaceType : Type 0 where
  service application : NamespaceType

-- `string(t)`
abbrev pub type_text : NamespaceType → String
type_text service = "service"
type_text application = "application"

-- `NamespaceType.Short`
abbrev pub short : NamespaceType → String
short service = "svc"
short application = "app"

-- `getAgentRoleNames`
unfoldable pub get_agent_role_names : NamespaceType → List String
get_agent_role_names service = "primaza-reporter" ∷ []
get_agent_role_names application = "primaza-claimer" ∷ []

-- `bakeRoleBindingName`
unfoldable pub bake_role_binding_name : String → String → String → String
bake_role_binding_name role ce_name namespace =
    trim_prefix role "primaza:" <> "-" <> ce_name <> "-" <> namespace

-- `bakeServiceAccountName`
unfoldable pub bake_service_account_name : NamespaceType → String → String → String
bake_service_account_name kind ce_name namespace =
    "primaza-" <> short kind <> "-" <> ce_name <> "-" <> namespace

-- `namespacesUnbinder.getRoleBindingName`
unfoldable pub get_role_binding_name : String → String → String
get_role_binding_name ce_name namespace = "primaza-" <> ce_name <> "-" <> namespace

abbrev pub primaza_tenant_label : String
primaza_tenant_label = "primaza.io/tenant"

abbrev pub primaza_cluster_environment_label : String
primaza_cluster_environment_label = "primaza.io/cluster-environment"

abbrev pub primaza_namespace_type_label : String
primaza_namespace_type_label = "primaza.io/namespace-type"

abbrev pub primaza_namespace_label : String
primaza_namespace_label = "primaza.io/namespace"

-- `bakeRoleBindingsLabels`
unfoldable pub bake_role_bindings_labels :
    String → String → String → NamespaceType → List (String × String)
bake_role_bindings_labels ce_name tenant namespace namespace_type =
    ("app", "primaza")
    ∷ (primaza_tenant_label, tenant)
    ∷ (primaza_cluster_environment_label, ce_name)
    ∷ (primaza_namespace_type_label, type_text namespace_type)
    ∷ (primaza_namespace_label, namespace)
    ∷ []

-- `getRoleBindingsLabelSelectorOrDie`: the labels that it asks for.
unfoldable pub role_bindings_label_selector : String → NamespaceType → List (String × String)
role_bindings_label_selector ce_name namespace_type =
    ("app", "primaza")
    ∷ (primaza_cluster_environment_label, ce_name)
    ∷ (primaza_namespace_type_label, type_text namespace_type)
    ∷ []
