-- ===== src/Environments/Namespaces.antt =====
-- controllers/clusterenvironment_controller.go: what is written into the namespaces of an environment.
use primaza.Common.{String, Option, none, some, List, [], ◌∷◌}
use primaza.Common.{◌==◌, string_eq, if◌then◌else◌}
use primaza.Common.Errors.{Result, ok, err, panic, and_then, ignore_not_found, join, join_all}
use primaza.Common.Effects.{Action, pure, lift, crash, attempt, ◌>>=◌, collect_errors}
use primaza.Api.{
  ClusterEnvironment, ServiceClaim, ServiceClaimApplicationClusterContext, ServiceClassIdentityItem,
  Secret, new_meta, insert,
}
use primaza.Cluster.{Cluster, Platform, in_namespace}
use primaza.ControlPlane.{Manifests, EnvironmentState, push_service_binding, reconcile_namespaces}
use primaza.Environments.{reconcile_service_catalog_application_namespaces}
use primaza.Slices.{subtract}

-- `ClusterEnvironmentReconcilerConfig`, without the namespace.
pub record ReconcilerConfig : Type 0 where
  pub app_agent_image : String
  pub svc_agent_image : String
  pub app_agent_manifest : String
  pub svc_agent_manifest : String
  pub app_agent_config_manifest : String
  pub svc_agent_config_manifest : String

-- `rest.InClusterConfig` with `client.New`, and `kubernetes.NewForConfig`.
pub record Clients (W Config : Type 0) : Type 0 where
  pub in_cluster_client : Action W (Cluster W)
  pub clientset : Config → Result (Cluster W)

-- The environment's state, with the namespaces that are asked for.
abbrev pub requested_state :
    ReconcilerConfig → ClusterEnvironment → List String → List String → EnvironmentState
requested_state config ce ans sns = record {
  name = ce.meta.name;
  namespace = ce.meta.namespace;
  application_namespaces = ans;
  service_namespaces = sns;
  app_agent_image = config.app_agent_image;
  svc_agent_image = config.svc_agent_image;
  app_agent_manifest = config.app_agent_manifest;
  svc_agent_manifest = config.svc_agent_manifest;
  app_agent_config_manifest = config.app_agent_config_manifest;
  svc_agent_config_manifest = config.svc_agent_config_manifest;
  strategy = ce.spec.synchronization_strategy;
}

-- The first loop of `reconcileServiceBindingApplicationNamespaces`: it reads the target through a
-- pointer, which a claim need not have.
unfoldable pub claims_tagged : String → List ServiceClaim → Result (List ServiceClaim)
claims_tagged env [] = ok []
claims_tagged env (sclaim ∷ rest) =
    let later = claims_tagged env rest in
    elim sclaim.spec.target [
      | none ↦ panic
      | some t ↦ if env == t.environment_tag then and_then later (λ l. ok (sclaim ∷ l)) else later
    ]

-- `secret.StringData[sci.Name] = sci.Value`, in order.
abbrev pub identity_data :
    List ServiceClassIdentityItem → List (String × String) → List (String × String)
identity_data [] m = m
identity_data (sci ∷ rest) m = identity_data rest (insert sci.name sci.value m)

abbrev pub identity_secret : ServiceClaim → Secret
identity_secret sclaim = record {
  meta = new_meta sclaim.meta.name sclaim.meta.namespace;
  content = [];
  string_data = identity_data sclaim.spec.service_class_identity [];
}

module _ {W Config : Type 0} (cli : Cluster W) (platform : Platform W Config)
    (manifests : Manifests) (clients : Clients W Config) where
  -- The end of a push, whose secret is dropped.
  unfoldable pub push_tagged : Config → ServiceClaim → Option String → List String → Action W Unit
  push_tagged cfg sclaim nspace application_namespaces = do
    p ←
        push_service_binding platform sclaim (identity_secret sclaim) nspace application_namespaces
          cfg
    lift p.outcome

  unfoldable pub push_in_context :
      Config
      → ClusterEnvironment
      → ServiceClaim
      → List String
      → Option ServiceClaimApplicationClusterContext
      → Action W Unit
  push_in_context cfg ce sclaim namespaces none = pure tt
  push_in_context cfg ce sclaim namespaces (some cc) =
      if ce.meta.name == cc.cluster_environment_name
      then push_tagged cfg sclaim (some cc.namespace) namespaces
      else pure tt

  -- A round of the second loop.
  unfoldable pub push_claim :
      Config → ClusterEnvironment → List String → ServiceClaim → Action W Unit
  push_claim cfg ce namespaces sclaim = elim sclaim.spec.target [
    | none ↦ crash
    | some t ↦
        if t.environment_tag == ""
        then push_in_context cfg ce sclaim namespaces t.application_cluster_context
        else (if ce.spec.environment_name == t.environment_tag
            then push_tagged cfg sclaim none namespaces
            else pure tt)
  ]

  unfoldable pub claims_listed :
      Config → ClusterEnvironment → List String → Result (List ServiceClaim) → Action W Unit
  claims_listed cfg ce namespaces (ok l) = do
    claims ← lift (claims_tagged ce.spec.environment_name l)
    errs ← collect_errors (push_claim cfg ce namespaces) claims
    lift (join_all errs)
  claims_listed cfg ce namespaces (err e) = lift (ignore_not_found e)
  claims_listed cfg ce namespaces panic = crash

  -- `reconcileServiceBindingApplicationNamespaces`
  unfoldable pub reconcile_service_binding_application_namespaces :
      Config → ClusterEnvironment → List String → Action W Unit
  reconcile_service_binding_application_namespaces cfg ce namespaces = do
    listed ← attempt (cli.service_claims.list (in_namespace ce.meta.namespace))
    claims_listed cfg ce namespaces listed

  -- `reconcileApplicationNamespaces`
  unfoldable pub reconcile_application_namespaces :
      Config → ClusterEnvironment → List String → Action W Unit
  reconcile_application_namespaces cfg ce failed = do
    let nns = subtract ce.spec.application_namespaces failed
    errcm ← attempt (reconcile_service_binding_application_namespaces cfg ce nns)
    errct ← attempt (reconcile_service_catalog_application_namespaces cli platform cfg ce nns)
    lift (join errcm errct)

  -- `NewNamespaceReconciler`, and `ReconcileNamespaces` on it.
  unfoldable pub reconcile_state : Config → EnvironmentState → Action W Unit
  reconcile_state cfg s = do
    pcli ← clients.in_cluster_client
    wcli ← lift (clients.clientset cfg)
    reconcile_namespaces pcli wcli manifests s

  -- `reconcileNamespaces`
  unfoldable pub reconcile_environment_namespaces :
      ReconcilerConfig → Config → ClusterEnvironment → List String → List String → Action W Unit
  reconcile_environment_namespaces config cfg ce fann fsnn = reconcile_state cfg (
      requested_state config ce (subtract ce.spec.application_namespaces fann)
        (subtract ce.spec.service_namespaces fsnn))
