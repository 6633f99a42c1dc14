-- ===== src/SvcAgent/Registration.antt =====
-- serviceclass_controller.go: registered services that the agent writes for the resources of a class.
use primaza.Common.{Bool, true, false, String, Option, none, some, List, [], ◌∷◌, ◌++◌}
use primaza.Common.{string_eq, if◌then◌else◌}
use primaza.Common.Errors.{
  Error, Result, ok, err, panic, Outcome, message, is_not_found, and_then, join_all,
}
use primaza.Common.Effects.{Action, pure, raise, lift, crash, attempt, ◌>>=◌, errors_of}
use primaza.Api.{
  key_of, ObjectMeta, Condition, RegisteredService, RegisteredServiceState, Secret, ServiceClass,
  ServiceEndpointDefinitionItem, SynchronizationStrategy, push, pull, ClusterEnvironmentState,
  online, partial, offline, new_meta, get_class_environment_constraints,
}
use primaza.Cluster.{Cluster, Platform}
use primaza.ControlPlane.{ConnectionStatus, test_connection_status}
use primaza.Sed.{JsonPaths}
use primaza.SvcAgent.Descriptor.{
  SedMapping, lookup_service_endpoint_descriptor, service_endpoint_definition_mapping,
}

-- What the agent reads of an unstructured resource.
pub record Resources (Resource : Type 0) : Type 0 where
  pub resource_name : Resource → String
  pub resource_namespace : Resource → String
  pub resource_uid : Resource → String

-- Where the agent runs: `get_primaza_kubeconfig` of ControlPlane at the files of its pod,
-- `rest.InClusterConfig` for the cluster of the pod, and the cluster environment's name.
pub record Pod (W Config : Type 0) : Type 0 where
  pub get_primaza_kubeconfig : Action W (Config × String)
  pub in_cluster_config : Action W Config
  pub cluster_environment : String
  -- `controllerutil.SetOwnerReference`: owner, owned
  pub set_owner_reference : ObjectMeta → ObjectMeta → Result ObjectMeta
  -- The state of a registered service that has no status yet.
  pub new_state : RegisteredServiceState

abbrev pub service_annotations :
    String → ServiceClass → String → String → String → List (String × String)
service_annotations environment sc name namespace uid =
    ("primaza.io/service-apiversion", sc.spec.resource.api_version)
    ∷ (("primaza.io/service-kind", sc.spec.resource.kind)
        ∷ (("primaza.io/service-name", name)
            ∷ (("primaza.io/service-namespace", namespace)
                ∷ (("primaza.io/service-uid", uid)
                    ∷ (("primaza.io/cluster-environment", environment) ∷ [])))))

abbrev pub in_namespace_of : String → Option Secret → Option Secret
in_namespace_of namespace none = none
in_namespace_of namespace (some s) =
    some (record s { meta = record (s.meta) { namespace = namespace } })

abbrev pub connection_state : ClusterEnvironmentState → String
connection_state online = "True"
connection_state offline = "False"
connection_state partial = "Unknown"

abbrev pub is_offline : ClusterEnvironmentState → Bool
is_offline online = false
is_offline partial = false
is_offline offline = true

-- A deletion's errors; that the object is not there is none.
abbrev pub errors_of_deletion : Outcome → List Error
errors_of_deletion (ok _) = []
errors_of_deletion (err e) = if is_not_found e then [] else e ∷ []
errors_of_deletion panic = []

module _ {W Config Parsed Resource Value : Type 0} (cli : Cluster W) (platform : Platform W Config)
    (paths : JsonPaths Parsed Resource Value) (resources : Resources Resource) (pod : Pod W Config)
    (strategy : SynchronizationStrategy)
    (set_condition : List Condition → Condition → List Condition) where
  abbrev pub registered_service_of :
      ServiceClass → Resource → String → List ServiceEndpointDefinitionItem → RegisteredService
  registered_service_of sc resource target_namespace items =
      let name = resources.resource_name resource in
      record {
        meta = record (new_meta name target_namespace) {
          annotations =
              service_annotations pod.cluster_environment sc name
                (resources.resource_namespace resource) (resources.resource_uid resource);
        };
        spec = record {
          constraints = some (record { environments = get_class_environment_constraints sc.spec });
          health_check = sc.spec.health_check;
          sla = "";
          service_class_identity = sc.spec.service_class_identity;
          service_endpoint_definition = items;
        };
        status = record { state = pod.new_state };
      }

  -- `PrepareRegisteredService`
  unfoldable pub prepare_registered_service :
      ServiceClass
      → List (SedMapping Parsed Resource)
      → Resource
      → String
      → Action W (RegisteredService × Option Secret)
  prepare_registered_service sc mappings resource target_namespace = do
    (items, secret) ←
        lookup_service_endpoint_descriptor paths cli.secrets mappings
          (resources.resource_name resource)
    pure (
      registered_service_of sc resource target_namespace items,
      in_namespace_of target_namespace secret,
    )

  -- `getTargetClient`
  unfoldable pub get_target_client : SynchronizationStrategy → String → Action W (Config × String)
  get_target_client push namespace = pod.get_primaza_kubeconfig
  get_target_client pull namespace = do cfg ← pod.in_cluster_config; pure (cfg, namespace)

  abbrev pub stored_service : RegisteredService → Result RegisteredService → RegisteredService
  stored_service rs (ok rs') = rs'
  stored_service rs (err e) = rs
  stored_service rs panic = rs

  unfoldable pub write_secret :
      Cluster W → RegisteredService → Option Secret → Action W (List Error)
  write_secret target rs none = pure []
  write_secret target rs (some secret) = do
    let texts = secret.string_data
    r ← attempt (
        target.secrets.create_or_update secret (λ s.
          and_then (pod.set_owner_reference rs.meta s.meta)
            λ owned. ok (record s { meta = owned; string_data = texts })))
    pure (errors_of r)

  -- `updateRegisteredService`; a write that has failed leaves the service as it was sent.
  unfoldable pub update_registered_service :
      Cluster W → RegisteredService → Option Secret → Action W (List Error)
  update_registered_service target rs secret = do
    let spec = rs.spec
    r ←
        attempt
          (target.registered_services.create_or_update rs (λ o. ok (record o { spec = spec })))
    es ← write_secret target (stored_service rs r) secret
    pure (errors_of r ++ es)

  -- `deleteRegisteredService`
  unfoldable pub delete_registered_service :
      Cluster W → RegisteredService → Option Secret → Action W (List Error)
  delete_registered_service target rs secret = do
    r ← attempt (target.registered_services.delete (key_of rs.meta))
    pure (errors_of_deletion r)

  abbrev pub Handle : Type 0
  Handle = Cluster W → RegisteredService → Option Secret → Action W (List Error)

  unfoldable pub handle_prepared :
      Handle → Cluster W → Result (RegisteredService × Option Secret) → Action W (List Error)
  handle_prepared handle target (ok (rs, secret)) = handle target rs secret
  handle_prepared handle target (err e) = pure (e ∷ [])
  handle_prepared handle target panic = crash

  -- The loop of `HandleRegisteredServices`: a mapping that cannot be made ends it.
  unfoldable pub handle_each :
      Handle → Cluster W → ServiceClass → String → List Resource → Action W (List Error)
  handle_each handle target sc target_namespace [] = pure []
  handle_each handle target sc target_namespace (resource ∷ services) = do
    mappings ← lift (service_endpoint_definition_mapping paths cli.secrets resource sc)
    prepared ← attempt (prepare_registered_service sc mappings resource target_namespace)
    es ← handle_prepared handle target prepared
    rest ← handle_each handle target sc target_namespace services
    pure (es ++ rest)

  -- The end of `HandleRegisteredServices`, at a cluster that answers.
  unfoldable pub handle_connected :
      Handle → Config → String → ServiceClass → List Resource → Action W Unit
  handle_connected handle cfg target_namespace sc services = do
    target ← lift (platform.new_client cfg)
    errs ← handle_each handle target sc target_namespace services
    lift (join_all errs)

  abbrev pub with_connection : ConnectionStatus → ServiceClass → ServiceClass
  with_connection status sc = record sc {
    status = record {
      conditions = set_condition sc.status.conditions (record {
        type = "Connection";
        status = connection_state status.state;
        reason = status.reason;
        message = status.message;
        observed_generation = 0;
        last_transition_time = none;
      });
    };
  }

  unfoldable pub handle_target :
      Handle
      → ServiceClass
      → List Resource
      → Result (Config × String)
      → Action W (ServiceClass × Outcome)
  handle_target handle sc services (ok (cfg, target_namespace)) = do
    status ← test_connection_status platform cfg
    let sc' = with_connection status sc
    outcome ← attempt (
        if is_offline status.state
        then raise (message "Failed to connect to cluster")
        else handle_connected handle cfg target_namespace sc' services)
    pure (sc', outcome)
  handle_target handle sc services (err e) = pure (sc, err e)
  handle_target handle sc services panic = crash

  -- `HandleRegisteredServices`, with the class whose condition it sets.
  unfoldable pub handle_registered_services :
      Handle → ServiceClass → List Resource → Action W (ServiceClass × Outcome)
  handle_registered_services handle sc services = do
    target ← attempt (get_target_client strategy sc.meta.namespace)
    handle_target handle sc services target

  -- `CreateOrUpdateRegisteredService`
  unfoldable pub create_or_update_registered_service : Resource → ServiceClass → Action W Unit
  create_or_update_registered_service resource sc = do
    mappings ← lift (service_endpoint_definition_mapping paths cli.secrets resource sc)
    (cfg, target_namespace) ← get_target_client strategy sc.meta.namespace
    target ← lift (platform.new_client cfg)
    (rs, secret) ← prepare_registered_service sc mappings resource target_namespace
    errs ← update_registered_service target rs secret
    lift (join_all errs)

  -- `DeleteRegisteredService`: the key has the name of the class, and no namespace.
  unfoldable pub delete_registered_service_of_class : ServiceClass → Action W Unit
  delete_registered_service_of_class sc = do
    (cfg, _) ← get_target_client strategy sc.meta.namespace
    target ← lift (platform.new_client cfg)
    r ← attempt (target.registered_services.delete (record { namespace = ""; name = sc.meta.name }))
    lift (join_all (errors_of_deletion r))
