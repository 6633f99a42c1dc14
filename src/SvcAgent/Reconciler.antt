-- ===== src/SvcAgent/Reconciler.antt =====
-- serviceclass_controller.go: `Reconcile` of service classes in the agent, and its informers.
use primaza.Common.{Bool, true, false, not, ◌&&◌, String, List, [], ◌∷◌, ◌++◌, without, contains}
use primaza.Common.{string_eq, if◌then◌else◌}
use primaza.Common.Errors.{Result, ok, err, panic, Outcome, message, is_not_found, join_all}
use primaza.Common.Effects.{Action, pure, raise, lift, crash, attempt, ◌>>=◌, ◌>>◌, when, errors_of}
use primaza.Api.{Key, Condition, ServiceClass, SynchronizationStrategy, has_deletion_timestamp}
use primaza.Cluster.{Cluster, Platform}
use primaza.Cluster.Builtin.{Deployment}
use primaza.Sed.{JsonPaths}
use primaza.SvcAgent.Registration.{
  Resources, Pod, update_registered_service, delete_registered_service, handle_registered_services,
  create_or_update_registered_service, delete_registered_service_of_class,
}

abbrev pub service_class_finalizer : String
service_class_finalizer = "serviceclasses.primaza.io/finalizer"

abbrev pub service_agent_deployment_name : String
service_agent_deployment_name = "primaza-svc-agent"

-- client-go's informers and dynamic client, and the reconciler's map of informers, by its keys.
-- `start` makes an informer with its handlers, and panics where the cluster's configuration is missing.
pub record ClassInformers (W Kind Resource : Type 0) : Type 0 where
  pub rest_mapping : String → String → Result Kind
  pub list_resources : Kind → String → Action W (List Resource)
  pub running : W → List String
  pub set_running : List String → W → W
  pub start : Kind → ServiceClass → Action W (Unit {0})
  pub stop : String → Action W (Unit {0})
  pub wait_for_cache_sync : Action W Bool

abbrev pub with_finalizers_of_class : List String → ServiceClass → ServiceClass
with_finalizers_of_class l sc = record sc { meta = record (sc.meta) { finalizers = l } }

-- An error is dropped, a panic is not.
abbrev pub ended_event : {W A : Type 0} → Result A → Action W (Unit {0})
ended_event (ok a) = pure tt
ended_event (err e) = pure tt
ended_event panic = crash

module _ {W Config Parsed Resource Value Kind : Type 0} (cli : Cluster W)
    (platform : Platform W Config) (paths : JsonPaths Parsed Resource Value)
    (resources : Resources Resource) (pod : Pod W Config) (strategy : SynchronizationStrategy)
    (set_condition : List Condition → Condition → List Condition)
    (informers : ClassInformers W Kind Resource) where
  abbrev pub class_informers : Action W (List String)
  class_informers w = (ok (informers.running w), w)

  abbrev pub store_class_informers : List String → Action W (Unit {0})
  store_class_informers l w = (ok tt, informers.set_running l w)

  unfoldable pub class_informer_synced : String → Bool → Action W Unit
  class_informer_synced name true = pure tt
  class_informer_synced name false = do
    informers.stop name
    known ← class_informers
    store_class_informers (without name known)
    raise (message "could not sync cache")

  -- `RunInformer`
  unfoldable pub run_class_informer : Kind → ServiceClass → Action W Unit
  run_class_informer kind sc = do
    known ← class_informers
    when (not (contains known sc.meta.name)) (do
      informers.start kind sc
      now ← class_informers
      store_class_informers (sc.meta.name ∷ now)
      synced ← informers.wait_for_cache_sync
      class_informer_synced sc.meta.name synced)

  -- `SetWatchersForResources`
  unfoldable pub set_watchers_for_resources : ServiceClass → Action W Unit
  set_watchers_for_resources sc = do
    kind ← lift (informers.rest_mapping sc.spec.resource.kind sc.spec.resource.api_version)
    run_class_informer kind sc

  -- `GetResources`
  unfoldable pub get_resources : ServiceClass → Action W (List Resource)
  get_resources sc = do
    kind ← lift (informers.rest_mapping sc.spec.resource.kind sc.spec.resource.api_version)
    informers.list_resources kind sc.meta.namespace

  -- `setOwnerReference`
  unfoldable pub set_class_owner_reference : ServiceClass → Deployment → Action W ServiceClass
  set_class_owner_reference sc owner = do
    owned ← lift (platform.set_controller_reference owner.meta sc.meta)
    cli.service_classes.update (record sc { meta = owned })

  unfoldable pub stop_class_informer : String → Action W Unit
  stop_class_informer name = do
    known ← class_informers
    when (contains known name) (do informers.stop name; store_class_informers (without name known))

  -- The status write that ends a visit, with the errors before it.
  unfoldable pub write_class_status : ServiceClass → Outcome → Action W Unit
  write_class_status sc outcome = do
    r ← attempt (cli.service_classes.update_status sc)
    lift (join_all (errors_of outcome ++ errors_of r))

  unfoldable pub ensure_class_finalizer : ServiceClass → Action W ServiceClass
  ensure_class_finalizer sc =
      if contains sc.meta.finalizers service_class_finalizer
      then pure sc
      else cli.service_classes.update
          (with_finalizers_of_class (sc.meta.finalizers ++ (service_class_finalizer ∷ [])) sc)

  unfoldable pub register_resources : ServiceClass → List Resource → Action W Unit
  register_resources sc services = do
    sc1 ← ensure_class_finalizer sc
    (sc2, outcome) ←
        handle_registered_services cli platform paths resources pod strategy set_condition
          (update_registered_service cli platform paths resources pod strategy set_condition) sc1
          services
    write_class_status sc2 outcome

  -- The deletion: the finalizer is taken off whatever the outcome is.
  unfoldable pub unregister_resources : ServiceClass → List Resource → Action W Unit
  unregister_resources sc services = do
    stop_class_informer sc.meta.name
    (sc1, outcome) ←
        handle_registered_services cli platform paths resources pod strategy set_condition
          (delete_registered_service cli platform paths resources pod strategy set_condition) sc
          services
    sc2 ←
        cli.service_classes.update
          (with_finalizers_of_class (without service_class_finalizer sc1.meta.finalizers) sc1)
    write_class_status sc2 outcome

  unfoldable pub reconcile_resources : ServiceClass → Deployment → List Resource → Action W Unit
  reconcile_resources sc controller services =
      if not (has_deletion_timestamp sc.meta) && not (has_deletion_timestamp controller.meta)
      then register_resources sc services
      else (if contains sc.meta.finalizers service_class_finalizer
          then unregister_resources sc services
          else pure tt)

  -- The agent's deployment; without it the process exits.
  unfoldable pub controller_found : Result Deployment → Action W Deployment
  controller_found (ok d) = pure d
  controller_found (err e) = if is_not_found e then crash else raise e
  controller_found panic = crash

  unfoldable pub reconcile_agent_class_found : Result ServiceClass → Action W Unit
  reconcile_agent_class_found (ok sc) = do
    found ← attempt (
        cli.deployments.get
          (record { namespace = sc.meta.namespace; name = service_agent_deployment_name }))
    controller ← controller_found found
    sc1 ← set_class_owner_reference sc controller
    set_watchers_for_resources sc1
    services ← get_resources sc1
    reconcile_resources sc1 controller services
  reconcile_agent_class_found (err e) = if is_not_found e then pure tt else raise e
  reconcile_agent_class_found panic = crash

  -- `ServiceClassReconciler.Reconcile` of the agent
  unfoldable pub reconcile_agent_class : Key → Action W Unit
  reconcile_agent_class req = do
    found ← attempt (cli.service_classes.get req)
    reconcile_agent_class_found found

  -- The handlers of a resource that is added or changed, and of one that is deleted.
  unfoldable pub resource_applied : Bool → ServiceClass → Resource → Action W Unit
  resource_applied synced sc resource = when synced (do
    r ← attempt (
        create_or_update_registered_service cli platform paths resources pod strategy set_condition
          resource sc)
    ended_event r)

  unfoldable pub resource_deleted : Bool → ServiceClass → Resource → Action W Unit
  resource_deleted synced sc resource = when synced (do
    r ← attempt (
        delete_registered_service_of_class cli platform paths resources pod strategy set_condition
          sc)
    ended_event r)
