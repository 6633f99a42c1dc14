-- ===== src/Tests/Monitoring.antt =====
-- Environments on a world in memory.
use primaza.Environments.Reconciler.{finalize_cluster_environment_in_namespaces}
use primaza.Environments.Reconciler.{finalize_cluster_environment}
use primaza.Environments.Reconciler.{finalize_environment}
use primaza.Environments.Status.{build_permission_condition}
use primaza.Environments.Secrets.{write_connection}
use primaza.Environments.Namespaces.{push_tagged}
use primaza.Environments.Namespaces.{push_in_context}
use primaza.Environments.Namespaces.{push_claim}
use primaza.Environments.{offered_services}
use primaza.Environments.{takes_class}
use primaza.Environments.{created}
use primaza.Environments.{create_service_catalog}
use primaza.Environments.{class_pushed}
use primaza.Environments.{push_taken}
use primaza.ControlPlane.{connection_condition}
use primaza.ControlPlane.{get_primaza_kubeconfig}
use primaza.ControlPlane.{binding_spec}
use primaza.ControlPlane.{mutate_binding}
use primaza.ControlPlane.{owned_secret}
use primaza.ControlPlane.{secret_pushed}
use primaza.ControlPlane.{push_secret}
use primaza.ControlPlane.{read_binding}
use primaza.ControlPlane.{push_service_binding_to_namespace}
use primaza.ControlPlane.{push_loop}
use primaza.ControlPlane.{push_connected}
use primaza.ControlPlane.{push_service_binding}
use primaza.ControlPlane.{push_class}
use primaza.ControlPlane.{push_service_class_to_namespaces}
use primaza.ControlPlane.{unbinder_of}
use primaza.ControlPlane.Naming.{bake_role_binding_name}
use primaza.ControlPlane.Naming.{bake_service_account_name}
use primaza.ControlPlane.Naming.{get_role_binding_name}
use primaza.ClusterContext.{secret_of}
use primaza.ClusterContext.{get_secret}
use primaza.ClusterContext.{get_cluster_rest_config}
use primaza.ClusterContext.{create_client}
use primaza.Authz.Excess.{rule_eq}
use primaza.Authz.Excess.{each_rule}
use primaza.Authz.Excess.{excess_text}
use primaza.Authz.Excess.{excess_of}
use primaza.Authz.Excess.{defined_rules_of}
use primaza.Common.Effects.{raise}
use primaza.Common.Effects.{crash}
use primaza.Common.Effects.{lift}
use primaza.Common.Effects.{attempt}
use primaza.Common.Effects.{when}
use primaza.Common.{list_dec}
use primaza.Common.{has_prefix}
use primaza.Common.{trim_prefix}
use primaza.Common.{decimal}
use primaza.Environments.{reconcile_service_namespaces}
use primaza.ControlPlane.{push_catalog_to_namespace}
use primaza.Environments.{classes_listed}
use primaza.Environments.Namespaces.{reconcile_service_binding_application_namespaces}
use primaza.Environments.Namespaces.{claims_tagged}
use primaza.ControlPlane.{push_service_catalog_to_application_namespaces}
use primaza.Environments.{create_if_missing}
use primaza.Environments.{classes_taken}
use primaza.Environments.{reconcile_service_catalog_application_namespaces}
use primaza.ControlPlane.Naming.{bake_role_bindings_labels}
use primaza.ControlPlane.Naming.{role_bindings_label_selector}
use primaza.Environments.Namespaces.{reconcile_application_namespaces}
use primaza.Environments.Namespaces.{claims_listed}
use primaza.ControlPlane.{push_agent}
use primaza.ControlPlane.{get_orphan_namespaces}
use primaza.ControlPlane.{unbind_orphan_namespaces}
use primaza.ControlPlane.{get_authorized_namespaces}
use primaza.ControlPlane.{agent_config_map}
use primaza.ControlPlane.{agent_deployment}
use primaza.ControlPlane.{create_agent_config_map}
use primaza.ControlPlane.{unbind_namespaces}
use primaza.ControlPlane.{create_role_binding}
use primaza.ControlPlane.{binder_of}
use primaza.ControlPlane.{report}
use primaza.ControlPlane.Naming.{get_agent_role_names}
use primaza.ControlPlane.{create_agent_deployment}
use primaza.ControlPlane.{create_role_bindings}
use primaza.ControlPlane.{unbind_orphan_namespaces_for_type}
use primaza.ControlPlane.{labelled_namespaces}
use primaza.Common.Effects.{collect_errors}
use primaza.Environments.Reconciler.{reconcile_tested}
use primaza.ControlPlane.{bind_namespaces}
use primaza.ControlPlane.{visit_namespaces}
use primaza.ControlPlane.{bind_all_namespaces}
use primaza.Environments.Namespaces.{reconcile_state}
use primaza.Environments.Namespaces.{reconcile_environment_namespaces}
use primaza.Slices.{subtract}
use primaza.ControlPlane.{reconcile_namespaces}
use primaza.ControlPlane.{bind_namespace}
use primaza.Environments.Status.{update_cluster_environment_status}
use primaza.Environments.Status.{test_connection}
use primaza.ControlPlane.{connection_of_version}
use primaza.Authz.Excess.{create_unwanted_permissions_list}
use primaza.ControlPlane.{connection_of_client}
use primaza.Authz.Excess.{create_unwanted_permissions}
use primaza.Authz.Excess.{access_list}
use primaza.Environments.Status.{check_excess_permissions}
use primaza.ControlPlane.{test_connection_status}
use primaza.Environments.Secrets.{config_extracted}
use primaza.ClusterContext.{extract_cluster_rest_config}
use primaza.Environments.Secrets.{extract_cluster_context_rest_config}
use primaza.Environments.Secrets.{ensure_ownership_of_cluster_context_secret}
use primaza.Environments.Reconciler.{reconcile_connected}
use primaza.Environments.Secrets.{context_secret_read}
use primaza.Environments.Secrets.{secret_retrieved}
use primaza.Environments.Secrets.{own_secret}
use primaza.Environments.Secrets.{read_cluster_context_secret}
use primaza.ClusterContext.{get_cluster_context_secret}
use primaza.Environments.Reconciler.{reconcile_environment_found}
use primaza.Environments.Status.{with_partial}
use primaza.Environments.Status.{test_typed_namespaces_permissions}
use primaza.Environments.Status.{test_resource_permissions}
use primaza.Environments.Status.{services_tested}
use primaza.Environments.Status.{applications_tested}
use primaza.Environments.Reconciler.{remove_unused_catalog}
use primaza.Environments.Reconciler.{related_environments}
use primaza.Environments.Reconciler.{live_environments}
use primaza.Environments.Informers.{stop_stale}
use primaza.Environments.Informers.{stale_informers}
use primaza.Common.Effects.{◌>>=◌}
use primaza.Common.Effects.{each}
use primaza.Authz.{to_namespaced_permissions}
use primaza.Authz.{record_access}
use primaza.Authz.{check_resources}
use primaza.Authz.{check_permissions_in_namespace}
use primaza.Authz.{check_permissions}
use primaza.Authz.{check_namespaces}
use primaza.Authz.{check_each}
use primaza.Authz.{check_access}
use primaza.Authz.{all_satisfied}
use primaza.Common.{
  ◌≡◌, refl, ap, true, false, not, ◌&&◌, String, none, some, List, [], ◌∷◌, ◌++◌, any,
}
use primaza.Common.{
  ◌==◌, string_eq, if◌then◌else◌, without, contains, contains_text, Bool-cases, inl, inr,
  eq_of_test, arith,
}
use primaza.Authz.Lists.{get_agent_app_required_permissions, get_agent_svc_required_permissions}
use primaza.Common.Errors.{Error, Result, ok, err, message}
use primaza.Common.Effects.{Action, pure}
use primaza.Api.{Key, key_eq, key_of, Condition, ClusterEnvironment}
use primaza.Cluster.Memory.{look}
use primaza.Cluster.Memory.Frames.{memory_delete_gone}
use primaza.ControlPlane.{Manifests}
use primaza.ServiceClasses.{cluster_environment_finalizer}
use primaza.Authz.{NamespacedPermissionsReport}
use primaza.Environments.Status.{Reviews, Tested, failed_namespaces, test_namespaces_permissions}
use primaza.Environments.Secrets.{retrieve_cluster_context_secret}
use primaza.Environments.Namespaces.{ReconcilerConfig, Clients}
use primaza.Environments.Informers.{EnvironmentInformers, informer_name, stop_informers}
use primaza.Environments.Reconciler.{
  add_environment_finalizer, reconcile_environment,
  remove_service_catalog_on_deleted_cluster_environment,
}
use primaza.Environments.StatusLaws.{tested_environment, test_namespaces_permissions-ok}
use primaza.Environments.InformerLaws.{StopsInformers, stop_informers-all}
use primaza.Environments.ReconcilerLaws.{
  is_live, is_ended, IsTested, reconcile_environment-ok, remove_service_catalog-ok,
}
use primaza.Tests.Binding.{manifests}
use primaza.Tests.World.{
  World, empty_world, cluster, platform, catalog_kind, catalog_of, worker, kubeconfig,
}

abbrev set_condition : List Condition → Condition → List Condition
set_condition l c = l ++ (c ∷ [])

abbrev error_text : Error → String
error_text e = "error"

-- A cluster that allows no deployment.
abbrev reviews : Reviews World (Unit {0})
reviews = record { create_review = λ cfg r. pure false; create_rules_review = λ cfg ns. pure [] }

abbrev set_names : List String
set_names = "apps" ∷ []

test_namespaces_permissions-ok_example :
    (pa : List (String × NamespacedPermissionsReport)) × (ps : List
      (String × NamespacedPermissionsReport))
    × ((test_resource_permissions set_condition platform reviews tt
          ("apps" ∷ [])
          get_agent_app_required_permissions
          empty_world).0
        ≡ ok pa)
    × ((test_resource_permissions set_condition platform reviews tt []
          get_agent_svc_required_permissions
          (test_resource_permissions set_condition platform reviews tt
            ("apps" ∷ [])
            get_agent_app_required_permissions
            empty_world).1).0
        ≡ ok ps)
    × (set_names ≡ failed_namespaces pa)
    × (◌≡◌ {A = List String} [] (failed_namespaces ps))
    × (tested_environment set_condition worker set_names []
        ≡ tested_environment set_condition worker set_names [])
unfolding test_namespaces_permissions ◌>>=◌ test_typed_namespaces_permissions
    test_resource_permissions check_permissions check_namespaces check_permissions_in_namespace
    check_resources check_each to_namespaced_permissions check_access applications_tested
    services_tested with_partial failed_namespaces all_satisfied record_access
test_namespaces_permissions-ok_example =
    test_namespaces_permissions-ok set_condition platform reviews tt worker
      (tested_environment set_condition worker set_names []) set_names [] empty_world refl

-- The names in the map of informers, and the names of those that watch.
abbrev named_informers : EnvironmentInformers (List String × List String) (Unit {0})
named_informers = record {
  running = λ w. w.0;
  set_running = λ l w. (l, w.1);
  start = λ cfg ce ns. pure tt;
  stop = λ name w. (ok tt, (w.0, without name w.1));
  wait_for_cache_sync = pure true;
}

named_stops : StopsInformers named_informers (λ w. w.1)
named_stops = record { set_running = λ l w. (refl, refl); stop = λ name w. (refl, refl) }

abbrev two_informers : List String
two_informers = informer_name "worker" "apps" ∷ (informer_name "other" "apps" ∷ [])

they_are_named :
    (n : String)
    → contains two_informers n ≡ true
    → (ce_name : String) × (namespace : String) × (n ≡ informer_name ce_name namespace)
they_are_named n h = elim (Bool-cases (n == informer_name "worker" "apps")) [
  | inl same ↦ ("worker", "apps", eq_of_test n _ same)
  | inr differ ↦ elim (Bool-cases (n == informer_name "other" "apps")) [
    | inl same ↦ ("other", "apps", eq_of_test n _ same)
    | inr differ' ↦ ground arith
  ]
]

apps_has_no_slash : (n : String) → contains ("apps" ∷ []) n ≡ true → contains_text n "/" ≡ false
apps_has_no_slash n h = elim (Bool-cases (n == "apps")) [
  | inl same ↦ ap (λ s. contains_text s "/") (eq_of_test n "apps" same)
  | inr differ ↦ ground arith
]

stop_informers-all_example :
    ((stop_informers named_informers ("apps" ∷ []) (two_informers, two_informers)).1.0 ≡ [])
    × ((stop_informers named_informers ("apps" ∷ []) (two_informers, two_informers)).1.1 ≡ [])
unfolding stop_informers string_eq ◌>>=◌ each stale_informers stop_stale
stop_informers-all_example =
    stop_informers-all named_informers (λ w. w.1) named_stops ("apps" ∷ [])
      (two_informers, two_informers) they_are_named apps_has_no_slash (λ n q. q) refl

abbrev world_informers : EnvironmentInformers World (Unit {0})
world_informers = record {
  running = λ w. w.running;
  set_running = λ l w. record w { running = l };
  start = λ cfg ce ns. pure tt;
  stop = λ name. pure tt;
  wait_for_cache_sync = pure true;
}

abbrev clients : Clients World (Unit {0})
clients = record { in_cluster_client = pure cluster; clientset = λ cfg. ok cluster }

abbrev no_manifests : Manifests
no_manifests = record {
  deployment = λ text. err (message "none");
  config_map = λ text. err (message "none");
}

abbrev agents : ReconcilerConfig
agents = record {
  app_agent_image = "app";
  svc_agent_image = "svc";
  app_agent_manifest = "";
  svc_agent_manifest = "";
  app_agent_config_manifest = "";
  svc_agent_config_manifest = "";
}

abbrev marked_worker : ClusterEnvironment
marked_worker = record worker {
  meta = record (worker.meta) { finalizers = cluster_environment_finalizer ∷ [] };
}

abbrev environment_world : World
environment_world = record empty_world {
  cluster_environments = marked_worker ∷ [];
  secrets = kubeconfig ∷ [];
  service_catalogs = catalog_of "prod" [] ∷ [];
}

abbrev retrieve : ClusterEnvironment → World → Result (Tested (Unit {0})) × World
retrieve = retrieve_cluster_context_secret cluster platform set_condition error_text

-- A cluster that allows all that an agent asks for.
abbrev granting : Reviews World (Unit {0})
granting = record { create_review = λ cfg r. pure true; create_rules_review = λ cfg ns. pure [] }

abbrev visit_worker : Result (Unit {0}) × World
visit_worker =
    reconcile_environment cluster platform granting manifests clients agents world_informers
      world_informers set_condition error_text (key_of marked_worker.meta) environment_world

worker_is_visited : visit_worker.0 ≡ ok tt
unfolding key_eq live_environments related_environments remove_unused_catalog
    remove_service_catalog_on_deleted_cluster_environment finalize_cluster_environment_in_namespaces
    finalize_cluster_environment finalize_environment add_environment_finalizer reconcile_tested
    reconcile_connected reconcile_environment_found reconcile_environment build_permission_condition
    failed_namespaces update_cluster_environment_status with_partial test_connection
    check_excess_permissions test_resource_permissions test_typed_namespaces_permissions
    services_tested applications_tested test_namespaces_permissions write_connection
    context_secret_read read_cluster_context_secret own_secret
    ensure_ownership_of_cluster_context_secret config_extracted extract_cluster_context_rest_config
    secret_retrieved retrieve_cluster_context_secret claims_tagged push_tagged push_in_context
    push_claim claims_listed reconcile_service_binding_application_namespaces
    reconcile_application_namespaces reconcile_state reconcile_environment_namespaces
    offered_services takes_class classes_taken created create_service_catalog create_if_missing
    reconcile_service_catalog_application_namespaces class_pushed push_taken classes_listed
    reconcile_service_namespaces agent_deployment agent_config_map connection_condition
    connection_of_version connection_of_client test_connection_status create_agent_deployment
    create_agent_config_map push_agent get_primaza_kubeconfig binding_spec mutate_binding
    owned_secret secret_pushed push_secret read_binding push_service_binding_to_namespace push_loop
    push_catalog_to_namespace push_connected push_service_binding
    push_service_catalog_to_application_namespaces push_class push_service_class_to_namespaces
    visit_namespaces report binder_of unbinder_of labelled_namespaces create_role_binding
    create_role_bindings bind_namespace bind_namespaces get_authorized_namespaces
    get_orphan_namespaces unbind_orphan_namespaces_for_type unbind_orphan_namespaces
    bind_all_namespaces reconcile_namespaces get_agent_role_names bake_role_binding_name
    bake_service_account_name get_role_binding_name bake_role_bindings_labels
    role_bindings_label_selector secret_of get_secret extract_cluster_rest_config
    get_cluster_rest_config get_cluster_context_secret create_client rule_eq each_rule excess_text
    excess_of create_unwanted_permissions defined_rules_of create_unwanted_permissions_list
    access_list subtract pure raise crash lift attempt when ◌>>=◌ collect_errors each string_eq
    list_dec has_prefix trim_prefix decimal check_permissions check_namespaces
    check_permissions_in_namespace check_resources check_each to_namespaced_permissions check_access
    all_satisfied record_access unbind_namespaces
worker_is_visited = refl

reconcile_environment-ok_example :
    (ce0 : ClusterEnvironment) × (ce' : ClusterEnvironment) × (cfg : Unit {0})
    × ((add_environment_finalizer cluster platform granting manifests clients agents world_informers
          world_informers set_condition error_text marked_worker environment_world).0
        ≡ ok ce0)
    × ((retrieve ce0
          (add_environment_finalizer cluster platform granting manifests clients agents
            world_informers world_informers set_condition error_text marked_worker
            environment_world).1).0
        ≡ ok (ce', ok cfg))
    × IsTested cluster platform granting manifests clients agents world_informers world_informers
        set_condition error_text cfg ce'
        (retrieve ce0
          (add_environment_finalizer cluster platform granting manifests clients agents
            world_informers world_informers set_condition error_text marked_worker
            environment_world).1).1
unfolding key_eq string_eq
reconcile_environment-ok_example =
    reconcile_environment-ok cluster platform granting manifests clients agents world_informers
      world_informers set_condition error_text (key_of marked_worker.meta) marked_worker
      environment_world refl refl worker_is_visited

gone :
    (k other : Key) (w : World)
    → is_ended (cluster.service_catalogs.delete k w).0 ≡ true
    → look catalog_kind (cluster.service_catalogs.delete k w).1 other
      ≡ (if other == k then none else look catalog_kind w other)
gone k other w h = memory_delete_gone catalog_kind (λ l v. refl) k other w

abbrev remove : ClusterEnvironment → Action World Unit
remove =
    remove_service_catalog_on_deleted_cluster_environment cluster platform reviews no_manifests
      clients agents world_informers world_informers set_condition error_text

-- The last environment of its name, which is being deleted.
abbrev leaving_worker : ClusterEnvironment
leaving_worker = record worker { meta = record (worker.meta) { deletion_timestamp = some "now" } }

abbrev leaving_world : World
leaving_world = record environment_world { cluster_environments = leaving_worker ∷ [] }

abbrev prod_key : Key
prod_key = record { namespace = "primaza"; name = "prod" }

remove_service_catalog-ok_example :
    look catalog_kind (remove leaving_worker leaving_world).1 prod_key ≡ (
      if not (any (is_live "prod") (leaving_worker ∷ [])) && prod_key == prod_key
      then none
      else look catalog_kind leaving_world prod_key)
unfolding remove_service_catalog_on_deleted_cluster_environment string_eq ◌>>=◌ related_environments
    remove_unused_catalog live_environments key_eq
remove_service_catalog-ok_example =
    remove_service_catalog-ok cluster platform reviews no_manifests clients agents world_informers
      world_informers set_condition error_text (look catalog_kind) (λ ns w k. refl) gone
      leaving_worker (leaving_worker ∷ []) leaving_world refl refl prod_key
