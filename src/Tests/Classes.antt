-- ===== src/Tests/Classes.antt =====
-- Service classes and service catalogs on a world in memory.
use primaza.ServiceClasses.{filter_cluster_environments}
use primaza.EnvTag.{matches}
use primaza.ControlPlane.{push_service_class_to_namespaces}
use primaza.Common.Effects.{each}
use primaza.ClusterContext.{create_client}
use primaza.Api.{get_class_environment_constraints}
use primaza.Webhook.{duplicate_name, key_set}
use primaza.Webhook.{is_duplicate_class}
use primaza.Webhook.{immutable_errors}
use primaza.Webhook.{duplicate_loop}
use primaza.ServiceCatalogs.{reconcile_service_catalog_found}
use primaza.ServiceCatalogs.{push_service_catalog}
use primaza.ServiceCatalogs.{push_if_named}
use primaza.ServiceCatalogs.{environments_listed}
use primaza.ControlPlane.{push_service_catalog_to_application_namespaces}
use primaza.ControlPlane.{push_catalog_to_namespace}
use primaza.ClusterContext.{get_cluster_rest_config}
use primaza.Api.{mapping_eq}
use primaza.Api.{key_eq}
use primaza.Webhook.{mapping_loop}
use primaza.Common.{
  ◌≡◌, ◌↔◌, refl, Bool, true, false, none, some, List, [], ◌∷◌, String, string_eq, All, Distinct,
}
use primaza.Common.Errors.{ok}
use primaza.Common.Effects.{◌>>=◌, collect_errors}
use primaza.Cluster.{everywhere, in_namespace}
use primaza.Tests.World.{World, empty_world, cluster, platform, catalog_of, worker, kubeconfig}
use primaza.Api.{
  new_meta, Key, ClusterEnvironment, ServiceClass, ServiceClassResource,
  ServiceClassResourceFieldMapping,
}
use primaza.ServiceClasses.{
  reconcile_environments, push_to_environment, cluster_environment_finalizer,
}
use primaza.ServiceClasses.Laws.{AllReached, reconcile_environments-ok}
use primaza.ServiceCatalogs.{reconcile_service_catalog}
use primaza.ServiceCatalogs.Laws.{AllPushed, reconcile_service_catalog-ok}
use primaza.Webhook.{validate_mapping, validate_create, validate_update}
use primaza.Webhook.Laws.{IsParsed, names_of}
use primaza.Webhook.UpdateLaws.{IsSole, IsUnchanged, validate_update_iff, validate_create_iff}

abbrev host_field : ServiceClassResourceFieldMapping
host_field = record { name = "host"; json_path = ".spec.host"; secret = false }

abbrev port_field : ServiceClassResourceFieldMapping
port_field = record { name = "port"; json_path = ".spec.port"; secret = false }

abbrev resource_of : List ServiceClassResourceFieldMapping → ServiceClassResource
resource_of fields = record {
  api_version = "example.dev/v1";
  kind = "Database";
  service_endpoint_definition_mappings = record {
    resource_fields = fields;
    secret_ref_fields = [];
  };
}

abbrev class_of : String → List ServiceClassResourceFieldMapping → ServiceClass
class_of name fields = record {
  meta = record (new_meta name "primaza") { finalizers = cluster_environment_finalizer ∷ [] };
  spec = record {
    constraints = none;
    health_check = none;
    resource = resource_of fields;
    service_class_identity = [];
  };
  status = record { conditions = [] };
}

abbrev psql : ServiceClass
psql = class_of "psql" (host_field ∷ port_field ∷ [])

abbrev reordered : ServiceClass
reordered = class_of "psql" (port_field ∷ host_field ∷ [])

abbrev class_world : World
class_world = record empty_world { service_classes = psql ∷ [] }

abbrev all_parse : String → Bool
all_parse s = true

no_duplicate : validate_mapping all_parse (resource_of (host_field ∷ port_field ∷ [])) ≡ []
unfolding string_eq validate_mapping mapping_loop
no_duplicate = refl

duplicate_refused :
    validate_mapping all_parse (resource_of (host_field ∷ host_field ∷ []))
    ≡ duplicate_name 1 "host" ∷ []
unfolding string_eq validate_mapping mapping_loop
duplicate_refused = refl

validate_update_iff_example :
    ((validate_update all_parse cluster.service_classes psql reordered class_world).0 ≡ ok []) ↔ (
      IsUnchanged psql.spec.resource reordered.spec.resource
      × All (IsParsed all_parse) (port_field ∷ host_field ∷ [])
      × Distinct (names_of (port_field ∷ host_field ∷ []))
      × All (IsSole reordered) (psql ∷ []))
validate_update_iff_example =
    validate_update_iff all_parse cluster.service_classes psql reordered (psql ∷ []) class_world
      refl

reorder_accepted :
    (validate_update all_parse cluster.service_classes psql reordered class_world).0 ≡ ok []
unfolding string_eq validate_update ◌>>=◌ is_duplicate_class immutable_errors key_set mapping_eq
    validate_mapping mapping_loop duplicate_loop
reorder_accepted = refl

validate_create_iff_example :
    ((validate_create all_parse cluster.service_classes (class_of "other" []) class_world).0
      ≡ ok [])
    ↔ (All (IsSole (class_of "other" [])) (psql ∷ [])
        × All (IsParsed all_parse) []
        × Distinct (names_of []))
validate_create_iff_example =
    validate_create_iff all_parse cluster.service_classes (class_of "other" []) (psql ∷ [])
      class_world refl

abbrev pushed_world : World
pushed_world = record empty_world {
  service_catalogs = catalog_of "prod" [] ∷ [];
  cluster_environments = worker ∷ [];
  secrets = kubeconfig ∷ [];
}

abbrev catalog_key : Key
catalog_key = record { name = "prod"; namespace = "primaza" }

catalog_read : (cluster.service_catalogs.get catalog_key pushed_world).0 ≡ ok (catalog_of "prod" [])
unfolding string_eq key_eq
catalog_read = refl

environments_read :
    (cluster.cluster_environments.list
      (in_namespace "primaza")
      (cluster.service_catalogs.get catalog_key pushed_world).1).0
    ≡ ok (worker ∷ [])
unfolding string_eq key_eq
environments_read = refl

catalog_handled : (reconcile_service_catalog cluster platform catalog_key pushed_world).0 ≡ ok tt
unfolding string_eq reconcile_service_catalog ◌>>=◌ key_eq reconcile_service_catalog_found
    environments_listed collect_errors push_if_named push_service_catalog get_cluster_rest_config
    push_service_catalog_to_application_namespaces push_catalog_to_namespace
catalog_handled = refl

reconcile_service_catalog-ok_example :
    AllPushed cluster platform
      (catalog_of "prod" [])
      (worker ∷ [])
      (cluster.cluster_environments.list
        (in_namespace "primaza")
        (cluster.service_catalogs.get catalog_key pushed_world).1).1
      (reconcile_service_catalog cluster platform catalog_key pushed_world).1
reconcile_service_catalog-ok_example =
    reconcile_service_catalog-ok cluster platform (catalog_of "prod" []) catalog_key (worker ∷ [])
      pushed_world catalog_read environments_read catalog_handled

-- One environment of the name that the class wants, and one of another name.
abbrev wanted_by : ServiceClass
wanted_by = record psql {
  spec = record (psql.spec) { constraints = some (record { environments = "prod" ∷ [] }) };
}

abbrev other_worker : ClusterEnvironment
other_worker = record worker {
  meta = new_meta "other" "primaza";
  spec = record (worker.spec) { environment_name = "dev" };
}

abbrev two_workers : World
two_workers = record empty_world {
  cluster_environments = worker ∷ (other_worker ∷ []);
  secrets = kubeconfig ∷ [];
}

workers_reached : (reconcile_environments cluster platform wanted_by two_workers).0 ≡ ok tt
unfolding reconcile_environments ◌>>=◌ collect_errors filter_cluster_environments matches
    get_class_environment_constraints string_eq push_to_environment create_client key_eq
    push_service_class_to_namespaces each
workers_reached = refl

reconcile_environments-ok_example :
    AllReached cluster platform wanted_by
      (worker ∷ (other_worker ∷ []))
      (cluster.cluster_environments.list everywhere two_workers).1
      (reconcile_environments cluster platform wanted_by two_workers).1
unfolding key_eq string_eq
reconcile_environments-ok_example =
    reconcile_environments-ok cluster platform wanted_by (worker ∷ (other_worker ∷ [])) two_workers
      refl workers_reached
