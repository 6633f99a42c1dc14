-- ===== src/Tests/Environments.antt =====
-- The catalog and the service namespaces of an environment on a world in memory.
use primaza.Environments.{takes_class}
use primaza.Environments.{push_taken}
use primaza.Environments.{created}
use primaza.Environments.{create_service_catalog}
use primaza.Environments.{create_if_missing}
use primaza.Environments.{classes_taken}
use primaza.Environments.{classes_listed}
use primaza.Environments.{class_pushed}
use primaza.EnvTag.{matches}
use primaza.ControlPlane.{push_service_class_to_namespaces}
use primaza.ControlPlane.{push_service_catalog_to_application_namespaces}
use primaza.ControlPlane.{push_class}
use primaza.ControlPlane.{push_catalog_to_namespace}
use primaza.Common.Effects.{◌>>=◌}
use primaza.Common.Effects.{each}
use primaza.Common.Effects.{collect_errors}
use primaza.ClusterContext.{create_client}
use primaza.Api.{key_eq}
use primaza.Api.{get_class_environment_constraints}
use primaza.Common.{◌≡◌, refl, none, some, [], ◌∷◌, string_eq, any}
use primaza.Common.Errors.{ok}
use primaza.Cluster.{in_namespace}
use primaza.Api.{new_meta, ServiceClass, ClusterEnvironment}
use primaza.Environments.{
  new_catalog, reconcile_service_namespaces, reconcile_service_catalog_application_namespaces,
}
use primaza.Environments.Laws.{offers, new_catalog-lists}
use primaza.Environments.ClassLaws.{AllTaken, reconcile_service_namespaces-ok}
use primaza.Registered.Entries.{lists}
use primaza.Slices.{subtract}
use primaza.Tests.World.{World, empty_world, cluster, platform, worker, kubeconfig, database}

new_catalog-lists_example :
    lists (new_catalog worker (database ∷ [])).spec.services "database"
    ≡ any (offers worker.spec.environment_name "database") (database ∷ [])
new_catalog-lists_example = new_catalog-lists worker (database ∷ []) "database"

abbrev prod_class : ServiceClass
prod_class = record {
  meta = new_meta "psql" "primaza";
  spec = record {
    constraints = some (record { environments = "prod" ∷ [] });
    health_check = none;
    resource = record {
      api_version = "example.dev/v1";
      kind = "Database";
      service_endpoint_definition_mappings = record {
        resource_fields = [];
        secret_ref_fields = [];
      };
    };
    service_class_identity = [];
  };
  status = record { conditions = [] };
}

abbrev two_namespaces : ClusterEnvironment
two_namespaces = record worker {
  spec = record (worker.spec) { service_namespaces = "good" ∷ "bad" ∷ [] };
}

abbrev service_world : World
service_world = record empty_world {
  service_classes = prod_class ∷ [];
  registered_services = database ∷ [];
  cluster_environments = two_namespaces ∷ [];
  secrets = kubeconfig ∷ [];
}

classes_read :
    (cluster.service_classes.list (in_namespace "primaza") service_world).0 ≡ ok (prod_class ∷ [])
unfolding string_eq
classes_read = refl

classes_handled :
    (reconcile_service_namespaces cluster platform two_namespaces ("bad" ∷ []) service_world).0
    ≡ ok tt
unfolding string_eq reconcile_service_namespaces ◌>>=◌ classes_listed collect_errors classes_taken
    takes_class matches get_class_environment_constraints push_taken create_client key_eq
    push_service_class_to_namespaces each subtract push_class class_pushed
classes_handled = refl

reconcile_service_namespaces-ok_example :
    AllTaken cluster platform two_namespaces
      (subtract ("good" ∷ "bad" ∷ []) ("bad" ∷ []))
      (prod_class ∷ [])
      (cluster.service_classes.list (in_namespace "primaza") service_world).1
      (reconcile_service_namespaces cluster platform two_namespaces ("bad" ∷ []) service_world).1
reconcile_service_namespaces-ok_example =
    reconcile_service_namespaces-ok cluster platform two_namespaces ("bad" ∷ []) (prod_class ∷ [])
      service_world classes_read classes_handled

-- A missing catalog is created before it is pushed.
catalog_made :
    (reconcile_service_catalog_application_namespaces cluster platform tt worker
      ("apps" ∷ [])
      service_world).0
    ≡ ok tt
unfolding string_eq reconcile_service_catalog_application_namespaces ◌>>=◌ create_if_missing
    create_service_catalog created key_eq push_service_catalog_to_application_namespaces
    collect_errors push_catalog_to_namespace
catalog_made = refl
