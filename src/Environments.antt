-- ===== src/Environments.antt =====
-- controllers/clusterenvironment_controller.go: the catalog of an environment, and the classes that
-- are pushed to its service namespaces.
pub mod Status
pub mod Secrets
pub mod Namespaces
pub mod Informers
pub mod Events
pub mod Reconciler
pub mod Monitor
pub mod StatusLaws
pub mod InformerLaws
pub mod ReconcilerLaws
pub mod Laws
pub mod ClassLaws
use primaza.Common.{Bool, true, false, ◌&&◌, ◌||◌, String, Option, none, some, List, [], ◌∷◌, map}
use primaza.Common.{◌==◌, string_eq, if◌then◌else◌}
use primaza.Common.Errors.{
  Result, ok, err, panic, is_not_found, is_already_exists, ignore_not_found, join_all,
}
use primaza.Common.Effects.{Action, pure, raise, lift, crash, attempt, ◌>>=◌, ◌>>◌, collect_errors}
use primaza.Api.{
  RegisteredService, ServiceCatalog, ServiceCatalogService, ServiceClass, ClusterEnvironment,
}
use primaza.Api.{available, service_state_eq, new_meta, get_class_environment_constraints}
use primaza.Api.{RegisteredServiceConstraints, EnvironmentConstraints}
use primaza.Cluster.{Cluster, Platform, in_namespace}
use primaza.ClusterContext.{create_client}
use primaza.ControlPlane.{
  push_service_catalog_to_application_namespaces, push_service_class_to_namespaces, wrap,
}
use primaza.EnvTag.{matches}
use primaza.Slices.{subtract}

abbrev pub allows_environment : Option RegisteredServiceConstraints → String → Bool
allows_environment none env = true
allows_environment (some c) env = matches env c.environments

abbrev pub offered_service : RegisteredService → ServiceCatalogService
offered_service rs = record {
  name = rs.meta.name;
  service_class_identity = rs.spec.service_class_identity;
  service_endpoint_definition_keys = map (λ item. item.name) rs.spec.service_endpoint_definition;
}

-- The loop of `CreateServiceCatalog`.
unfoldable pub offered_services : String → List RegisteredService → List ServiceCatalogService
offered_services env [] = []
offered_services env (rs ∷ rest) =
    let later = offered_services env rest in
    if rs.status.state == available && allows_environment rs.spec.constraints env
    then offered_service rs ∷ later
    else later

abbrev pub new_catalog : ClusterEnvironment → List RegisteredService → ServiceCatalog
new_catalog ce rsl = record {
  meta = new_meta ce.spec.environment_name ce.meta.namespace;
  spec = record {
    services = offered_services ce.spec.environment_name rsl;
    claimed_by_labels = [];
  };
}

abbrev is_constrained : Option EnvironmentConstraints → Bool
is_constrained none = false
is_constrained (some c) = true

-- The test of the first loop of `reconcileServiceNamespaces`.
unfoldable pub takes_class : ClusterEnvironment → ServiceClass → Bool
takes_class ce sc =
    is_constrained sc.spec.constraints
    && matches ce.spec.environment_name (get_class_environment_constraints sc.spec)

unfoldable pub classes_taken : ClusterEnvironment → List ServiceClass → List ServiceClass
classes_taken ce [] = []
classes_taken ce (sc ∷ rest) =
    let later = classes_taken ce rest in if takes_class ce sc then sc ∷ later else later

module _ {W Config : Type 0} (cli : Cluster W) (platform : Platform W Config) where
  unfoldable pub created : Result ServiceCatalog → Action W Unit
  created (ok sc) = pure tt
  created (err e) = if is_already_exists e then pure tt else raise e
  created panic = crash

  -- `CreateServiceCatalog`
  unfoldable pub create_service_catalog : ClusterEnvironment → Action W Unit
  create_service_catalog ce = do
    rsl ← cli.registered_services.list (in_namespace ce.meta.namespace)
    r ← attempt (cli.service_catalogs.create (new_catalog ce rsl))
    created r

  -- The first read of `reconcileServiceCatalogApplicationNamespaces`: another error than not-found
  -- is passed over.
  unfoldable pub create_if_missing : ClusterEnvironment → Result ServiceCatalog → Action W Unit
  create_if_missing ce (ok sc) = pure tt
  create_if_missing ce (err e) = if is_not_found e then create_service_catalog ce else pure tt
  create_if_missing ce panic = crash

  -- `reconcileServiceCatalogApplicationNamespaces`
  unfoldable pub reconcile_service_catalog_application_namespaces :
      Config → ClusterEnvironment → List String → Action W Unit
  reconcile_service_catalog_application_namespaces cfg ce application_namespaces = do
    found ← attempt (
        cli.service_catalogs.get
          (record { namespace = ce.meta.namespace; name = ce.spec.environment_name }))
    create_if_missing ce found
    sc ←
        cli.service_catalogs.get
          (record { namespace = ce.meta.namespace; name = ce.spec.environment_name })
    push_service_catalog_to_application_namespaces platform sc application_namespaces cfg

  unfoldable pub class_pushed : Result (Unit {0}) → Action W Unit
  class_pushed (ok _) = pure tt
  class_pushed (err e) =
      if is_already_exists e then pure tt else lift (wrap "error pushing service class" (err e))
  class_pushed panic = crash

  -- One round of the second loop of `reconcileServiceNamespaces`.
  unfoldable pub push_taken : ClusterEnvironment → List String → ServiceClass → Action W Unit
  push_taken ce service_namespaces sc = do
    worker ← create_client cli platform ce
    r ← attempt (push_service_class_to_namespaces worker sc service_namespaces)
    class_pushed r

  unfoldable pub classes_listed :
      ClusterEnvironment → List String → Result (List ServiceClass) → Action W Unit
  classes_listed ce failed (ok l) = do
    errs ←
        collect_errors (push_taken ce (subtract ce.spec.service_namespaces failed))
          (classes_taken ce l)
    lift (join_all errs)
  classes_listed ce failed (err e) = lift (ignore_not_found e)
  classes_listed ce failed panic = crash

  -- `reconcileServiceNamespaces`
  unfoldable pub reconcile_service_namespaces : ClusterEnvironment → List String → Action W Unit
  reconcile_service_namespaces ce failed_service_namespaces = do
    listed ← attempt (cli.service_classes.list (in_namespace ce.meta.namespace))
    classes_listed ce failed_service_namespaces listed
