-- ===== src/ServiceCatalogs.antt =====
-- controllers/servicecatalog_controller.go: the handler of service catalogs in the control plane.
pub mod Laws
use primaza.Common.{Bool, true, false, String, List, [], ◌∷◌, ◌++◌, if◌then◌else◌, ◌==◌, string_eq}
use primaza.Common.Errors.{Error, Result, ok, err, panic, is_not_found, ignore_not_found, join_all}
use primaza.Common.Effects.{
  Action, pure, raise, lift, crash, attempt, ◌>>=◌, ◌>>◌, when, collect_errors,
}
use primaza.Api.{Key, ServiceCatalog, ClusterEnvironment}
use primaza.Cluster.{Client, Cluster, Platform, in_namespace}
use primaza.ClusterContext.{get_cluster_rest_config}
use primaza.ControlPlane.{push_service_catalog_to_application_namespaces}

module _ {W Config : Type 0} (cli : Cluster W) (platform : Platform W Config) where
  -- `PushServiceCatalog`
  unfoldable pub push_service_catalog : ServiceCatalog → ClusterEnvironment → Action W Unit
  push_service_catalog sc ce = do
    cfg ← get_cluster_rest_config cli platform ce.meta.namespace ce.spec.cluster_context_secret
    push_service_catalog_to_application_namespaces platform sc ce.spec.application_namespaces cfg

  -- One round of the loop of `Reconcile`.
  unfoldable pub push_if_named : ServiceCatalog → ClusterEnvironment → Action W Unit
  push_if_named sc ce = when (ce.spec.environment_name == sc.meta.name) (push_service_catalog sc ce)

  unfoldable pub environments_listed :
      ServiceCatalog → Result (List ClusterEnvironment) → Action W Unit
  environments_listed sc (ok cel) = do
    errs ← collect_errors (push_if_named sc) cel
    lift (join_all errs)
  environments_listed sc (err e) = lift (ignore_not_found e)
  environments_listed sc panic = crash

  unfoldable pub reconcile_service_catalog_found : Key → Result ServiceCatalog → Action W Unit
  reconcile_service_catalog_found req (ok sc) = do
    listed ← attempt (cli.cluster_environments.list (in_namespace req.namespace))
    environments_listed sc listed
  reconcile_service_catalog_found req (err e) = if is_not_found e then pure tt else raise e
  reconcile_service_catalog_found req panic = crash

  -- `ServiceCatalogReconciler.Reconcile`
  unfoldable pub reconcile_service_catalog : Key → Action W Unit
  reconcile_service_catalog req = do
    found ← attempt (cli.service_catalogs.get req)
    reconcile_service_catalog_found req found
