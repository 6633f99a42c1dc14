-- ===== src/ServiceClasses.antt =====
-- controllers/serviceclass_controller.go: the handler of service classes in the control plane.
pub mod Laws
use primaza.Common.{Bool, true, false, String, Option, none, some, List, [], ◌∷◌, ◌++◌, without}
use primaza.Common.{Eq, ◌==◌, string_eq, contains, if◌then◌else◌}
use primaza.Common.Errors.{Error, Result, ok, err, panic, ignore_not_found, join_all}
use primaza.Common.Effects.{
  Action, pure, lift, crash, attempt, ◌>>=◌, ◌>>◌, when, collect_errors, errors_of,
}
use primaza.Api.{
  Key, ServiceClass, EnvironmentConstraints, ClusterEnvironment, has_deletion_timestamp,
}
use primaza.Api.{get_class_environment_constraints}
use primaza.Cluster.{Client, Cluster, Platform, everywhere}
use primaza.ClusterContext.{create_client}
use primaza.ControlPlane.{
  push_service_class_to_namespaces, delete_service_class_from_namespaces, wrap,
}
use primaza.EnvTag.{matches}

abbrev pub cluster_environment_finalizer : String
cluster_environment_finalizer = "clusterenvironment.primaza.io/finalizer"

-- `filterClusterEnvironments`
unfoldable pub filter_cluster_environments :
    List String → List ClusterEnvironment → List ClusterEnvironment
filter_cluster_environments constraints [] = []
filter_cluster_environments constraints (ce ∷ rest) =
    let later = filter_cluster_environments constraints rest in
    if matches ce.spec.environment_name constraints then ce ∷ later else later

abbrev pub with_class_finalizers : List String → ServiceClass → ServiceClass
with_class_finalizers l sc = record sc { meta = record (sc.meta) { finalizers = l } }

module _ {W Config : Type 0} (cli : Cluster W) (platform : Platform W Config) where
  -- One round of the loop of `reconcileEnvironments`.
  unfoldable pub push_to_environment : ServiceClass → ClusterEnvironment → Action W Unit
  push_to_environment sc ce = do
    worker ← create_client cli platform ce
    r ← attempt (push_service_class_to_namespaces worker sc ce.spec.service_namespaces)
    lift (wrap "error pushing service class" r)

  -- `reconcileEnvironments`
  unfoldable pub reconcile_environments : ServiceClass → Action W Unit
  reconcile_environments sc = do
    cee ← cli.cluster_environments.list everywhere
    errs ←
        collect_errors (push_to_environment sc)
          (filter_cluster_environments (get_class_environment_constraints sc.spec) cee)
    lift (join_all errs)

  -- `getRelatedClusterEnvironments`
  unfoldable pub get_related_cluster_environments : List String → Action W (List ClusterEnvironment)
  get_related_cluster_environments constraints = do
    cee ← cli.cluster_environments.list everywhere
    pure (filter_cluster_environments constraints cee)

  -- The loop of `removeFromEnvironments`: a client that cannot be made ends it.
  unfoldable pub remove_loop : ServiceClass → List ClusterEnvironment → Action W (List Error)
  remove_loop sc [] = pure []
  remove_loop sc (ce ∷ rest) = do
    worker ← create_client cli platform ce
    r ← attempt (delete_service_class_from_namespaces worker sc ce.spec.service_namespaces)
    es ← remove_loop sc rest
    pure (errors_of (wrap "error deleting service class" r) ++ es)

  unfoldable pub remove_constrained : ServiceClass → Option EnvironmentConstraints → Action W Unit
  remove_constrained sc none = pure tt
  remove_constrained sc (some c) = do
    ff ← get_related_cluster_environments (get_class_environment_constraints sc.spec)
    errs ← remove_loop sc ff
    lift (join_all errs)

  -- `removeFromEnvironments`; `finalize` only calls it.
  unfoldable pub remove_from_environments : ServiceClass → Action W Unit
  remove_from_environments sc = remove_constrained sc sc.spec.constraints

  unfoldable pub finalize_class : ServiceClass → Action W Unit
  finalize_class sc = when (contains sc.meta.finalizers cluster_environment_finalizer) (do
    remove_from_environments sc
    cli.service_classes.update
        (with_class_finalizers (without cluster_environment_finalizer sc.meta.finalizers) sc)
    pure tt)

  unfoldable pub add_class_finalizer : ServiceClass → Action W ServiceClass
  add_class_finalizer sc =
      if contains sc.meta.finalizers cluster_environment_finalizer
      then pure sc
      else cli.service_classes.update
          (with_class_finalizers (sc.meta.finalizers ++ (cluster_environment_finalizer ∷ [])) sc)

  unfoldable pub reconcile_class_found : Result ServiceClass → Action W Unit
  reconcile_class_found (ok sc) =
      if has_deletion_timestamp sc.meta
      then finalize_class sc
      else (do kept ← add_class_finalizer sc; reconcile_environments kept)
  reconcile_class_found (err e) = lift (ignore_not_found e)
  reconcile_class_found panic = crash

  -- `ServiceClassReconciler.Reconcile`
  unfoldable pub reconcile_class : Key → Action W Unit
  reconcile_class req = do
    found ← attempt (cli.service_classes.get req)
    reconcile_class_found found
