-- ===== src/Environments/Reconciler.antt =====
-- controllers/clusterenvironment_controller.go: `Reconcile` and the health monitor.
use primaza.Common.{Bool, true, false, not, ◌&&◌, String, List, [], ◌∷◌, ◌++◌, without, contains}
use primaza.Common.{◌==◌, string_eq, if◌then◌else◌}
use primaza.Common.Errors.{
  Error, Result, ok, err, panic, Outcome, is_not_found, ignore_not_found, join,
}
use primaza.Common.Effects.{Action, pure, raise, lift, crash, attempt, ◌>>=◌, ◌>>◌, when}
use primaza.Api.{
  Key, Condition, ClusterEnvironment, SynchronizationStrategy, pull, push, has_deletion_timestamp,
}
use primaza.Cluster.{Cluster, Platform, in_namespace}
use primaza.ControlPlane.{Manifests}
use primaza.ServiceClasses.{cluster_environment_finalizer}
use primaza.Environments.{reconcile_service_namespaces}
use primaza.Environments.Status.{
  Reviews, test_connection, check_excess_permissions, test_namespaces_permissions,
}
use primaza.Environments.Secrets.{retrieve_cluster_context_secret}
use primaza.Environments.Namespaces.{
  ReconcilerConfig, Clients, requested_state, reconcile_state, reconcile_environment_namespaces,
  reconcile_application_namespaces,
}
use primaza.Environments.Informers.{EnvironmentInformers, run_informers}

-- `filterClusterEnvironments`
unfoldable pub live_environments : String → List ClusterEnvironment → List ClusterEnvironment
live_environments name [] = []
live_environments name (ce ∷ rest) =
    let later = live_environments name rest in
    if ce.spec.environment_name == name && not (has_deletion_timestamp ce.meta)
    then ce ∷ later
    else later

abbrev pub with_environment_finalizers : List String → ClusterEnvironment → ClusterEnvironment
with_environment_finalizers l ce = record ce { meta = record (ce.meta) { finalizers = l } }

-- A not-found error of a deletion is passed over.
abbrev pub deletion_ended : {W : Type 0} → Outcome → Action W (Unit {0})
deletion_ended (ok _) = pure tt
deletion_ended (err e) = if is_not_found e then pure tt else raise e
deletion_ended panic = crash

-- `client.IgnoreNotFound` of the error of the finalizer.
abbrev pub finalizer_ended : Outcome → Outcome
finalizer_ended (ok _) = ok tt
finalizer_ended (err e) = ignore_not_found e
finalizer_ended panic = panic

abbrev pub is_pull : SynchronizationStrategy → Bool
is_pull pull = true
is_pull push = false

module _ {W Config : Type 0} (cli : Cluster W) (platform : Platform W Config)
    (reviews : Reviews W Config) (manifests : Manifests) (clients : Clients W Config)
    (config : ReconcilerConfig) (svc app : EnvironmentInformers W Config)
    (set_condition : List Condition → Condition → List Condition)
    (error_text : Error → String) where
  -- `getRelatedClusterEnvironments`
  unfoldable pub related_environments : String → String → Action W (List ClusterEnvironment)
  related_environments namespace name = do
    cee ← cli.cluster_environments.list (in_namespace namespace)
    pure (live_environments name cee)

  unfoldable pub remove_unused_catalog :
      ClusterEnvironment → List ClusterEnvironment → Action W Unit
  remove_unused_catalog ce [] = do
    r ← attempt (
        cli.service_catalogs.delete
          (record { namespace = ce.meta.namespace; name = ce.spec.environment_name }))
    deletion_ended r
  remove_unused_catalog ce (other ∷ ff) = pure tt

  -- `removeServiceCatalogOnDeletedClusterEnvironment`
  unfoldable pub remove_service_catalog_on_deleted_cluster_environment :
      ClusterEnvironment → Action W Unit
  remove_service_catalog_on_deleted_cluster_environment ce = do
    ff ← related_environments ce.meta.namespace ce.spec.environment_name
    remove_unused_catalog ce ff

  -- `finalizeClusterEnvironmentInNamespaces`; the environment that it changes is dropped with the
  -- error.
  unfoldable pub finalize_cluster_environment_in_namespaces :
      ClusterEnvironment → Action W (ClusterEnvironment × Outcome)
  finalize_cluster_environment_in_namespaces ce = do
    (ce', kcfg) ← retrieve_cluster_context_secret cli platform set_condition error_text ce
    r ← attempt (do
      cfg ← lift kcfg
      reconcile_state cli platform manifests clients cfg (requested_state config ce' [] []))
    pure (ce', r)

  -- `finalizeClusterEnvironment`
  unfoldable pub finalize_cluster_environment :
      ClusterEnvironment → Action W (ClusterEnvironment × Outcome)
  finalize_cluster_environment ce = do
    (ce', errnamespace) ← finalize_cluster_environment_in_namespaces ce
    errcatalog ← attempt (remove_service_catalog_on_deleted_cluster_environment ce')
    pure (ce', join errnamespace errcatalog)

  -- The deletion in `Reconcile`.
  unfoldable pub finalize_environment : ClusterEnvironment → Action W Unit
  finalize_environment ce = when (contains ce.meta.finalizers cluster_environment_finalizer) (do
    (ce', outcome) ← finalize_cluster_environment ce
    lift (finalizer_ended outcome)
    cli.cluster_environments.update (
        with_environment_finalizers (without cluster_environment_finalizer ce'.meta.finalizers) ce')
    pure tt)

  -- The finalizer is added where it is missing, and the environment is written.
  unfoldable pub add_environment_finalizer : ClusterEnvironment → Action W ClusterEnvironment
  add_environment_finalizer ce =
      if contains ce.meta.finalizers cluster_environment_finalizer
      then pure ce
      else cli.cluster_environments.update (
          with_environment_finalizers (ce.meta.finalizers ++ (cluster_environment_finalizer ∷ []))
            ce)

  -- From the tests on, with the namespaces that failed.
  unfoldable pub reconcile_tested :
      Config → ClusterEnvironment → List String → List String → Action W Unit
  reconcile_tested cfg ce fann fsnn = do
    ce1 ← cli.cluster_environments.update_status ce
    errns ←
        attempt
          (reconcile_environment_namespaces cli platform manifests clients config cfg ce1 fann fsnn)
    errsns ← attempt (reconcile_service_namespaces cli platform ce1 fsnn)
    errans ← attempt (reconcile_application_namespaces cli platform manifests clients cfg ce1 fann)
    lift (join errns (join errsns errans))
    ce2 ← cli.cluster_environments.update_status ce1
    when (is_pull ce2.spec.synchronization_strategy) (run_informers svc app cfg ce2 fsnn fann)
    cli.cluster_environments.update_status ce2
    pure tt

  -- The tests: an error of the connection, or of the test of permissions, ends the visit.
  unfoldable pub reconcile_connected : Config → ClusterEnvironment → Action W Unit
  reconcile_connected cfg ce = do
    (ce1, connected) ← test_connection set_condition platform reviews cfg ce
    lift connected
    (ce2, _) ← check_excess_permissions set_condition platform reviews cfg ce1
    (ce3, tested) ← test_namespaces_permissions set_condition platform reviews cfg ce2
    (fann, fsnn) ← lift tested
    reconcile_tested cfg ce3 fann fsnn

  unfoldable pub reconcile_environment_found : Result ClusterEnvironment → Action W Unit
  reconcile_environment_found (ok ce) =
      if has_deletion_timestamp ce.meta then finalize_environment ce else (do
        ce0 ← add_environment_finalizer ce
        (ce', kcfg) ← retrieve_cluster_context_secret cli platform set_condition error_text ce0
        cfg ← lift kcfg
        reconcile_connected cfg ce')
  reconcile_environment_found (err e) = lift (ignore_not_found e)
  reconcile_environment_found panic = crash

  -- `ClusterEnvironmentReconciler.Reconcile`
  unfoldable pub reconcile_environment : Key → Action W Unit
  reconcile_environment req = do
    found ← attempt (cli.cluster_environments.get req)
    reconcile_environment_found found
