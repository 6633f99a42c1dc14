-- ===== src/Claims/Push.antt =====
-- serviceclaim_controller.go: bindings pushed to, and deleted from, the cluster environments.
use primaza.Common.{String, Option, none, some, List, [], ◌∷◌, ◌++◌}
use primaza.Common.{◌==◌, string_eq, if◌then◌else◌}
use primaza.Common.Errors.{Error, Result, ok, err, panic, ignore_not_found, join_all}
use primaza.Common.Effects.{Action, pure, lift, crash, attempt, ◌>>=◌, errors_of}
use primaza.Api.{
  ServiceClaim, Secret, ClusterEnvironment, ServiceClaimTarget,
  ServiceClaimApplicationClusterContext,
}
use primaza.Cluster.{Cluster, Platform, everywhere}
use primaza.ClusterContext.{get_cluster_rest_config, create_client}
use primaza.ControlPlane.{push_service_binding, delete_service_binding_and_secret_from_namespaces}
use primaza.Claims.Status.{get_environment_from_cluster_environment}

module _ {W Config : Type 0} (cli : Cluster W) (platform : Platform W Config) where
  -- The loop over the cluster environments: a cluster context that cannot be read ends it, and so
  -- for the environments that do not match; an error of a push is collected.
  unfoldable pub push_environments :
      ServiceClaim → Secret → String → List ClusterEnvironment → Action W (List Error)
  push_environments sclaim secret tag [] = pure []
  push_environments sclaim secret tag (ce ∷ rest) = do
    cfg ← get_cluster_rest_config cli platform ce.meta.namespace ce.spec.cluster_context_secret
    if ce.spec.environment_name == tag
        then (do
          p ← push_service_binding platform sclaim secret none ce.spec.application_namespaces cfg
          es ← push_environments sclaim p.secret tag rest
          pure (errors_of p.outcome ++ es))
        else push_environments sclaim secret tag rest

  unfoldable pub push_listed :
      ServiceClaim → Secret → String → Result (List ClusterEnvironment) → Action W Unit
  push_listed sclaim secret tag (ok cel) = do
    errs ← push_environments sclaim secret tag cel
    lift (join_all errs)
  push_listed sclaim secret tag (err e) = lift (ignore_not_found e)
  push_listed sclaim secret tag panic = crash

  unfoldable pub push_target :
      ServiceClaim → Secret → String → Option ServiceClaimApplicationClusterContext → Action W Unit
  push_target sclaim secret tag (some acc) = do
    ce ←
        get_environment_from_cluster_environment cli platform sclaim.meta.namespace
          acc.cluster_environment_name
    cfg ← get_cluster_rest_config cli platform ce.meta.namespace ce.spec.cluster_context_secret
    p ←
        push_service_binding platform sclaim secret (some acc.namespace)
          ce.spec.application_namespaces cfg
    lift p.outcome
  push_target sclaim secret tag none = do
    listed ← attempt (cli.cluster_environments.list everywhere)
    push_listed sclaim secret tag listed

  -- `pushToClusterEnvironments`
  unfoldable pub push_to_cluster_environments :
      ServiceClaim → Secret → Option ServiceClaimTarget → Action W Unit
  push_to_cluster_environments sclaim secret none = crash
  push_to_cluster_environments sclaim secret (some target) =
      push_target sclaim secret target.environment_tag target.application_cluster_context

  unfoldable pub delete_environments :
      ServiceClaim → String → List ClusterEnvironment → Action W (List Error)
  delete_environments sclaim tag [] = pure []
  delete_environments sclaim tag (ce ∷ rest) = do
    worker ← create_client cli platform ce
    if ce.spec.environment_name == tag
        then (do
          r ← attempt (
              delete_service_binding_and_secret_from_namespaces worker sclaim
                ce.spec.application_namespaces)
          es ← delete_environments sclaim tag rest
          pure (errors_of r ++ es))
        else delete_environments sclaim tag rest

  unfoldable pub delete_listed :
      ServiceClaim → String → Result (List ClusterEnvironment) → Action W Unit
  delete_listed sclaim tag (ok cel) = do
    errs ← delete_environments sclaim tag cel
    lift (join_all errs)
  delete_listed sclaim tag (err e) = lift (ignore_not_found e)
  delete_listed sclaim tag panic = crash

  unfoldable pub delete_target :
      ServiceClaim → String → Option ServiceClaimApplicationClusterContext → Action W Unit
  delete_target sclaim tag (some acc) = do
    ce ←
        get_environment_from_cluster_environment cli platform sclaim.meta.namespace
          acc.cluster_environment_name
    worker ← create_client cli platform ce
    delete_service_binding_and_secret_from_namespaces worker sclaim (acc.namespace ∷ [])
  delete_target sclaim tag none = do
    listed ← attempt (cli.cluster_environments.list everywhere)
    delete_listed sclaim tag listed

  -- `DeleteServiceBindingsAndSecret`
  unfoldable pub delete_service_bindings_and_secret :
      ServiceClaim → Option ServiceClaimTarget → Action W Unit
  delete_service_bindings_and_secret sclaim none = crash
  delete_service_bindings_and_secret sclaim (some target) =
      delete_target sclaim target.environment_tag target.application_cluster_context
