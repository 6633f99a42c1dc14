-- ===== src/Claims/Status.antt =====
-- serviceclaim_controller.go: the status of a claim, here and in its application namespace.
use primaza.Common.{Bool, not, ◌||◌, String, Option, none, some}
use primaza.Common.{◌==◌, string_eq, if◌then◌else◌}
use primaza.Common.Errors.{Result, ok, err, panic, wrapped}
use primaza.Common.Effects.{Action, pure, raise, crash, attempt, ◌>>=◌, ◌>>◌}
use primaza.Api.{condition_eq, ServiceClaim, ServiceClaimStatus, pending, claim_state_eq}
use primaza.Api.{RegisteredService, RegisteredServiceState, ClusterEnvironment, is_set}
use primaza.Api.{ServiceClaimTarget, ServiceClaimApplicationClusterContext}
use primaza.Cluster.{Cluster, Platform}
use primaza.ClusterContext.{get_cluster_rest_config}

-- The test of `updateRemoteServiceClaimStatusIfNeeded`. It compares the two pointers to the
-- registered service, not what they point to: they are equal only if both are nil. A list of
-- conditions that is nil and one that is empty are the same here; what is read from a server is nil.
unfoldable pub status_differs : ServiceClaimStatus → ServiceClaimStatus → Bool
status_differs remote local =
    (is_set remote.registered_service || is_set local.registered_service)
    || (not (remote.state == local.state) || not (remote.conditions == local.conditions))

abbrev pub with_status_of : ServiceClaim → ServiceClaim → ServiceClaim
with_status_of rsc sclaim = record rsc {
  status = record (rsc.status) {
    registered_service = sclaim.status.registered_service;
    state = sclaim.status.state;
    conditions = sclaim.status.conditions;
  };
}

module _ {W Config : Type 0} (cli : Cluster W) (platform : Platform W Config) where
  -- `changeServiceState`
  unfoldable pub change_service_state : RegisteredService → RegisteredServiceState → Action W Unit
  change_service_state rs state = do
    cli.registered_services.update_status (record rs { status = record { state = state } })
    pure tt

  -- `getEnvironmentFromClusterEnvironment`
  unfoldable pub get_environment_from_cluster_environment :
      String → String → Action W ClusterEnvironment
  get_environment_from_cluster_environment namespace cluster_environment_name =
      cli.cluster_environments.get
        (record { namespace = namespace; name = cluster_environment_name })

  unfoldable pub remote_found : ServiceClaim → Cluster W → Result ServiceClaim → Action W Unit
  remote_found sclaim remote (ok rsc) =
      if status_differs rsc.status sclaim.status
      then (do
        r ← attempt (remote.service_claims.update_status (with_status_of rsc sclaim))
        elim r [
          | ok _ ↦ pure tt
          | err e ↦ raise (wrapped "error updating ServiceClaim from application namespace" e)
          | panic ↦ crash
        ])
      else pure tt
  remote_found sclaim remote (err e) =
      if sclaim.status.state == pending
      then pure tt
      else raise (wrapped "error retrieving ServiceClaim from application namespace" e)
  remote_found sclaim remote panic = crash

  unfoldable pub connected : Result (Cluster W) → Action W (Cluster W)
  connected (ok remote) = pure remote
  connected (err e) = raise (wrapped "error creating client for cluster environment" e)
  connected panic = crash

  unfoldable pub update_remote_context :
      ServiceClaim → Option ServiceClaimApplicationClusterContext → Action W Unit
  update_remote_context sclaim none = pure tt
  update_remote_context sclaim (some acc) = do
    ce ← get_environment_from_cluster_environment sclaim.meta.namespace acc.cluster_environment_name
    cfg ← get_cluster_rest_config cli platform ce.meta.namespace ce.spec.cluster_context_secret
    remote ← connected (platform.new_client cfg)
    found ←
        attempt (
          remote.service_claims.get (record { namespace = acc.namespace; name = sclaim.meta.name }))
    remote_found sclaim remote found

  -- `updateRemoteServiceClaimStatusIfNeeded`; it reads through the pointer `sclaim.Spec.Target`.
  unfoldable pub update_remote_service_claim_status_if_needed :
      ServiceClaim → Option ServiceClaimTarget → Action W Unit
  update_remote_service_claim_status_if_needed sclaim none = crash
  update_remote_service_claim_status_if_needed sclaim (some target) =
      update_remote_context sclaim target.application_cluster_context

  -- `updateServiceClaimStatus`: the claim as the server answered with it.
  unfoldable pub update_service_claim_status : ServiceClaim → Action W ServiceClaim
  update_service_claim_status sclaim = do
    stored ← cli.service_claims.update_status sclaim
    update_remote_service_claim_status_if_needed stored stored.spec.target
    pure stored
