-- ===== src/Environments/Events.antt =====
-- controllers/clusterenvironment_controller_svcinformers.go and _appinformers.go: what the control plane
-- does when a registered service or a claim changes in a namespace of an environment. An error ends the
-- handler and is written to the log only.
use primaza.Common.{Bool, false, not, ◌&&◌, String, ◌<>◌, Option, none, some, []}
use primaza.Common.{◌==◌, string_eq}
use primaza.Common.Errors.{Result, ok, err, panic}
use primaza.Common.Effects.{Action, pure, crash, attempt, ◌>>=◌, ◌>>◌, when}
use primaza.Api.{
  new_meta, RegisteredService, RegisteredServiceState, ServiceClaim, ServiceClaimStatus,
  ServiceClaimTarget,
}
use primaza.Cluster.{Cluster, Platform}
use primaza.ClusterContext.{create_client}

-- An error is logged and dropped; a panic is not.
abbrev pub dropped : {W A : Type 0} → Result A → Action W (Unit {0})
dropped (ok a) = pure tt
dropped (err e) = pure tt
dropped panic = crash

abbrev pub is_tagged : Option ServiceClaimTarget → Bool
is_tagged none = false
is_tagged (some t) = not (t.environment_tag == "")

abbrev pub context_target : String → String → ServiceClaimTarget
context_target ce_name namespace = record {
  environment_tag = "";
  application_cluster_context =
      some (record { cluster_environment_name = ce_name; namespace = namespace });
}

-- What is set in the control plane's claim.
abbrev pub with_context : String → String → ServiceClaim → ServiceClaim → Result ServiceClaim
with_context ce_name namespace sc csc =
    ok (record csc { spec = record (sc.spec) { target = some (context_target ce_name namespace) } })

abbrev pub mirrored_service : RegisteredService → RegisteredService → Result RegisteredService
mirrored_service rs curs = ok (record curs {
  meta = record (curs.meta) { annotations = rs.meta.annotations; labels = rs.meta.labels };
  spec = rs.spec;
})

-- The status of a claim, and of a service, that is new.
module _ {W Config : Type 0} (cli : Cluster W) (platform : Platform W Config)
    (new_claim_status : ServiceClaimStatus) (new_service_state : RegisteredServiceState)
    (ce_name ce_namespace : String) where
  unfoldable pub mirror_claim : String → ServiceClaim → Action W Unit
  mirror_claim namespace sc = do
    cli.service_claims.create_or_update
        (record {
          meta = new_meta sc.meta.name ce_namespace;
          spec = record {
            service_class_identity = [];
            service_endpoint_definition_keys = [];
            application = record { api_version = ""; kind = ""; name = ""; selector = none };
            target = none;
            envs = [];
          };
          status = new_claim_status;
        })
        (with_context ce_name namespace sc)
    pure tt

  -- The handler of an added claim.
  unfoldable pub claim_added : Bool → String → ServiceClaim → Action W Unit
  claim_added synced namespace sc =
      when (synced && not (is_tagged sc.spec.target))
        (do r ← attempt (mirror_claim namespace sc); dropped r)

  -- The handler of a deleted claim.
  unfoldable pub claim_deleted : Bool → ServiceClaim → Action W Unit
  claim_deleted synced sc = when synced (do
    r ←
        attempt
          (cli.service_claims.delete (record { namespace = ce_namespace; name = sc.meta.name }))
    dropped r)

  -- `bakeClient`
  unfoldable pub bake_client : Action W (Cluster W)
  bake_client = do
    ce ← cli.cluster_environments.get (record { namespace = ce_namespace; name = ce_name })
    create_client cli platform ce

  abbrev pub descriptor_name : RegisteredService → String
  descriptor_name rs = rs.meta.name <> "-descriptor"

  unfoldable pub mirror_service : RegisteredService → Action W Unit
  mirror_service rs = do
    cli.registered_services.create_or_update
        (record {
          meta = new_meta rs.meta.name ce_namespace;
          spec = record {
            constraints = none;
            health_check = none;
            sla = "";
            service_class_identity = [];
            service_endpoint_definition = [];
          };
          status = record { state = new_service_state };
        })
        (mirrored_service rs)
    worker ← bake_client
    s ← worker.secrets.get (record { namespace = rs.meta.namespace; name = descriptor_name rs })
    let content = s.content
    cli.secrets.create_or_update
        (record { meta = new_meta s.meta.name ce_namespace; content = []; string_data = [] })
        (λ cs. ok (record cs { content = content }))
    pure tt

  -- `createUpdate`, in the handlers of an added and of a changed service.
  unfoldable pub service_applied : Bool → RegisteredService → Action W Unit
  service_applied synced rs = when synced (do r ← attempt (mirror_service rs); dropped r)

  unfoldable pub remove_mirrored : RegisteredService → Action W Unit
  remove_mirrored rs = do
    cli.registered_services.delete (record { namespace = ce_namespace; name = rs.meta.name })
    cli.secrets.delete (record { namespace = ce_namespace; name = descriptor_name rs })

  -- The handler of a deleted service.
  unfoldable pub service_deleted : Bool → RegisteredService → Action W Unit
  service_deleted synced rs = when synced (do r ← attempt (remove_mirrored rs); dropped r)
