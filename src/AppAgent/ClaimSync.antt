-- ===== src/AppAgent/ClaimSync.antt =====
-- serviceclaim_controller.go of the agent: the claims of its namespace, sent to the control plane.
use primaza.Common.{
  Bool, not, ◌&&◌, String, Option, none, some, List, [], ◌∷◌, ◌++◌, without, contains,
}
use primaza.Common.{string_eq, if◌then◌else◌, contains_text}
use primaza.Common.Errors.{Error, Result, ok, err, panic, is_not_found}
use primaza.Common.Effects.{Action, pure, raise, lift, crash, attempt, ◌>>=◌, ◌>>◌}
use primaza.Api.{
  Key, key_of, Condition, ServiceClaim, ServiceClaimSpec, ServiceClaimTarget, invalid, lookup,
  has_deletion_timestamp,
}
use primaza.Cluster.{Cluster, Platform}
use primaza.Cluster.Builtin.{Deployment}
use primaza.ControlPlane.Naming.{primaza_cluster_environment_label}

abbrev pub agent_claim_finalizer : String
agent_claim_finalizer = "serviceclaims.primaza.io/finalizer"

abbrev pub application_agent_deployment_name : String
application_agent_deployment_name = "primaza-app-agent"

abbrev pub with_claim_finalizers : List String → ServiceClaim → ServiceClaim
with_claim_finalizers l sclaim = record sclaim { meta = record (sclaim.meta) { finalizers = l } }

-- A key of Go's map of labels, which may be nil: the empty text where it is missing.
abbrev pub text_of : Option String → String
text_of none = ""
text_of (some text) = text

abbrev pub label_of : String → Option (List (String × String)) → String
label_of k none = ""
label_of k (some labels) = text_of (lookup k labels)

abbrev pub application_target : ServiceClaim → Deployment → ServiceClaimTarget
application_target sclaim deployment = record {
  environment_tag = "";
  application_cluster_context = some (record {
    cluster_environment_name = label_of primaza_cluster_environment_label deployment.labels;
    namespace = sclaim.meta.namespace;
  });
}

-- `createServiceClaimCopy`
unfoldable pub create_service_claim_copy : ServiceClaim → Deployment → String → ServiceClaim
create_service_claim_copy sclaim deployment remote_namespace = record sclaim {
  meta = record (sclaim.meta) { namespace = remote_namespace };
  spec = record (sclaim.spec) { target = some (application_target sclaim deployment) };
}

-- What the call sets in the control plane's claim.
abbrev pub set_claim_spec : ServiceClaimSpec → ServiceClaim → Result ServiceClaim
set_claim_spec spec remote_claim = ok (record remote_claim { spec = spec })

abbrev pub claim_denied : String → Condition
claim_denied text = record {
  type = "Ready";
  status = "False";
  reason = "ValidationError";
  message = text;
  observed_generation = 0;
  last_transition_time = none;
}

abbrev pub is_denial : String → Bool
is_denial text = contains_text text "admission webhook \"vserviceclaim.kb.io\" denied the request"

-- The agent's deployment; without it the process exits.
unfoldable pub agent_found : {W : Type 0} → Result Deployment → Action W Deployment
agent_found (ok d) = pure d
agent_found (err e) = if is_not_found e then crash else raise e
agent_found panic = crash

module _ {W : Type 0} (cli : Cluster W) where
  unfoldable pub ensure_claim_finalizer : ServiceClaim → Action W ServiceClaim
  ensure_claim_finalizer sclaim =
      if contains sclaim.meta.finalizers agent_claim_finalizer
      then pure sclaim
      else cli.service_claims.update
          (with_claim_finalizers (sclaim.meta.finalizers ++ (agent_claim_finalizer ∷ [])) sclaim)

  -- `deleteExternalResources`, and the finalizer.
  unfoldable pub withdraw_claim : Cluster W → String → ServiceClaim → Deployment → Action W Unit
  withdraw_claim remote remote_namespace sclaim deployment =
      if contains sclaim.meta.finalizers agent_claim_finalizer
      then (do
        remote.service_claims.delete
            (key_of (create_service_claim_copy sclaim deployment remote_namespace).meta)
        cli.service_claims.update
            (with_claim_finalizers (without agent_claim_finalizer sclaim.meta.finalizers) sclaim)
        pure tt)
      else pure tt

module _ {W : Type 0} (cli : Cluster W)
    (set_condition : List Condition → Condition → List Condition)
    (error_text : Error → String) where
  unfoldable pub mark_invalid : ServiceClaim → String → Action W Unit
  mark_invalid sclaim text = do
    cli.service_claims.update_status (record sclaim {
      status = record (sclaim.status) {
        state = invalid;
        conditions = set_condition sclaim.status.conditions (claim_denied text);
      };
    })
    pure tt

  -- The outcome of the write to the control plane: a denial of its webhook is recorded.
  unfoldable pub claim_written : ServiceClaim → Result ServiceClaim → Action W Unit
  claim_written sclaim (ok written) = pure tt
  claim_written sclaim (err e) =
      if is_denial (error_text e) then mark_invalid sclaim (error_text e) else raise e
  claim_written sclaim panic = crash

  unfoldable pub send_claim : Cluster W → String → ServiceClaim → Deployment → Action W Unit
  send_claim remote remote_namespace found deployment = do
    sclaim ← ensure_claim_finalizer cli found
    let copy = create_service_claim_copy sclaim deployment remote_namespace
    written ← attempt (remote.service_claims.create_or_update copy (set_claim_spec copy.spec))
    claim_written sclaim written

module _ {W Config : Type 0} (cli : Cluster W) (platform : Platform W Config)
    -- `get_primaza_kubeconfig` of ControlPlane, at the files of the agent's pod.
    (get_primaza_kubeconfig : Action W (Config × String))
    (set_condition : List Condition → Condition → List Condition)
    (error_text : Error → String) where
  unfoldable pub reconcile_agent_claim_found : Key → Result ServiceClaim → Action W Unit
  reconcile_agent_claim_found req (ok sclaim) = do
    (config, remote_namespace) ← get_primaza_kubeconfig
    remote ← lift (platform.new_client config)
    found ← attempt (
        cli.deployments.get
          (record { namespace = req.namespace; name = application_agent_deployment_name }))
    deployment ← agent_found found
    if not (has_deletion_timestamp sclaim.meta) && not (has_deletion_timestamp deployment.meta)
        then send_claim cli set_condition error_text remote remote_namespace sclaim deployment
        else withdraw_claim cli remote remote_namespace sclaim deployment
  reconcile_agent_claim_found req (err e) = if is_not_found e then pure tt else raise e
  reconcile_agent_claim_found req panic = crash

  -- `ServiceClaimReconciler.Reconcile` of the agent
  unfoldable pub reconcile_agent_claim : Key → Action W Unit
  reconcile_agent_claim req = do
    found ← attempt (cli.service_claims.get req)
    reconcile_agent_claim_found req found
