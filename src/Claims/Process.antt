-- ===== src/Claims/Process.antt =====
-- serviceclaim_controller.go: `processServiceClaim` and `processResolvedServiceClaim`.
use primaza.Common.{◌&&◌, String, Option, none, some, List, [], ◌∷◌, length, ltb}
use primaza.Common.{◌==◌, string_eq, if◌then◌else◌}
use primaza.Common.Errors.{Error, ok, err, panic, Outcome, message, ignore_not_found}
use primaza.Common.Effects.{Action, pure, raise, lift, crash, attempt, ◌>>=◌, ◌>>◌}
use primaza.Api.{new_meta, Condition, ServiceClaim, ServiceClaimState, pending, resolved}
use primaza.Api.{Secret, ObjectReference, ServiceClaimTarget, ServiceClaimApplicationClusterContext}
use primaza.Api.{RegisteredService, available, claimed, service_state_eq}
use primaza.Cluster.{Cluster, Platform}
use primaza.Claims.Matching.{fits, overlay, extract_service_endpoint_definition}
use primaza.Claims.Status.{
  change_service_state, get_environment_from_cluster_environment, update_service_claim_status,
}
use primaza.Claims.Push.{push_to_cluster_environments}

-- The loop that looks for a service: the first that is available and fits.
unfoldable pub find_service :
    ServiceClaim → String → List RegisteredService → Option RegisteredService
find_service sclaim env [] = none
find_service sclaim env (rs ∷ rest) =
    let later = find_service sclaim env rest in
    if rs.status.state == available && fits sclaim env rs then some rs else later

abbrev pub new_secret : ServiceClaim → List (String × String) → Secret
new_secret sclaim text = record {
  meta = new_meta sclaim.meta.name sclaim.meta.namespace;
  content = [];
  string_data = text;
}

-- The condition of a claim that no service fits.
abbrev pub not_matched : String → Condition
not_matched text = record {
  type = "Ready";
  status = "False";
  reason = "NoMatchingServiceFound";
  message = text;
  observed_generation = 0;
  last_transition_time = none;
}

abbrev pub reference_to : RegisteredService → ObjectReference
reference_to rs = record { name = rs.meta.name; uid = rs.meta.uid }

abbrev pub refer_to : ServiceClaimState → RegisteredService → ServiceClaim → ServiceClaim
refer_to state rs sclaim = record sclaim {
  status = record (sclaim.status) { state = state; registered_service = some (reference_to rs) };
}

module _ {W Config : Type 0} (cli : Cluster W) (platform : Platform W Config)
    -- `meta.SetStatusCondition`
    (set_status_condition : List Condition → Condition → List Condition) where
  -- The environment's name that constraints are matched against.
  unfoldable pub environment_of :
      ServiceClaim → String → Option ServiceClaimApplicationClusterContext → Action W String
  environment_of sclaim tag none = pure tag
  environment_of sclaim tag (some acc) = do
    ce ←
        get_environment_from_cluster_environment cli platform sclaim.meta.namespace
          acc.cluster_environment_name
    pure ce.spec.environment_name

  unfoldable pub target_environment : ServiceClaim → Option ServiceClaimTarget → Action W String
  target_environment sclaim none = crash
  target_environment sclaim (some target) =
      environment_of sclaim target.environment_tag target.application_cluster_context

  -- The claim goes back to Pending with a condition, and an error is returned.
  unfoldable pub reject : ServiceClaim → String → Action W Unit
  reject sclaim text = do
    update_service_claim_status cli platform (record sclaim {
      status = record (sclaim.status) {
        state = pending;
        conditions = set_status_condition sclaim.status.conditions (not_matched text);
      };
    })
    raise (message text)

  -- The cases of the push's error: after one the service is available again.
  unfoldable pub after_push :
      ServiceClaim → RegisteredService → (Error → Action W Unit) → Outcome → Action W Unit
  after_push sclaim rs failed (ok _) = update_service_claim_status cli platform sclaim >> pure tt
  after_push sclaim rs failed (err e) =
      attempt (change_service_state cli platform rs available) >> failed e
  after_push sclaim rs failed panic = crash

  -- The push behind a claim that is recorded.
  unfoldable pub push_or_release :
      ServiceClaim → RegisteredService → Secret → (Error → Action W Unit) → Action W Unit
  push_or_release sclaim rs secret failed = do
    pushed ← attempt (push_to_cluster_environments cli platform sclaim secret sclaim.spec.target)
    after_push sclaim rs failed pushed

  -- What both handlers do with the chosen service: the claim refers to it, the service is claimed,
  -- the binding and its secret are pushed, and the claim is resolved.
  unfoldable pub bind_service :
      ServiceClaim → RegisteredService → Secret → (Error → Action W Unit) → Action W Unit
  bind_service sclaim rs secret failed = do
    stored ← update_service_claim_status cli platform (refer_to pending rs sclaim)
    change_service_state cli platform rs claimed
    push_or_release (refer_to resolved rs stored) rs secret failed

  -- `processServiceClaim` behind the loop.
  unfoldable pub claim_found : ServiceClaim → Option RegisteredService → Action W Unit
  claim_found sclaim none = reject sclaim "SCI is not matched"
  claim_found sclaim (some rs) = do
    (text, count) ←
        extract_service_endpoint_definition cli sclaim.meta.namespace rs
          sclaim.spec.service_endpoint_definition_keys []
    if ltb count (length sclaim.spec.service_endpoint_definition_keys)
        then reject sclaim "key not available in the list of SEDs"
        else bind_service sclaim rs
            (new_secret sclaim (overlay sclaim.spec.service_class_identity text))
            (λ e. lift (ignore_not_found e))

  -- `processServiceClaim`
  unfoldable pub process_service_claim : List RegisteredService → ServiceClaim → Action W Unit
  process_service_claim rsl sclaim = do
    env ← target_environment sclaim sclaim.spec.target
    claim_found sclaim (find_service sclaim env rsl)

  unfoldable pub resolved_reference : ServiceClaim → Option ObjectReference → Action W Unit
  resolved_reference sclaim none =
      raise (message "service claim's registered service name is not set")
  resolved_reference sclaim (some r) = do
    rs ← cli.registered_services.get (record { namespace = sclaim.meta.namespace; name = r.name })
    (text, count) ←
        extract_service_endpoint_definition cli sclaim.meta.namespace rs
          sclaim.spec.service_endpoint_definition_keys []
    bind_service sclaim rs (new_secret sclaim (overlay sclaim.spec.service_class_identity text))
        (λ e. raise e)

  -- `processResolvedServiceClaim`
  unfoldable pub process_resolved_service_claim : ServiceClaim → Action W Unit
  process_resolved_service_claim sclaim = resolved_reference sclaim sclaim.status.registered_service
