-- ===== src/Tests/Claiming.antt =====
-- The handler of claims on a world in memory.
use primaza.Claims.{delete_environments}
use primaza.Claims.{listed_or_none}
use primaza.Claims.{find_released}
use primaza.Common.Effects.{attempt}
use primaza.Claims.{release}
use primaza.Claims.{get_environment_from_cluster_environment}
use primaza.Common.Effects.{collect_errors}
use primaza.Claims.{delete_listed}
use primaza.Claims.{delete_target}
use primaza.Common.Effects.{pure}
use primaza.Common.Effects.{crash}
use primaza.ControlPlane.{delete_service_binding_and_secret_from_namespaces}
use primaza.ControlPlane.{delete_binding}
use primaza.Common.Effects.{lift}
use primaza.ClusterContext.{create_client}
use primaza.ControlPlane.{deleted}
use primaza.Common.Effects.{raise}
use primaza.Claims.{
  environment_of, claim_found, subset_loop, count_loop, extract_service_endpoint_definition,
  extract_loop, extract_item, overlay, after_push, bind_service, push_or_release, push_environments,
  push_listed, push_target, push_to_cluster_environments, change_service_state, connected,
  remote_found, update_remote_context, update_remote_service_claim_status_if_needed,
  update_service_claim_status, resolved_reference,
}
use primaza.Api.{service_state_eq, item_eq, claim_state_eq, condition_eq, key_eq}
use primaza.ControlPlane.{
  binding_spec, mutate_binding, owned_secret, push_connected, push_loop, push_secret,
  push_service_binding, push_service_binding_to_namespace, read_binding, secret_pushed,
}
use primaza.EnvTag.{matches, match_loop, match_constraint}
use primaza.Common.{has_prefix, trim_prefix}
use primaza.ClusterContext.{
  get_cluster_rest_config, get_secret, secret_of, extract_cluster_rest_config,
}
use primaza.Common.Effects.{◌>>=◌}
use primaza.Common.{
  ◌≡◌, ◌↔◌, ◌≤◌, refl, true, false, none, some, List, [], ◌∷◌, String, string_eq, any,
}
use primaza.Common.Errors.{ok, is_not_found}
use primaza.Tests.World.{World, empty_world, cluster, platform, database, worker, kubeconfig}
use primaza.Api.{
  new_meta, Condition, ServiceClaim, pending, resolved, ServiceClassIdentityItem, ObjectReference,
}
use primaza.Api.{ServiceClaimTarget, RegisteredService, Secret}
use primaza.Claims.{
  check_sci_subset, find_service, process_claim_marked_for_deletion,
  delete_service_bindings_and_secret, status_differs, fits, process_service_claim,
  process_resolved_service_claim, target_environment, refer_to,
}
use primaza.Claims.Subset.{occurrences, check_sci_subset_iff}
use primaza.Cluster.{in_namespace}
use primaza.Claims.Choice.{
  suits, IsFirst, first_of, find_service_lem, IsReleased, process_claim_marked_for_deletion-ok,
}
use primaza.Claims.Binding.{Ends, Binds, Pushes}
use primaza.Claims.Processed.{process_service_claim-ok, process_resolved_service_claim-ok}

abbrev identity : List ServiceClassIdentityItem
identity = record { name = "type"; value = "psql" } ∷ []

abbrev to_prod : ServiceClaimTarget
to_prod = record { environment_tag = "prod"; application_cluster_context = none }

abbrev claim : ServiceClaim
claim = record {
  meta = record (new_meta "orders" "primaza") { uid = "c1" };
  spec = record {
    service_class_identity = identity;
    service_endpoint_definition_keys = "host" ∷ [];
    application = record {
      api_version = "apps/v1";
      kind = "Deployment";
      name = "orders";
      selector = none;
    };
    target = some to_prod;
    envs = [];
  };
  status = record { state = pending; claim_id = "id"; registered_service = none; conditions = [] };
}

abbrev resolved_claim : ServiceClaim
resolved_claim = record claim {
  status = record (claim.status) {
    state = resolved;
    registered_service = some (record { name = "database"; uid = "u1" });
  };
}

abbrev claim_world : World
claim_world = record empty_world {
  registered_services = database ∷ [];
  service_claims = claim ∷ [];
  cluster_environments = worker ∷ [];
  secrets = kubeconfig ∷ [];
}

-- `meta.SetStatusCondition` of a list without the condition.
abbrev set_condition : List Condition → Condition → List Condition
set_condition l c = c ∷ l

check_sci_subset_iff_example :
    (check_sci_subset identity database.spec.service_class_identity ≡ true) ↔ (
      (item : ServiceClassIdentityItem)
      → occurrences item identity ≤ occurrences item database.spec.service_class_identity)
check_sci_subset_iff_example = check_sci_subset_iff identity database.spec.service_class_identity

find_service_lem_example :
    (find_service claim "prod" (database ∷ []) ≡ none
      → any (suits claim "prod") (database ∷ []) ≡ false)
    × ((rs : RegisteredService)
        → find_service claim "prod" (database ∷ []) ≡ some rs
        → IsFirst (suits claim "prod") rs (database ∷ []))
find_service_lem_example = find_service_lem claim "prod" (database ∷ [])

deletion_done :
    (process_claim_marked_for_deletion cluster platform set_condition
      (record { namespace = "primaza"; name = "orders" })
      claim
      claim_world).0
    ≡ ok tt
unfolding delete_service_bindings_and_secret secret_of delete_environments has_prefix listed_or_none
    process_claim_marked_for_deletion find_released subset_loop get_cluster_rest_config attempt
    release match_constraint get_environment_from_cluster_environment collect_errors
    check_sci_subset delete_listed ◌>>=◌ delete_target matches count_loop pure crash
    delete_service_binding_and_secret_from_namespaces delete_binding get_secret lift create_client
    extract_cluster_rest_config trim_prefix item_eq deleted raise key_eq change_service_state
    match_loop string_eq
deletion_done = refl

process_claim_marked_for_deletion-ok_example :
    ((delete_service_bindings_and_secret cluster platform claim claim.spec.target
        (cluster.registered_services.list (in_namespace "primaza") claim_world).1).0
      ≡ ok tt)
    × IsReleased cluster platform set_condition
        (first_of (fits claim "prod") (database ∷ []))
        (delete_service_bindings_and_secret cluster platform claim claim.spec.target
          (cluster.registered_services.list (in_namespace "primaza") claim_world).1).1
        (process_claim_marked_for_deletion cluster platform set_condition
          (record { namespace = "primaza"; name = "orders" })
          claim
          claim_world).1
unfolding string_eq
process_claim_marked_for_deletion-ok_example =
    process_claim_marked_for_deletion-ok cluster platform set_condition
      (record { namespace = "primaza"; name = "orders" }) claim to_prod (database ∷ []) claim_world
      refl refl deletion_done

processed :
    (process_service_claim cluster platform set_condition (database ∷ []) claim claim_world).0
    ≡ ok tt
unfolding process_service_claim process_resolved_service_claim target_environment find_service fits
    check_sci_subset status_differs string_eq ◌>>=◌ environment_of claim_found subset_loop
    count_loop extract_service_endpoint_definition extract_loop extract_item overlay after_push
    bind_service push_or_release push_environments push_listed push_target
    push_to_cluster_environments change_service_state connected remote_found update_remote_context
    update_remote_service_claim_status_if_needed update_service_claim_status resolved_reference
    service_state_eq item_eq claim_state_eq condition_eq key_eq binding_spec mutate_binding
    owned_secret push_connected push_loop push_secret push_service_binding
    push_service_binding_to_namespace read_binding secret_pushed matches match_loop match_constraint
    has_prefix trim_prefix get_cluster_rest_config get_secret secret_of extract_cluster_rest_config
processed = refl

process_service_claim-ok_example :
    (env : String) × ((target_environment cluster platform set_condition claim claim.spec.target
        claim_world).0
      ≡ ok env)
    × (rs : RegisteredService) × (find_service claim env (database ∷ []) ≡ some rs)
    × Ends cluster platform
        (λ e. is_not_found e ≡ true)
        claim
        rs
        (process_service_claim cluster platform set_condition (database ∷ []) claim claim_world).1
process_service_claim-ok_example =
    process_service_claim-ok cluster platform set_condition (database ∷ []) claim claim_world
      processed

processed_again :
    (process_resolved_service_claim cluster platform set_condition resolved_claim claim_world).0
    ≡ ok tt
unfolding process_service_claim process_resolved_service_claim target_environment find_service fits
    check_sci_subset status_differs string_eq ◌>>=◌ environment_of claim_found subset_loop
    count_loop extract_service_endpoint_definition extract_loop extract_item overlay after_push
    bind_service push_or_release push_environments push_listed push_target
    push_to_cluster_environments change_service_state connected remote_found update_remote_context
    update_remote_service_claim_status_if_needed update_service_claim_status resolved_reference
    service_state_eq item_eq claim_state_eq condition_eq key_eq binding_spec mutate_binding
    owned_secret push_connected push_loop push_secret push_service_binding
    push_service_binding_to_namespace read_binding secret_pushed matches match_loop match_constraint
    has_prefix trim_prefix get_cluster_rest_config get_secret secret_of extract_cluster_rest_config
processed_again = refl

process_resolved_service_claim-ok_example :
    (r : ObjectReference) × (resolved_claim.status.registered_service ≡ some r)
    × (rs : RegisteredService) × ((cluster.registered_services.get
          (record { namespace = "primaza"; name = r.name })
          claim_world).0
        ≡ ok rs)
    × (secret : Secret) × (v : World) × (b : Binds cluster platform resolved_claim rs secret v)
    × Pushes cluster platform
        (refer_to resolved rs b.stored)
        secret
        b.claimed_at
        (process_resolved_service_claim cluster platform set_condition resolved_claim claim_world).1
process_resolved_service_claim-ok_example =
    process_resolved_service_claim-ok cluster platform set_condition resolved_claim claim_world
      processed_again
