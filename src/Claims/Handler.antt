-- ===== src/Claims/Handler.antt =====
-- serviceclaim_controller.go: deletion of a claim, `Reconcile`, and the watch on services.
use primaza.Common.{not, String, Option, none, some, List, [], ◌∷◌, ◌++◌, without}
use primaza.Common.{◌==◌, string_eq, contains, if◌then◌else◌}
use primaza.Common.Errors.{Error, Result, ok, err, panic, ignore_not_found, join_all}
use primaza.Common.Effects.{Action, pure, lift, crash, attempt, ◌>>=◌, ◌>>◌, errors_of, when}
use primaza.Api.{Key, Condition, ServiceClaim, pending, resolved, claim_state_eq}
use primaza.Api.{has_deletion_timestamp, ServiceClaimTarget, key_of}
use primaza.Api.{RegisteredService, available, claimed, service_state_eq}
use primaza.Cluster.{Cluster, Platform, in_namespace, everywhere}
use primaza.Claims.Matching.{check_sci_subset, allows}
use primaza.Claims.Status.{change_service_state}
use primaza.Claims.Push.{delete_service_bindings_and_secret}
use primaza.Claims.Process.{process_service_claim, process_resolved_service_claim}

abbrev pub service_claim_finalizer : String
service_claim_finalizer = "serviceclaims.primaza.io/finalizer"

abbrev pub target_tag : Option ServiceClaimTarget → Result String
target_tag none = panic
target_tag (some target) = ok target.environment_tag

-- The loop of `processClaimMarkedForDeletion`: the first service whose identity and constraints
-- fit, in whatever state it is. `sclaim.Spec.Target` is read only for a service with constraints.
unfoldable pub find_released :
    ServiceClaim → List RegisteredService → Result (Option RegisteredService)
find_released sclaim [] = ok none
find_released sclaim (rs ∷ rest) =
    let later = find_released sclaim rest in
    if check_sci_subset sclaim.spec.service_class_identity rs.spec.service_class_identity
    then elim rs.spec.constraints [
      | none ↦ ok (some rs)
      | some c ↦ elim (target_tag sclaim.spec.target) [
        | ok tag ↦ if allows tag (some c) then ok (some rs) else later
        | err e ↦ err e
        | panic ↦ panic
      ]
    ]
    else later

abbrev pub with_finalizers : List String → ServiceClaim → ServiceClaim
with_finalizers l sclaim = record sclaim { meta = record (sclaim.meta) { finalizers = l } }

-- `reconcileOnRegisteredServiceUpdate` behind its list: the first resolved claim of the service.
unfoldable pub claim_to_reconcile : RegisteredService → List ServiceClaim → List Key
claim_to_reconcile rs [] = []
claim_to_reconcile rs (sc ∷ rest) =
    let later = claim_to_reconcile rs rest in
    if sc.status.state == resolved
    then elim sc.status.registered_service [
      | none ↦ later
      | some r ↦ if r.uid == rs.meta.uid then key_of sc.meta ∷ [] else later
    ]
    else later

module _ {W Config : Type 0} (cli : Cluster W) (platform : Platform W Config)
    (set_status_condition : List Condition → Condition → List Condition) where
  unfoldable pub listed_or_none :
      Result (List RegisteredService) → Action W (List RegisteredService × List Error)
  listed_or_none (ok items) = pure (items, [])
  listed_or_none (err e) = pure ([], errors_of (ignore_not_found e))
  listed_or_none panic = crash

  unfoldable pub release : Option RegisteredService → Action W (List Error)
  release none = pure []
  release (some rs) = do
    r ← attempt (change_service_state cli platform rs available)
    pure (errors_of r)

  -- `processClaimMarkedForDeletion`
  unfoldable pub process_claim_marked_for_deletion : Key → ServiceClaim → Action W Unit
  process_claim_marked_for_deletion req sclaim = do
    listed ← attempt (cli.registered_services.list (in_namespace req.namespace))
    (items, first) ← listed_or_none listed
    found ← lift (find_released sclaim items)
    deleted ← attempt (delete_service_bindings_and_secret cli platform sclaim sclaim.spec.target)
    last ← release found
    lift (join_all (first ++ (errors_of deleted ++ last)))

  -- `processClaim`
  unfoldable pub process_claim : Key → ServiceClaim → Action W Unit
  process_claim req sclaim = do
    listed ← attempt (cli.registered_services.list (in_namespace req.namespace))
    elim listed [
      | ok rsl ↦ process_service_claim cli platform set_status_condition rsl sclaim
      | err e ↦ lift (ignore_not_found e)
      | panic ↦ crash
    ]

  -- `ensureServiceClaimIsInitialized`: the claim as the caller has it afterwards.
  unfoldable pub ensure_service_claim_is_initialized : ServiceClaim → Action W ServiceClaim
  ensure_service_claim_is_initialized sc = if not (sc.status.claim_id == "") then pure sc else (do
    id ← platform.new_uuid
    cli.service_claims.update_status
        (record sc { status = record (sc.status) { claim_id = id; state = pending } }))

  unfoldable pub process_by_state : Key → ServiceClaim → Action W Unit
  process_by_state req sclaim =
      if sclaim.status.state == resolved
      then process_resolved_service_claim cli platform set_status_condition sclaim
      else process_claim req sclaim

  unfoldable pub finalize_claim : Key → ServiceClaim → Action W Unit
  finalize_claim req sclaim = when (contains sclaim.meta.finalizers service_claim_finalizer) (do
    process_claim_marked_for_deletion req sclaim
    cli.service_claims.update
        (with_finalizers (without service_claim_finalizer sclaim.meta.finalizers) sclaim)
    pure tt)

  -- `controllerutil.AddFinalizer` and the update that it asks for.
  unfoldable pub add_claim_finalizer : ServiceClaim → Action W ServiceClaim
  add_claim_finalizer sclaim =
      if contains sclaim.meta.finalizers service_claim_finalizer
      then pure sclaim
      else cli.service_claims.update
          (with_finalizers (sclaim.meta.finalizers ++ (service_claim_finalizer ∷ [])) sclaim)

  unfoldable pub reconcile_claim_found : Key → Result ServiceClaim → Action W Unit
  reconcile_claim_found req (ok sclaim) =
      if has_deletion_timestamp sclaim.meta then finalize_claim req sclaim else (do
        kept ← add_claim_finalizer sclaim
        initialized ← ensure_service_claim_is_initialized kept
        process_by_state req initialized)
  reconcile_claim_found req (err e) = lift (ignore_not_found e)
  reconcile_claim_found req panic = crash

  -- `ServiceClaimReconciler.Reconcile`
  unfoldable pub reconcile_claim : Key → Action W Unit
  reconcile_claim req = do
    found ← attempt (cli.service_claims.get req)
    reconcile_claim_found req found

  -- `reconcileOnRegisteredServiceUpdate`: the claims that a changed service makes the handler visit.
  unfoldable pub claims_to_reconcile : RegisteredService → Action W (List Key)
  claims_to_reconcile rs =
      if rs.status.state == claimed
      then (do
        listed ← attempt (cli.service_claims.list everywhere)
        elim listed [
          | ok claims ↦ pure (claim_to_reconcile rs claims)
          | err _ ↦ pure []
          | panic ↦ crash
        ])
      else pure []
