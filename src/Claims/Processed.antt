-- ===== src/Claims/Processed.antt =====
-- serviceclaim_controller.go: what has happened when a claim is processed without an error.
use primaza.Common.{
  ◌≡◌, ◌≢◌, refl, sym, ◌∙◌, ap, inl, inr, Bool, true, false, String, Option, none, some, List,
}
use primaza.Common.{arith, if◌then◌else◌}
use primaza.Common.Errors.{Error, ok, is_not_found, ignore_not_found}
use primaza.Common.Effects.{Action, >>=-eq-ok, raise, lift}
use primaza.Api.{Condition, ServiceClaim, RegisteredService, Secret, ObjectReference, resolved}
use primaza.Cluster.{Cluster, Platform}
use primaza.Claims.Process.{
  find_service, refer_to, target_environment, reject, bind_service, claim_found,
  process_service_claim, process_resolved_service_claim, resolved_reference,
}
use primaza.Claims.Binding.{Pushes, Binds, Ends, push_or_release-ok, bind_service-ok}

module _ {W Config : Type 0} (cli : Cluster W) (platform : Platform W Config)
    (set_status_condition : List Condition → Condition → List Condition) where
  reject-fails :
      (sclaim : ServiceClaim) (text : String) (w : W)
      → (reject cli platform set_status_condition sclaim text w).0 ≢ ok tt
  unfolding reject raise
  reject-fails sclaim text w h = let (_, _, rest, _) = >>=-eq-ok _ _ w h in cc

  ignore_not_found-ok : (e : Error) → ignore_not_found e ≡ ok tt → is_not_found e ≡ true
  ignore_not_found-ok e h = ground arith

  raise-fails : (e : Error) (w : W) → (raise {A = Unit {0}} e w).0 ≢ ok tt
  unfolding raise
  raise-fails e w h = cc

  bind_service-Ends :
      (Passes : Error → Type 0) (failed : Error → Action W Unit)
      → ((e : Error) (u : W) → (failed e u).0 ≡ ok tt → Passes e × ((failed e u).1 ≡ u))
      → (sclaim : ServiceClaim) (rs : RegisteredService) (secret : Secret) (v : W)
      → (bind_service cli platform set_status_condition sclaim rs secret failed v).0 ≡ ok tt
      → Ends cli platform Passes sclaim rs
          (bind_service cli platform set_status_condition sclaim rs secret failed v).1
  bind_service-Ends Passes failed passes sclaim rs secret v h =
      let (b, same) =
        bind_service-ok cli platform set_status_condition sclaim rs secret failed v h in
      let pushed = sym (ap (λ p. p.0) same) ∙ h in
      (
        secret,
        v,
        b,
        elim (push_or_release-ok cli platform set_status_condition (refer_to resolved rs b.stored)
            rs secret failed b.claimed_at pushed) [
              | inl through ↦ inl (rw same through)
              | inr (e, u, released, over) ↦
                  let (pass, stays) = passes e u (sym (ap (λ p. p.0) over) ∙ pushed) in
                  inr (
                    e,
                    pass,
                    (released.0, rw same (ap (λ p. p.1) over ∙ stays ∙ released.1), released.2),
                  )
            ],
      )

  unless_rejected :
      (few_keys : Bool) (text : String) (sclaim : ServiceClaim) (rs : RegisteredService)
      (secret : Secret) (v : W)
      → ((if few_keys
            then reject cli platform set_status_condition sclaim text
            else bind_service cli platform set_status_condition sclaim rs secret
                (λ e. lift (ignore_not_found e)))
          v).0
        ≡ ok tt
      → Ends cli platform
          (λ e. is_not_found e ≡ true)
          sclaim
          rs
          ((if few_keys
              then reject cli platform set_status_condition sclaim text
              else bind_service cli platform set_status_condition sclaim rs secret
                  (λ e. lift (ignore_not_found e)))
            v).1
  unfolding lift
  unless_rejected true text sclaim rs secret v h = absurd (reject-fails sclaim text v h)
  unless_rejected false text sclaim rs secret v h =
      bind_service-Ends _ _ (λ e u o. (ignore_not_found-ok e o, refl)) sclaim rs secret v h

  claim_found-ok :
      (sclaim : ServiceClaim) (found : Option RegisteredService) (w : W)
      → (claim_found cli platform set_status_condition sclaim found w).0 ≡ ok tt
      → (rs : RegisteredService) × (found ≡ some rs)
        × Ends cli platform
            (λ e. is_not_found e ≡ true)
            sclaim
            rs
            (claim_found cli platform set_status_condition sclaim found w).1
  unfolding claim_found
  claim_found-ok sclaim none w h = absurd (reject-fails sclaim _ w h)
  claim_found-ok sclaim (some rs) w h =
      let ((text, count), _, rest, same) = >>=-eq-ok _ _ w h in
      (rs, refl, rw same (unless_rejected _ _ _ _ _ _ rest))

  -- A claim is processed without an error only if a service was found for its environment, the
  -- claim was made to refer to it as pending, and then the service was claimed and the binding was
  -- pushed. Either the claim is recorded as resolved behind the push, or the push failed with
  -- not-found and the last call sets the service available, which has succeeded, or has failed with an
  -- error that is lost.
  pub process_service_claim-ok :
      (rsl : List RegisteredService) (sclaim : ServiceClaim) (w : W)
      → (process_service_claim cli platform set_status_condition rsl sclaim w).0 ≡ ok tt
      → (env : String) × ((target_environment cli platform set_status_condition sclaim
            sclaim.spec.target w).0
          ≡ ok env)
        × (rs : RegisteredService) × (find_service sclaim env rsl ≡ some rs)
        × Ends cli platform
            (λ e. is_not_found e ≡ true)
            sclaim
            rs
            (process_service_claim cli platform set_status_condition rsl sclaim w).1
  unfolding process_service_claim
  process_service_claim-ok rsl sclaim w h =
      let (env, tagged, rest, same) = >>=-eq-ok _ _ w h in
      let (rs, found, ends) = claim_found-ok sclaim (find_service sclaim env rsl) _ rest in
      (env, tagged, rs, found, rw same ends)

  -- A resolved claim is processed again without an error only if it refers to a service, which was
  -- read and claimed once more, the binding was pushed without an error, and the claim was recorded
  -- as resolved behind it.
  pub process_resolved_service_claim-ok :
      (sclaim : ServiceClaim) (w : W)
      → (process_resolved_service_claim cli platform set_status_condition sclaim w).0 ≡ ok tt
      → (r : ObjectReference) × (sclaim.status.registered_service ≡ some r)
        × (rs : RegisteredService) × ((cli.registered_services.get
              (record { namespace = sclaim.meta.namespace; name = r.name })
              w).0
            ≡ ok rs)
        × (secret : Secret) × (v : W) × (b : Binds cli platform sclaim rs secret v) × Pushes cli
            platform
            (refer_to resolved rs b.stored)
            secret
            b.claimed_at
            (process_resolved_service_claim cli platform set_status_condition sclaim w).1
  unfolding process_resolved_service_claim resolved_reference raise
  process_resolved_service_claim-ok sclaim w h = by_reference sclaim.status.registered_service h
    where
      by_reference :
          (ref : Option ObjectReference)
          → (resolved_reference cli platform set_status_condition sclaim ref w).0 ≡ ok tt
          → (r : ObjectReference) × (ref ≡ some r)
            × (rs : RegisteredService) × ((cli.registered_services.get
                  (record { namespace = sclaim.meta.namespace; name = r.name })
                  w).0
                ≡ ok rs)
            × (secret : Secret) × (v : W) × (b : Binds cli platform sclaim rs secret v) × Pushes cli
                platform
                (refer_to resolved rs b.stored)
                secret
                b.claimed_at
                (resolved_reference cli platform set_status_condition sclaim ref w).1
      by_reference none h = cc
      by_reference (some r) h =
          let (rs, got, rest, same) = >>=-eq-ok _ _ w h in
          let ((text, count), _, bound, same') = >>=-eq-ok _ _ _ rest in
          let (secret, v, b, ends) =
            bind_service-Ends (λ _. ⊥) (λ e. raise e) (λ e u o. absurd (raise-fails e u o)) sclaim
              rs _ _ bound in
          (
            r,
            refl,
            rs,
            got,
            secret,
            v,
            b,
            elim ends [ inl pushed ↦ rw (same, same') pushed | inr (e, never, _) ↦ absurd never ],
          )
