-- ===== src/Claims/Binding.antt =====
-- serviceclaim_controller.go: `bind_service`, step by step, when it ends without an error.
use primaza.Common.{◌≡◌, ◌≢◌, refl, sym, ◌∙◌, ap, ◌⊎◌, inl, inr, List}
use primaza.Common.Errors.{Error, ok, err, panic, Outcome}
use primaza.Common.Effects.{
  Action, ◌>>◌, >>=-eq-ok, attempt-eq-ok, attempt-no-panic, pair_ext, pure, crash,
}
use primaza.Api.{
  Condition, ServiceClaim, RegisteredService, Secret, pending, resolved, available, claimed,
}
use primaza.Cluster.{Cluster, Platform}
use primaza.Claims.Status.{change_service_state, update_service_claim_status}
use primaza.Claims.Push.{push_to_cluster_environments}
use primaza.Claims.Process.{refer_to, after_push, push_or_release, bind_service}

-- The call has succeeded, or it has failed with an error.
abbrev pub Returned : Outcome → Type 0
Returned r = (r ≡ ok tt) ⊎ ((e : Error) × (r ≡ err e))

no_panic-Returned : (r : Outcome) → r ≢ panic → Returned r
no_panic-Returned (ok t) h = inl refl
no_panic-Returned (err e) h = inr (e, refl)
no_panic-Returned panic h = absurd (h refl)

module _ {W Config : Type 0} (cli : Cluster W) (platform : Platform W Config) where
  -- The push has succeeded, and the claim was recorded as resolved behind it.
  abbrev pub Pushes : ServiceClaim → Secret → W → W → Type 0
  Pushes sclaim secret w final =
      (push_to_cluster_environments cli platform sclaim secret sclaim.spec.target w).0 ≡ ok tt
      × (last : ServiceClaim) × (update_service_claim_status cli platform sclaim
            (push_to_cluster_environments cli platform sclaim secret sclaim.spec.target w).1
          ≡ (ok last, final))

  -- The push has failed with an error, and the last call sets the service available: it has succeeded,
  -- or its error is lost.
  abbrev pub Releases : ServiceClaim → RegisteredService → Secret → Error → W → W → Type 0
  Releases sclaim rs secret e w final =
      (push_to_cluster_environments cli platform sclaim secret sclaim.spec.target w).0 ≡ err e
      × (final
          ≡ (change_service_state cli platform rs available
              (push_to_cluster_environments cli platform sclaim secret sclaim.spec.target w).1).1)
      × Returned
          (change_service_state cli platform rs available
            (push_to_cluster_environments cli platform sclaim secret sclaim.spec.target w).1).0

  -- A claim that was given a service: the claim refers to it first, then the service is claimed,
  -- then the binding is pushed.
  pub record Binds (sclaim : ServiceClaim) (rs : RegisteredService) (secret : Secret) (w : W)
      : Type 0 where
    pub stored : ServiceClaim
    pub referred : W
    pub claimed_at : W
    pub refers :
        update_service_claim_status cli platform (refer_to pending rs sclaim) w
        ≡ (ok stored, referred)
    pub claims : change_service_state cli platform rs claimed referred ≡ (ok tt, claimed_at)

  -- How a claim ends that was processed without an error: recorded as resolved behind the push, or
  -- behind a push whose error the handler passes over, after the attempt to set its service available.
  abbrev pub Ends : (Error → Type 0) → ServiceClaim → RegisteredService → W → Type 0
  Ends Passes sclaim rs final =
      (secret : Secret) × (v : W) × (b : Binds sclaim rs secret v) × (Pushes
          (refer_to resolved rs b.stored) secret b.claimed_at final
        ⊎ ((e : Error) × Passes e
            × Releases (refer_to resolved rs b.stored) rs secret e b.claimed_at final))

  update_then :
      (sclaim : ServiceClaim) (v : W)
      → ((update_service_claim_status cli platform sclaim >> pure tt) v).0 ≡ ok tt
      → (last : ServiceClaim) × (update_service_claim_status cli platform sclaim v
          ≡ (ok last, ((update_service_claim_status cli platform sclaim >> pure tt) v).1))
  unfolding pure
  update_then sclaim v h =
      let (last, answered, rest, same) =
        >>=-eq-ok (update_service_claim_status cli platform sclaim) _ v h in
      (last, pair_ext _ answered (sym (ap (λ p. p.1) same)))

module _ {W Config : Type 0} (cli : Cluster W) (platform : Platform W Config)
    (set_status_condition : List Condition → Condition → List Condition) where
  after_push-ok :
      (sclaim : ServiceClaim) (rs : RegisteredService) (secret : Secret)
      (failed : Error → Action W Unit) (w v : W) (r : Outcome)
      → push_to_cluster_environments cli platform sclaim secret sclaim.spec.target w ≡ (r, v)
      → (after_push cli platform set_status_condition sclaim rs failed r v).0 ≡ ok tt
      → Pushes cli platform sclaim secret w
          (after_push cli platform set_status_condition sclaim rs failed r v).1
        ⊎ ((e : Error) × (u : W) × Releases cli platform sclaim rs secret e w u
            × (after_push cli platform set_status_condition sclaim rs failed r v ≡ failed e u))
  unfolding after_push crash
  after_push-ok sclaim rs secret failed w v (ok _) p h =
      let (last, stored) = update_then cli platform sclaim v h in rw p (inl (refl, last, stored))
  after_push-ok sclaim rs secret failed w v (err e) p h = rw p (
      inr (
        e,
        (change_service_state cli platform rs available v).1,
        (
          refl,
          refl,
          no_panic-Returned _ (
              attempt-no-panic (change_service_state cli platform rs available) (λ _. failed e) v
                h),
        ),
        attempt-eq-ok (change_service_state cli platform rs available) (λ _. failed e) v h,
      ))
  after_push-ok sclaim rs secret failed w v panic p h = cc

  pub push_or_release-ok :
      (sclaim : ServiceClaim) (rs : RegisteredService) (secret : Secret)
      (failed : Error → Action W Unit) (w : W)
      → (push_or_release cli platform set_status_condition sclaim rs secret failed w).0 ≡ ok tt
      → Pushes cli platform sclaim secret w
          (push_or_release cli platform set_status_condition sclaim rs secret failed w).1
        ⊎ ((e : Error) × (v : W) × Releases cli platform sclaim rs secret e w v
            × (push_or_release cli platform set_status_condition sclaim rs secret failed w
                ≡ failed e v))
  unfolding push_or_release
  push_or_release-ok sclaim rs secret failed w h =
      let same =
        attempt-eq-ok (push_to_cluster_environments cli platform sclaim secret sclaim.spec.target) _
          w h in
      rw same (after_push-ok sclaim rs secret failed w _ _ refl (sym (ap (λ p. p.0) same) ∙ h))

  pub bind_service-ok :
      (sclaim : ServiceClaim) (rs : RegisteredService) (secret : Secret)
      (failed : Error → Action W Unit) (w : W)
      → (bind_service cli platform set_status_condition sclaim rs secret failed w).0 ≡ ok tt
      → (b : Binds cli platform sclaim rs secret w) × (bind_service cli platform
            set_status_condition sclaim rs secret failed w
          ≡ push_or_release cli platform set_status_condition
              (refer_to resolved rs b.stored)
              rs
              secret
              failed
              b.claimed_at)
  unfolding bind_service
  bind_service-ok sclaim rs secret failed w h =
      let (stored, refers, rest, same) =
        >>=-eq-ok (update_service_claim_status cli platform (refer_to pending rs sclaim)) _ w h in
      let (_, claims, _, same') =
        >>=-eq-ok (change_service_state cli platform rs claimed) _
          (update_service_claim_status cli platform (refer_to pending rs sclaim) w).1 rest in
      (
        record {
          stored = stored;
          referred = (update_service_claim_status cli platform (refer_to pending rs sclaim) w).1;
          claimed_at =
              (change_service_state cli platform rs claimed
                (update_service_claim_status cli platform (refer_to pending rs sclaim) w).1).1;
          refers = pair_ext _ refers refl;
          claims = pair_ext _ claims refl;
        },
        same ∙ same',
      )
