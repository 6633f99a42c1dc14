-- ===== src/Claims/Choice.antt =====
-- serviceclaim_controller.go: which service a claim gets, and which one its deletion releases.
use primaza.Common.{
  ◌≡◌, ◌≢◌, refl, sym, ◌∙◌, ap, Bool, true, false, ◌&&◌, String, Option, none, some, List, [], ◌∷◌,
  ◌++◌, any,
}
use primaza.Common.{◌==◌, if◌then◌else◌, arith, Bool-cases, inl, inr}
use primaza.Common.Errors.{
  Error, Result, Outcome, ok, err, panic, ok_injective, join_all, join_all-eq-ok,
}
use primaza.Common.Effects.{
  Action, pure, lift, attempt, ◌>>=◌, errors_of, >>=-eq-ok, attempt-eq-ok, attempt-no-panic,
  pair_ext,
}
use primaza.Cluster.{Cluster, Platform, in_namespace}
use primaza.Claims.Status.{change_service_state}
use primaza.Claims.Push.{delete_service_bindings_and_secret}
use primaza.Api.{
  Key, Condition, ServiceClaim, RegisteredService, ServiceClaimTarget, RegisteredServiceConstraints,
  available, service_state_eq,
}
use primaza.Claims.Matching.{allows, fits}
use primaza.EnvTag.{matches}
use primaza.Claims.Process.{find_service}
use primaza.Claims.Handler.{
  find_released, target_tag, release, listed_or_none, process_claim_marked_for_deletion,
}

-- The first element of a list that a test accepts.
abbrev pub first_of {ℓ} : {A : Type ℓ} → (A → Bool) → List A → Option A
first_of p [] = none
first_of p (x ∷ xs) = if p x then some x else first_of p xs

-- The element stands in the list behind elements that the test refuses, and it passes.
abbrev pub IsFirst {ℓ} : {A : Type ℓ} → (A → Bool) → A → List A → Type ℓ
IsFirst {A = A} p x l =
    (before : List A) × (after : List A) × (l ≡ before ++ (x ∷ after))
    × (any p before ≡ false)
    × (p x ≡ true)

first_of-none {ℓ} : {A : Type ℓ} (p : A → Bool) (l : List A) → first_of p l ≡ none → any p l ≡ false
first_of-none p [] h = refl
first_of-none p (x ∷ l) h = ground (arith, first_of-none p l)

first_of-IsFirst {ℓ} :
    {A : Type ℓ} (p : A → Bool) (l : List A) (x : A) → first_of p l ≡ some x → IsFirst p x l
first_of-IsFirst p [] x h = cc
first_of-IsFirst p (y ∷ l) x h = elim (Bool-cases (p y)) [
  | inl yes_y ↦
      let same : y ≡ x = ground arith in ([], l, ap (λ z. z ∷ l) same, refl, rw (sym same) yes_y)
  | inr no_y ↦
      let (before, after, split, none_before, yes_x) = first_of-IsFirst p l x (ground arith) in
      (y ∷ before, after, ap (λ z. y ∷ z) split, ground arith, yes_x)
]

-- The services that a claim may get.
abbrev pub suits : ServiceClaim → String → RegisteredService → Bool
suits sclaim env rs = rs.status.state == available && fits sclaim env rs

find_service-first_of :
    (sclaim : ServiceClaim) (env : String) (rsl : List RegisteredService)
    → find_service sclaim env rsl ≡ first_of (suits sclaim env) rsl
unfolding find_service
find_service-first_of sclaim env [] = refl
find_service-first_of sclaim env (rs ∷ rsl) = rw (find_service-first_of sclaim env rsl)

-- The chosen service is the first of the list that is available, has the claim's identity and
-- allows the environment; none is chosen exactly if the list has no such service.
pub find_service_lem :
    (sclaim : ServiceClaim) (env : String) (rsl : List RegisteredService)
    → (find_service sclaim env rsl ≡ none → any (suits sclaim env) rsl ≡ false)
      × ((rs : RegisteredService)
          → find_service sclaim env rsl ≡ some rs
          → IsFirst (suits sclaim env) rs rsl)
find_service_lem sclaim env rsl = (
  λ h. first_of-none (suits sclaim env) rsl (sym (find_service-first_of sclaim env rsl) ∙ h),
  λ rs h.
      first_of-IsFirst (suits sclaim env) rsl rs (sym (find_service-first_of sclaim env rsl) ∙ h),
)

one_round :
    (rs : RegisteredService) (tag : String) (constraints : Option RegisteredServiceConstraints)
    (same_identity : Bool) (r : Result String) (later : Result (Option RegisteredService))
    (first : Option RegisteredService)
    → r ≡ ok tag
    → later ≡ ok first
    → (if same_identity
        then elim constraints [
          | none ↦ ok (some rs)
          | some c ↦ elim r [
            | ok tag ↦ if allows tag (some c) then ok (some rs) else later
            | err e ↦ err e
            | panic ↦ panic
          ]
        ]
        else later)
      ≡ ok (if same_identity && allows tag constraints then some rs else first)
one_round rs tag constraints false r later first hr hl = hl
one_round rs tag none true r later first hr hl = refl
one_round rs tag (some c) true r later first hr hl =
    rw (hr, hl) (chosen (matches tag c.environments))
  where
    chosen : (b : Bool) → (if b then ok (some rs) else ok first) ≡ ok (if b then some rs else first)
    chosen true = refl
    chosen false = refl

find_released_lem :
    (sclaim : ServiceClaim) (target : ServiceClaimTarget) (rsl : List RegisteredService)
    → sclaim.spec.target ≡ some target
    → find_released sclaim rsl ≡ ok (first_of (fits sclaim target.environment_tag) rsl)
unfolding find_released fits
find_released_lem sclaim target [] h = refl
find_released_lem sclaim target (rs ∷ rsl) h =
    one_round rs target.environment_tag rs.spec.constraints _ _ _ _ (ap target_tag h)
      (find_released_lem sclaim target rsl h)

module _ {W Config : Type 0} (cli : Cluster W) (platform : Platform W Config)
    (set_status_condition : List Condition → Condition → List Condition) where
  -- The last call sets the state of the service to available and succeeds; without a service there is
  -- no call.
  abbrev pub IsReleased : Option RegisteredService → W → W → Type 0
  IsReleased none w final = final ≡ w
  IsReleased (some rs) w final = change_service_state cli platform rs available w ≡ (ok tt, final)

  abbrev rest_of_deletion : ServiceClaim → Option RegisteredService → Action W Unit
  rest_of_deletion sclaim found = do
    deleted ← attempt (delete_service_bindings_and_secret cli platform sclaim sclaim.spec.target)
    last ← release cli platform set_status_condition found
    lift (join_all (errors_of deleted ++ last))

  no_errors-ok : (r : Outcome) → r ≢ panic → errors_of r ≡ [] → r ≡ ok tt
  no_errors-ok (ok t) np h = refl
  no_errors-ok (err e) np h = cc
  no_errors-ok panic np h = absurd (np refl)

  empty_both : (k l : List Error) → k ++ l ≡ [] → (k ≡ []) × (l ≡ [])
  empty_both [] l h = (refl, h)
  empty_both (e ∷ k) l h = cc

  released :
      (found : Option RegisteredService) (w : W)
      → (release cli platform set_status_condition found w).0 ≡ ok []
      → IsReleased found w (release cli platform set_status_condition found w).1
  unfolding release pure
  released none w h = refl
  released (some rs) w h =
      let call = change_service_state cli platform rs available in
      let same = attempt-eq-ok call (λ r. pure (errors_of r)) w h in
      let none_lost =
        no_errors-ok (call w).0 (attempt-no-panic call (λ r. pure (errors_of r)) w h)
          (ok_injective _ _ (sym (ap (λ p. p.0) same) ∙ h)) in
      pair_ext _ none_lost (sym (ap (λ p. p.1) same))

  rest_of_deletion-ok :
      (sclaim : ServiceClaim) (found : Option RegisteredService) (w : W)
      → let deletion = delete_service_bindings_and_secret cli platform sclaim sclaim.spec.target in
        (rest_of_deletion sclaim found w).0 ≡ ok tt
        → ((deletion w).0 ≡ ok tt)
          × IsReleased found (deletion w).1 (rest_of_deletion sclaim found w).1
  unfolding lift
  rest_of_deletion-ok sclaim found w h =
      let deletion = delete_service_bindings_and_secret cli platform sclaim sclaim.spec.target in
      let releasing : Outcome → Action W Unit = λ deleted.
        release cli platform set_status_condition found >>= λ last.
        lift (join_all (errors_of deleted ++ last)) in
      let first = attempt-eq-ok deletion releasing w h in
      let (last, returned, joined, second) =
        >>=-eq-ok (release cli platform set_status_condition found) _ (deletion w).1
          (sym (ap (λ p. p.0) first) ∙ h) in
      let (none_first, none_last) =
        empty_both (errors_of (deletion w).0) last (join_all-eq-ok _ joined) in
      (
        no_errors-ok (deletion w).0 (attempt-no-panic deletion releasing w h) none_first,
        rw (ap (λ p. p.1) (first ∙ second))
            (released found (deletion w).1 (returned ∙ ap ok none_last)),
      )

  -- The deletion of a claim with a target, whose namespace's services were listed, returns without an
  -- error only if the bindings and the secret were removed without an error, and then the first listed
  -- service that fits the claim, in whatever state it is and whichever service the claim refers to, was
  -- set available, if there is one; nothing else is done.
  pub process_claim_marked_for_deletion-ok :
      (req : Key) (sclaim : ServiceClaim) (target : ServiceClaimTarget)
      (rsl : List RegisteredService) (w : W)
      → let listing = cli.registered_services.list (in_namespace req.namespace) in
        let deletion = delete_service_bindings_and_secret cli platform sclaim sclaim.spec.target in
        let final =
          process_claim_marked_for_deletion cli platform set_status_condition req sclaim w in
        sclaim.spec.target ≡ some target
        → (listing w).0 ≡ ok rsl
        → final.0 ≡ ok tt
        → ((deletion (listing w).1).0 ≡ ok tt)
          × IsReleased
              (first_of (fits sclaim target.environment_tag) rsl)
              (deletion (listing w).1).1
              final.1
  unfolding process_claim_marked_for_deletion listed_or_none lift pure ◌>>=◌
  process_claim_marked_for_deletion-ok req sclaim target rsl w aimed listed h =
      let found = find_released_lem sclaim target rsl aimed in
      rw (listed, found)
        (rest_of_deletion-ok sclaim (first_of (fits sclaim target.environment_tag) rsl)
          (cli.registered_services.list (in_namespace req.namespace) w).1 (rw (listed, found) at h))
