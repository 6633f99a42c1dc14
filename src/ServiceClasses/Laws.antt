-- ===== src/ServiceClasses/Laws.antt =====
-- Where a service class is pushed to.
use primaza.Common.{
  ◌≡◌, refl, sym, ◌∙◌, ap, Bool, true, false, ◌⊎◌, inl, inr, Option, none, some, List, [], ◌∷◌,
  Bool-cases, if◌then◌else◌,
}
use mathlib.Core.Path.{subst}
use primaza.Common.{String}
use primaza.Common.Errors.{ok, err, panic, Outcome, join_all-eq-ok, ok_injective}
use primaza.Common.Effects.{lift, >>=-eq-ok, attempt-eq-ok, collect_errors, pair_ext}
use primaza.Api.{
  ServiceClass, EnvironmentConstraints, ClusterEnvironment, class_environments_of,
  get_class_environment_constraints,
}
use primaza.Cluster.{Cluster, Platform, everywhere}
use primaza.Cluster.Loops.{collect_errors-cons, collect_errors-nil}
use primaza.ClusterContext.{create_client}
use primaza.ControlPlane.{push_service_class_to_namespaces, wrap}
use primaza.EnvTag.{matches}
use primaza.ServiceClasses.{
  filter_cluster_environments, reconcile_environments, push_to_environment,
}

-- The class has constraints that allow the environment, or it has none.
abbrev pub Wants : ServiceClass → ClusterEnvironment → Type 0
Wants sc ce =
    (sc.spec.constraints ≡ none)
    ⊎ ((c : EnvironmentConstraints) × (sc.spec.constraints ≡ some c)
        × (matches ce.spec.environment_name c.environments ≡ true))

-- The class was pushed, without an error and in order, to the service namespaces of each environment
-- that it wants, by a client that was made for the environment; the others were passed over.
pub data AllReached {W Config : Type 0} (cli : Cluster W) (platform : Platform W Config)
    (sc : ServiceClass) : List ClusterEnvironment → W → W → Type 0 where
  done : (w : W) → AllReached cli platform sc [] w w
  reached :
      (ce : ClusterEnvironment) {rest : List ClusterEnvironment} {w v u : W} (worker : Cluster W)
      → Wants sc ce
      → (create_client cli platform ce w).0 ≡ ok worker
      → push_service_class_to_namespaces worker sc ce.spec.service_namespaces
          (create_client cli platform ce w).1
        ≡ (ok tt, v)
      → AllReached cli platform sc rest v u
      → AllReached cli platform sc (ce ∷ rest) w u
  passed :
      (ce : ClusterEnvironment) {rest : List ClusterEnvironment} {w u : W}
      → ¬ (Wants sc ce)
      → AllReached cli platform sc rest w u
      → AllReached cli platform sc (ce ∷ rest) w u

Wants-cases :
    (sc : ServiceClass) (ce : ClusterEnvironment)
    → let kept = matches ce.spec.environment_name (get_class_environment_constraints sc.spec) in
      ((kept ≡ true) × Wants sc ce) ⊎ ((kept ≡ false) × ¬ (Wants sc ce))
unfolding get_class_environment_constraints matches
Wants-cases sc ce = by_constraints sc.spec.constraints
  where
    by_constraints :
        (o : Option EnvironmentConstraints)
        → let kept = matches ce.spec.environment_name (class_environments_of o) in
          let Wanted =
            (o ≡ none)
            ⊎ ((c : EnvironmentConstraints) × (o ≡ some c)
                × (matches ce.spec.environment_name c.environments ≡ true)) in
          ((kept ≡ true) × Wanted) ⊎ ((kept ≡ false) × ¬ Wanted)
    by_constraints none = inl (refl, inl refl)
    by_constraints (some c) = elim (Bool-cases (matches ce.spec.environment_name c.environments)) [
      | inl allowed ↦ inl (allowed, inr (c, refl, allowed))
      | inr refused ↦ inr (refused, λ w. elim w [ inl bad ↦ cc | inr (d, same, h) ↦ cc ])
    ]

module _ {W Config : Type 0} (cli : Cluster W) (platform : Platform W Config)
    (sc : ServiceClass) where
  wrapped-ok : (text : String) (r : Outcome) → wrap text r ≡ ok tt → r ≡ ok tt
  wrapped-ok text (ok t) h = refl
  wrapped-ok text (err e) h = cc
  wrapped-ok text panic h = cc

  reach :
      (ce : ClusterEnvironment) (rest : List ClusterEnvironment) (w u : W)
      → Wants sc ce
      → (push_to_environment cli platform sc ce w).0 ≡ ok tt
      → AllReached cli platform sc rest (push_to_environment cli platform sc ce w).1 u
      → AllReached cli platform sc (ce ∷ rest) w u
  unfolding push_to_environment lift
  reach ce rest w u wants h later =
      let (worker, made, after, same) = >>=-eq-ok (create_client cli platform ce) _ w h in
      let push = push_service_class_to_namespaces worker sc ce.spec.service_namespaces in
      let v = (create_client cli platform ce w).1 in
      let tried = attempt-eq-ok push _ v after in
      let good = wrapped-ok _ (push v).0 (sym (ap (λ p. p.0) tried) ∙ after) in
      reached ce worker wants made (pair_ext _ good (sym (ap (λ p. p.1) (same ∙ tried)))) later

  visited :
      (ce : ClusterEnvironment) (rest kept_rest : List ClusterEnvironment) (w : W) (kept : Bool)
      → ((kept ≡ true) × Wants sc ce) ⊎ ((kept ≡ false) × ¬ (Wants sc ce))
      → ((v : W)
          → (collect_errors (push_to_environment cli platform sc) kept_rest v).0 ≡ ok []
          → AllReached cli platform sc rest v
              (collect_errors (push_to_environment cli platform sc) kept_rest v).1)
      → let l = if kept then ce ∷ kept_rest else kept_rest in
        (collect_errors (push_to_environment cli platform sc) l w).0 ≡ ok []
        → AllReached cli platform sc
            (ce ∷ rest)
            w
            (collect_errors (push_to_environment cli platform sc) l w).1
  visited ce rest kept_rest w true (inl (_, wants)) go h =
      let (first, later, same) =
        collect_errors-cons (push_to_environment cli platform sc) ce kept_rest w h in
      rw same
        (reach ce rest w _ wants first (go (push_to_environment cli platform sc ce w).1 later))
  visited ce rest kept_rest w true (inr (bad, _)) go h = cc
  visited ce rest kept_rest w false (inl (bad, _)) go h = cc
  visited ce rest kept_rest w false (inr (_, wants_not)) go h = passed ce wants_not (go w h)

  loop-AllReached :
      (cee : List ClusterEnvironment) (w : W)
      → let l = filter_cluster_environments (get_class_environment_constraints sc.spec) cee in
        (collect_errors (push_to_environment cli platform sc) l w).0 ≡ ok []
        → AllReached cli platform sc cee w
            (collect_errors (push_to_environment cli platform sc) l w).1
  unfolding filter_cluster_environments
  loop-AllReached [] w h = rw (collect_errors-nil (push_to_environment cli platform sc) w) (done w)
  loop-AllReached (ce ∷ rest) w h =
      visited ce rest (filter_cluster_environments (get_class_environment_constraints sc.spec) rest)
        w (matches ce.spec.environment_name (get_class_environment_constraints sc.spec))
        (Wants-cases sc ce) (loop-AllReached rest) h

  -- After the environments were reconciled for a class without an error, the class was pushed without
  -- an error, in order, to the service namespaces of every listed environment that its constraints
  -- allow, or of every one if it has no constraints, and nothing else was done.
  pub reconcile_environments-ok :
      (cee : List ClusterEnvironment) (w : W)
      → (cli.cluster_environments.list everywhere w).0 ≡ ok cee
      → (reconcile_environments cli platform sc w).0 ≡ ok tt
      → AllReached cli platform sc cee
          (cli.cluster_environments.list everywhere w).1
          (reconcile_environments cli platform sc w).1
  unfolding reconcile_environments lift
  reconcile_environments-ok cee w listed h =
      let v = (cli.cluster_environments.list everywhere w).1 in
      let l = λ (found : List ClusterEnvironment).
        filter_cluster_environments (get_class_environment_constraints sc.spec) found in
      let (found, read, rest, same) = >>=-eq-ok (cli.cluster_environments.list everywhere) _ w h in
      let as_listed = ok_injective _ _ (sym read ∙ listed) in
      let (es, collected, joined, same') =
        >>=-eq-ok (collect_errors (push_to_environment cli platform sc) (l found)) _ v rest in
      let all = loop-AllReached found v (collected ∙ ap ok (join_all-eq-ok es joined)) in
      subst (λ x. AllReached cli platform sc x v (reconcile_environments cli platform sc w).1)
        as_listed
        (subst (AllReached cli platform sc found v) (sym (ap (λ p. p.1) (same ∙ same'))) all)
