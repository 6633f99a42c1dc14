-- ===== src/Environments/ClassLaws.antt =====
-- Which classes an environment's service namespaces have after they were reconciled.
use primaza.Common.{
  ◌≡◌, refl, sym, ◌∙◌, ap, Bool, true, false, ◌&&◌, String, Option, none, some, List, [], ◌∷◌,
  Bool-cases, inl, inr, ◌⊎◌, string_eq, if◌then◌else◌,
}
use primaza.Common.Errors.{
  Error, wrapped, Result, ok, err, panic, is_already_exists, join_all-eq-ok,
}
use primaza.Common.Effects.{pure, crash, lift, >>=-eq-ok, attempt-eq-ok, collect_errors}
use primaza.Api.{
  ServiceClass, EnvironmentConstraints, class_environments_of, get_class_environment_constraints,
  ClusterEnvironment,
}
use primaza.EnvTag.{matches}
use primaza.Cluster.{Cluster, Platform, in_namespace}
use primaza.Cluster.Loops.{collect_errors-cons, collect_errors-nil}
use primaza.ClusterContext.{create_client}
use primaza.ControlPlane.{push_service_class_to_namespaces, wrap}
use primaza.Environments.{
  is_constrained, takes_class, classes_taken, class_pushed, push_taken, classes_listed,
  reconcile_service_namespaces,
}
use primaza.Slices.{subtract}

-- The class has constraints, and they allow the environment.
abbrev pub IsConstrainedTo : ClusterEnvironment → ServiceClass → Type 0
IsConstrainedTo ce sc =
    (c : EnvironmentConstraints) × (sc.spec.constraints ≡ some c)
    × (matches ce.spec.environment_name c.environments ≡ true)

takes_class-cases :
    (ce : ClusterEnvironment) (sc : ServiceClass)
    → ((takes_class ce sc ≡ true) × IsConstrainedTo ce sc)
      ⊎ ((takes_class ce sc ≡ false) × ¬ (IsConstrainedTo ce sc))
unfolding takes_class get_class_environment_constraints
takes_class-cases ce sc = by_constraints sc.spec.constraints
  where
    by_constraints :
        (o : Option EnvironmentConstraints)
        → let takes =
            is_constrained o && matches ce.spec.environment_name (class_environments_of o) in
          let Allowed =
            (c : EnvironmentConstraints) × (o ≡ some c)
            × (matches ce.spec.environment_name c.environments ≡ true) in
          ((takes ≡ true) × Allowed) ⊎ ((takes ≡ false) × ¬ Allowed)
    by_constraints none = inr (refl, λ (c, bad, h). cc)
    by_constraints (some c) = elim (Bool-cases (matches ce.spec.environment_name c.environments)) [
      | inl allowed ↦ inl (allowed, (c, refl, allowed))
      | inr refused ↦ inr (refused, λ (d, same, h). cc)
    ]

-- The classes that are constrained to the environment were pushed to the namespaces, one after the other, and
-- each push ended without an error or found a class that exists already.
pub data AllTaken {W Config : Type 0} (cli : Cluster W) (platform : Platform W Config)
    (ce : ClusterEnvironment) (namespaces : List String) : List ServiceClass → W → W → Type 0 where
  ended : (w : W) → AllTaken cli platform ce namespaces [] w w
  taken :
      (sc : ServiceClass) {rest : List ServiceClass} {w v u : W} (worker : Cluster W)
      (r : Result (Unit {0}))
      → IsConstrainedTo ce sc
      → (create_client cli platform ce w).0 ≡ ok worker
      → push_service_class_to_namespaces worker sc namespaces (create_client cli platform ce w).1
        ≡ (r, v)
      → (r ≡ ok tt) ⊎ ((e : Error) × (r ≡ err e) × (is_already_exists e ≡ true))
      → AllTaken cli platform ce namespaces rest v u
      → AllTaken cli platform ce namespaces (sc ∷ rest) w u
  left :
      (sc : ServiceClass) {rest : List ServiceClass} {w u : W}
      → ¬ (IsConstrainedTo ce sc)
      → AllTaken cli platform ce namespaces rest w u
      → AllTaken cli platform ce namespaces (sc ∷ rest) w u

module _ {W Config : Type 0} (cli : Cluster W) (platform : Platform W Config)
    (ce : ClusterEnvironment) where
  class_pushed-ok :
      (r : Result (Unit {0})) (w : W)
      → (class_pushed cli platform r w).0 ≡ ok tt
      → ((r ≡ ok tt) ⊎ ((e : Error) × (r ≡ err e) × (is_already_exists e ≡ true)))
        × ((class_pushed cli platform r w).1 ≡ w)
  unfolding class_pushed lift pure crash
  class_pushed-ok (ok t) w h = (inl refl, refl)
  class_pushed-ok (err e) w h = elim (Bool-cases (is_already_exists e)) [
    | inl exists ↦ (inr (e, refl, exists), rw exists refl)
    | inr differs ↦
        let wrong : err (wrapped "error pushing service class" e) ≡ ok tt =
          sym (
            ap
              (λ b.
                ((if b then pure tt else lift (wrap "error pushing service class" (err e))) w).0)
              differs)
          ∙ h in
        cc
  ]
  class_pushed-ok panic w h = cc

  push_taken-ok :
      (namespaces : List String) (sc : ServiceClass) {rest : List ServiceClass} (w u : W)
      → IsConstrainedTo ce sc
      → (push_taken cli platform ce namespaces sc w).0 ≡ ok tt
      → AllTaken cli platform ce namespaces rest (push_taken cli platform ce namespaces sc w).1 u
      → AllTaken cli platform ce namespaces (sc ∷ rest) w u
  unfolding push_taken
  push_taken-ok namespaces sc w u takes h later =
      let (worker, made, after, same) = >>=-eq-ok (create_client cli platform ce) _ w h in
      let v = (create_client cli platform ce w).1 in
      let tried =
        attempt-eq-ok (push_service_class_to_namespaces worker sc namespaces)
          (class_pushed cli platform) v after in
      let (good, still) =
        class_pushed-ok (push_service_class_to_namespaces worker sc namespaces v).0 _
          (sym (ap (λ p. p.0) tried) ∙ after) in
      taken sc worker _ takes made refl good (rw (sym (ap (λ p. p.1) (same ∙ tried) ∙ still)) later)

  visited :
      (namespaces : List String) (sc : ServiceClass) (rest : List ServiceClass) (w : W)
      (takes : Bool)
      → ((takes ≡ true) × IsConstrainedTo ce sc) ⊎ ((takes ≡ false) × ¬ (IsConstrainedTo ce sc))
      → ((v : W)
          → (collect_errors (push_taken cli platform ce namespaces) (classes_taken ce rest) v).0
            ≡ ok []
          → AllTaken cli platform ce namespaces rest v
              (collect_errors (push_taken cli platform ce namespaces) (classes_taken ce rest) v).1)
      → (collect_errors
          (push_taken cli platform ce namespaces)
          (if takes then sc ∷ classes_taken ce rest else classes_taken ce rest)
          w).0
        ≡ ok []
      → AllTaken cli platform ce namespaces
          (sc ∷ rest)
          w
          (collect_errors
            (push_taken cli platform ce namespaces)
            (if takes then sc ∷ classes_taken ce rest else classes_taken ce rest)
            w).1
  visited namespaces sc rest w true (inl (_, takes)) go h =
      let (first, later, same) =
        collect_errors-cons (push_taken cli platform ce namespaces) sc (classes_taken ce rest) w
          h in
      rw same (
        push_taken-ok namespaces sc w _ takes first
          (go (push_taken cli platform ce namespaces sc w).1 later))
  visited namespaces sc rest w true (inr (bad, _)) go h = cc
  visited namespaces sc rest w false (inl (bad, _)) go h = cc
  visited namespaces sc rest w false (inr (_, leaves)) go h = left sc leaves (go w h)

  loop-AllTaken :
      (namespaces : List String) (l : List ServiceClass) (w : W)
      → (collect_errors (push_taken cli platform ce namespaces) (classes_taken ce l) w).0 ≡ ok []
      → AllTaken cli platform ce namespaces l w
          (collect_errors (push_taken cli platform ce namespaces) (classes_taken ce l) w).1
  unfolding classes_taken
  loop-AllTaken namespaces [] w h =
      rw (collect_errors-nil (push_taken cli platform ce namespaces) w) (ended w)
  loop-AllTaken namespaces (sc ∷ rest) w h =
      visited namespaces sc rest w (takes_class ce sc) (takes_class-cases ce sc)
        (loop-AllTaken namespaces rest) h

  -- After the service namespaces of an environment were reconciled without an error, each listed class
  -- with constraints that allow the environment was pushed, in order, to the namespaces of the
  -- environment that are not among the failed ones; a push that found a class in the way counts as
  -- done, and a class without constraints is left out.
  pub reconcile_service_namespaces-ok :
      (failed : List String) (l : List ServiceClass) (w : W)
      → (cli.service_classes.list (in_namespace ce.meta.namespace) w).0 ≡ ok l
      → (reconcile_service_namespaces cli platform ce failed w).0 ≡ ok tt
      → AllTaken cli platform ce
          (subtract ce.spec.service_namespaces failed)
          l
          (cli.service_classes.list (in_namespace ce.meta.namespace) w).1
          (reconcile_service_namespaces cli platform ce failed w).1
  unfolding reconcile_service_namespaces classes_listed lift
  reconcile_service_namespaces-ok failed l w listed h =
      let push = push_taken cli platform ce (subtract ce.spec.service_namespaces failed) in
      let v = (cli.service_classes.list (in_namespace ce.meta.namespace) w).1 in
      let read : reconcile_service_namespaces cli platform ce failed w
          ≡ classes_listed cli platform ce failed (ok l) v =
        attempt-eq-ok (cli.service_classes.list (in_namespace ce.meta.namespace))
          (classes_listed cli platform ce failed) w h
        ∙ ap (λ r. classes_listed cli platform ce failed r v) listed in
      let (es, collected, joined, same) =
        >>=-eq-ok (collect_errors push (classes_taken ce l)) _ v (sym (ap (λ p. p.0) read) ∙ h) in
      rw (ap (λ p. p.1) (read ∙ same)) (
        loop-AllTaken (subtract ce.spec.service_namespaces failed) l v
          (collected ∙ ap ok (join_all-eq-ok es joined)))
