-- ===== src/Environments/StatusLaws.antt =====
-- What the tests of an environment find, and what becomes of it.
use primaza.Common.{◌≡◌, refl, sym, ◌∙◌, ap, ◌&&◌, String, List, [], ◌∷◌}
use primaza.Common.{string_eq, if◌then◌else◌}
use primaza.Common.Errors.{Result, ok, err, panic, ok_injective}
use primaza.Common.Effects.{Action, pure, crash, attempt, ◌>>=◌, >>=-eq-ok, attempt-eq-ok}
use primaza.Api.{Condition, ClusterEnvironment, partial}
use primaza.Cluster.{Platform}
use primaza.ControlPlane.Naming.{application, service}
use primaza.Authz.{NamespacedPermissionsReport, is_empty}
use primaza.Authz.Lists.{get_agent_app_required_permissions, get_agent_svc_required_permissions}
use primaza.Environments.Status.{
  Reviews, Tested, build_permission_condition, failed_namespaces, with_partial, typed_tested,
  test_resource_permissions, test_typed_namespaces_permissions, services_tested,
  applications_tested, test_namespaces_permissions,
}

module _ (set_condition : List Condition → Condition → List Condition) where
  -- An environment after its tests: the condition of either kind of namespace, and the state.
  abbrev pub tested_environment :
      ClusterEnvironment → List String → List String → ClusterEnvironment
  tested_environment ce fann fsnn = record ce {
    status = record {
      state = if is_empty fann && is_empty fsnn then ce.status.state else partial;
      conditions =
          set_condition
            (set_condition ce.status.conditions (build_permission_condition application fann))
            (build_permission_condition service fsnn);
    };
  }

  partial_tested :
      (ce : ClusterEnvironment) (pa ps : List (String × NamespacedPermissionsReport))
      → with_partial set_condition
          (failed_namespaces pa)
          (failed_namespaces ps)
          (typed_tested set_condition service
            (typed_tested set_condition application ce (ok pa)).0
            (ok ps)).0
        ≡ tested_environment ce (failed_namespaces pa) (failed_namespaces ps)
  unfolding with_partial
  partial_tested ce pa ps = by_lists (failed_namespaces pa) (failed_namespaces ps)
    where
      by_lists :
          (fann fsnn : List String)
          → with_partial set_condition fann fsnn (record ce {
            status = record (ce.status) {
              conditions =
                  set_condition
                    (set_condition ce.status.conditions
                      (build_permission_condition application fann))
                    (build_permission_condition service fsnn);
            };
          })
            ≡ tested_environment ce fann fsnn
      by_lists [] [] = refl
      by_lists [] (ns ∷ fsnn) = refl
      by_lists (ns ∷ fann) fsnn = refl

  module _ {W Config : Type 0} (platform : Platform W Config) (reviews : Reviews W Config)
      (cfg : Config) (ce ce' : ClusterEnvironment) (fann fsnn : List String) where
    abbrev pub app_test : Action W (List (String × NamespacedPermissionsReport))
    app_test =
        test_resource_permissions set_condition platform reviews cfg ce.spec.application_namespaces
          get_agent_app_required_permissions

    abbrev pub svc_test : Action W (List (String × NamespacedPermissionsReport))
    svc_test =
        test_resource_permissions set_condition platform reviews cfg ce.spec.service_namespaces
          get_agent_svc_required_permissions

    services_found :
        (pa : List (String × NamespacedPermissionsReport))
        (r : Result (List (String × NamespacedPermissionsReport))) (w : W)
        → (services_tested set_condition platform reviews
            (failed_namespaces pa)
            (typed_tested set_condition service
              (typed_tested set_condition application ce (ok pa)).0
              r)
            w).0
          ≡ ok (ce', ok (fann, fsnn))
        → (ps : List (String × NamespacedPermissionsReport)) × (r ≡ ok ps)
          × (fann ≡ failed_namespaces pa)
          × (fsnn ≡ failed_namespaces ps)
          × (ce' ≡ tested_environment ce fann fsnn)
    unfolding services_tested pure crash
    services_found pa (ok ps) w h =
        let same = ok_injective _ _ h in
        let lists = ok_injective _ _ (ap (λ t. t.1) same) in
        let a = ap (λ l. l.0) lists in
        let b = ap (λ l. l.1) lists in
        (
          ps,
          refl,
          sym a,
          sym b,
          sym (ap (λ t. t.0) same)
              ∙ partial_tested ce pa ps
              ∙ (λ i. tested_environment ce (a i) (b i)),
        )
    services_found pa (err e) w h = let bad = ap (λ t. t.1) (ok_injective _ _ h) in cc
    services_found pa panic w h = cc

    applications_found :
        (r : Result (List (String × NamespacedPermissionsReport))) (w : W)
        → (applications_tested set_condition platform reviews cfg
            (typed_tested set_condition application ce r)
            w).0
          ≡ ok (ce', ok (fann, fsnn))
        → (pa : List (String × NamespacedPermissionsReport)) × (ps : List
            (String × NamespacedPermissionsReport))
          × (r ≡ ok pa)
          × ((svc_test w).0 ≡ ok ps)
          × (fann ≡ failed_namespaces pa)
          × (fsnn ≡ failed_namespaces ps)
          × (ce' ≡ tested_environment ce fann fsnn)
    unfolding applications_tested test_typed_namespaces_permissions pure crash
    applications_found (ok pa) w h =
        let ce1 = (typed_tested set_condition application ce (ok pa)).0 in
        let typed : Result (List (String × NamespacedPermissionsReport))
            → Action W (Tested (List String)) =
          λ pr. pure (typed_tested set_condition service ce1 pr) in
        let (t, tested, rest, _) =
          >>=-eq-ok (attempt svc_test >>= typed)
            (services_tested set_condition platform reviews (failed_namespaces pa)) w h in
        let same = attempt-eq-ok svc_test typed w tested in
        let (ps, read, fa, fs, env) =
          services_found pa (svc_test w).0 ((attempt svc_test >>= typed) w).1 (
            ap
              (λ u.
                (services_tested set_condition platform reviews (failed_namespaces pa) u
                  ((attempt svc_test >>= typed) w).1).0)
              (ok_injective _ _ (sym (ap (λ p. p.0) same) ∙ tested))
            ∙ rest) in
        (pa, ps, refl, read, fa, fs, env)
    applications_found (err e) w h = let bad = ap (λ t. t.1) (ok_injective _ _ h) in cc
    applications_found panic w h = cc

    -- After a test of an environment's namespaces without an error, the reports of the application
    -- namespaces on the permissions of the application agent were read first, and then those of the
    -- service namespaces on the permissions of the service agent. Each list has the namespaces whose
    -- report is not satisfied; the environment has the condition of either list, its state is partial
    -- if one has a namespace and is as before if not, and the rest of it is as before.
    pub test_namespaces_permissions-ok :
        (w : W)
        → (test_namespaces_permissions set_condition platform reviews cfg ce w).0
          ≡ ok (ce', ok (fann, fsnn))
        → (pa : List (String × NamespacedPermissionsReport)) × (ps : List
            (String × NamespacedPermissionsReport))
          × ((test_resource_permissions set_condition platform reviews cfg
                ce.spec.application_namespaces get_agent_app_required_permissions w).0
              ≡ ok pa)
          × ((test_resource_permissions set_condition platform reviews cfg
                ce.spec.service_namespaces get_agent_svc_required_permissions
                (test_resource_permissions set_condition platform reviews cfg
                  ce.spec.application_namespaces get_agent_app_required_permissions w).1).0
              ≡ ok ps)
          × (fann ≡ failed_namespaces pa)
          × (fsnn ≡ failed_namespaces ps)
          × (ce' ≡ tested_environment ce fann fsnn)
    unfolding test_namespaces_permissions test_typed_namespaces_permissions pure
    test_namespaces_permissions-ok w h =
        let typed : Result (List (String × NamespacedPermissionsReport))
            → Action W (Tested (List String)) =
          λ pr. pure (typed_tested set_condition application ce pr) in
        let (t, tested, rest, _) =
          >>=-eq-ok (attempt app_test >>= typed)
            (applications_tested set_condition platform reviews cfg) w h in
        let same = attempt-eq-ok app_test typed w tested in
        let at = ap (λ p. p.1) same in
        let t_is = ok_injective _ _ (sym (ap (λ p. p.0) same) ∙ tested) in
        applications_found (app_test w).0 (app_test w).1 (
          (λ i. (applications_tested set_condition platform reviews cfg (t_is i) (sym at i)).0)
          ∙ rest)
