-- ===== src/Environments/ReconcilerLaws.antt =====
-- What `Reconcile` of an environment writes, and what it does not.
use primaza.Common.{
  ◌≡◌, refl, sym, ◌∙◌, ap, Bool, true, false, not, inl, inr, Bool-cases, ◌&&◌, String, Option, none,
  List, [], ◌∷◌, any, arith,
}
use primaza.Common.{◌==◌, string_eq, if◌then◌else◌}
use mathlib.Core.Path.{subst}
use primaza.Common.Errors.{Error, ok, err, panic, Outcome, message, is_not_found, ok_injective}
use primaza.Common.Effects.{Action, pure, raise, crash, ◌>>=◌, attempt-eq-ok, >>=-eq-ok, lift}
use primaza.Authz.{is_empty}
use primaza.Api.{Key, key_eq, Condition, ServiceCatalog, ClusterEnvironment, has_deletion_timestamp}
use primaza.Cluster.{Cluster, Platform, in_namespace}
use primaza.ControlPlane.{ConnectionStatus, Manifests, test_connection_status}
use primaza.Environments.Status.{
  Reviews, test_connection, update_cluster_environment_status, check_excess_permissions,
  test_namespaces_permissions,
}
use primaza.Environments.Secrets.{retrieve_cluster_context_secret}
use primaza.Environments.Namespaces.{ReconcilerConfig, Clients}
use primaza.Environments.Informers.{EnvironmentInformers}
use primaza.Environments.Reconciler.{
  live_environments, deletion_ended, related_environments, remove_unused_catalog,
  remove_service_catalog_on_deleted_cluster_environment, add_environment_finalizer,
  reconcile_tested, reconcile_connected, reconcile_environment_found, reconcile_environment,
}

-- An environment of the name that is not being deleted.
abbrev pub is_live : String → ClusterEnvironment → Bool
is_live name ce = ce.spec.environment_name == name && not (has_deletion_timestamp ce.meta)

abbrev pub is_ended : Outcome → Bool
is_ended (ok _) = true
is_ended (err e) = is_not_found e
is_ended panic = false

live-empty :
    (name : String) (l : List ClusterEnvironment)
    → is_empty (live_environments name l) ≡ not (any (is_live name) l)
unfolding live_environments
live-empty name [] = refl
live-empty name (ce ∷ l) = ground (arith, live-empty name l)

ended_if :
    {W : Type 0} (e : Error) (w : W)
    → (deletion_ended (err e) w).0 ≡ ok tt
    → (is_not_found e ≡ true) × ((deletion_ended (err e) w).1 ≡ w)
unfolding pure raise
ended_if e w h = elim (Bool-cases (is_not_found e)) [
  | inl same ↦ (same, rw same refl)
  | inr differ ↦ let bad = rw differ at h in cc
]

ended :
    {W : Type 0} (r : Outcome) (w : W)
    → (deletion_ended r w).0 ≡ ok tt
    → (is_ended r ≡ true) × ((deletion_ended r w).1 ≡ w)
unfolding pure crash
ended (ok _) w h = (refl, refl)
ended (err e) w h = ended_if e w h
ended panic w h = cc

module _ {W Config : Type 0} (cli : Cluster W) (platform : Platform W Config)
    (reviews : Reviews W Config) (manifests : Manifests) (clients : Clients W Config)
    (config : ReconcilerConfig) (svc app : EnvironmentInformers W Config)
    (set_condition : List Condition → Condition → List Condition)
    (error_text : Error → String) where
  -- The namespaces were tested without an error, and then the status that the tests give was stored;
  -- an error of the test for excess permissions is passed over.
  abbrev pub IsStored : Config → ClusterEnvironment → W → Type 0
  IsStored cfg ce w =
      (ce2 : ClusterEnvironment) × (passed_over : List Error) × (ce3 : ClusterEnvironment)
      × (fann : List String) × (fsnn : List String) × (stored : ClusterEnvironment)
      × ((check_excess_permissions set_condition platform reviews cfg ce w).0
          ≡ ok (ce2, passed_over))
      × ((test_namespaces_permissions set_condition platform reviews cfg ce2
            (check_excess_permissions set_condition platform reviews cfg ce w).1).0
          ≡ ok (ce3, ok (fann, fsnn)))
      × ((cli.cluster_environments.update_status ce3
            (test_namespaces_permissions set_condition platform reviews cfg ce2
              (check_excess_permissions set_condition platform reviews cfg ce w).1).1).0
          ≡ ok stored)

  -- The cluster has answered the connection test, and the status has what it answered.
  abbrev pub IsTested : Config → ClusterEnvironment → W → Type 0
  IsTested cfg ce w =
      (cs : ConnectionStatus) × ((cs.reason == "ConnectionSuccessful") ≡ true)
      × ((test_connection_status platform cfg w).0 ≡ ok cs)
      × IsStored cfg (update_cluster_environment_status set_condition cs ce)
          (test_connection_status platform cfg w).1

  connection_tested :
      (cfg : Config) (ce ce1 : ClusterEnvironment) (w : W)
      → (test_connection set_condition platform reviews cfg ce w).0 ≡ ok (ce1, ok tt)
      → (cs : ConnectionStatus) × ((cs.reason == "ConnectionSuccessful") ≡ true)
        × ((test_connection_status platform cfg w).0 ≡ ok cs)
        × (ce1 ≡ update_cluster_environment_status set_condition cs ce)
        × ((test_connection set_condition platform reviews cfg ce w).1
            ≡ (test_connection_status platform cfg w).1)
  unfolding test_connection pure
  connection_tested cfg ce ce1 w h =
      let (cs, answered, rest, same) = >>=-eq-ok (test_connection_status platform cfg) _ w h in
      let is = ok_injective _ _ rest in
      (
        cs,
        by_reason (cs.reason == "ConnectionSuccessful") (ap (λ t. t.1) is),
        answered,
        sym (ap (λ t. t.0) is),
        ap (λ p. p.1) same,
      )
    where
      by_reason :
          (b : Bool)
          → ◌≡◌ {A = Outcome}
              (if b then ok tt else err (message "can not connect to target cluster"))
              (ok tt)
          → b ≡ true
      by_reason true h = refl
      by_reason false h = cc

  reconcile_connected-ok :
      (cfg : Config) (ce : ClusterEnvironment) (w : W)
      → (reconcile_connected cli platform reviews manifests clients config svc app set_condition
          error_text cfg ce w).0
        ≡ ok tt
      → IsTested cfg ce w
  unfolding reconcile_connected reconcile_tested lift
  reconcile_connected-ok cfg ce w h =
      let ((ce1, r), connected, h1, _) =
        >>=-eq-ok (test_connection set_condition platform reviews cfg ce) _ w h in
      let (_, no_error, h2, _) = >>=-eq-ok (lift r) _ _ h1 in
      let ((ce2, passed_over), excess, h3, _) =
        >>=-eq-ok (check_excess_permissions set_condition platform reviews cfg ce1) _ _ h2 in
      let ((ce3, t), tested, h4, _) =
        >>=-eq-ok (test_namespaces_permissions set_condition platform reviews cfg ce2) _ _ h3 in
      let ((fann, fsnn), lists, h5, _) = >>=-eq-ok (lift t) _ _ h4 in
      let (stored, written, _, _) = >>=-eq-ok (cli.cluster_environments.update_status ce3) _ _ h5 in
      let (cs, success, answered, same, at) =
        connection_tested cfg ce ce1 w (connected ∙ ap (λ x. ok (ce1, x)) no_error) in
      let at_end : IsStored cfg ce1 (test_connection set_condition platform reviews cfg ce w).1 = (
        ce2,
        passed_over,
        ce3,
        fann,
        fsnn,
        stored,
        excess,
        tested ∙ ap (λ x. ok (ce3, x)) lists,
        written,
      ) in
      (
        cs,
        success,
        answered,
        subst (λ x. IsStored cfg x (test_connection_status platform cfg w).1) same
            (subst (IsStored cfg ce1) at at_end),
      )

  -- The visit of an environment that is not being deleted returns without an error only if its
  -- configuration was read, the cluster answered the connection test, the namespaces were tested
  -- without an error, and the status that the tests give was stored: where the cluster does not answer,
  -- the visit fails.
  pub reconcile_environment-ok :
      (req : Key) (ce : ClusterEnvironment) (w : W)
      → (cli.cluster_environments.get req w).0 ≡ ok ce
      → has_deletion_timestamp ce.meta ≡ false
      → (reconcile_environment cli platform reviews manifests clients config svc app set_condition
          error_text req w).0
        ≡ ok tt
      → let w1 = (cli.cluster_environments.get req w).1 in
        let finalizer =
          add_environment_finalizer cli platform reviews manifests clients config svc app
            set_condition error_text ce in
        let retrieve = retrieve_cluster_context_secret cli platform set_condition error_text in
        (ce0 : ClusterEnvironment) × (ce' : ClusterEnvironment) × (cfg : Config) × ((finalizer w1).0
          ≡ ok ce0)
        × ((retrieve ce0 (finalizer w1).1).0 ≡ ok (ce', ok cfg))
        × IsTested cfg ce' (retrieve ce0 (finalizer w1).1).1
  unfolding reconcile_environment reconcile_environment_found lift
  reconcile_environment-ok req ce w read live h =
      let found =
        reconcile_environment_found cli platform reviews manifests clients config svc app
          set_condition error_text in
      let w1 = (cli.cluster_environments.get req w).1 in
      let same = attempt-eq-ok (cli.cluster_environments.get req) found w h in
      let visited : (found (ok ce) w1).0 ≡ ok tt =
        sym (ap (λ p. p.0) same ∙ ap (λ r. (found r w1).0) read) ∙ h in
      let (ce0, kept, h1, _) =
        >>=-eq-ok
          (add_environment_finalizer cli platform reviews manifests clients config svc app
            set_condition error_text ce)
          _ w1 (rw live at visited) in
      let ((ce', kcfg), retrieved, h2, _) =
        >>=-eq-ok (retrieve_cluster_context_secret cli platform set_condition error_text ce0) _ _
          h1 in
      let (cfg, configured, h3, _) = >>=-eq-ok (lift kcfg) _ _ h2 in
      (
        ce0,
        ce',
        cfg,
        kept,
        retrieved ∙ ap (λ x. ok (ce', x)) configured,
        reconcile_connected-ok cfg ce' _ h3,
      )

  module _ (find : W → Key → Option ServiceCatalog)
      (list_leaves : (ns : String) (w : W) (k : Key)
        → find (cli.cluster_environments.list (in_namespace ns) w).1 k ≡ find w k)
      (delete_ended : (k other : Key) (w : W)
        → is_ended (cli.service_catalogs.delete k w).0 ≡ true
        → find (cli.service_catalogs.delete k w).1 other
          ≡ (if other == k then none else find w other)) where
    abbrev remove : ClusterEnvironment → Action W Unit
    remove =
        remove_service_catalog_on_deleted_cluster_environment cli platform reviews manifests clients
          config svc app set_condition error_text

    abbrev unused : ClusterEnvironment → List ClusterEnvironment → Action W Unit
    unused =
        remove_unused_catalog cli platform reviews manifests clients config svc app set_condition
          error_text

    removed_unused :
        (ce : ClusterEnvironment) (w : W) (k : Key)
        → (unused ce [] w).0 ≡ ok tt
        → find (unused ce [] w).1 k ≡ (
            if k == record { namespace = ce.meta.namespace; name = ce.spec.environment_name }
            then none
            else find w k)
    unfolding remove_unused_catalog
    removed_unused ce w k h =
        let key : Key = record { namespace = ce.meta.namespace; name = ce.spec.environment_name } in
        let same = attempt-eq-ok (cli.service_catalogs.delete key) deletion_ended w h in
        let (e, stays) =
          ended (cli.service_catalogs.delete key w).0 (cli.service_catalogs.delete key w).1
            (ap (λ p. p.0) (sym same) ∙ h) in
        ap (λ p. find p.1 k) same ∙ ap (λ v. find v k) stays ∙ delete_ended key k w e

    removed_by :
        (ce : ClusterEnvironment) (ff : List ClusterEnvironment) (w : W) (k : Key)
        → (unused ce ff w).0 ≡ ok tt
        → find (unused ce ff w).1 k ≡ (
            if is_empty ff
              && k == record { namespace = ce.meta.namespace; name = ce.spec.environment_name }
            then none
            else find w k)
    removed_by ce [] w k h = removed_unused ce w k h
    removed_by ce (o ∷ ff) w k h = unfold remove_unused_catalog pure in refl

    remove-listed :
        (ce : ClusterEnvironment) (l : List ClusterEnvironment) (w : W)
        → (cli.cluster_environments.list (in_namespace ce.meta.namespace) w).0 ≡ ok l
        → remove ce w
          ≡ unused ce
              (live_environments ce.spec.environment_name l)
              (cli.cluster_environments.list (in_namespace ce.meta.namespace) w).1
    unfolding remove_service_catalog_on_deleted_cluster_environment related_environments ◌>>=◌
    remove-listed ce l w listed = rw listed refl

    -- When the catalog of a deleted environment was looked after without an error, the environment's
    -- catalog is gone if no listed environment of the name is left that is not being deleted, and it
    -- stands if there is one; other catalogs stand. A deletion that ends with success or not-found is
    -- taken to leave no object of the key, and the others as they were.
    pub remove_service_catalog-ok :
        (ce : ClusterEnvironment) (l : List ClusterEnvironment) (w : W)
        → (cli.cluster_environments.list (in_namespace ce.meta.namespace) w).0 ≡ ok l
        → (remove ce w).0 ≡ ok tt
        → (k : Key)
        → find (remove ce w).1 k ≡ (
            if not (any (is_live ce.spec.environment_name) l)
              && k == record { namespace = ce.meta.namespace; name = ce.spec.environment_name }
            then none
            else find w k)
    remove_service_catalog-ok ce l w listed h k =
        let name = ce.spec.environment_name in
        let w1 = (cli.cluster_environments.list (in_namespace ce.meta.namespace) w).1 in
        let same = remove-listed ce l w listed in
        let by = removed_by ce (live_environments name l) w1 k (ap (λ p. p.0) (sym same) ∙ h) in
        ap (λ p. find p.1 k) same
        ∙ by
        ∙ rw (live-empty name l, list_leaves ce.meta.namespace w k) refl
