-- ===== src/ServiceCatalogs/Laws.antt =====
-- Which environments have a catalog after the handler of service catalogs has returned no error.
use primaza.Common.{◌≡◌, refl, sym, ◌∙◌, ap, Bool, true, false, List, [], ◌∷◌, ◌==◌, string_eq}
use primaza.Common.Errors.{ok, join_all-eq-ok}
use primaza.Common.Effects.{pure, when, attempt-eq-ok, >>=-eq-ok, lift, collect_errors, pair_ext}
use primaza.Api.{Key, ServiceCatalog, ClusterEnvironment}
use primaza.Cluster.{Cluster, Platform, in_namespace}
use primaza.Cluster.Loops.{collect_errors-cons, collect_errors-nil}
use primaza.ServiceCatalogs.{
  push_service_catalog, push_if_named, environments_listed, reconcile_service_catalog_found,
  reconcile_service_catalog,
}

-- The catalog was pushed, without an error and in order, to each environment of its name.
pub data AllPushed {W Config : Type 0} (cli : Cluster W) (platform : Platform W Config)
    (sc : ServiceCatalog) : List ClusterEnvironment → W → W → Type 0 where
  done : (w : W) → AllPushed cli platform sc [] w w
  pushed :
      (ce : ClusterEnvironment) {rest : List ClusterEnvironment} {w v u : W}
      → (ce.spec.environment_name == sc.meta.name) ≡ true
      → push_service_catalog cli platform sc ce w ≡ (ok tt, v)
      → AllPushed cli platform sc rest v u
      → AllPushed cli platform sc (ce ∷ rest) w u
  passed :
      (ce : ClusterEnvironment) {rest : List ClusterEnvironment} {w u : W}
      → (ce.spec.environment_name == sc.meta.name) ≡ false
      → AllPushed cli platform sc rest w u
      → AllPushed cli platform sc (ce ∷ rest) w u

module _ {W Config : Type 0} (cli : Cluster W) (platform : Platform W Config)
    (sc : ServiceCatalog) where
  visited :
      (ce : ClusterEnvironment) (rest : List ClusterEnvironment) (named : Bool) (w u : W)
      → (ce.spec.environment_name == sc.meta.name) ≡ named
      → (when named (push_service_catalog cli platform sc ce) w).0 ≡ ok tt
      → AllPushed cli platform sc rest (when named (push_service_catalog cli platform sc ce) w).1 u
      → AllPushed cli platform sc (ce ∷ rest) w u
  unfolding when pure
  visited ce rest true w u named h later = pushed ce named (pair_ext _ h refl) later
  visited ce rest false w u named h later = passed ce named later

  loop-AllPushed :
      (cel : List ClusterEnvironment) (w : W)
      → (collect_errors (push_if_named cli platform sc) cel w).0 ≡ ok []
      → AllPushed cli platform sc cel w (collect_errors (push_if_named cli platform sc) cel w).1
  unfolding push_if_named
  loop-AllPushed [] w h = rw (collect_errors-nil (push_if_named cli platform sc) w) (done w)
  loop-AllPushed (ce ∷ rest) w h =
      let (first, later, same) = collect_errors-cons (push_if_named cli platform sc) ce rest w h in
      rw same (
        visited ce rest (ce.spec.environment_name == sc.meta.name) w _ refl first
          (loop-AllPushed rest (push_if_named cli platform sc ce w).1 later))

  loop_done :
      (cel : List ClusterEnvironment) (u : W)
      → (environments_listed cli platform sc (ok cel) u).0 ≡ ok tt
      → AllPushed cli platform sc cel u (environments_listed cli platform sc (ok cel) u).1
  unfolding environments_listed lift
  loop_done cel u h =
      let (es, collected, joined, same) =
        >>=-eq-ok (collect_errors (push_if_named cli platform sc) cel) _ u h in
      rw (ap (λ p. p.1) same) (loop-AllPushed cel u (collected ∙ ap ok (join_all-eq-ok es joined)))

  -- After the handler has returned no error for a catalog that it read and environments that it
  -- listed, the catalog was pushed without an error to the application namespaces of every listed
  -- environment of the catalog's name, in order, and nothing else was done.
  pub reconcile_service_catalog-ok :
      (req : Key) (cel : List ClusterEnvironment) (w : W)
      → (cli.service_catalogs.get req w).0 ≡ ok sc
      → (cli.cluster_environments.list
          (in_namespace req.namespace)
          (cli.service_catalogs.get req w).1).0
        ≡ ok cel
      → (reconcile_service_catalog cli platform req w).0 ≡ ok tt
      → AllPushed cli platform sc cel
          (cli.cluster_environments.list
            (in_namespace req.namespace)
            (cli.service_catalogs.get req w).1).1
          (reconcile_service_catalog cli platform req w).1
  unfolding reconcile_service_catalog reconcile_service_catalog_found environments_listed
  reconcile_service_catalog-ok req cel w got listed h =
      let v = (cli.service_catalogs.get req w).1 in
      let read : reconcile_service_catalog cli platform req w
          ≡ reconcile_service_catalog_found cli platform req (ok sc) v =
        attempt-eq-ok (cli.service_catalogs.get req)
          (reconcile_service_catalog_found cli platform req) w h
        ∙ ap (λ r. reconcile_service_catalog_found cli platform req r v) got in
      let found : reconcile_service_catalog_found cli platform req (ok sc) v
          ≡ environments_listed cli platform sc (ok cel)
              (cli.cluster_environments.list (in_namespace req.namespace) v).1 =
        attempt-eq-ok (cli.cluster_environments.list (in_namespace req.namespace))
          (environments_listed cli platform sc) v (sym (ap (λ p. p.0) read) ∙ h)
        ∙ ap
            (λ r.
              environments_listed cli platform sc r
                (cli.cluster_environments.list (in_namespace req.namespace) v).1)
            listed in
      let all = read ∙ found in rw all (loop_done cel _ (sym (ap (λ p. p.0) all) ∙ h))
