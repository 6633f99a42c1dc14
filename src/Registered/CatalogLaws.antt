-- ===== src/Registered/CatalogLaws.antt =====
-- What the catalogs list after the handler has visited them.
use primaza.Common.{◌≡◌, refl, ap, ◌∙◌, ℕ, Bool, true, false, not, ◌&&◌, String, Option, none, some}
use primaza.Common.{◌==◌, string_eq, if◌then◌else◌, arith}
use primaza.Common.Errors.{ok}
use primaza.Common.Effects.{pure, ◌>>◌, >>=-eq-ok}
use primaza.Api.{
  Key, key_of, key_eq, RegisteredService, ServiceCatalog, LabelSelector,
  get_environment_constraints,
}
use primaza.Cluster.{Cluster, ListOptions, in_namespace}
use primaza.Cluster.Stores.{IsStore, Changed}
use primaza.Cluster.Loops.{list_loop_changes}
use primaza.EnvTag.{matches}
use primaza.Registered.Catalogs.{
  service_in_catalog, without_service, with_service, catalog_service, remove_indexed, add_indexed,
  remove_service_from_catalog, remove_service_from_catalogs, add_service_to_catalog,
  reconcile_catalog, reconcile_catalogs, selector_loop,
}
use primaza.Registered.Entries.{
  lists, UniqueNames, index-none, index-lists, lists-append, lists-cut, UniqueNames-cut,
  UniqueNames-append,
}

abbrev pub catalog_key : ServiceCatalog → Key
catalog_key sc = key_of sc.meta

-- The catalog keeps its name and its unique entries, and an entry is listed as the function says.
abbrev pub Relists : (String → Bool → Bool) → ServiceCatalog → ServiceCatalog → Type 0
Relists f sc sc' =
    (sc'.meta ≡ sc.meta)
    × (UniqueNames sc.spec.services
        → UniqueNames sc'.spec.services
          × ((other : String)
              → lists sc'.spec.services other ≡ f other (lists sc.spec.services other)))

-- The service of that name is not listed any more.
abbrev pub drops : String → String → Bool → Bool
drops name other listed = listed && not (other == name)

-- The service is listed exactly if the catalog's environment matches its constraints.
abbrev pub settles : String → Bool → String → Bool → Bool
settles name matched other listed = if other == name then matched else listed

abbrev pub Settles : RegisteredService → ServiceCatalog → ServiceCatalog → Type 0
Settles rs sc =
    Relists (settles rs.meta.name (matches sc.meta.name (get_environment_constraints rs.spec))) sc

without_service-Relists :
    (sc : ServiceCatalog) (name : String) (i : ℕ) (l : Option LabelSelector)
    → service_in_catalog sc name ≡ some i
    → Relists (drops name) sc (without_service sc i l)
unfolding service_in_catalog without_service
without_service-Relists sc name i l h = (
  refl,
  λ u. (
    UniqueNames-cut sc.spec.services name i u h,
    λ other. lists-cut sc.spec.services name i other u h,
  ),
)

same-Relists :
    (sc : ServiceCatalog) (name : String)
    → service_in_catalog sc name ≡ none
    → Relists (drops name) sc sc
unfolding service_in_catalog
same-Relists sc name h =
    (refl, λ u. (u, λ other. ground (arith, index-none sc.spec.services name h)))

-- Both services and claims are kept as documented; a look at the claims changes no catalog.
pub record KeepsCatalogs {W : Type 0} (cli : Cluster W) (find : W → Key → Option ServiceCatalog)
    : Type 0 where
  pub store : IsStore cli.service_catalogs catalog_key find
  pub claims_read :
      (o : ListOptions) (w : W) (k : Key) → find (cli.service_claims.list o w).1 k ≡ find w k

module _ {W : Type 0} (cli : Cluster W) (find : W → Key → Option ServiceCatalog)
    (catalogs : KeepsCatalogs cli find) where
  -- How one visit that returned no error leaves the store.
  abbrev Visited : (ServiceCatalog → ServiceCatalog → Type 0) → ServiceCatalog → W → W → Type 0
  Visited Good sc w w' =
      (sc' : ServiceCatalog) × Good sc sc'
      × ((k : Key) → find w' k ≡ (if k == catalog_key sc then some sc' else find w k))

  stays :
      (sc : ServiceCatalog) (w : W)
      → find w (catalog_key sc) ≡ some sc
      → (k : Key) → find w k ≡ (if k == catalog_key sc then some sc else find w k)
  stays sc w h k = ground arith

  -- An update that returned no error, behind reads.
  updated :
      (sc sc' : ServiceCatalog) (w v : W)
      → sc'.meta ≡ sc.meta
      → ((k : Key) → find v k ≡ find w k)
      → ((cli.service_catalogs.update sc' >> pure tt) v).0 ≡ ok tt
      → (k : Key)
      → find ((cli.service_catalogs.update sc' >> pure tt) v).1 k
        ≡ (if k == catalog_key sc then some sc' else find w k)
  unfolding pure
  updated sc sc' w v m reads h k =
      let (_, done, _, world) = >>=-eq-ok (cli.service_catalogs.update sc') (λ _. pure tt) v h in
      ap (λ p. find p.1 k) world ∙ catalogs.store.update_ok sc' v done k ∙ rw (m, reads k) refl

  remove_indexed-Visited :
      (ns name : String) (sc : ServiceCatalog) (i : Option ℕ) (w : W)
      → service_in_catalog sc name ≡ i
      → find w (catalog_key sc) ≡ some sc
      → (remove_indexed cli ns name sc i w).0 ≡ ok tt
      → Visited (Relists (drops name)) sc w (remove_indexed cli ns name sc i w).1
  unfolding remove_indexed pure
  remove_indexed-Visited ns name sc none w e s h = (sc, same-Relists sc name e, stays sc w s)
  remove_indexed-Visited ns name sc (some i) w e s h =
      let (claims, listed, done, world) =
        >>=-eq-ok (cli.service_claims.list (in_namespace ns))
          (λ claims.
            cli.service_catalogs.update (without_service sc i (selector_loop claims name none))
            >> pure tt)
          w h in
      let l = selector_loop claims name none in
      (
        without_service sc i l,
        without_service-Relists sc name i l e,
        λ k.
            ap (λ p. find p.1 k) world
            ∙ updated sc (without_service sc i l) w (cli.service_claims.list (in_namespace ns) w).1
                (without_service-Relists sc name i l e).0 (catalogs.claims_read (in_namespace ns) w)
                done k,
      )

  -- A visit of `removeServiceFromCatalog` that returned no error.
  remove-Visited :
      (ns name : String) (sc : ServiceCatalog) (w : W)
      → find w (catalog_key sc) ≡ some sc
      → (remove_service_from_catalog cli ns name sc w).0 ≡ ok tt
      → Visited (Relists (drops name)) sc w (remove_service_from_catalog cli ns name sc w).1
  unfolding remove_service_from_catalog
  remove-Visited ns name sc w s h =
      remove_indexed-Visited ns name sc (service_in_catalog sc name) w refl s h

  -- After `removeServiceFromCatalogs` without an error, a catalog of the namespace has its metadata
  -- and, if its entries had different names, they still have, it does not list the service, and it
  -- lists every other name that it listed; the catalogs of other namespaces are as before.
  pub remove_service_from_catalogs_lem :
      (ns name : String) (w : W)
      → (remove_service_from_catalogs cli ns name w).0 ≡ ok tt
      → (k : Key)
      → Changed
          (Relists (drops name))
          (k.namespace == ns)
          (find w k)
          (find (remove_service_from_catalogs cli ns name w).1 k)
  unfolding remove_service_from_catalogs
  remove_service_from_catalogs_lem ns name w h k =
      list_loop_changes cli.service_catalogs catalog_key find catalogs.store
        (remove_service_from_catalog cli ns name) (Relists (drops name)) (remove-Visited ns name) ns
        w h k

  with_service-Relists :
      (rs : RegisteredService) (sc : ServiceCatalog)
      → service_in_catalog sc rs.meta.name ≡ none
      → Relists (settles rs.meta.name true) sc (with_service sc (catalog_service rs))
  unfolding with_service service_in_catalog catalog_service
  with_service-Relists rs sc e =
      let absent = index-none sc.spec.services rs.meta.name e in
      (
        refl,
        λ u. (
          UniqueNames-append sc.spec.services _ u absent,
          λ other. lists-append sc.spec.services _ other ∙ ground arith,
        ),
      )

  add_indexed-Visited :
      (rs : RegisteredService) (sc : ServiceCatalog) (i : Option ℕ) (w : W)
      → service_in_catalog sc rs.meta.name ≡ i
      → find w (catalog_key sc) ≡ some sc
      → (add_indexed cli rs sc i w).0 ≡ ok tt
      → Visited (Relists (settles rs.meta.name true)) sc w (add_indexed cli rs sc i w).1
  unfolding add_indexed pure service_in_catalog
  add_indexed-Visited rs sc (some i) w e s h = (
    sc,
    (refl, λ u. (u, λ other. ground (arith, index-lists sc.spec.services rs.meta.name i e))),
    stays sc w s,
  )
  add_indexed-Visited rs sc none w e s h =
      let good = with_service-Relists rs sc e in
      (with_service sc (catalog_service rs), good, updated sc _ w w good.0 (λ k. refl) h)

  reconcile_branch-Visited :
      (rs : RegisteredService) (sc : ServiceCatalog) (matched : Bool) (w : W)
      → find w (catalog_key sc) ≡ some sc
      → let visit =
          if matched
          then add_service_to_catalog cli rs sc
          else remove_service_from_catalog cli rs.meta.namespace rs.meta.name sc in
        (visit w).0 ≡ ok tt → Visited (Relists (settles rs.meta.name matched)) sc w (visit w).1
  unfolding add_service_to_catalog
  reconcile_branch-Visited rs sc true w s h =
      add_indexed-Visited rs sc (service_in_catalog sc rs.meta.name) w refl s h
  reconcile_branch-Visited rs sc false w s h =
      let (sc', (same, relists), at) = remove-Visited rs.meta.namespace rs.meta.name sc w s h in
      (sc', (same, λ u. ((relists u).0, λ other. (relists u).1 other ∙ ground arith)), at)

  reconcile-Visited :
      (rs : RegisteredService) (sc : ServiceCatalog) (w : W)
      → find w (catalog_key sc) ≡ some sc
      → (reconcile_catalog cli rs sc w).0 ≡ ok tt
      → Visited (Settles rs) sc w (reconcile_catalog cli rs sc w).1
  unfolding reconcile_catalog
  reconcile-Visited rs sc =
      reconcile_branch-Visited rs sc (matches sc.meta.name (get_environment_constraints rs.spec))

  -- After `reconcileCatalogs` without an error, a catalog of the service's namespace has its metadata
  -- and, if its entries had different names, they still have, it lists the service exactly if the
  -- catalog's environment matches the service's constraints, and it lists every other name that it
  -- listed; the catalogs of other namespaces are as before.
  pub reconcile_catalogs_lem :
      (rs : RegisteredService) (w : W)
      → (reconcile_catalogs cli rs w).0 ≡ ok tt
      → (k : Key)
      → Changed
          (Settles rs)
          (k.namespace == rs.meta.namespace)
          (find w k)
          (find (reconcile_catalogs cli rs w).1 k)
  unfolding reconcile_catalogs
  reconcile_catalogs_lem rs w h k =
      list_loop_changes cli.service_catalogs catalog_key find catalogs.store
        (reconcile_catalog cli rs) (Settles rs) (reconcile-Visited rs) rs.meta.namespace w h k
