-- ===== src/Registered/Catalogs.antt =====
-- registeredservice_controller.go: the services that the catalogs list.
use primaza.Common.{ℕ, suc, Bool, false, String, Option, none, some, List, [], ◌∷◌, ◌++◌}
use primaza.Common.{◌==◌, string_eq, if◌then◌else◌, map, take, drop}
use primaza.Common.Errors.{join_all}
use primaza.Common.Effects.{Action, pure, lift, ◌>>=◌, ◌>>◌, collect_errors}
use primaza.Api.{
  RegisteredService, ServiceCatalog, ServiceCatalogService, ServiceCatalogServiceByLabel,
}
use primaza.Api.{ServiceClaim, ObjectReference, LabelSelector, get_environment_constraints}
use primaza.Cluster.{Cluster, in_namespace}
use primaza.EnvTag.{matches}

-- `ServiceInCatalog`: `none` stands for -1.
unfoldable pub index_of_service : List ServiceCatalogService → String → Option ℕ
index_of_service [] name = none
index_of_service (service ∷ services) name =
    let rest = index_of_service services name in
    if service.name == name then some 0 else elim rest [ none ↦ none | some i ↦ some (suc i) ]

unfoldable pub service_in_catalog : ServiceCatalog → String → Option ℕ
unfolding index_of_service
service_in_catalog sc name = index_of_service sc.spec.services name

abbrev pub refers_to : Option ObjectReference → String → Bool
refers_to none name = false
refers_to (some r) name = r.name == name

-- The loop over the claims: the last claim that holds the service decides.
unfoldable pub selector_loop :
    List ServiceClaim → String → Option LabelSelector → Option LabelSelector
selector_loop [] name found = found
selector_loop (sclaim ∷ claims) name found = selector_loop claims name (
    if refers_to sclaim.status.registered_service name
    then sclaim.spec.application.selector
    else found)

-- `append(ClaimedByLabels, scsbl)` where the selector is not nil.
abbrev pub add_by_label :
    Option LabelSelector
    → ServiceCatalogService
    → List ServiceCatalogServiceByLabel
    → List ServiceCatalogServiceByLabel
add_by_label none s claimed = claimed
add_by_label (some l) s claimed = claimed ++ (record { service = s; labels = some l } ∷ [])

-- `Services[si]`
abbrev pub services_at : List ServiceCatalogService → ℕ → List ServiceCatalogService
services_at services si = take 1 (drop si services)

abbrev pub by_label_of :
    List ServiceCatalogService
    → Option LabelSelector
    → List ServiceCatalogServiceByLabel
    → List ServiceCatalogServiceByLabel
by_label_of [] l claimed = claimed
by_label_of (s ∷ _) l claimed = add_by_label l s claimed

-- The catalog that `removeServiceFromCatalog` writes: the service at the index goes, and joins
-- those that are claimed by labels.
unfoldable pub without_service : ServiceCatalog → ℕ → Option LabelSelector → ServiceCatalog
without_service sc si selector = record sc {
  spec = record {
    services = take si sc.spec.services ++ drop (suc si) sc.spec.services;
    claimed_by_labels =
        by_label_of (services_at sc.spec.services si) selector sc.spec.claimed_by_labels;
  };
}

-- The entry of a registered service in a catalog.
unfoldable pub catalog_service : RegisteredService → ServiceCatalogService
catalog_service rs = record {
  name = rs.meta.name;
  service_class_identity = rs.spec.service_class_identity;
  service_endpoint_definition_keys = map (λ sed. sed.name) rs.spec.service_endpoint_definition;
}

-- The catalog that `addServiceToCatalog` writes.
unfoldable pub with_service : ServiceCatalog → ServiceCatalogService → ServiceCatalog
with_service sc scs = record sc {
  spec = record (sc.spec) { services = sc.spec.services ++ (scs ∷ []) };
}

module _ {W : Type 0} (cli : Cluster W) where
  -- `removeServiceFromCatalog` behind the search for the service.
  unfoldable pub remove_indexed : String → String → ServiceCatalog → Option ℕ → Action W Unit
  remove_indexed namespace service_name sc none = pure tt
  remove_indexed namespace service_name sc (some si) = do
    claims ← cli.service_claims.list (in_namespace namespace)
    cli.service_catalogs.update (without_service sc si (selector_loop claims service_name none))
    pure tt

  -- `removeServiceFromCatalog`
  unfoldable pub remove_service_from_catalog : String → String → ServiceCatalog → Action W Unit
  unfolding remove_indexed
  remove_service_from_catalog namespace service_name sc =
      remove_indexed namespace service_name sc (service_in_catalog sc service_name)

  -- `removeServiceFromCatalogs`
  unfoldable pub remove_service_from_catalogs : String → String → Action W Unit
  remove_service_from_catalogs namespace service_name = do
    catalogs ← cli.service_catalogs.list (in_namespace namespace)
    errs ← collect_errors (remove_service_from_catalog namespace service_name) catalogs
    lift (join_all errs)

  -- `addServiceToCatalog` behind the search for the service.
  unfoldable pub add_indexed : RegisteredService → ServiceCatalog → Option ℕ → Action W Unit
  add_indexed rs sc (some _) = pure tt
  add_indexed rs sc none = do
    cli.service_catalogs.update (with_service sc (catalog_service rs))
    pure tt

  -- `addServiceToCatalog`
  unfoldable pub add_service_to_catalog : RegisteredService → ServiceCatalog → Action W Unit
  unfolding add_indexed
  add_service_to_catalog rs sc = add_indexed rs sc (service_in_catalog sc rs.meta.name)

  -- One round of the loop of `reconcileCatalogs`.
  unfoldable pub reconcile_catalog : RegisteredService → ServiceCatalog → Action W Unit
  reconcile_catalog rs sc =
      if matches sc.meta.name (get_environment_constraints rs.spec)
      then add_service_to_catalog rs sc
      else remove_service_from_catalog rs.meta.namespace rs.meta.name sc

  -- `reconcileCatalogs`
  unfoldable pub reconcile_catalogs : RegisteredService → Action W Unit
  reconcile_catalogs rs = do
    catalogs ← cli.service_catalogs.list (in_namespace rs.meta.namespace)
    errs ← collect_errors (reconcile_catalog rs) catalogs
    lift (join_all errs)
