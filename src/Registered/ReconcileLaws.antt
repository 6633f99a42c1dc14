-- ===== src/Registered/ReconcileLaws.antt =====
-- registeredservice_controller.go: `Reconcile` as a whole, down to what the catalogs list.
use primaza.Common.{◌≡◌, refl, sym, ◌∙◌, ap, Bool, true, Option}
use primaza.Common.{◌==◌, string_eq, if◌then◌else◌}
use primaza.Common.Errors.{Error, Result, ok, err, is_not_found}
use primaza.Common.Effects.{attempt-eq-ok}
use primaza.Common.Effects.Keeps.{Keeps}
use primaza.Api.{Key, key_eq, RegisteredService, ServiceCatalog, service_state_eq}
use primaza.Cluster.{Cluster, Platform, ListOptions}
use primaza.Cluster.Builtin.{CronJob}
use primaza.Cluster.Stores.{Changed}
use primaza.Registered.Catalogs.{remove_service_from_catalogs}
use primaza.Registered.CatalogLaws.{
  KeepsCatalogs, Relists, drops, Settles, remove_service_from_catalogs_lem,
}
use primaza.Registered.Health.{reconcile_found, reconcile}

-- Calls at the other kinds leave the catalogs alone.
pub record KeepsOthers {W : Type 0} (cli : Cluster W) (find : W → Key → Option ServiceCatalog)
    : Type 0 where
  pub service_get :
      (k : Key) (o : Option ServiceCatalog) (req : Key)
      → Keeps (λ w. find w k ≡ o) (cli.registered_services.get req)
  pub service_status :
      (k : Key) (o : Option ServiceCatalog) (rs : RegisteredService)
      → Keeps (λ w. find w k ≡ o) (cli.registered_services.update_status rs)
  pub cron_job_get :
      (k : Key) (o : Option ServiceCatalog) (req : Key)
      → Keeps (λ w. find w k ≡ o) (cli.cron_jobs.get req)
  pub cron_job_list :
      (k : Key) (o : Option ServiceCatalog) (l : ListOptions)
      → Keeps (λ w. find w k ≡ o) (cli.cron_jobs.list l)
  pub cron_job_delete :
      (k : Key) (o : Option ServiceCatalog) (req : Key)
      → Keeps (λ w. find w k ≡ o) (cli.cron_jobs.delete req)
  pub cron_job_create_or_update :
      (k : Key) (o : Option ServiceCatalog) (c : CronJob) (f : CronJob → Result CronJob)
      → Keeps (λ w. find w k ≡ o) (cli.cron_jobs.create_or_update c f)
  pub job_list :
      (k : Key) (o : Option ServiceCatalog) (l : ListOptions)
      → Keeps (λ w. find w k ≡ o) (cli.jobs.list l)

-- A service that is available is listed where its constraints allow it, and any other nowhere.
abbrev pub Listed : Bool → RegisteredService → ServiceCatalog → ServiceCatalog → Type 0
Listed is_available rs = if is_available then Settles rs else Relists (drops rs.meta.name)

module _ {W Config : Type 0} (cli : Cluster W) (platform : Platform W Config)
    (find : W → Key → Option ServiceCatalog) (catalogs : KeepsCatalogs cli find)
    (others : KeepsOthers cli find) where
  -- After `Reconcile` without an error of a service that was not found, a catalog of its namespace
  -- whose entries had different names does not list it, and lists every other name that it listed;
  -- the catalogs of other namespaces are as before.
  pub reconcile-gone :
      (req : Key) (e : Error) (w : W)
      → (cli.registered_services.get req w).0 ≡ err e
      → is_not_found e ≡ true
      → (reconcile cli platform req w).0 ≡ ok tt
      → (k : Key)
      → Changed
          (Relists (drops req.name))
          (k.namespace == req.namespace)
          (find w k)
          (find (reconcile cli platform req w).1 k)
  unfolding reconcile reconcile_found
  reconcile-gone req e w got gone h k =
      let v = (cli.registered_services.get req w).1 in
      let removed : reconcile cli platform req w
          ≡ remove_service_from_catalogs cli req.namespace req.name v =
        attempt-eq-ok (cli.registered_services.get req) (reconcile_found cli platform req) w h
        ∙ ap (λ r. reconcile_found cli platform req r v) got
        ∙ rw gone refl in
      let reads : find v k ≡ find w k = (others.service_get k (find w k) req).at w refl in
      rw (removed, sym reads)
        (remove_service_from_catalogs_lem cli find catalogs req.namespace req.name v
          (sym (ap (λ p. p.0) removed) ∙ h) k)
