-- ===== src/Tests/Catalogs.antt =====
-- The handler of registered services on a world in memory.
use primaza.Registered.{with_service}
use primaza.Registered.{service_in_catalog}
use primaza.Registered.{remove_service_from_catalog}
use primaza.Registered.{
  reconcile_found, add_indexed, reconcile_catalog, add_service_to_catalog,
  remove_service_from_catalog, remove_indexed, with_service,
}
use primaza.Registered.{reconcile_catalog}
use primaza.Registered.{add_service_to_catalog}
use primaza.EnvTag.{matches}
use primaza.Common.Effects.{◌>>=◌}
use primaza.Common.Effects.{collect_errors}
use primaza.Api.{key_eq}
use primaza.Api.{get_environment_constraints}
use primaza.Common.{◌≡◌, ◌≢◌, refl, false, Option, [], ◌∷◌, String, ◌==◌, string_eq, any}
use primaza.Tests.World.{
  World, catalog_world, cluster, platform, database, catalog_kind, service_kind, cron_job_kind,
  job_kind,
}
use primaza.Cluster.Memory.Frames.{
  memory_get, memory_list, memory_update_status, memory_delete, memory_create_or_update,
}
use primaza.Common.Errors.{ok, err, api, not_found}
use primaza.Cluster.Memory.{look, memory-IsStore}
use primaza.Cluster.Stores.{Changed}
use primaza.Cluster.Builtin.{Job}
use primaza.Api.{Key, ServiceCatalog, available, claimed, unreachable, service_state_eq, new_meta}
use primaza.Registered.CatalogLaws.{KeepsCatalogs, Settles, Relists, drops, reconcile_catalogs_lem}
use primaza.Registered.ReconcileLaws.{KeepsOthers, reconcile-gone}
use primaza.Registered.StateLaws.{
  checked_state-jobs_loop, checks-lose-claim, succeeds, states_after,
}
use primaza.Registered.{
  reconcile_catalogs, remove_service_from_catalogs, reconcile, checked_state, jobs_loop,
  service_in_catalog, reconcile_found, add_indexed, reconcile_catalog, add_service_to_catalog,
  remove_service_from_catalog, remove_indexed, with_service,
}

abbrev catalogs : World → Key → Option ServiceCatalog
catalogs = look catalog_kind

keeps_catalogs : KeepsCatalogs cluster catalogs
keeps_catalogs = record {
  store = memory-IsStore catalog_kind (λ l w. refl) (λ o old. refl);
  claims_read = λ o w k. refl;
}

abbrev prod_key : Key
prod_key = record { namespace = "primaza"; name = "prod" }

abbrev gone_key : Key
gone_key = record { namespace = "primaza"; name = "gone" }

reconciled : (reconcile_catalogs cluster database catalog_world).0 ≡ ok tt
unfolding reconcile_catalogs ◌>>=◌ collect_errors string_eq reconcile_catalog matches
    get_environment_constraints add_service_to_catalog service_in_catalog key_eq with_service
    remove_service_from_catalog
reconciled = refl

reconcile_catalogs_lem_example :
    Changed
      (Settles database)
      (prod_key.namespace == database.meta.namespace)
      (catalogs catalog_world prod_key)
      (catalogs (reconcile_catalogs cluster database catalog_world).1 prod_key)
reconcile_catalogs_lem_example =
    reconcile_catalogs_lem cluster catalogs keeps_catalogs database catalog_world reconciled
      prod_key

removed : (remove_service_from_catalogs cluster "primaza" "database" catalog_world).0 ≡ ok tt
unfolding remove_service_from_catalogs ◌>>=◌ collect_errors string_eq remove_service_from_catalog
    service_in_catalog key_eq
removed = refl

keeps_others : KeepsOthers cluster catalogs
keeps_others = record {
  service_get = λ k o. memory_get service_kind _;
  service_status = λ k o. memory_update_status service_kind _ (λ l w h. h);
  cron_job_get = λ k o. memory_get cron_job_kind _;
  cron_job_list = λ k o. memory_list cron_job_kind _ (λ l w h. h);
  cron_job_delete = λ k o. memory_delete cron_job_kind _ (λ l w h. h);
  cron_job_create_or_update = λ k o. memory_create_or_update cron_job_kind _ (λ l w h. h);
  job_list = λ k o. memory_list job_kind _ (λ l w h. h);
}

missing : (cluster.registered_services.get gone_key catalog_world).0 ≡ err (api not_found)
unfolding key_eq string_eq
missing = refl

handled_gone : (reconcile cluster platform gone_key catalog_world).0 ≡ ok tt
unfolding reconcile ◌>>=◌ key_eq string_eq reconcile_found remove_service_from_catalogs
    collect_errors remove_service_from_catalog service_in_catalog
handled_gone = refl

reconcile-gone_example :
    Changed
      (Relists (drops "gone"))
      (prod_key.namespace == gone_key.namespace)
      (catalogs catalog_world prod_key)
      (catalogs (reconcile cluster platform gone_key catalog_world).1 prod_key)
reconcile-gone_example =
    reconcile-gone cluster platform catalogs keeps_catalogs keeps_others gone_key (api not_found)
      catalog_world missing refl handled_gone prod_key

abbrev job_ended : String → Job
job_ended end = record {
  meta = record (new_meta "job" "primaza") {
    owner_references =
        record { api_version = "v1"; kind = "CronJob"; name = "database"; uid = "c1" } ∷ [];
  };
  conditions = record { type = end; status = "True" } ∷ [];
}

checked_state-jobs_loop_example :
    checked_state (jobs_loop "c1" (job_ended "Complete" ∷ []) (false, false)) unreachable
    ≡ available
unfolding string_eq service_state_eq
checked_state-jobs_loop_example =
    checked_state-jobs_loop "c1" (job_ended "Complete" ∷ []) unreachable

no_success : any (succeeds "c1") (job_ended "Failed" ∷ []) ≡ false
unfolding string_eq
no_success = refl

checks-lose-claim_example :
    states_after "c1"
      (checked_state (jobs_loop "c1" (job_ended "Failed" ∷ []) (false, false)) claimed)
      ((job_ended "Complete" ∷ []) ∷ [])
    ≢ claimed
checks-lose-claim_example =
    checks-lose-claim (job_ended "Failed" ∷ []) "c1" ((job_ended "Complete" ∷ []) ∷ []) no_success
