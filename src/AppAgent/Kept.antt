-- ===== src/AppAgent/Kept.antt =====
-- What the calls of the agent keep, its functions on workloads and on informers keep.
pub mod Visits
use primaza.Common.{
  ◌≡◌, refl, sym, ◌∙◌, ap, Bool, true, false, not, ◌&&◌, ◌⊎◌, String, Option, none, some, List, [],
  ◌∷◌, ◌++◌, without, contains, arith, contains-without,
}
use primaza.Common.{◌==◌, string_eq, if◌then◌else◌, eq_self}
use primaza.Common.Errors.{Error, Result, ok, err, panic}
use primaza.Common.Effects.{Action, pure, lift, attempt, ◌>>=◌, ◌>>◌, when}
use primaza.Common.Effects.Keeps.{
  Keeps, Keeps-bind, Keeps-lift, Keeps-pure, Keeps-raise, Keeps-crash, Keeps-if, Keeps-when,
  Keeps-attempt, Keeps-collect_errors, keeps_rules,
}
use primaza.Api.{
  Key, Condition, Secret, ServiceBinding, BoundWorkload, LabelSelector, has_deletion_timestamp,
}
use primaza.Cluster.{Client, Cluster, Platform, ListOptions}
use primaza.AppAgent.Containers.{Converter}
use primaza.AppAgent.Workloads.{
  Objects, client_of, mount_in, unmount_in, prepare_container_with_mounts, update_unmounted,
  remove_volume_mount_and_environment, unbind_applications, look_up_workloads,
  get_bound_applications, none_found, select_applications, get_application,
}
use primaza.AppAgent.Informers.{
  Informers, get_running, put_running, check_synced, ensure_informer_is_running_for_resource,
  ensure_informer_is_running_for_service_binding, stop_informer,
}
use primaza.AppAgent.Binder.{
  update_service_binding_status, update_service_binding_status_with_binding_result,
  bind_applications, prepare_binding, secret_read, get_binding_secret,
}
use primaza.AppAgent.Reconciler.{
  service_binding_finalizer, with_binding_finalizers, finalize_service_binding, finalize_binding,
  applications_found, reconcile_live, reconcile_binding_found, reconcile_binding,
}
use primaza.AppAgent.Events.{logged, bind_watched, handle_applied, unbind_deleted, handle_deleted}
use primaza.AppAgent.Steps.{AgentStep, visited, applied, removed, agent_step, after_steps}

-- The calls that the agent makes keep `P`. The finalizer is never among those that are written.
module _ {W App Resource : Type 0} (cli : Cluster W) (workloads : String → String → Client W App)
    (informers : Informers W Resource) (P : W → Type 0) where
  pub record KeepsCalls : Type 0 where
    pub binding_get : (k : Key) → Keeps P (cli.service_bindings.get k)
    pub binding_status : (sb : ServiceBinding) → Keeps P (cli.service_bindings.update_status sb)
    pub binding_update :
        (sb : ServiceBinding)
        → contains sb.meta.finalizers service_binding_finalizer ≡ false
        → Keeps P (cli.service_bindings.update sb)
    pub secret_get : (k : Key) → Keeps P (cli.secrets.get k)
    pub secret_update : (s : Secret) → Keeps P (cli.secrets.update s)
    pub workload_get : (kind version : String) (k : Key) → Keeps P ((workloads kind version).get k)
    pub workload_list :
        (kind version : String) (o : ListOptions) → Keeps P ((workloads kind version).list o)
    pub workload_update :
        (kind version : String) (app : App) → Keeps P ((workloads kind version).update app)
    pub start : (r : Resource) (sb : ServiceBinding) → Keeps P (informers.start r sb)
    pub stop : (name : String) → Keeps P (informers.stop name)
    pub wait : Keeps P informers.wait_for_cache_sync
    pub set_running : (l : List String) (w : W) → P w → P (informers.set_running l w)

module _ {W App Raw Vol Resource : Type 0} (cli : Cluster W) (objects : Objects App Raw Vol)
    (converter : Converter Raw) (workloads : String → String → Client W App)
    (informers : Informers W Resource) (P : W → Type 0)
    (calls : KeepsCalls cli workloads informers P) where
  workload_get-Keeps : (kind version : String) (k : Key) → Keeps P ((workloads kind version).get k)
  workload_get-Keeps = calls.workload_get

  workload_list-Keeps :
      (kind version : String) (o : ListOptions) → Keeps P ((workloads kind version).list o)
  workload_list-Keeps = calls.workload_list

  workload_update-Keeps :
      (kind version : String) (app : App) → Keeps P ((workloads kind version).update app)
  workload_update-Keeps = calls.workload_update

  start-Keeps : (r : Resource) (sb : ServiceBinding) → Keeps P (informers.start r sb)
  start-Keeps = calls.start

  stop-Keeps : (name : String) → Keeps P (informers.stop name)
  stop-Keeps = calls.stop

  wait-Keeps : Keeps P informers.wait_for_cache_sync
  wait-Keeps = calls.wait

  get_running-Keeps : Keeps P (get_running informers)
  get_running-Keeps = record { at = λ w h. h }

  put_running-Keeps : (l : List String) → Keeps P (put_running informers l)
  put_running-Keeps l = record { at = λ w h. calls.set_running l w h }

  ruleset call_rules = (
    keeps_rules, workload_get-Keeps, workload_list-Keeps, workload_update-Keeps, start-Keeps,
    stop-Keeps, wait-Keeps, get_running-Keeps, put_running-Keeps,
  )

  unmount-Keeps :
      (sb : ServiceBinding) (u : Option App)
      → Keeps P (update_unmounted objects converter workloads sb u)
  unfolding update_unmounted
  unmount-Keeps sb none = Keeps-pure tt
  unmount-Keeps sb (some app) = search (call_rules)

  unmounted-Keeps :
      (sb : ServiceBinding) (name : String) (app : App)
      → Keeps P (remove_volume_mount_and_environment objects converter workloads sb name app)
  unfolding remove_volume_mount_and_environment
  unmounted-Keeps sb name app = search (call_rules, unmount-Keeps)

  pub unbind-Keeps :
      (sb : ServiceBinding) (apps : List App)
      → Keeps P (unbind_applications objects converter workloads sb apps)
  unfolding unbind_applications
  unbind-Keeps sb apps =
      Keeps-bind _ _ (Keeps-collect_errors _ (unmounted-Keeps sb sb.meta.name) apps)
        (λ el. Keeps-lift _)

  look_up-Keeps :
      (sb : ServiceBinding) (l : List BoundWorkload)
      → Keeps P (look_up_workloads objects converter workloads sb l)
  unfolding look_up_workloads
  look_up-Keeps sb [] = Keeps-pure _
  look_up-Keeps sb (bw ∷ l) =
      Keeps-bind _ _ (Keeps-attempt _ (workload_get-Keeps _ _ _))
        (λ r. Keeps-bind _ _ (look_up-Keeps sb l) (λ p. Keeps-pure _))

  pub bound_applications-Keeps :
      (sb : ServiceBinding) → Keeps P (get_bound_applications objects converter workloads sb)
  unfolding get_bound_applications
  bound_applications-Keeps sb = look_up-Keeps sb sb.status.connections

  none_found-Keeps : (apps : List App) → Keeps P (none_found objects converter workloads apps)
  none_found-Keeps [] = Keeps-raise _
  none_found-Keeps (app ∷ apps) = Keeps-pure _

  select-Keeps :
      (sb : ServiceBinding) (s : Option LabelSelector)
      → Keeps P (select_applications objects converter workloads sb s)
  unfolding select_applications
  select-Keeps sb none = none_found-Keeps []
  select-Keeps sb (some s) = Keeps-bind _ _ (workload_list-Keeps _ _ _) none_found-Keeps

  pub get_application-Keeps :
      (sb : ServiceBinding) → Keeps P (get_application objects converter workloads sb)
  unfolding get_application
  get_application-Keeps sb = search (call_rules, select-Keeps)

  pub mounted-Keeps :
      (sb : ServiceBinding) (secret dir name : String) (v : Vol) (app : App)
      → Keeps P (prepare_container_with_mounts objects converter workloads sb secret dir name v app)
  unfolding prepare_container_with_mounts
  mounted-Keeps sb secret dir name v app = search (call_rules)

  check_synced-Keeps :
      (name : String) (synced : Bool) → Keeps P (check_synced informers name synced)
  unfolding check_synced
  check_synced-Keeps name true = Keeps-pure tt
  check_synced-Keeps name false = search (call_rules)

  ensure-Keeps :
      (r : Resource) (sb : ServiceBinding)
      → Keeps P (ensure_informer_is_running_for_resource informers r sb)
  unfolding ensure_informer_is_running_for_resource
  ensure-Keeps r sb = search (call_rules, check_synced-Keeps) depth 14

  pub ensure_binding-Keeps :
      (sb : ServiceBinding) → Keeps P (ensure_informer_is_running_for_service_binding informers sb)
  unfolding ensure_informer_is_running_for_service_binding
  ensure_binding-Keeps sb = search (keeps_rules, ensure-Keeps)

  pub stop_informer-Keeps : (name : String) → Keeps P (stop_informer informers name)
  unfolding stop_informer
  stop_informer-Keeps name = search (call_rules) depth 14
