-- ===== src/AppAgent/Reconciler.antt =====
-- servicebinding_controller.go: `Reconcile` of service bindings in the agent.
use primaza.Common.{String, List, [], ◌∷◌, ◌++◌, without, contains}
use primaza.Common.{string_eq, if◌then◌else◌}
use primaza.Common.Errors.{Error, Result, ok, err, panic, ignore_not_found, join_all}
use primaza.Common.Effects.{Action, pure, raise, lift, crash, attempt, ◌>>=◌, ◌>>◌, when}
use primaza.Api.{Key, Condition, ServiceBinding, ready, has_deletion_timestamp}
use primaza.Cluster.{Client, Cluster, Platform}
use primaza.AppAgent.Containers.{Converter}
use primaza.AppAgent.Workloads.{
  Objects, unbind_applications, get_bound_applications, get_application,
}
use primaza.AppAgent.Informers.{
  Informers, ensure_informer_is_running_for_service_binding, stop_informer,
}
use primaza.AppAgent.Binder.{
  bound_condition, update_service_binding_status, get_binding_secret, prepare_binding,
}

abbrev pub service_binding_finalizer : String
service_binding_finalizer = "servicebindings.primaza.io/finalizer"

abbrev pub with_binding_finalizers : List String → ServiceBinding → ServiceBinding
with_binding_finalizers l sb = record sb { meta = record (sb.meta) { finalizers = l } }

module _ {W Config App Raw Vol Resource : Type 0} (cli : Cluster W) (platform : Platform W Config)
    (objects : Objects App Raw Vol) (converter : Converter Raw)
    (workloads : String → String → Client W App) (informers : Informers W Resource)
    (set_condition : List Condition → Condition → List Condition)
    (error_text : Error → String) where
  -- `finalizeServiceBinding`
  unfoldable pub finalize_service_binding : ServiceBinding → Action W Unit
  finalize_service_binding sb = do
    stop_informer informers sb.meta.name
    (applications, errs) ← get_bound_applications objects converter workloads sb
    unbind_applications objects converter workloads sb applications
    lift (join_all errs)

  unfoldable pub finalize_binding : ServiceBinding → Action W Unit
  finalize_binding sb = when (contains sb.meta.finalizers service_binding_finalizer) (do
    finalize_service_binding sb
    cli.service_bindings.update
        (with_binding_finalizers (without service_binding_finalizer sb.meta.finalizers) sb)
    pure tt)

  -- The finalizer is added to the object in memory.
  abbrev pub with_added_finalizer : ServiceBinding → ServiceBinding
  with_added_finalizer sb =
      if contains sb.meta.finalizers service_binding_finalizer
      then sb
      else with_binding_finalizers (sb.meta.finalizers ++ (service_binding_finalizer ∷ [])) sb

  unfoldable pub applications_found : ServiceBinding → Result (List App) → Action W (List App)
  applications_found sb (ok applications) = pure applications
  applications_found sb (err e) = do
    update_service_binding_status cli objects converter workloads set_condition error_text sb
        (bound_condition "False" "NoMatchingWorkloads" (error_text e)) ready
    raise e
  applications_found sb panic = crash

  -- The rest of `Reconcile`, for a binding that is not deleted.
  unfoldable pub reconcile_live : ServiceBinding → Action W Unit
  reconcile_live sb = do
    ensure_informer_is_running_for_service_binding informers sb
    found ← attempt (get_application objects converter workloads sb)
    applications ← applications_found sb found
    secret ←
        get_binding_secret cli objects converter workloads set_condition error_text sb applications
    sb' ←
        prepare_binding cli objects converter workloads set_condition error_text sb secret
          applications
    owned ← lift (platform.set_controller_reference sb'.meta secret.meta)
    cli.secrets.update (record secret { meta = owned })
    pure tt

  unfoldable pub reconcile_binding_found : Result ServiceBinding → Action W Unit
  reconcile_binding_found (ok sb) =
      if has_deletion_timestamp sb.meta
      then finalize_binding sb
      else reconcile_live (with_added_finalizer sb)
  reconcile_binding_found (err e) = lift (ignore_not_found e)
  reconcile_binding_found panic = crash

  -- `ServiceBindingReconciler.Reconcile`
  unfoldable pub reconcile_binding : Key → Action W Unit
  reconcile_binding req = do
    found ← attempt (cli.service_bindings.get req)
    reconcile_binding_found found
