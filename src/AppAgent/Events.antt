-- ===== src/AppAgent/Events.antt =====
-- servicebinding_controller_informers.go: what the agent does when a watched workload is added, changed
-- or deleted. An error ends the handler and is written to the log only.
use primaza.Common.{
  Bool, false, not, ◌&&◌, ◌||◌, String, Option, none, some, List, [], ◌∷◌, any, keep,
}
use primaza.Common.{◌==◌, string_eq}
use primaza.Common.Errors.{Error, Result, ok, err, panic}
use primaza.Common.Effects.{Action, pure, crash, attempt, ◌>>=◌, ◌>>◌, when}
use primaza.Api.{Condition, ServiceBinding, BoundWorkload, LabelSelector, lookup, ready}
use primaza.Cluster.{Client, Cluster}
use primaza.AppAgent.Containers.{Converter}
use primaza.AppAgent.Workloads.{Objects}
use primaza.AppAgent.Binder.{
  bound_condition, get_binding_secret, prepare_binding, update_service_binding_status,
}

abbrev pub has_value : Option String → String → Bool
has_value none value = false
has_value (some v) value = value == v

-- The loop over the labels of the workload.
abbrev pub selected : Option LabelSelector → List (String × String) → Bool
selected none labels = false
selected (some selector) labels = any (λ l. has_value (lookup l.0 selector.match_labels) l.1) labels

module _ {App Raw Vol : Type 0} (objects : Objects App Raw Vol) where
  -- `verifyApplicationSatisfiesServiceBindingSpec`
  unfoldable pub verify_application_satisfies_service_binding_spec : App → ServiceBinding → Bool
  verify_application_satisfies_service_binding_spec app sb =
      sb.spec.application.name == objects.app_name app
      || selected sb.spec.application.selector (objects.app_labels app)

  abbrev pub connected_to : App → List BoundWorkload → Bool
  connected_to app connections = any (λ w. w.name == objects.app_name app) connections

  abbrev pub without_connection : App → ServiceBinding → ServiceBinding
  without_connection app sb =
      let others = keep (λ b. not (b.name == objects.app_name app)) sb.status.connections in
      record sb { status = record (sb.status) { connections = others } }

-- An error is logged and dropped; a panic is not.
abbrev pub logged : {W A : Type 0} → Result A → Action W (Unit {0})
logged (ok a) = pure tt
logged (err e) = pure tt
logged panic = crash

-- `prepareDeleteFunc`'s condition
abbrev pub application_deleted : Condition
application_deleted =
    bound_condition "False" "NoMatchingWorkloads"
      "application was bound with the secret but the application got deleted"

module _ {W App Raw Vol : Type 0} (cli : Cluster W) (objects : Objects App Raw Vol)
    (converter : Converter Raw) (workloads : String → String → Client W App)
    (set_condition : List Condition → Condition → List Condition)
    (error_text : Error → String) where
  -- The handler of an added workload, and of a changed one as it is after the change. `sb` is the
  -- binding as it was when the informer was started.
  unfoldable pub bind_watched : ServiceBinding → App → Action W Unit
  bind_watched sb app = do
    secret ←
        get_binding_secret cli objects converter workloads set_condition error_text sb (app ∷ [])
    latest ←
        cli.service_bindings.get (record { namespace = sb.meta.namespace; name = sb.meta.name })
    prepare_binding cli objects converter workloads set_condition error_text latest secret
        (app ∷ [])
    pure tt

  -- `prepareAddFunc` and `prepareUpdateFunc`
  unfoldable pub handle_applied : Bool → ServiceBinding → App → Action W Unit
  handle_applied synced sb app =
      when (synced && verify_application_satisfies_service_binding_spec objects app sb)
        (do outcome ← attempt (bind_watched sb app); logged outcome)

  unfoldable pub unbind_deleted : ServiceBinding → App → Action W Unit
  unbind_deleted sb app = do
    latest ←
        cli.service_bindings.get (record { namespace = sb.meta.namespace; name = sb.meta.name })
    when (connected_to objects app latest.status.connections) (do
      update_service_binding_status cli objects converter workloads set_condition error_text
          (without_connection objects app latest) application_deleted ready
      pure tt)

  -- `prepareDeleteFunc`
  unfoldable pub handle_deleted : Bool → ServiceBinding → App → Action W Unit
  handle_deleted synced sb app =
      when synced (do outcome ← attempt (unbind_deleted sb app); logged outcome)
