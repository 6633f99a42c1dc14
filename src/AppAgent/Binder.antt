-- ===== src/AppAgent/Binder.antt =====
-- servicebinding_controller.go: the binding of the workloads that were found, and the status of a
-- binding.
use primaza.Common.{none, String, List, [], ◌∷◌, map}
use primaza.Common.{string_eq}
use primaza.Common.Errors.{Error, Result, ok, err, panic, join_all, Outcome}
use primaza.Common.Effects.{Action, pure, raise, lift, crash, attempt, ◌>>=◌, ◌>>◌, collect_errors}
use primaza.Api.{
  Condition, Secret, ServiceBinding, ServiceBindingState, ready, malformed, BoundWorkload,
}
use primaza.Cluster.{Client, Cluster}
use primaza.AppAgent.Containers.{Converter}
use primaza.AppAgent.Workloads.{Objects, prepare_container_with_mounts, unbind_applications}

-- `metav1.Condition` of a binding.
abbrev pub bound_condition : String → String → String → Condition
bound_condition status reason text = record {
  type = "Bound";
  status = status;
  reason = reason;
  message = text;
  observed_generation = 0;
  last_transition_time = none;
}

abbrev pub outcome_text : (Error → String) → Outcome → String
outcome_text error_text (ok _) = ""
outcome_text error_text (err e) = error_text e
outcome_text error_text panic = ""

abbrev pub connections_of : {A : Type 0} → (A → String) → List A → List BoundWorkload
connections_of name apps = map (λ app. record { name = name app }) apps

module _ {W App Raw Vol : Type 0} (cli : Cluster W) (objects : Objects App Raw Vol)
    (converter : Converter Raw) (workloads : String → String → Client W App)
    (set_condition : List Condition → Condition → List Condition)
    (error_text : Error → String) where
  -- `updateServiceBindingStatus`; the server's answer is written over the binding.
  unfoldable pub update_service_binding_status :
      ServiceBinding → Condition → ServiceBindingState → Action W ServiceBinding
  update_service_binding_status sb condition state = cli.service_bindings.update_status (record sb {
    status = record (sb.status) {
      conditions = set_condition sb.status.conditions condition;
      state = state;
    };
  })

  -- `updateServiceBindingStatusWithBindingResult`
  unfoldable pub update_service_binding_status_with_binding_result :
      ServiceBinding → List Error → Action W ServiceBinding
  update_service_binding_status_with_binding_result sb [] =
      update_service_binding_status sb (bound_condition "True" "Successful" "") ready
  update_service_binding_status_with_binding_result sb (e ∷ el) =
      update_service_binding_status sb
        (bound_condition "False" "Binding Failure" (outcome_text error_text (join_all (e ∷ el))))
        malformed

  abbrev pub with_connections : List App → ServiceBinding → ServiceBinding
  with_connections apps sb = record sb {
    status = record (sb.status) { connections = connections_of objects.app_name apps };
  }

  -- `bindApplications`, with the binding as the server answered it.
  unfoldable pub bind_applications :
      ServiceBinding → String → Vol → List App → Action W ServiceBinding
  bind_applications sb secret_name volume applications = do
    el ←
        collect_errors
          (prepare_container_with_mounts objects converter workloads sb secret_name sb.meta.name
            sb.meta.name volume)
          applications
    sb' ← update_service_binding_status_with_binding_result (with_connections applications sb) el
    lift (join_all el)
    pure sb'

  -- `PrepareBinding`
  unfoldable pub prepare_binding : ServiceBinding → Secret → List App → Action W ServiceBinding
  prepare_binding sb secret applications = do
    volume ← lift (
        objects.volume_of (record {
          name = sb.meta.name;
          secret_name = sb.spec.service_endpoint_definition_secret;
        }))
    bind_applications sb secret.meta.name volume applications

  unfoldable pub secret_read : ServiceBinding → List App → Result Secret → Action W Secret
  secret_read sb applications (ok secret) = pure secret
  secret_read sb applications (err e) = do
    update_service_binding_status sb (bound_condition "False" "ErrorFetchSecret" (error_text e))
        malformed
    unbind_applications objects converter workloads sb applications
    raise e
  secret_read sb applications panic = crash

  -- `GetSecret`
  unfoldable pub get_binding_secret : ServiceBinding → List App → Action W Secret
  get_binding_secret sb applications = do
    found ← attempt (
        cli.secrets.get (record {
          namespace = sb.meta.namespace;
          name = sb.spec.service_endpoint_definition_secret;
        }))
    secret_read sb applications found
