-- ===== src/AppAgent/Connections.antt =====
-- The workloads that the status of a binding names.
use primaza.Common.{◌≡◌, ◌∙◌, ap, String, Option, some, List, [], ◌∷◌}
use primaza.Common.Errors.{Error, ok, join_all, join_all-eq-ok}
use primaza.Common.Effects.{Action, pure, lift, ◌>>=◌, ◌>>◌, collect_errors, >>=-eq-ok}
use primaza.Api.{Key, key_of, Condition, Secret, ServiceBinding, ServiceBindingStatus, ready}
use primaza.Cluster.{Client, Cluster}
use primaza.AppAgent.Containers.{Converter}
use primaza.AppAgent.Workloads.{Objects, prepare_container_with_mounts}
use primaza.AppAgent.Binder.{
  bound_condition, connections_of, with_connections, update_service_binding_status,
  update_service_binding_status_with_binding_result, bind_applications, prepare_binding,
  get_binding_secret,
}
use primaza.AppAgent.Events.{bind_watched}

-- The status of a binding that was bound to some workloads without a failure.
abbrev pub bound_status :
    {App : Type 0}
    → (List Condition → Condition → List Condition)
    → (App → String)
    → ServiceBinding
    → List App
    → ServiceBindingStatus
bound_status set_condition app_name sb apps = record (sb.status) {
  connections = connections_of app_name apps;
  conditions = set_condition sb.status.conditions (bound_condition "True" "Successful" "");
  state = ready;
}

module _ {W App Raw Vol : Type 0} (cli : Cluster W) (objects : Objects App Raw Vol)
    (converter : Converter Raw) (workloads : String → String → Client W App)
    (set_condition : List Condition → Condition → List Condition) (error_text : Error → String)
    (stored : W → Key → Option ServiceBindingStatus)
    (update_status_ok : (sb sb' : ServiceBinding) (w : W)
      → (cli.service_bindings.update_status sb w).0 ≡ ok sb'
      → stored (cli.service_bindings.update_status sb w).1 (key_of sb.meta) ≡ some sb.status) where
  abbrev finish : List Error → ServiceBinding → Action W ServiceBinding
  finish el sb = lift (join_all el) >> pure sb

  abbrev result : ServiceBinding → List Error → Action W ServiceBinding
  result sb el =
      update_service_binding_status_with_binding_result cli objects converter workloads
        set_condition error_text sb el

  result-ok :
      (sb sb' : ServiceBinding) (apps : List App) (el : List Error) (w : W)
      → ((result
              (with_connections cli objects converter workloads set_condition error_text apps sb)
              el
            >>= finish el)
          w).0
        ≡ ok sb'
      → stored
          ((result
                (with_connections cli objects converter workloads set_condition error_text apps sb)
                el
              >>= finish el)
            w).1
          (key_of sb.meta)
        ≡ some (bound_status set_condition objects.app_name sb apps)
  unfolding update_service_binding_status_with_binding_result update_service_binding_status ◌>>=◌
  result-ok sb sb' apps [] w h =
      let (a, updated, _, same) =
        >>=-eq-ok (cli.service_bindings.update_status _) (finish []) w h in
      ap (λ p. stored p.1 (key_of sb.meta)) same ∙ update_status_ok _ a w updated
  result-ok sb sb' apps (e ∷ el) w h =
      let (a, _, joined, _) =
        >>=-eq-ok (cli.service_bindings.update_status _) (finish (e ∷ el)) w h in
      let (u, ended, _, _) = >>=-eq-ok (lift (join_all (e ∷ el))) (λ _. pure a) _ joined in
      let impossible : e ∷ el ≡ [] = join_all-eq-ok (e ∷ el) ended in cc

  bind_applications-ok :
      (sb sb' : ServiceBinding) (name : String) (volume : Vol) (apps : List App) (w : W)
      → (bind_applications cli objects converter workloads set_condition error_text sb name volume
          apps w).0
        ≡ ok sb'
      → stored
          (bind_applications cli objects converter workloads set_condition error_text sb name volume
            apps w).1
          (key_of sb.meta)
        ≡ some (bound_status set_condition objects.app_name sb apps)
  unfolding bind_applications
  bind_applications-ok sb sb' name volume apps w h =
      let prepare =
        prepare_container_with_mounts objects converter workloads sb name sb.meta.name sb.meta.name
          volume in
      let (el, _, rest, same) =
        >>=-eq-ok (collect_errors prepare apps)
          (λ el.
            result
              (with_connections cli objects converter workloads set_condition error_text apps sb) el
            >>= finish el)
          w h in
      ap (λ p. stored p.1 (key_of sb.meta)) same ∙ result-ok sb sb' apps el _ rest

  -- A binding whose preparation returns without an error is stored as ready and bound, with exactly the
  -- workloads that were given, where a change of the status is stored when it succeeds.
  pub prepare_binding-ok :
      (sb sb' : ServiceBinding) (secret : Secret) (apps : List App) (w : W)
      → (prepare_binding cli objects converter workloads set_condition error_text sb secret apps
          w).0
        ≡ ok sb'
      → stored
          (prepare_binding cli objects converter workloads set_condition error_text sb secret apps
            w).1
          (key_of sb.meta)
        ≡ some (bound_status set_condition objects.app_name sb apps)
  unfolding prepare_binding ◌>>=◌
  prepare_binding-ok sb sb' secret apps w h =
      let volume = objects.volume_of (record {
        name = sb.meta.name;
        secret_name = sb.spec.service_endpoint_definition_secret;
      }) in
      let (v, _, rest, same) =
        >>=-eq-ok (lift volume)
          (λ v.
            bind_applications cli objects converter workloads set_condition error_text sb
              secret.meta.name v apps)
          w h in
      ap (λ p. stored p.1 (key_of sb.meta)) same
      ∙ bind_applications-ok sb sb' secret.meta.name v apps w rest

  -- After a watched workload was bound without an error, the stored status of the binding that was read
  -- names that workload alone: the workloads that it named before are forgotten. A change of the status
  -- is taken to be stored when it succeeds.
  pub bind_watched-ok :
      (sb : ServiceBinding) (app : App) (w : W)
      → (bind_watched cli objects converter workloads set_condition error_text sb app w).0 ≡ ok tt
      → (latest : ServiceBinding) × ((cli.service_bindings.get
            (key_of sb.meta)
            (get_binding_secret cli objects converter workloads set_condition error_text sb
              (app ∷ [])
              w).1).0
          ≡ ok latest)
        × (stored
              (bind_watched cli objects converter workloads set_condition error_text sb app w).1
              (key_of latest.meta)
            ≡ some (bound_status set_condition objects.app_name latest (app ∷ [])))
  unfolding bind_watched ◌>>=◌
  bind_watched-ok sb app w h =
      let secret =
        get_binding_secret cli objects converter workloads set_condition error_text sb (app ∷ []) in
      let (s, _, h1, same1) = >>=-eq-ok secret _ w h in
      let (latest, read, h2, same2) =
        >>=-eq-ok (cli.service_bindings.get (key_of sb.meta)) _ _ h1 in
      let (sb', bound, _, same3) =
        >>=-eq-ok
          (prepare_binding cli objects converter workloads set_condition error_text latest s
            (app ∷ []))
          (λ _. pure tt) _ h2 in
      (
        latest,
        read,
        ap (λ p. stored p.1 (key_of latest.meta)) (same1 ∙ same2 ∙ same3)
            ∙ prepare_binding-ok latest sb' s (app ∷ []) _ bound,
      )
