-- ===== src/AppAgent/Kept/Visits.antt =====
-- What the calls of the agent keep, its steps keep.
use primaza.Common.{refl, ◌∙◌, String, List, [], ◌∷◌, contains-without}
use primaza.Common.{string_eq, eq_self}
use primaza.Common.Errors.{Error, Result, ok, err, panic}
use primaza.Common.Effects.Keeps.{
  Keeps, Keeps-bind, Keeps-lift, Keeps-pure, Keeps-crash, Keeps-when, Keeps-attempt,
  Keeps-collect_errors, keeps_rules,
}
use primaza.Api.{Key, Condition, Secret, ServiceBinding}
use primaza.Cluster.{Client, Cluster, Platform}
use primaza.AppAgent.Containers.{Converter}
use primaza.AppAgent.Workloads.{Objects, unbind_applications}
use primaza.AppAgent.Informers.{Informers}
use primaza.AppAgent.Binder.{
  update_service_binding_status, update_service_binding_status_with_binding_result,
  bind_applications, prepare_binding, secret_read, get_binding_secret,
}
use primaza.AppAgent.Reconciler.{
  service_binding_finalizer, finalize_service_binding, finalize_binding, applications_found,
  reconcile_live, reconcile_binding_found, reconcile_binding,
}
use primaza.AppAgent.Events.{logged, bind_watched, handle_applied, unbind_deleted, handle_deleted}
use primaza.AppAgent.Steps.{AgentStep, visited, applied, removed, agent_step, after_steps}
use primaza.AppAgent.Kept.{
  KeepsCalls, unbind-Keeps, bound_applications-Keeps, get_application-Keeps, mounted-Keeps,
  ensure_binding-Keeps, stop_informer-Keeps,
}

module _ {W Config App Raw Vol Resource : Type 0} (cli : Cluster W) (platform : Platform W Config)
    (objects : Objects App Raw Vol) (converter : Converter Raw)
    (workloads : String → String → Client W App) (informers : Informers W Resource)
    (set_condition : List Condition → Condition → List Condition) (error_text : Error → String)
    (P : W → Type 0) (calls : KeepsCalls cli workloads informers P) where
  binding_get-Keeps : (k : Key) → Keeps P (cli.service_bindings.get k)
  binding_get-Keeps = calls.binding_get

  binding_status-Keeps : (sb : ServiceBinding) → Keeps P (cli.service_bindings.update_status sb)
  binding_status-Keeps = calls.binding_status

  secret_get-Keeps : (k : Key) → Keeps P (cli.secrets.get k)
  secret_get-Keeps = calls.secret_get

  secret_update-Keeps : (s : Secret) → Keeps P (cli.secrets.update s)
  secret_update-Keeps = calls.secret_update

  unbinding-Keeps :
      (sb : ServiceBinding) (apps : List App)
      → Keeps P (unbind_applications objects converter workloads sb apps)
  unbinding-Keeps = unbind-Keeps cli objects converter workloads informers P calls

  ruleset visit_rules = (
    keeps_rules, binding_get-Keeps, binding_status-Keeps, secret_get-Keeps, secret_update-Keeps,
    unbinding-Keeps,
  )

  status-Keeps :
      (sb : ServiceBinding) (c : Condition) (s : _)
      → Keeps P (
          update_service_binding_status cli objects converter workloads set_condition error_text sb
            c s)
  unfolding update_service_binding_status
  status-Keeps sb c s = binding_status-Keeps _

  result-Keeps :
      (sb : ServiceBinding) (el : List Error)
      → Keeps P (
          update_service_binding_status_with_binding_result cli objects converter workloads
            set_condition error_text sb el)
  unfolding update_service_binding_status_with_binding_result
  result-Keeps sb [] = status-Keeps _ _ _
  result-Keeps sb (e ∷ el) = status-Keeps _ _ _

  bind_applications-Keeps :
      (sb : ServiceBinding) (name : String) (v : Vol) (apps : List App)
      → Keeps P (
          bind_applications cli objects converter workloads set_condition error_text sb name v apps)
  unfolding bind_applications
  bind_applications-Keeps sb name v apps =
      Keeps-bind _ _
        (Keeps-collect_errors _
          (mounted-Keeps cli objects converter workloads informers P calls sb name sb.meta.name
            sb.meta.name v)
          apps)
        (λ el. search (visit_rules, result-Keeps))

  prepare-Keeps :
      (sb : ServiceBinding) (s : Secret) (apps : List App)
      → Keeps P (prepare_binding cli objects converter workloads set_condition error_text sb s apps)
  unfolding prepare_binding
  prepare-Keeps sb s apps = search (visit_rules, bind_applications-Keeps)

  secret_read-Keeps :
      (sb : ServiceBinding) (apps : List App) (r : Result Secret)
      → Keeps P (secret_read cli objects converter workloads set_condition error_text sb apps r)
  unfolding secret_read
  secret_read-Keeps sb apps (ok s) = Keeps-pure s
  secret_read-Keeps sb apps (err e) = search (visit_rules, status-Keeps)
  secret_read-Keeps sb apps panic = Keeps-crash

  secret-Keeps :
      (sb : ServiceBinding) (apps : List App)
      → Keeps P
          (get_binding_secret cli objects converter workloads set_condition error_text sb apps)
  unfolding get_binding_secret
  secret-Keeps sb apps = search (visit_rules, secret_read-Keeps)

  applications_found-Keeps :
      (sb : ServiceBinding) (r : Result (List App))
      → Keeps P (
          applications_found cli platform objects converter workloads informers set_condition
            error_text sb r)
  unfolding applications_found
  applications_found-Keeps sb (ok apps) = Keeps-pure apps
  applications_found-Keeps sb (err e) = search (visit_rules, status-Keeps)
  applications_found-Keeps sb panic = Keeps-crash

  live-Keeps :
      (sb : ServiceBinding)
      → Keeps P (
          reconcile_live cli platform objects converter workloads informers set_condition error_text
            sb)
  unfolding reconcile_live
  live-Keeps sb =
      Keeps-bind _ _ (ensure_binding-Keeps cli objects converter workloads informers P calls sb)
        (λ _.
          Keeps-bind _ _
            (Keeps-attempt _
              (get_application-Keeps cli objects converter workloads informers P calls sb))
            (λ found.
              search (visit_rules, applications_found-Keeps, secret-Keeps, prepare-Keeps) depth 14))

  finalized-Keeps :
      (sb : ServiceBinding)
      → Keeps P (
          finalize_service_binding cli platform objects converter workloads informers set_condition
            error_text sb)
  unfolding finalize_service_binding
  finalized-Keeps sb =
      Keeps-bind _ _
        (stop_informer-Keeps cli objects converter workloads informers P calls sb.meta.name)
        (λ _.
          Keeps-bind _ _
            (bound_applications-Keeps cli objects converter workloads informers P calls sb)
            (λ p. search (visit_rules)))

  finalize-Keeps :
      (sb : ServiceBinding)
      → Keeps P (
          finalize_binding cli platform objects converter workloads informers set_condition
            error_text sb)
  unfolding finalize_binding
  finalize-Keeps sb = Keeps-when _ _ (λ marked. Keeps-bind _ _ (finalized-Keeps sb) (λ _.
      Keeps-bind _ _
        (calls.binding_update _ (
          contains-without service_binding_finalizer service_binding_finalizer sb.meta.finalizers
          ∙ rw (eq_self service_binding_finalizer) refl))
        (λ _. Keeps-pure tt)))

  found-Keeps :
      (r : Result ServiceBinding)
      → Keeps P (
          reconcile_binding_found cli platform objects converter workloads informers set_condition
            error_text r)
  unfolding reconcile_binding_found
  found-Keeps (ok sb) = search (keeps_rules, finalize-Keeps, live-Keeps)
  found-Keeps (err e) = Keeps-lift _
  found-Keeps panic = Keeps-crash

  visit-Keeps :
      (req : Key)
      → Keeps P (
          reconcile_binding cli platform objects converter workloads informers set_condition
            error_text req)
  unfolding reconcile_binding
  visit-Keeps req = search (visit_rules, found-Keeps)

  logged-Keeps : {A : Type 0} (r : Result A) → Keeps P (logged {W = W} r)
  logged-Keeps (ok a) = Keeps-pure tt
  logged-Keeps (err e) = Keeps-pure tt
  logged-Keeps panic = Keeps-crash

  bind_watched-Keeps :
      (sb : ServiceBinding) (app : App)
      → Keeps P (bind_watched cli objects converter workloads set_condition error_text sb app)
  unfolding bind_watched
  bind_watched-Keeps sb app = search (visit_rules, secret-Keeps, prepare-Keeps) depth 14

  unbind_deleted-Keeps :
      (sb : ServiceBinding) (app : App)
      → Keeps P (unbind_deleted cli objects converter workloads set_condition error_text sb app)
  unfolding unbind_deleted
  unbind_deleted-Keeps sb app = search (visit_rules, status-Keeps) depth 14

  step-Keeps :
      (s : AgentStep App)
      → Keeps P
          (agent_step cli platform objects converter workloads informers set_condition error_text s)
  unfolding agent_step handle_applied handle_deleted
  step-Keeps (visited req) = visit-Keeps req
  step-Keeps (applied synced sb app) = search (keeps_rules, logged-Keeps, bind_watched-Keeps)
  step-Keeps (removed synced sb app) = search (keeps_rules, logged-Keeps, unbind_deleted-Keeps)

  -- What every call of the agent keeps, a sequence of its steps keeps.
  pub after_steps-Keeps :
      (l : List (AgentStep App)) (w : W)
      → P w
      → P (
          after_steps cli platform objects converter workloads informers set_condition error_text l
            w)
  unfolding after_steps
  after_steps-Keeps [] w h = h
  after_steps-Keeps (s ∷ l) w h = after_steps-Keeps l _ ((step-Keeps s).at w h)
