-- ===== src/AppAgent/Finalizers.antt =====
-- The finalizer of a binding, which the agent adds to its copy of the binding only.
use primaza.Common.{◌≡◌, refl, ◌∙◌, ap, true, false, ◌⊎◌, inl, inr, String, List, contains}
use primaza.Common.{string_eq}
use primaza.Common.Errors.{Error, ok}
use primaza.Common.Effects.{Action, ◌>>=◌, when}
use primaza.Common.Effects.Keeps.{Keeps}
use primaza.Api.{Key, Condition, Secret, ServiceBinding, has_deletion_timestamp}
use primaza.Cluster.{Client, Cluster, Platform, ListOptions}
use primaza.AppAgent.Containers.{Converter}
use primaza.AppAgent.Workloads.{Objects}
use primaza.AppAgent.Informers.{Informers}
use primaza.AppAgent.Reconciler.{
  service_binding_finalizer, finalize_binding, reconcile_binding_found, reconcile_binding,
}
use primaza.AppAgent.Steps.{AgentStep, after_steps}
use primaza.AppAgent.Kept.{KeepsCalls}
use primaza.AppAgent.Kept.Visits.{after_steps-Keeps}

-- No stored binding has the finalizer; `stored` are the finalizers of the binding of a key.
abbrev pub NoFinalizer : {W : Type 0} → (W → Key → List String) → W → Type 0
NoFinalizer stored w = (k : Key) → contains (stored w k) service_binding_finalizer ≡ false

-- The call leaves the finalizers of bindings alone.
abbrev pub Leaves : {W A : Type 0} → (W → Key → List String) → Action W A → Type 0
Leaves {W} stored m = (w : W) (k : Key) → stored (m w).1 k ≡ stored w k

module _ {W App Resource : Type 0} (cli : Cluster W) (workloads : String → String → Client W App)
    (informers : Informers W Resource) (stored : W → Key → List String) where
  -- Documented behaviour of the server: a change of the status, and a change of another object,
  -- leaves the finalizers of bindings; an update stores those that it is given, or fails.
  pub record LeavesFinalizers : Type 0 where
    pub binding_get : (k : Key) → Leaves stored (cli.service_bindings.get k)
    pub binding_status :
        (sb : ServiceBinding) → Leaves stored (cli.service_bindings.update_status sb)
    pub binding_update :
        (sb : ServiceBinding) (w : W) (k : Key)
        → (stored (cli.service_bindings.update sb w).1 k ≡ stored w k)
          ⊎ (stored (cli.service_bindings.update sb w).1 k ≡ sb.meta.finalizers)
    pub secret_get : (k : Key) → Leaves stored (cli.secrets.get k)
    pub secret_update : (s : Secret) → Leaves stored (cli.secrets.update s)
    pub workload_get :
        (kind version : String) (k : Key) → Leaves stored ((workloads kind version).get k)
    pub workload_list :
        (kind version : String) (o : ListOptions) → Leaves stored ((workloads kind version).list o)
    pub workload_update :
        (kind version : String) (app : App) → Leaves stored ((workloads kind version).update app)
    pub start : (r : Resource) (sb : ServiceBinding) → Leaves stored (informers.start r sb)
    pub stop : (name : String) → Leaves stored (informers.stop name)
    pub wait : Leaves stored informers.wait_for_cache_sync
    pub set_running :
        (l : List String) (w : W) (k : Key) → stored (informers.set_running l w) k ≡ stored w k

  module _ (leaves : LeavesFinalizers) where
    Leaves-Keeps : {A : Type 0} (m : Action W A) → Leaves stored m → Keeps (NoFinalizer stored) m
    Leaves-Keeps m same = record {
      at = λ w h k. ap (λ l. contains l service_binding_finalizer) (same w k) ∙ h k;
    }

    written :
        (sb : ServiceBinding) (w : W) (k : Key)
        → contains sb.meta.finalizers service_binding_finalizer ≡ false
        → contains (stored w k) service_binding_finalizer ≡ false
        → contains (stored (cli.service_bindings.update sb w).1 k) service_binding_finalizer ≡ false
    written sb w k new old = elim (leaves.binding_update sb w k) [
      | inl same ↦ ap (λ l. contains l service_binding_finalizer) same ∙ old
      | inr given ↦ ap (λ l. contains l service_binding_finalizer) given ∙ new
    ]

    calls_keep : KeepsCalls cli workloads informers (NoFinalizer stored)
    calls_keep = record {
      binding_get = λ k. Leaves-Keeps _ (leaves.binding_get k);
      binding_status = λ sb. Leaves-Keeps _ (leaves.binding_status sb);
      binding_update = λ sb no_mark. record { at = λ w h k. written sb w k no_mark (h k) };
      secret_get = λ k. Leaves-Keeps _ (leaves.secret_get k);
      secret_update = λ s. Leaves-Keeps _ (leaves.secret_update s);
      workload_get = λ kind version k. Leaves-Keeps _ (leaves.workload_get kind version k);
      workload_list = λ kind version o. Leaves-Keeps _ (leaves.workload_list kind version o);
      workload_update =
          λ kind version app. Leaves-Keeps _ (leaves.workload_update kind version app);
      start = λ r sb. Leaves-Keeps _ (leaves.start r sb);
      stop = λ name. Leaves-Keeps _ (leaves.stop name);
      wait = Leaves-Keeps _ leaves.wait;
      set_running = λ l w h k.
          ap (λ l. contains l service_binding_finalizer) (leaves.set_running l w k) ∙ h k;
    }

module _ {W Config App Raw Vol Resource : Type 0} (cli : Cluster W) (platform : Platform W Config)
    (objects : Objects App Raw Vol) (converter : Converter Raw)
    (workloads : String → String → Client W App) (informers : Informers W Resource)
    (set_condition : List Condition → Condition → List Condition)
    (error_text : Error → String) where
  abbrev visit : Key → Action W Unit
  visit =
      reconcile_binding cli platform objects converter workloads informers set_condition error_text

  unmarked :
      (sb : ServiceBinding) (w : W)
      → contains sb.meta.finalizers service_binding_finalizer ≡ false
      → has_deletion_timestamp sb.meta ≡ true
      → reconcile_binding_found cli platform objects converter workloads informers set_condition
          error_text
          (ok sb)
          w
        ≡ (ok tt, w)
  unfolding reconcile_binding_found finalize_binding when ◌>>=◌
  unmarked sb w no_mark deleted = rw (deleted, no_mark) refl

  visit-ok :
      (req : Key) (w : W) (sb : ServiceBinding)
      → (cli.service_bindings.get req w).0 ≡ ok sb
      → contains sb.meta.finalizers service_binding_finalizer ≡ false
      → has_deletion_timestamp sb.meta ≡ true
      → visit req w ≡ (ok tt, (cli.service_bindings.get req w).1)
  unfolding reconcile_binding ◌>>=◌
  visit-ok req w sb found no_mark deleted = rw found (unmarked sb _ no_mark deleted)

  -- From a state in which no stored binding has the finalizer, after any sequence of visits and
  -- events, the visit of a binding that is being deleted only reads it: no workload is unbound. The
  -- servers behave as documented, and the binding is read as it is stored.
  pub deleted-untouched :
      (stored : W → Key → List String)
      → LeavesFinalizers cli workloads informers stored
      → (start : W) → NoFinalizer stored start
      → (l : List (AgentStep App)) (req : Key) (sb : ServiceBinding)
      → let w =
          after_steps cli platform objects converter workloads informers set_condition error_text l
            start in
        (cli.service_bindings.get req w).0 ≡ ok sb
        → sb.meta.finalizers ≡ stored w req
        → has_deletion_timestamp sb.meta ≡ true
        → reconcile_binding cli platform objects converter workloads informers set_condition
            error_text req w
          ≡ (ok tt, (cli.service_bindings.get req w).1)
  deleted-untouched stored leaves start no_mark l req sb found as_stored deleted =
      let calls = calls_keep cli workloads informers stored leaves in
      let kept =
        after_steps-Keeps cli platform objects converter workloads informers set_condition
          error_text (NoFinalizer stored) calls l start no_mark in
      visit-ok req _ sb found (ap (λ l. contains l service_binding_finalizer) as_stored ∙ kept req)
        deleted
