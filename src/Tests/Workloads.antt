-- ===== src/Tests/Workloads.antt =====
-- The agent of an application namespace on a world in memory.
use primaza.Common.Effects.{◌>>=◌}
use primaza.Common.Effects.{when}
use primaza.Common.Effects.{collect_errors}
use primaza.AppAgent.Workloads.{update_containers}
use primaza.AppAgent.Workloads.{update_both}
use primaza.AppAgent.Workloads.{prepare_container_with_mounts}
use primaza.AppAgent.Workloads.{mount_in}
use primaza.AppAgent.Steps.{agent_step}
use primaza.AppAgent.Events.{unbind_deleted}
use primaza.AppAgent.Events.{handle_deleted}
use primaza.AppAgent.Containers.{update_container_info}
use primaza.AppAgent.Containers.{convert_each}
use primaza.AppAgent.Binder.{update_service_binding_status_with_binding_result}
use primaza.AppAgent.Binder.{update_service_binding_status}
use primaza.AppAgent.Binder.{secret_read}
use primaza.AppAgent.Binder.{bind_applications}
use mathlib.Core.Option
use primaza.Common.{
  ◌≡◌, refl, sym, ◌∙◌, ap, true, ◌⊎◌, inl, inr, String, Option, none, some, List, [], ◌∷◌, ◌++◌,
  Bool-cases,
}
use primaza.Common.{◌==◌, string_eq, eq_of_test}
use primaza.Common.Errors.{Error, ok}
use primaza.Common.Effects.{pure}
use primaza.Api.{
  Key, key_eq, key_of, new_meta, Condition, Secret, ServiceBinding, ServiceBindingStatus, ready,
}
use primaza.Cluster.{Client}
use primaza.Cluster.Memory.{look, memory}
use primaza.Cluster.Memory.Frames.{
  memory_get, memory_update, memory_update_status_one, memory_update_status_ok, memory_update_one,
}
use primaza.AppAgent.Containers.{Container, Converter}
use primaza.AppAgent.Workloads.{containers, init_containers, SecretVolume, Objects}
use primaza.AppAgent.Informers.{Informers}
use primaza.AppAgent.Binder.{prepare_binding, get_binding_secret}
use primaza.AppAgent.Reconciler.{reconcile_binding}
use primaza.AppAgent.Events.{bind_watched}
use primaza.AppAgent.Steps.{AgentStep, removed, after_steps}
use primaza.AppAgent.Finalizers.{NoFinalizer, Leaves, LeavesFinalizers, deleted-untouched}
use primaza.AppAgent.Connections.{bound_status, prepare_binding-ok, bind_watched-ok}
use primaza.Tests.World.{
  World, Workload, empty_world, cluster, platform, binding_kind, secret_kind, workload_kind,
}

-- Workloads without labels that are read and written as they are.
abbrev objects : Objects Workload Container SecretVolume
objects = record {
  app_name = λ app. app.meta.name;
  app_labels = λ app. app.meta.labels;
  volumes = λ app. ok (some app.volumes);
  set_volumes = λ app l. ok (record app { volumes = l });
  volume_name = λ v. v.name;
  volume_of = λ v. ok v;
  containers_at = λ path app.
      ok (some (elim path [ containers ↦ app.containers | init_containers ↦ app.init_containers ]));
  set_containers = λ path app l. ok (elim path [
    | containers ↦ record app { containers = l }
    | init_containers ↦ record app { init_containers = l }
  ]);
}

abbrev converter : Converter Container
converter = record { from_unstructured = λ c. ok c; to_unstructured = λ c. ok c }

abbrev workloads : String → String → Client World Workload
workloads kind version = memory workload_kind

-- Informers that sync at once.
abbrev informers : Informers World (Unit {0})
informers = record {
  rest_mapping = λ kind version. ok tt;
  running = λ w. w.running;
  set_running = λ l w. record w { running = l };
  start = λ r sb. pure tt;
  stop = λ name. pure tt;
  wait_for_cache_sync = pure true;
}

-- The newest condition stands last.
abbrev set_condition : List Condition → Condition → List Condition
set_condition l c = l ++ (c ∷ [])

abbrev error_text : Error → String
error_text e = "error"

abbrev pub app_binding : ServiceBinding
app_binding = record {
  meta = new_meta "orders" "apps";
  spec = record {
    service_endpoint_definition_secret = "orders-secret";
    application = record {
      api_version = "apps/v1";
      kind = "Deployment";
      name = "shop";
      selector = none;
    };
    envs = record { name = "HOST"; key = "host" } ∷ [];
  };
  status = record { conditions = []; state = ready; connections = record { name = "shop" } ∷ [] };
}

abbrev shop : Workload
shop = record {
  meta = new_meta "shop" "apps";
  volumes = [];
  containers = record { env = []; volume_mounts = []; other_fields = "image" } ∷ [];
  init_containers = [];
}

abbrev orders_secret : Secret
orders_secret = record { meta = new_meta "orders-secret" "apps"; content = []; string_data = [] }

abbrev leaving : ServiceBinding
leaving = record app_binding {
  meta = record (app_binding.meta) { name = "old"; deletion_timestamp = some "now" };
}

abbrev agent_world : World
agent_world = record empty_world {
  service_bindings = app_binding ∷ leaving ∷ [];
  secrets = orders_secret ∷ [];
  workloads = shop ∷ [];
}

abbrev finalizers_of : Option ServiceBinding → List String
finalizers_of none = []
finalizers_of (some sb) = sb.meta.finalizers

abbrev stored_finalizers : World → Key → List String
stored_finalizers w k = finalizers_of (look binding_kind w k)

with_status_finalizers :
    (sb : ServiceBinding) (o : Option ServiceBinding)
    → finalizers_of (Option.map (λ x. binding_kind.set_status x sb) o) ≡ finalizers_of o
with_status_finalizers sb none = refl
with_status_finalizers sb (some x) = refl

with_old_status_finalizers :
    (sb : ServiceBinding) (o : Option ServiceBinding)
    → (finalizers_of (Option.map (binding_kind.keep_status sb) o) ≡ finalizers_of o)
      ⊎ (finalizers_of (Option.map (binding_kind.keep_status sb) o) ≡ sb.meta.finalizers)
with_old_status_finalizers sb none = inl refl
with_old_status_finalizers sb (some x) = inr refl

update_status-Leaves :
    (sb : ServiceBinding) → Leaves stored_finalizers (cluster.service_bindings.update_status sb)
update_status-Leaves sb w k =
    ap finalizers_of
      (memory_update_status_one binding_kind (λ l v. refl) sb w (λ x same. sym same) k)
    ∙ elim (Bool-cases (k == key_of sb.meta)) [
      | inl at ↦ rw at (
          with_status_finalizers sb (look binding_kind w (key_of sb.meta))
          ∙ ap (stored_finalizers w) (sym (eq_of_test k (key_of sb.meta) at)))
      | inr differ ↦ rw differ refl
    ]

update_writes :
    (sb : ServiceBinding) (w : World) (k : Key)
    → (stored_finalizers (cluster.service_bindings.update sb w).1 k ≡ stored_finalizers w k)
      ⊎ (stored_finalizers (cluster.service_bindings.update sb w).1 k ≡ sb.meta.finalizers)
update_writes sb w k =
    let key = key_of sb.meta in
    let one =
      ap finalizers_of (memory_update_one binding_kind (λ l v. refl) sb w (λ x same. refl) k) in
    elim (Bool-cases (k == key)) [
      | inl at ↦ elim (with_old_status_finalizers sb (look binding_kind w key)) [
        | inl old ↦ inl (one ∙ rw at (old ∙ ap (stored_finalizers w) (sym (eq_of_test k key at))))
        | inr new ↦ inr (one ∙ rw at new)
      ]
      | inr differ ↦ inl (one ∙ rw differ refl)
    ]

abbrev Unchanged : World → Key → World → Type 0
Unchanged w k v = stored_finalizers v k ≡ stored_finalizers w k

leaves : LeavesFinalizers cluster workloads informers stored_finalizers
unfolding pure
leaves = record {
  binding_get = λ q w k. (memory_get binding_kind (Unchanged w k) q).at w refl;
  binding_status = update_status-Leaves;
  binding_update = update_writes;
  secret_get = λ q w k. (memory_get secret_kind (Unchanged w k) q).at w refl;
  secret_update = λ s w k. (memory_update secret_kind (Unchanged w k) (λ l v h. h) s).at w refl;
  workload_get = λ kind version q w k. (memory_get workload_kind (Unchanged w k) q).at w refl;
  workload_list = λ kind version o w k. refl;
  workload_update = λ kind version app w k.
      (memory_update workload_kind (Unchanged w k) (λ l v h. h) app).at w refl;
  start = λ r sb w k. refl;
  stop = λ name w k. refl;
  wait = λ w k. refl;
  set_running = λ l w k. refl;
}

no_marks : NoFinalizer stored_finalizers agent_world
no_marks k = elim (Bool-cases (k == key_of app_binding.meta)) [
  | inl at ↦ rw at refl
  | inr differ ↦ rw differ (elim (Bool-cases (k == key_of leaving.meta)) [
    | inl at ↦ rw at refl
    | inr other ↦ rw other refl
  ])
]

abbrev steps : List (AgentStep Workload)
steps = removed true app_binding shop ∷ []

abbrev later_world : World
later_world =
    after_steps cluster platform objects converter workloads informers set_condition error_text
      steps agent_world

deleted-untouched_example :
    reconcile_binding cluster platform objects converter workloads informers set_condition
      error_text
      (key_of leaving.meta)
      later_world
    ≡ (ok tt, (cluster.service_bindings.get (key_of leaving.meta) later_world).1)
unfolding after_steps agent_step handle_deleted when ◌>>=◌ unbind_deleted key_eq string_eq
    update_service_binding_status
deleted-untouched_example =
    deleted-untouched cluster platform objects converter workloads informers set_condition
      error_text stored_finalizers leaves agent_world no_marks steps (key_of leaving.meta) leaving
      refl refl refl

abbrev stored_status : World → Key → Option ServiceBindingStatus
stored_status w k = Option.map (λ sb. sb.status) (look binding_kind w k)

update_status_ok :
    (sb sb' : ServiceBinding) (w : World)
    → (cluster.service_bindings.update_status sb w).0 ≡ ok sb'
    → stored_status (cluster.service_bindings.update_status sb w).1 (key_of sb.meta)
      ≡ some sb.status
update_status_ok sb sb' w h =
    let (x, e) =
      memory_update_status_ok binding_kind (λ l v. refl) sb sb' w (λ x same. sym same) h in
    ap (Option.map (λ (o : ServiceBinding). o.status)) e

prepare_binding-ok_example :
    stored_status
      (prepare_binding cluster objects converter workloads set_condition error_text app_binding
        orders_secret
        (shop ∷ [])
        agent_world).1
      (key_of app_binding.meta)
    ≡ some (bound_status set_condition objects.app_name app_binding (shop ∷ []))
unfolding prepare_binding ◌>>=◌ bind_applications collect_errors prepare_container_with_mounts
    mount_in update_both update_containers update_container_info convert_each key_eq string_eq
    update_service_binding_status_with_binding_result update_service_binding_status
prepare_binding-ok_example =
    prepare_binding-ok cluster objects converter workloads set_condition error_text stored_status
      update_status_ok app_binding
      (record app_binding {
        status = bound_status set_condition objects.app_name app_binding (shop ∷ []);
      })
      orders_secret (shop ∷ []) agent_world refl

bind_watched-ok_example :
    (latest : ServiceBinding) × ((cluster.service_bindings.get
        (key_of app_binding.meta)
        (get_binding_secret cluster objects converter workloads set_condition error_text app_binding
          (shop ∷ [])
          agent_world).1).0
      ≡ ok latest)
    × (stored_status
          (bind_watched cluster objects converter workloads set_condition error_text app_binding
            shop agent_world).1
          (key_of latest.meta)
        ≡ some (bound_status set_condition objects.app_name latest (shop ∷ [])))
unfolding bind_watched ◌>>=◌ get_binding_secret key_eq string_eq secret_read prepare_binding
    bind_applications collect_errors prepare_container_with_mounts mount_in update_both
    update_containers update_container_info convert_each
    update_service_binding_status_with_binding_result update_service_binding_status
bind_watched-ok_example =
    bind_watched-ok cluster objects converter workloads set_condition error_text stored_status
      update_status_ok app_binding shop agent_world refl
