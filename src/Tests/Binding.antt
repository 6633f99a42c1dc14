-- ===== src/Tests/Binding.antt =====
-- Namespaces bound and unbound on a world in memory.
use primaza.Slices.{subtract}
use primaza.ControlPlane.{get_authorized_namespaces}
use primaza.Common.Effects.{◌>>=◌}
use primaza.Api.{key_eq}
use primaza.Common.{
  ◌≡◌, refl, true, not, ◌&&◌, Option, none, some, List, [], ◌∷◌, String, ◌<>◌, contains, string_eq,
  Distinct,
}
use primaza.Common.Errors.{ok, err, message, Outcome}
use primaza.Common.Effects.Keeps.{Keeps}
use primaza.Tests.World.{
  World, empty_world, cluster, role_binding_kind, deployment_kind, config_map_kind,
}
use primaza.Cluster.Builtin.{RoleBinding, Deployment, ConfigMap}
use primaza.Cluster.Memory.{look}
use primaza.Cluster.Memory.Frames.{memory_delete, memory_deletes_one}
use primaza.Api.{Key, new_meta, push}
use primaza.ControlPlane.{
  Binder, Unbinder, EnvironmentState, Manifests, bind_namespace, bind_namespaces, unbind_namespace,
  spaced, get_orphan_namespaces, labelled_namespaces,
}
use primaza.ControlPlane.Naming.{
  application, get_agent_role_names, role_bindings_label_selector, bake_role_bindings_labels,
}
use primaza.ControlPlane.Names.{Holds, made, unbind_namespace-Keeps}
use primaza.ControlPlane.Visits.{Visits, bind_namespaces_lem, get_orphan_namespaces_lem}

abbrev test_deployment : Deployment
test_deployment = record {
  meta = new_meta "agent" "";
  labels = some [];
  template_labels = some [];
  container_images = "old" ∷ [];
}

abbrev test_config : ConfigMap
test_config = record { meta = new_meta "config" ""; labels = none; content = some [] }

abbrev pub manifests : Manifests
manifests = record { deployment = λ text. ok test_deployment; config_map = λ text. ok test_config }

abbrev binder : Binder
binder = record {
  kind = application;
  agent_manifest = "d";
  agent_image = "image";
  agent_config = "c";
  strategy = push;
}

abbrev unbinder : Unbinder
unbinder = record { kind = application; deployment_manifest = "d"; config_map_manifest = "c" }

abbrev bind_all : List String → World → Outcome × World
bind_all namespaces = bind_namespaces cluster cluster manifests binder "worker" "primaza" namespaces

bind_namespaces_lem_example :
    ((bind_all ("apps" ∷ []) empty_world).0 ≡ ok tt
      → Visits
          (bind_namespace cluster cluster manifests binder "worker" "primaza")
          ("apps" ∷ [])
          empty_world
          []
          (bind_all ("apps" ∷ []) empty_world).1)
    × ((v : World)
        → Visits
            (bind_namespace cluster cluster manifests binder "worker" "primaza")
            ("apps" ∷ [])
            empty_world
            []
            v
        → bind_all ("apps" ∷ []) empty_world ≡ (ok tt, v))
    × ((ns : String) (ens : List String) (v : World)
        → Visits
            (bind_namespace cluster cluster manifests binder "worker" "primaza")
            ("apps" ∷ [])
            empty_world
            (ns ∷ ens)
            v
        → bind_all ("apps" ∷ []) empty_world
          ≡ (err (message ("error binding namespaces" <> ": [" <> spaced (ns ∷ ens) <> "]")), v))
bind_namespaces_lem_example =
    bind_namespaces_lem cluster cluster manifests binder "worker" "primaza" ("apps" ∷ [])
      empty_world

-- A cluster environment that asks for one of the two namespaces that are bound.
abbrev environment : EnvironmentState
environment = record {
  name = "worker";
  namespace = "primaza";
  application_namespaces = "apps" ∷ [];
  service_namespaces = [];
  app_agent_image = "image";
  svc_agent_image = "image";
  app_agent_manifest = "d";
  svc_agent_manifest = "d";
  app_agent_config_manifest = "c";
  svc_agent_config_manifest = "c";
  strategy = push;
}

abbrev bound : World
bound = record empty_world {
  role_bindings =
      record {
        meta = record (new_meta "a" "primaza") {
          labels = bake_role_bindings_labels "worker" "primaza" "apps" application;
        };
        role = "primaza-claimer";
        service_account = "sa";
      }
      ∷ record {
        meta = record (new_meta "b" "primaza") {
          labels = bake_role_bindings_labels "worker" "primaza" "old" application;
        };
        role = "primaza-claimer";
        service_account = "sa";
      }
      ∷ [];
}

orphans :
    (get_orphan_namespaces cluster cluster manifests environment application ("apps" ∷ []) bound).0
    ≡ ok ("old" ∷ [])
unfolding get_orphan_namespaces ◌>>=◌ get_authorized_namespaces subtract labelled_namespaces
    role_bindings_label_selector bake_role_bindings_labels string_eq key_eq
orphans = refl

get_orphan_namespaces_lem_example :
    (rbb : List RoleBinding) × ((cluster.role_bindings.list
        (record {
          namespace = some "primaza";
          labels = role_bindings_label_selector "worker" application;
        })
        bound).0
      ≡ ok rbb)
    × Distinct {A = String} ("old" ∷ [])
    × ((ns : String)
        → contains ("old" ∷ []) ns
          ≡ (contains (labelled_namespaces rbb) ns && not (contains ("apps" ∷ []) ns)))
get_orphan_namespaces_lem_example =
    get_orphan_namespaces_lem cluster cluster manifests environment application ("apps" ∷ []) bound
      ("old" ∷ []) orphans

abbrev role_bindings : World → Key → Option RoleBinding
role_bindings = look role_binding_kind

deployments_apart :
    (k other : Key) (w : World)
    → role_bindings (cluster.deployments.delete k w).1 other ≡ role_bindings w other
deployments_apart k other w =
    (memory_delete deployment_kind (Holds role_bindings other (role_bindings w other)) (λ l v h. h)
        k).at
      w refl

config_maps_apart :
    (k other : Key) (w : World)
    → role_bindings (cluster.config_maps.delete k w).1 other ≡ role_bindings w other
config_maps_apart k other w =
    (memory_delete config_map_kind (Holds role_bindings other (role_bindings w other)) (λ l v h. h)
        k).at
      w refl

claimer_role : contains (get_agent_role_names application) "primaza-claimer" ≡ true
unfolding get_agent_role_names string_eq
claimer_role = refl

unbind_namespace-Keeps_example :
    Keeps
      (Holds role_bindings (made "primaza-claimer" "worker" "primaza" "apps") none)
      (unbind_namespace cluster cluster manifests unbinder "worker" "primaza" "apps")
unbind_namespace-Keeps_example =
    unbind_namespace-Keeps cluster cluster manifests role_bindings
      (memory_deletes_one role_binding_kind (λ l w. refl)) deployments_apart config_maps_apart
      unbinder application "primaza-claimer" "worker" "primaza" "apps" claimer_role none
