-- ===== src/ControlPlane/Namespaces.antt =====
-- namespaces_binder.go, namespaces_unbinder.go and namespaces_reconciler.go.
use primaza.Common.{String, ◌<>◌, none, some, List, [], ◌∷◌, ◌++◌}
use primaza.Common.{string_eq}
use primaza.Common.Errors.{
  ok, err, panic, Outcome, message, is_not_found, is_already_exists, join, join_all,
}
use primaza.Common.Effects.{Action, pure, lift, attempt, ◌>>=◌, ◌>>◌, collect_errors}
use primaza.Api.{new_meta, lookup, SynchronizationStrategy}
use primaza.Cluster.{Cluster}
use primaza.Cluster.Builtin.{RoleBinding}
use primaza.ControlPlane.Naming.{
  NamespaceType, service, application, get_agent_role_names, bake_role_binding_name,
  bake_service_account_name, get_role_binding_name, bake_role_bindings_labels,
  role_bindings_label_selector, primaza_namespace_label,
}
use primaza.ControlPlane.Agents.{Manifests, push_agent, delete_agent, wrap, unless}
use primaza.Slices.{subtract}

-- The namespaces at which a call failed.
abbrev pub failed_at : String → Outcome → List String
failed_at ns (ok _) = []
failed_at ns (err e) = ns ∷ []
failed_at ns panic = []

-- The loop of `BindNamespaces` and `UnbindNamespaces`: it goes on after an error.
unfoldable pub visit_namespaces :
    {W : Type 0} → (String → Action W (Unit {0})) → List String → Action W (List String)
visit_namespaces f [] = pure []
visit_namespaces f (ns ∷ rest) = do
  r ← attempt (f ns)
  ens ← visit_namespaces f rest
  pure (failed_at ns r ++ ens)

-- What `%v` writes of a list between its brackets.
abbrev pub spaced : List String → String
spaced [] = ""
spaced (x ∷ []) = x
spaced (x ∷ (y ∷ xs)) = x <> " " <> spaced (y ∷ xs)

-- The error that names the namespaces, if there is one.
unfoldable pub report : String → List String → Outcome
report text [] = ok tt
report text (ns ∷ ens) = err (message (text <> ": [" <> spaced (ns ∷ ens) <> "]"))

-- `namespacesBinder`, without its clients.
pub record Binder : Type 0 where
  pub kind : NamespaceType
  pub agent_manifest : String
  pub agent_image : String
  pub agent_config : String
  pub strategy : SynchronizationStrategy

-- `namespacesUnbinder`, without its clients.
pub record Unbinder : Type 0 where
  pub kind : NamespaceType
  pub deployment_manifest : String
  pub config_map_manifest : String

-- `ClusterEnvironmentState`, without the cluster's configuration.
pub record EnvironmentState : Type 0 where
  pub name : String
  pub namespace : String
  pub application_namespaces : List String
  pub service_namespaces : List String
  pub app_agent_image : String
  pub svc_agent_image : String
  pub app_agent_manifest : String
  pub svc_agent_manifest : String
  pub app_agent_config_manifest : String
  pub svc_agent_config_manifest : String
  pub strategy : SynchronizationStrategy

-- The binders and unbinders that `NewNamespaceReconciler` makes.
unfoldable pub binder_of : EnvironmentState → NamespaceType → Binder
binder_of e application = record {
  kind = application;
  agent_manifest = e.app_agent_manifest;
  agent_image = e.app_agent_image;
  agent_config = e.app_agent_config_manifest;
  strategy = e.strategy;
}
binder_of e service = record {
  kind = service;
  agent_manifest = e.svc_agent_manifest;
  agent_image = e.svc_agent_image;
  agent_config = e.svc_agent_config_manifest;
  strategy = e.strategy;
}

unfoldable pub unbinder_of : EnvironmentState → NamespaceType → Unbinder
unbinder_of e application = record {
  kind = application;
  deployment_manifest = e.app_agent_manifest;
  config_map_manifest = e.app_agent_config_manifest;
}
unbinder_of e service = record {
  kind = service;
  deployment_manifest = e.svc_agent_manifest;
  config_map_manifest = e.svc_agent_config_manifest;
}

abbrev pub namespaces_of : EnvironmentState → NamespaceType → List String
namespaces_of e application = e.application_namespaces
namespaces_of e service = e.service_namespaces

-- The namespaces that the role bindings' labels name.
unfoldable pub labelled_namespaces : List RoleBinding → List String
labelled_namespaces [] = []
labelled_namespaces (rb ∷ rest) =
    let nss = labelled_namespaces rest in
    elim (lookup primaza_namespace_label rb.meta.labels) [ none ↦ nss | some ns ↦ ns ∷ nss ]

-- The control plane's cluster and the worker cluster.
module _ {W : Type 0} (pcli wcli : Cluster W) (manifests : Manifests) where
  -- `createRoleBinding`
  unfoldable pub create_role_binding :
      NamespaceType → String → String → String → String → Action W Unit
  create_role_binding kind ce_name ce_namespace namespace role = do
    r ← attempt (
        pcli.role_bindings.create (record {
          meta = record (new_meta (bake_role_binding_name role ce_name namespace) ce_namespace) {
            labels = bake_role_bindings_labels ce_name ce_namespace namespace kind;
          };
          role = role;
          service_account = bake_service_account_name kind ce_name namespace;
        })
        >> pure tt)
    lift (unless is_already_exists r)

  -- `createRoleBindings`
  unfoldable pub create_role_bindings : NamespaceType → String → String → String → Action W Unit
  create_role_bindings kind ce_name ce_namespace namespace = do
    errs ←
        collect_errors (create_role_binding kind ce_name ce_namespace namespace)
          (get_agent_role_names kind)
    lift (join_all errs)

  -- `bindNamespace`
  unfoldable pub bind_namespace : Binder → String → String → String → Action W Unit
  bind_namespace b ce_name ce_namespace namespace = do
    create_role_bindings b.kind ce_name ce_namespace namespace
    push_agent wcli manifests namespace ce_name b.agent_manifest b.agent_image b.agent_config
        b.strategy

  -- `BindNamespaces`
  unfoldable pub bind_namespaces : Binder → String → String → List String → Action W Unit
  bind_namespaces b ce_name ce_namespace namespaces = do
    ens ← visit_namespaces (bind_namespace b ce_name ce_namespace) namespaces
    lift (report "error binding namespaces" ens)

  -- `deleteRoleBinding`
  unfoldable pub delete_role_binding : String → String → String → Action W Unit
  delete_role_binding ce_name ce_namespace namespace = do
    r ← attempt (
        pcli.role_bindings.delete
          (record { namespace = ce_namespace; name = get_role_binding_name ce_name namespace }))
    lift (unless is_already_exists r)

  -- `unbindNamespace`
  unfoldable pub unbind_namespace : Unbinder → String → String → String → Action W Unit
  unbind_namespace u ce_name ce_namespace namespace = do
    r ← attempt (delete_role_binding ce_name ce_namespace namespace)
    lift (unless is_not_found r)
    d ← lift (wrap "unmarshal deployment error" (manifests.deployment u.deployment_manifest))
    c ← lift (wrap "unmarshal deployment error" (manifests.config_map u.config_map_manifest))
    a ← attempt (delete_agent wcli manifests namespace d.meta.name c.meta.name)
    lift (unless is_not_found a)

  -- `UnbindNamespaces`
  unfoldable pub unbind_namespaces : Unbinder → String → String → List String → Action W Unit
  unbind_namespaces u ce_name ce_namespace namespaces = do
    ens ← visit_namespaces (unbind_namespace u ce_name ce_namespace) namespaces
    lift (report "error unbinding namespaces" ens)

  -- `getAuthorizedNamespaces`
  unfoldable pub get_authorized_namespaces :
      EnvironmentState → NamespaceType → Action W (List String)
  get_authorized_namespaces e kind = do
    rbb ←
        pcli.role_bindings.list (record {
          namespace = some e.namespace;
          labels = role_bindings_label_selector e.name kind;
        })
    pure (labelled_namespaces rbb)

  -- `getOrphanNamespaces`
  unfoldable pub get_orphan_namespaces :
      EnvironmentState → NamespaceType → List String → Action W (List String)
  get_orphan_namespaces e kind requested = do
    ann ← get_authorized_namespaces e kind
    pure (subtract ann requested)

  -- `unbindOrphanNamespacesForType`
  unfoldable pub unbind_orphan_namespaces_for_type :
      EnvironmentState → NamespaceType → Action W Unit
  unbind_orphan_namespaces_for_type e kind = do
    nn ← get_orphan_namespaces e kind (namespaces_of e kind)
    unbind_namespaces (unbinder_of e kind) e.name e.namespace nn

  -- `unbindOrphanNamespaces`
  unfoldable pub unbind_orphan_namespaces : EnvironmentState → Action W Unit
  unbind_orphan_namespaces e = do
    aerr ← attempt (unbind_orphan_namespaces_for_type e application)
    serr ← attempt (unbind_orphan_namespaces_for_type e service)
    lift (join aerr serr)

  -- `bindNamespaces`
  unfoldable pub bind_all_namespaces : EnvironmentState → Action W Unit
  bind_all_namespaces e = do
    aerr ←
        attempt
          (bind_namespaces (binder_of e application) e.name e.namespace e.application_namespaces)
    serr ← attempt (bind_namespaces (binder_of e service) e.name e.namespace e.service_namespaces)
    lift (join aerr serr)

  -- `ReconcileNamespaces`
  unfoldable pub reconcile_namespaces : EnvironmentState → Action W Unit
  reconcile_namespaces e = do
    b ← attempt (bind_all_namespaces e)
    u ← attempt (unbind_orphan_namespaces e)
    lift (join b u)
