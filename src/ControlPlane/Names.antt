-- ===== src/ControlPlane/Names.antt =====
-- labels.go and namespaces_unbinder.go: the names of role bindings, made and deleted.
use primaza.Common.{
  ◌≡◌, ◌≢◌, sym, ◌∙◌, ap, ◌+◌, String, ◌<>◌, [], ◌∷◌, true, contains, string_eq, arith,
}
use primaza.Common.{eq_of_test, trim_prefix}
use Prim.Native.String.{len}
use text.Mathlib.TextPositions.{len-append}
use primaza.Common.{Option}
use primaza.Common.Effects.Keeps.{Keeps, Keeps-bind, Keeps-attempt, Keeps-lift, keeps_rules}
use primaza.Api.{Key}
use primaza.Cluster.{Cluster}
use primaza.Cluster.Builtin.{RoleBinding}
use primaza.ControlPlane.Agents.{Manifests, delete_agent}
use primaza.ControlPlane.Namespaces.{Unbinder, delete_role_binding, unbind_namespace}
use primaza.ControlPlane.Naming.{
  NamespaceType, service, application, get_agent_role_names, bake_role_binding_name,
  get_role_binding_name,
}

-- Two texts of different lengths in front of the same text, one of them with a dash between.
other_prefix : (p q s : String) → len p + 1 ≢ len q → p <> "-" <> s ≢ q <> s
other_prefix p q s differ same =
    let sizes : len (p <> "-" <> s) ≡ len (q <> s) = ap len same in
    differ (omega (arith, len-append p ("-" <> s), len-append "-" s, len-append q s))

role_of : (name role : String) → contains (name ∷ []) role ≡ true → role ≡ name
role_of name role m = eq_of_test role name (ground arith)

-- The unbinder never deletes a role binding that the binder makes: for no role of an agent are the
-- two names equal.
pub get_role_binding_name_lem :
    (kind : NamespaceType) (role ce_name namespace : String)
    → contains (get_agent_role_names kind) role ≡ true
    → bake_role_binding_name role ce_name namespace ≢ get_role_binding_name ce_name namespace
unfolding get_agent_role_names trim_prefix bake_role_binding_name get_role_binding_name
get_role_binding_name_lem service role ce_name namespace m same =
    other_prefix "primaza-reporter" "primaza-" (ce_name <> "-" <> namespace) (λ e. omega arith)
      (sym
          (ap (λ r. bake_role_binding_name r ce_name namespace) (role_of "primaza-reporter" role m))
        ∙ same)
get_role_binding_name_lem application role ce_name namespace m same =
    other_prefix "primaza-claimer" "primaza-" (ce_name <> "-" <> namespace) (λ e. omega arith)
      (sym (ap (λ r. bake_role_binding_name r ce_name namespace) (role_of "primaza-claimer" role m))
        ∙ same)

-- The role binding that a world holds under a key.
abbrev pub Holds :
    {W : Type 0} → (W → Key → Option RoleBinding) → Key → Option RoleBinding → W → Type 0
Holds find k rb w = find w k ≡ rb

-- The key of the role binding that the binder makes for a role at a namespace.
abbrev pub made : String → String → String → String → Key
made role ce_name ce_namespace namespace = record {
  namespace = ce_namespace;
  name = bake_role_binding_name role ce_name namespace;
}

-- What an API server documents of deletions, as far as the role bindings of one cluster go.
module _ {W : Type 0} (pcli wcli : Cluster W) (manifests : Manifests)
    (find : W → Key → Option RoleBinding)
    (deletes_one : (k other : Key) (w : W)
      → other ≢ k
      → find (pcli.role_bindings.delete k w).1 other ≡ find w other)
    (keeps_deployments : (k other : Key) (w : W)
      → find (wcli.deployments.delete k w).1 other ≡ find w other)
    (keeps_config_maps : (k other : Key) (w : W)
      → find (wcli.config_maps.delete k w).1 other ≡ find w other) where
  deployments-Keeps :
      (k : Key) (rb : Option RoleBinding) (d : Key)
      → Keeps (Holds find k rb) (wcli.deployments.delete d)
  deployments-Keeps k rb d = record { at = λ w h. keeps_deployments d k w ∙ h }

  config_maps-Keeps :
      (k : Key) (rb : Option RoleBinding) (d : Key)
      → Keeps (Holds find k rb) (wcli.config_maps.delete d)
  config_maps-Keeps k rb d = record { at = λ w h. keeps_config_maps d k w ∙ h }

  delete_agent-Keeps :
      (k : Key) (rb : Option RoleBinding) (namespace deployment config_map : String)
      → Keeps (Holds find k rb) (delete_agent wcli manifests namespace deployment config_map)
  unfolding delete_agent
  delete_agent-Keeps k rb namespace deployment config_map =
      search (keeps_rules, deployments-Keeps, config_maps-Keeps)

  role_bindings-Keeps :
      (kind : NamespaceType) (role ce_name ce_namespace namespace : String)
      → contains (get_agent_role_names kind) role ≡ true
      → (rb : Option RoleBinding)
      → Keeps (Holds find (made role ce_name ce_namespace namespace) rb) (
          pcli.role_bindings.delete
            (record { namespace = ce_namespace; name = get_role_binding_name ce_name namespace }))
  role_bindings-Keeps kind role ce_name ce_namespace namespace m rb = record {
    at = λ w h.
        deletes_one _ (made role ce_name ce_namespace namespace) w
          (λ same. get_role_binding_name_lem kind role ce_name namespace m (ap (λ k. k.name) same))
        ∙ h;
  }

  delete_role_binding-Keeps :
      (k : Key) (rb : Option RoleBinding) (ce_name ce_namespace namespace : String)
      → Keeps (Holds find k rb) (
          pcli.role_bindings.delete
            (record { namespace = ce_namespace; name = get_role_binding_name ce_name namespace }))
      → Keeps
          (Holds find k rb)
          (delete_role_binding pcli wcli manifests ce_name ce_namespace namespace)
  unfolding delete_role_binding
  delete_role_binding-Keeps k rb ce_name ce_namespace namespace kept =
      Keeps-bind _ _ (Keeps-attempt _ kept) (λ r. Keeps-lift _)

  unbind-Keeps :
      (u : Unbinder) (k : Key) (rb : Option RoleBinding) (ce_name ce_namespace namespace : String)
      → Keeps (Holds find k rb) (
          pcli.role_bindings.delete
            (record { namespace = ce_namespace; name = get_role_binding_name ce_name namespace }))
      → Keeps
          (Holds find k rb)
          (unbind_namespace pcli wcli manifests u ce_name ce_namespace namespace)
  unfolding unbind_namespace
  unbind-Keeps u k rb ce_name ce_namespace namespace kept =
      let unbound = delete_role_binding-Keeps k rb ce_name ce_namespace namespace kept in
      Keeps-bind _ _ (Keeps-attempt _ unbound)
        (λ r. search (keeps_rules, delete_agent-Keeps) depth 12)

  -- Unbinding a namespace leaves every role binding that binding the namespace makes: it stays as
  -- it was, in the control plane's cluster, under the documented behaviour of deletions.
  pub unbind_namespace-Keeps :
      (u : Unbinder) (kind : NamespaceType) (role ce_name ce_namespace namespace : String)
      → contains (get_agent_role_names kind) role ≡ true
      → (rb : Option RoleBinding)
      → Keeps
          (Holds find (made role ce_name ce_namespace namespace) rb)
          (unbind_namespace pcli wcli manifests u ce_name ce_namespace namespace)
  unbind_namespace-Keeps u kind role ce_name ce_namespace namespace m rb =
      unbind-Keeps u (made role ce_name ce_namespace namespace) rb ce_name ce_namespace namespace
        (role_bindings-Keeps kind role ce_name ce_namespace namespace m rb)
