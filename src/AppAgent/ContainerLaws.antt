-- ===== src/AppAgent/ContainerLaws.antt =====
-- Binding a container twice, and binding it and taking the binding out again.
use primaza.Common.{
  ◌≡◌, ◌⊎◌, refl, sym, ◌∙◌, ap, ◌≤◌, Bool, true, false, not, String, List, [], ◌∷◌, ◌++◌, map, any,
  keep, count, arith, Bool-cases, inl, inr,
}
use primaza.Common.{◌==◌, string_eq, eq_self, join_path}
use mathlib.Core.List.{append-nil}
use primaza.Common.Errors.{ok}
use primaza.Api.{Environment, ServiceBinding}
use primaza.AppAgent.RemovalLaws.{remove_matching-keep}
use primaza.AppAgent.Containers.{
  EnvVar, VolumeMount, Container, from_other_secret, remove_service_binding_environments,
  env_of_secret, root_env, service_binding_root, mount_path_of, put_mount, binding_mount, mounted,
  bound_container, unbound_container,
}

module _ {A : Type 0} where
  keep-append : (p : A → Bool) (xs ys : List A) → keep p (xs ++ ys) ≡ keep p xs ++ keep p ys
  keep-append p [] ys = refl
  keep-append p (x ∷ xs) ys = ground (arith, keep-append p xs ys)

  keep-keep : (p : A → Bool) (xs : List A) → keep p (keep p xs) ≡ keep p xs
  keep-keep p [] = refl
  keep-keep p (x ∷ xs) = ground (arith, keep-keep p xs)

abbrev pub of_others : ServiceBinding → EnvVar → Bool
of_others sb e = from_other_secret sb.spec.service_endpoint_definition_secret e.value_from

module _ (sb : ServiceBinding) where
  keep-secrets :
      (envs : List Environment)
      → keep (of_others sb) (map (env_of_secret sb.spec.service_endpoint_definition_secret) envs)
        ≡ []
  keep-secrets [] = refl
  keep-secrets (e ∷ envs) =
      rw (eq_self sb.spec.service_endpoint_definition_secret) (keep-secrets envs)

  abbrev bind : String → String → Container → Container
  bind dir volume_name c =
      bound_container sb dir volume_name sb.spec.service_endpoint_definition_secret c

  -- The variables of a container that is bound, but for the root.
  abbrev pub bound_env : List EnvVar → List EnvVar
  bound_env env =
      keep (of_others sb) env
      ++ map (env_of_secret sb.spec.service_endpoint_definition_secret) sb.spec.envs

  kept_env : (env : List EnvVar) → keep (of_others sb) (bound_env env) ≡ keep (of_others sb) env
  kept_env env =
      keep-append (of_others sb) (keep (of_others sb) env) _
      ∙ rw (keep-keep (of_others sb) env, keep-secrets sb.spec.envs)
          (append-nil (keep (of_others sb) env))

  kept_env_root :
      (env : List EnvVar)
      → keep (of_others sb) (bound_env env ++ (root_env ∷ [])) ≡ keep (of_others sb) env
  kept_env_root env =
      keep-append (of_others sb) (bound_env env) (root_env ∷ [])
      ∙ append-nil (keep (of_others sb) (bound_env env))
      ∙ kept_env env

put_mount_twice :
    (m : VolumeMount) (l : List VolumeMount) → put_mount m (put_mount m l) ≡ put_mount m l
unfolding put_mount
put_mount_twice m [] = rw (eq_self m.name) refl
put_mount_twice m (vm ∷ l) = elim (Bool-cases (vm.name == m.name)) [
  | inl same ↦ rw same (rw (eq_self m.name) refl)
  | inr differ ↦ rw differ (rw differ (ap (λ k. vm ∷ k) (put_mount_twice m l)))
]

module _ (sb : ServiceBinding) (dir volume_name : String) where
  -- A container with the mount, whose other variables are given.
  abbrev finished : List EnvVar → Container → Container
  finished env c = mounted volume_name dir (record c { env = env }) (mount_path_of env dir)

  bind-finished : (c : Container) → bind sb dir volume_name c ≡ finished (bound_env sb c.env) c
  unfolding bound_container remove_service_binding_environments
  bind-finished c = refl

  finished_env :
      (env : List EnvVar) (c : Container)
      → ((finished env c).env ≡ env) ⊎ ((finished env c).env ≡ env ++ (root_env ∷ []))
  finished_env env c = elim (Bool-cases (mount_path_of env dir == "")) [
    | inl absent ↦ inr (rw absent refl)
    | inr found ↦ inl (rw found refl)
  ]

  finished_twice :
      (env : List EnvVar) (c : Container) → finished env (finished env c) ≡ finished env c
  finished_twice env c = elim (Bool-cases (mount_path_of env dir == "")) [
    | inl absent ↦ rw absent (
        rw (put_mount_twice (binding_mount volume_name (join_path "/bindings" dir)) c.volume_mounts)
          refl)
    | inr found ↦ rw found (
        rw (put_mount_twice (binding_mount volume_name (mount_path_of env dir)) c.volume_mounts)
          refl)
  ]

  bound_env-finished :
      (env : List EnvVar) (c : Container)
      → bound_env sb (finished (bound_env sb env) c).env ≡ bound_env sb env
  bound_env-finished env c =
      ap (λ l. l ++ map (env_of_secret sb.spec.service_endpoint_definition_secret) sb.spec.envs)
        (elim (finished_env (bound_env sb env) c) [
          | inl same ↦ ap (keep (of_others sb)) same ∙ kept_env sb env
          | inr more ↦ ap (keep (of_others sb)) more ∙ kept_env_root sb env
        ])

  -- A container that is bound is the same after it is bound again with the same secret.
  pub bound_container_idempotent :
      (c : Container)
      → bound_container sb dir volume_name sb.spec.service_endpoint_definition_secret
          (bound_container sb dir volume_name sb.spec.service_endpoint_definition_secret c)
        ≡ bound_container sb dir volume_name sb.spec.service_endpoint_definition_secret c
  bound_container_idempotent c =
      let once = finished (bound_env sb c.env) c in
      ap (bind sb dir volume_name) (bind-finished c)
      ∙ bind-finished once
      ∙ ap (λ env. finished env once) (bound_env-finished c.env c)
      ∙ finished_twice (bound_env sb c.env) c
      ∙ sym (bind-finished c)

  mount_path-absent :
      (env : List EnvVar)
      → any (λ e. e.name == service_binding_root) env ≡ false
      → mount_path_of env dir ≡ ""
  unfolding mount_path_of
  mount_path-absent [] h = refl
  mount_path-absent (e ∷ env) h = ground (arith, mount_path-absent env)

  finished_root :
      (env : List EnvVar) (c : Container)
      → any (λ e. e.name == service_binding_root) env ≡ false
      → finished env c ≡ record c {
        env = env ++ (root_env ∷ []);
        volume_mounts =
            put_mount (binding_mount volume_name (join_path "/bindings" dir)) c.volume_mounts;
      }
  finished_root env c h = rw (mount_path-absent env h) (rw (eq_self {A = String} "") refl)

-- The mounts of one name: one after `put_mount`, and the others as before.
put_mount-others :
    (m : VolumeMount) (l : List VolumeMount)
    → keep (λ vm. not (vm.name == m.name)) (put_mount m l) ≡ keep (λ vm. not (vm.name == m.name)) l
unfolding put_mount
put_mount-others m [] = rw (eq_self m.name) refl
put_mount-others m (vm ∷ l) = elim (Bool-cases (vm.name == m.name)) [
  | inl same ↦ rw same (rw (eq_self m.name) refl)
  | inr differ ↦ rw differ (rw differ (ap (λ k. vm ∷ k) (put_mount-others m l)))
]

count-put_mount :
    (m : VolumeMount) (l : List VolumeMount)
    → count (λ vm. vm.name == m.name) l ≤ 1
    → count (λ vm. vm.name == m.name) (put_mount m l) ≤ 1
unfolding put_mount
count-put_mount m [] h = rw (eq_self m.name) (omega arith)
count-put_mount m (vm ∷ l) h = elim (Bool-cases (vm.name == m.name)) [
  | inl same ↦ rw same (rw (eq_self m.name) (ground (arith, same)))
  | inr differ ↦ rw differ (rw differ (count-put_mount m l (ground (arith, differ))))
]

module _ {A : Type 0} where
  count-last : (p : A → Bool) (l : List A) (v : A) → any p l ≡ false → count p (l ++ (v ∷ [])) ≤ 1
  count-last p [] v h = ground arith
  count-last p (x ∷ l) v h = ground (arith, count-last p l v)

  keep-last :
      (p : A → Bool) (l : List A) (v : A)
      → any p l ≡ false
      → p v ≡ true
      → keep (λ u. not (p u)) (l ++ (v ∷ [])) ≡ l
  keep-last p [] v h k = rw k refl
  keep-last p (x ∷ l) v h k = ground (arith, keep-last p l v)

-- A container whose own variables and whose binding's do not set the root, and that mounts the volume
-- at most once, loses the mount and the binding's variables when it is bound and the binding is taken
-- out again; of its own variables it has those that come from keys of other secrets.
pub unbound-bound_container :
    (sb : ServiceBinding) (dir volume_name : String) (c : Container)
    → any (λ e. e.name == service_binding_root) (bound_env sb c.env) ≡ false
    → count (λ vm. vm.name == volume_name) c.volume_mounts ≤ 1
    → unbound_container sb volume_name
        (bound_container sb dir volume_name sb.spec.service_endpoint_definition_secret c)
      ≡ ok (record c {
        env = remove_service_binding_environments c.env sb;
        volume_mounts = keep (λ vm. not (vm.name == volume_name)) c.volume_mounts;
      })
unfolding unbound_container remove_service_binding_environments
unbound-bound_container sb dir volume_name c no_root once =
    let env = bound_env sb c.env in
    let mount = binding_mount volume_name (join_path "/bindings" dir) in
    let bound =
      bind-finished sb dir volume_name c ∙ finished_root sb dir volume_name env c no_root in
    let mounts =
      remove_matching-keep (λ vm. vm.name == volume_name) (put_mount mount c.volume_mounts)
        (count-put_mount mount c.volume_mounts once)
      ∙ ap ok (put_mount-others mount c.volume_mounts) in
    let roots =
      remove_matching-keep (λ e. e.name == service_binding_root) (env ++ (root_env ∷ []))
        (count-last (λ e. e.name == service_binding_root) env root_env no_root) in
    let others : keep (λ e. not (e.name == service_binding_root)) (env ++ (root_env ∷ [])) ≡ env =
      keep-last (λ e. e.name == service_binding_root) env root_env no_root
        (eq_self service_binding_root) in
    rw (bound, mounts, roots, others) (ap ok (rw (kept_env sb c.env) refl))
