-- ===== src/ControlPlane/Bindings.antt =====
-- application_namespaces.go: service bindings, their secrets, and catalogs in application namespaces.
use primaza.Common.{Bool, true, String, Option, none, some, List, [], ◌∷◌, ◌++◌}
use primaza.Common.{◌==◌, string_eq, if◌then◌else◌}
use primaza.Common.Errors.{Error, Result, ok, err, panic, Outcome, is_not_found, join_all}
use primaza.Common.Effects.{
  Action, pure, raise, lift, crash, attempt, ◌>>=◌, ◌>>◌, collect_errors, errors_of,
}
use primaza.Api.{new_meta, insert, ServiceClaim, Secret, ServiceBinding}
use primaza.Api.{ServiceBindingSpec, unset, ObjectReference, ServiceCatalog}
use primaza.Cluster.{Cluster, Platform}

abbrev pub bound_registered_service_name_annotation : String
bound_registered_service_name_annotation = "primaza.io/registered-service-name"

abbrev pub bound_registered_service_uid_annotation : String
bound_registered_service_uid_annotation = "primaza.io/registered-service-uid"

-- The specification of a claim's binding.
unfoldable pub binding_spec : ServiceClaim → ServiceBindingSpec
binding_spec sc = record {
  service_endpoint_definition_secret = sc.meta.name;
  application = sc.spec.application;
  envs = sc.spec.envs;
}

-- The mutate function of `pushServiceBindingToNamespace`; it reads through the pointer
-- `sc.Status.RegisteredService`.
unfoldable pub mutate_binding :
    ServiceClaim → Option ObjectReference → ServiceBinding → Result ServiceBinding
mutate_binding sc none sb = panic
mutate_binding sc (some r) sb = ok (record sb {
  meta = record (sb.meta) {
    annotations =
        insert bound_registered_service_uid_annotation r.uid
          (insert bound_registered_service_name_annotation r.name sb.meta.annotations);
  };
  spec = binding_spec sc;
})

abbrev pub new_binding : ServiceClaim → String → ServiceBinding
new_binding sc namespace = record {
  meta = new_meta sc.meta.name namespace;
  spec = binding_spec sc;
  status = record { conditions = []; state = unset; connections = [] };
}

-- The secret as it is sent to a namespace, owned by the binding.
unfoldable pub owned_secret : ServiceClaim → String → ServiceBinding → Secret → Secret
owned_secret sc namespace sb secret = record secret {
  meta = record (secret.meta) {
    namespace = namespace;
    owner_references =
        record {
          api_version = "primaza.io/v1alpha1";
          kind = "ServiceBinding";
          name = sc.meta.name;
          uid = sb.meta.uid;
        }
        ∷ [];
  };
}

-- A call's error, and the secret that it leaves behind the caller's pointer.
abbrev pub Pushed : Type 0
Pushed = record { outcome : Outcome; secret : Secret }

module _ {W : Type 0} (cli : Cluster W) where
  unfoldable pub secret_pushed : Secret → Result Secret → Action W Pushed
  secret_pushed sent (ok stored) = pure (record { outcome = ok tt; secret = stored })
  secret_pushed sent (err e) = pure (record { outcome = err e; secret = sent })
  secret_pushed sent panic = crash

  unfoldable pub push_secret :
      ServiceClaim → String → Secret → Result ServiceBinding → Action W Pushed
  unfolding secret_pushed
  push_secret sc namespace secret (ok sb) = do
    let sent = owned_secret sc namespace sb secret
    let text = secret.string_data
    stored ← attempt (cli.secrets.create_or_update sent (λ s. ok (record s { string_data = text })))
    secret_pushed sent stored
  push_secret sc namespace secret (err e) = pure (record { outcome = err e; secret = secret })
  push_secret sc namespace secret panic = crash

  -- The lookup that reads the binding's UID.
  unfoldable pub read_binding :
      ServiceClaim → String → Secret → Result ServiceBinding → Action W Pushed
  unfolding push_secret
  read_binding sc namespace secret (ok sb) = do
    found ←
        attempt (cli.service_bindings.get (record { namespace = namespace; name = sc.meta.name }))
    push_secret sc namespace secret found
  read_binding sc namespace secret (err e) = pure (record { outcome = err e; secret = secret })
  read_binding sc namespace secret panic = crash

  -- `pushServiceBindingToNamespace`
  unfoldable pub push_service_binding_to_namespace :
      ServiceClaim → String → Secret → Action W Pushed
  unfolding read_binding
  push_service_binding_to_namespace sc namespace secret = do
    written ← attempt (
        cli.service_bindings.create_or_update (new_binding sc namespace)
          (mutate_binding sc sc.status.registered_service))
    read_binding sc namespace secret written

  abbrev pub selects : Option String → String → Bool
  selects none ns = true
  selects (some n) ns = n == ns

  -- The loop of `PushServiceBinding`: the secret is one object, which every round writes over.
  unfoldable pub push_loop :
      ServiceClaim → Option String → List String → Secret → Action W (List Error × Secret)
  push_loop sc nspace [] secret = pure ([], secret)
  push_loop sc nspace (ns ∷ rest) secret =
      let skip = push_loop sc nspace rest secret in
      let visit = (do
        p ← push_service_binding_to_namespace sc ns secret
        (es, last) ← push_loop sc nspace rest p.secret
        pure (errors_of p.outcome ++ es, last)) in
      if selects nspace ns then visit else skip

  -- One round of `PushServiceCatalogToApplicationNamespaces`.
  unfoldable pub push_catalog_to_namespace : ServiceCatalog → String → Action W Unit
  push_catalog_to_namespace sc ns = do
    cli.service_catalogs.create_or_update
        (record {
          meta = new_meta sc.meta.name ns;
          spec = record { services = []; claimed_by_labels = [] };
        })
        (λ sccp. ok (record sccp { spec = sc.spec }))
    pure tt

  unfoldable pub deleted : Outcome → Action W Unit
  deleted (ok _) = pure tt
  deleted (err e) = if is_not_found e then pure tt else raise e
  deleted panic = crash

  -- One round of `DeleteServiceBindingAndSecretFromNamespaces`.
  unfoldable pub delete_binding : ServiceClaim → String → Action W Unit
  unfolding deleted
  delete_binding sc ns = do
    r ← attempt (cli.service_bindings.delete (record { namespace = ns; name = sc.meta.name }))
    deleted r

  -- `DeleteServiceBindingAndSecretFromNamespaces`
  unfoldable pub delete_service_binding_and_secret_from_namespaces :
      ServiceClaim → List String → Action W Unit
  delete_service_binding_and_secret_from_namespaces sc namespaces = do
    errs ← collect_errors (delete_binding sc) namespaces
    lift (join_all errs)

module _ {W Config : Type 0} (platform : Platform W Config) where
  unfoldable pub push_connected :
      ServiceClaim → Secret → Option String → List String → Result (Cluster W) → Action W Pushed
  push_connected sc secret nspace application_namespaces (ok cecli) = do
    (errs, last) ← push_loop cecli sc nspace application_namespaces secret
    pure (record { outcome = join_all errs; secret = last })
  push_connected sc secret nspace application_namespaces (err e) =
      pure (record { outcome = err e; secret = secret })
  push_connected sc secret nspace application_namespaces panic = crash

  -- `PushServiceBinding`
  unfoldable pub push_service_binding :
      ServiceClaim → Secret → Option String → List String → Config → Action W Pushed
  push_service_binding sc secret nspace application_namespaces cfg =
      push_connected sc secret nspace application_namespaces (platform.new_client cfg)

  -- `PushServiceCatalogToApplicationNamespaces`
  unfoldable pub push_service_catalog_to_application_namespaces :
      ServiceCatalog → List String → Config → Action W Unit
  push_service_catalog_to_application_namespaces sc application_namespaces cfg = do
    cli ← lift (platform.new_client cfg)
    errs ← collect_errors (push_catalog_to_namespace cli sc) application_namespaces
    lift (join_all errs)
