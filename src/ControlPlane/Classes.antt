-- ===== src/ControlPlane/Classes.antt =====
-- serviceclasses.go: service classes in service namespaces.
use primaza.Common.{String, none, List, []}
use primaza.Common.Errors.{ok}
use primaza.Common.Effects.{Action, pure, ◌>>◌, each}
use primaza.Api.{new_meta, ServiceClass, ServiceClassSpec}
use primaza.Cluster.{Cluster}

abbrev pub empty_class_spec : ServiceClassSpec
empty_class_spec = record {
  constraints = none;
  health_check = none;
  resource = record {
    api_version = "";
    kind = "";
    service_endpoint_definition_mappings = record { resource_fields = []; secret_ref_fields = [] };
  };
  service_class_identity = [];
}

module _ {W : Type 0} (cli : Cluster W) where
  unfoldable pub push_class : ServiceClass → String → Action W Unit
  push_class sc ns = do
    cli.service_classes.create_or_update
        (record {
          meta = new_meta sc.meta.name ns;
          spec = empty_class_spec;
          status = record { conditions = [] };
        })
        (λ sccp. ok (record sccp { spec = sc.spec }))
    pure tt

  -- `PushServiceClassToNamespaces`: the first error ends it.
  unfoldable pub push_service_class_to_namespaces : ServiceClass → List String → Action W Unit
  push_service_class_to_namespaces sc = each (push_class sc)

  -- `DeleteServiceClassFromNamespaces`: the first error ends it, a missing class is one.
  unfoldable pub delete_service_class_from_namespaces : ServiceClass → List String → Action W Unit
  delete_service_class_from_namespaces sc =
      each (λ ns. cli.service_classes.delete (record { namespace = ns; name = sc.meta.name }))
