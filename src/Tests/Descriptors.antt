-- ===== src/Tests/Descriptors.antt =====
-- The endpoint definition of a resource with one field and one secret.
use primaza.SvcAgent.Descriptor.{write_value}
use primaza.SvcAgent.Descriptor.{read_key}
use primaza.SvcAgent.Descriptor.{gather}
use primaza.SvcAgent.Descriptor.{described_item}
use primaza.Sed.{value_of_key}
use primaza.Sed.{single_result}
use primaza.Sed.{read_value}
use primaza.Sed.{read_single_json_path}
use primaza.Sed.{read_secret_key}
use primaza.Sed.{read_resource_key}
use primaza.Sed.{read_expression}
use primaza.Sed.{read_constant_or}
use primaza.Common.Effects.{◌>>=◌}
use primaza.Common.{string_eq}
use primaza.Api.{key_eq}
use primaza.Common.{◌≡◌, refl, false, Option, none, some, List, [], ◌∷◌, String}
use primaza.Common.Errors.{ok}
use primaza.Api.{new_meta, Secret, ServiceEndpointDefinitionItem}
use primaza.SvcAgent.Descriptor.{
  SedMapping, by_resource, by_secret_ref, descriptor_of, secret_with,
  lookup_service_endpoint_descriptor,
}
use primaza.SvcAgent.DescriptorLaws.{
  AreRead, items_for, texts_for, lookup_service_endpoint_descriptor_iff,
}
use primaza.Tests.World.{cluster}
use primaza.Tests.Endpoints.{whole, password_mapping, secret_world}

abbrev database_mappings : List (SedMapping String String)
database_mappings =
    by_resource (record { resource = "db"; key = "host"; path = ".spec.host"; secret = false })
    ∷ (by_secret_ref password_mapping ∷ [])

abbrev database_items : List ServiceEndpointDefinitionItem
database_items =
    record { name = "host"; value = "db"; value_from_secret = none }
    ∷ (record {
      name = "password";
      value = "";
      value_from_secret = some (record { name = "db-descriptor"; key = "password" });
    }
        ∷ [])

abbrev database_secret : Option Secret
database_secret = some (record {
  meta = new_meta "db-descriptor" "";
  content = [];
  string_data = ("password", "letmein") ∷ [];
})

lookup_service_endpoint_descriptor_iff_example :
    ((lookup_service_endpoint_descriptor whole cluster.secrets database_mappings "db"
          secret_world).0
        ≡ ok (database_items, database_secret)
      → (values : List String) × AreRead whole cluster.secrets database_mappings values secret_world
        × (database_items
            ≡ items_for (descriptor_of whole cluster.secrets "db") database_mappings values)
        × (database_secret
            ≡ secret_with
                (descriptor_of whole cluster.secrets "db")
                (texts_for database_mappings values [])))
    × ((values : List String)
        → AreRead whole cluster.secrets database_mappings values secret_world
        → database_items
          ≡ items_for (descriptor_of whole cluster.secrets "db") database_mappings values
        → database_secret
          ≡ secret_with
              (descriptor_of whole cluster.secrets "db")
              (texts_for database_mappings values [])
        → (lookup_service_endpoint_descriptor whole cluster.secrets database_mappings "db"
            secret_world).0
          ≡ ok (database_items, database_secret))
lookup_service_endpoint_descriptor_iff_example =
    lookup_service_endpoint_descriptor_iff whole cluster.secrets database_mappings "db" secret_world
      database_items database_secret

database_is_read :
    (lookup_service_endpoint_descriptor whole cluster.secrets database_mappings "db" secret_world).0
    ≡ ok (database_items, database_secret)
unfolding lookup_service_endpoint_descriptor ◌>>=◌ gather read_key read_resource_key single_result
    read_secret_key read_value read_constant_or read_expression read_single_json_path key_eq
    string_eq value_of_key described_item write_value
database_is_read = refl
