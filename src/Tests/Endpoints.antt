-- ===== src/Tests/Endpoints.antt =====
-- The readers of endpoint definitions, on resources that are one text.
use primaza.Sed.{value_of_key}
use primaza.Sed.{read_single_json_path}
use primaza.Sed.{read_expression}
use primaza.Sed.{read_constant_or}
use primaza.Common.Effects.{◌>>=◌}
use primaza.Api.{key_eq}
use primaza.Sed.{single_result}
use primaza.Common.{◌≡◌, ◌↔◌, refl, false, none, some, [], ◌∷◌, String, string_eq}
use primaza.Common.Errors.{ok, and_then}
use primaza.Api.{new_meta, Secret, FieldMapping, ServiceClassResourceFieldMapping}
use primaza.Sed.{
  JsonPaths, SedSecretRefMapping, new_sed_resource_mapping, read_resource_key, read_value,
  read_secret_key,
}
use primaza.Sed.Laws.{IsInSecret, read_secret_key_iff}
use primaza.Tests.World.{World, empty_world, cluster}

-- Every path finds the whole resource.
abbrev pub whole : JsonPaths String String String
whole = record {
  parse = λ path. ok path;
  find_results = λ path resource. ok ((resource ∷ []) ∷ []);
  value_text = λ value. value;
}

abbrev host_mapping : ServiceClassResourceFieldMapping
host_mapping = record { name = "host"; json_path = ".spec.host"; secret = false }

host_is_read :
    and_then (new_sed_resource_mapping whole "db" host_mapping) (read_resource_key whole) ≡ ok "db"
unfolding new_sed_resource_mapping read_resource_key single_result
host_is_read = refl

abbrev pub by_constant : String → FieldMapping
by_constant c = record { constant = some c; json_path_expr = none }

abbrev pub by_expression : FieldMapping
by_expression = record { constant = none; json_path_expr = some ".spec.secret" }

abbrev pub password_secret : Secret
password_secret = record {
  meta = new_meta "db" "services";
  content = ("password", "letmein") ∷ [];
  string_data = [];
}

abbrev pub secret_world : World
secret_world = record empty_world { secrets = password_secret ∷ [] }

abbrev pub password_mapping : SedSecretRefMapping String
password_mapping = record {
  namespace = "services";
  resource = "db";
  key = "password";
  secret_name = by_expression;
  secret_key = by_constant "password";
}

read_secret_key_iff_example :
    ((read_secret_key whole cluster.secrets password_mapping secret_world).0 ≡ ok "letmein")
    ↔ IsInSecret whole cluster.secrets password_mapping secret_world "letmein"
read_secret_key_iff_example =
    read_secret_key_iff whole cluster.secrets password_mapping secret_world "letmein"

password_is_read :
    (read_secret_key whole cluster.secrets password_mapping secret_world).0 ≡ ok "letmein"
unfolding string_eq read_secret_key ◌>>=◌ read_value read_constant_or read_expression
    read_single_json_path single_result key_eq value_of_key
password_is_read = refl
