-- ===== src/AppAgent/Containers.antt =====
-- servicebinding_controller.go: what a binding writes into a container, and what is taken out again.
use primaza.Common.{
  Bool, true, false, not, String, Option, none, some, List, [], ◌∷◌, ◌++◌, map, keep, join_path,
}
use primaza.Common.{◌==◌, string_eq, if◌then◌else◌}
use primaza.Common.Errors.{Result, ok, and_then}
use primaza.Api.{Environment, ServiceBinding}
use primaza.AppAgent.Removal.{remove_matching}

-- `corev1.SecretKeySelector`
pub record SecretKeySelector : Type 0 where
  pub name : String
  pub key : String

-- `corev1.EnvVarSource`: another source than a secret's key is kept as it is.
pub record EnvVarSource : Type 0 where
  pub secret_key_ref : Option SecretKeySelector
  pub other_source : String

-- `corev1.EnvVar`
pub record EnvVar : Type 0 where
  pub name : String
  pub value : String
  pub value_from : Option EnvVarSource

-- `corev1.VolumeMount`; the fields that the program does not touch are one text.
pub record VolumeMount : Type 0 where
  pub name : String
  pub mount_path : String
  pub read_only : Bool
  pub other_fields : String

-- `corev1.Container`, likewise.
pub record Container : Type 0 where
  pub env : List EnvVar
  pub volume_mounts : List VolumeMount
  pub other_fields : String

abbrev pub service_binding_root : String
service_binding_root = "SERVICE_BINDING_ROOT"

abbrev pub of_other_secret : String → Option SecretKeySelector → Bool
of_other_secret secret none = false
of_other_secret secret (some ref) = not (ref.name == secret)

-- The test of `removeServiceBindingEnvironments`.
abbrev pub from_other_secret : String → Option EnvVarSource → Bool
from_other_secret secret none = false
from_other_secret secret (some source) = of_other_secret secret source.secret_key_ref

-- `removeServiceBindingEnvironments`
unfoldable pub remove_service_binding_environments : List EnvVar → ServiceBinding → List EnvVar
remove_service_binding_environments env_list sb =
    keep (λ e. from_other_secret sb.spec.service_endpoint_definition_secret e.value_from) env_list

-- The variable of one entry of the binding's `envs`.
abbrev pub env_of_secret : String → Environment → EnvVar
env_of_secret secret_name e = record {
  name = e.name;
  value = "";
  value_from = some (record {
    secret_key_ref = some (record { name = secret_name; key = e.key });
    other_source = "";
  });
}

abbrev pub root_env : EnvVar
root_env = record { name = service_binding_root; value = "/bindings"; value_from = none }

-- The loop that looks for the mount path.
unfoldable pub mount_path_of : List EnvVar → String → String
mount_path_of [] dir = ""
mount_path_of (e ∷ env) dir =
    let later = mount_path_of env dir in
    if e.name == service_binding_root then join_path e.value dir else later

-- The loop over the volume mounts, with the append where none has the name.
unfoldable pub put_mount : VolumeMount → List VolumeMount → List VolumeMount
put_mount mount [] = mount ∷ []
put_mount mount (vm ∷ mounts) =
    let later = put_mount mount mounts in
    if vm.name == mount.name then mount ∷ mounts else vm ∷ later

abbrev pub binding_mount : String → String → VolumeMount
binding_mount name path = record {
  name = name;
  mount_path = path;
  read_only = true;
  other_fields = "";
}

abbrev pub mounted : String → String → Container → String → Container
mounted volume_name dir c path =
    if path == ""
    then record c {
      env = c.env ++ (root_env ∷ []);
      volume_mounts =
          put_mount (binding_mount volume_name (join_path "/bindings" dir)) c.volume_mounts;
    }
    else record c { volume_mounts = put_mount (binding_mount volume_name path) c.volume_mounts }

-- One round of `updateContainerInfo`, on the container itself.
unfoldable pub bound_container : ServiceBinding → String → String → String → Container → Container
bound_container sb dir volume_name secret_name c =
    let env =
      remove_service_binding_environments c.env sb
      ++ map (env_of_secret secret_name) sb.spec.envs in
    mounted volume_name dir (record c { env = env }) (mount_path_of env dir)

-- One round of `removeBindingInformationFromContainer`, on the container itself.
unfoldable pub unbound_container : ServiceBinding → String → Container → Result Container
unbound_container sb volume_name c =
    and_then (remove_matching (λ vm. vm.name == volume_name) c.volume_mounts) λ mounts.
      and_then (remove_matching (λ e. e.name == service_binding_root) c.env) λ env.
        ok (record c { env = remove_service_binding_environments env sb; volume_mounts = mounts })

-- `runtime.DefaultUnstructuredConverter` at containers; a container that is no map panics.
pub record Converter (Raw : Type 0) : Type 0 where
  pub from_unstructured : Raw → Result Container
  pub to_unstructured : Container → Result Raw

module _ {Raw : Type 0} (converter : Converter Raw) where
  -- A loop over raw containers that an error ends.
  unfoldable pub convert_each : (Container → Result Container) → List Raw → Result (List Raw)
  convert_each f [] = ok []
  convert_each f (u ∷ containers) = and_then (converter.from_unstructured u) λ c.
      and_then (f c) λ c'.
        and_then (converter.to_unstructured c')
          λ nu. and_then (convert_each f containers) λ rest. ok (nu ∷ rest)

  -- `updateContainerInfo`
  unfoldable pub update_container_info :
      ServiceBinding → String → String → String → List Raw → Result (List Raw)
  update_container_info sb dir volume_name secret_name =
      convert_each (λ c. ok (bound_container sb dir volume_name secret_name c))

  -- `removeBindingInformationFromContainer`
  unfoldable pub remove_binding_information_from_container :
      ServiceBinding → String → List Raw → Result (List Raw)
  remove_binding_information_from_container sb volume_name =
      convert_each (unbound_container sb volume_name)
