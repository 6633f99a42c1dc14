-- ===== src/Tests/Containers.antt =====
-- Containers that are bound and unbound, and slices that lose elements.
use primaza.AppAgent.Containers.{put_mount}
use primaza.AppAgent.Containers.{mount_path_of}
use primaza.Common.{◌≡◌, refl, false, not, String, none, [], ◌∷◌, keep, arith}
use primaza.Common.{◌==◌, string_eq}
use primaza.Common.Errors.{ok, panic}
use primaza.Api.{key_eq}
use primaza.AppAgent.Removal.{remove_matching}
use primaza.AppAgent.RemovalLaws.{remove_matching-keep, remove_matching-panic}
use primaza.AppAgent.Containers.{
  Container, bound_container, unbound_container, remove_service_binding_environments,
}
use primaza.AppAgent.ContainerLaws.{bound_container_idempotent, unbound-bound_container}
use primaza.Tests.Workloads.{app_binding}

remove_matching-keep_example :
    remove_matching (λ (n : String). n == "a") ("a" ∷ ("b" ∷ ("c" ∷ [])))
    ≡ ok (keep (λ (n : String). not (n == "a")) ("a" ∷ ("b" ∷ ("c" ∷ []))))
unfolding string_eq
remove_matching-keep_example =
    remove_matching-keep (λ (n : String). n == "a") ("a" ∷ ("b" ∷ ("c" ∷ []))) (omega arith)

remove_matching-panic_example :
    remove_matching (λ (n : String). n == "a") ("b" ∷ ("a" ∷ ("a" ∷ []))) ≡ panic
unfolding string_eq
remove_matching-panic_example =
    remove_matching-panic (λ (n : String). n == "a") ("b" ∷ []) "a" "a" refl refl refl

abbrev plain : Container
plain = record {
  env = record { name = "MODE"; value = "dev"; value_from = none } ∷ [];
  volume_mounts =
      record { name = "cache"; mount_path = "/cache"; read_only = false; other_fields = "" } ∷ [];
  other_fields = "image";
}

abbrev bound_plain : Container → Container
bound_plain c =
    bound_container app_binding "orders" "orders"
      app_binding.spec.service_endpoint_definition_secret c

bound_container_idempotent_example : bound_plain (bound_plain plain) ≡ bound_plain plain
bound_container_idempotent_example = bound_container_idempotent app_binding "orders" "orders" plain

unbound-bound_container_example :
    unbound_container app_binding "orders" (bound_plain plain)
    ≡ ok (record plain {
      env = remove_service_binding_environments plain.env app_binding;
      volume_mounts = keep (λ vm. not (vm.name == "orders")) plain.volume_mounts;
    })
unfolding string_eq remove_service_binding_environments
unbound-bound_container_example =
    unbound-bound_container app_binding "orders" "orders" plain refl (omega arith)

-- The run behind it: the variable that has no secret is gone.
unbound_run :
    unbound_container app_binding "orders" (bound_plain plain) ≡ ok (record plain { env = [] })
unfolding string_eq unbound_container remove_matching bound_container mount_path_of
    remove_service_binding_environments put_mount
unbound_run = refl
