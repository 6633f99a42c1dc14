-- ===== src/AppAgent/Workloads.antt =====
-- servicebinding_controller.go: the workloads of a binding, and what is written into them.
use primaza.Common.{String, Option, none, some, List, [], ◌∷◌, ◌++◌}
use primaza.Common.{◌==◌, string_eq, if◌then◌else◌}
use primaza.Common.Errors.{Error, Result, ok, err, panic, message, and_then, join_all}
use primaza.Common.Effects.{
  Action, pure, raise, lift, attempt, ◌>>=◌, ◌>>◌, collect_errors, errors_of,
}
use primaza.Api.{ServiceBinding, BoundWorkload, LabelSelector}
use primaza.Cluster.{Client}
use primaza.AppAgent.Removal.{remove_matching}
use primaza.AppAgent.Containers.{
  Converter, update_container_info, remove_binding_information_from_container,
}

-- The paths `spec.template.spec.containers` and `spec.template.spec.initContainers`.
pub data ContainersPath : Type 0 where
  containers init_containers : ContainersPath

-- The volume of a secret, `Optional` false and `DefaultMode` 0444.
pub record SecretVolume : Type 0 where
  pub name : String
  pub secret_name : String

-- Unstructured objects and their nested slices, which the program reads and writes by the library's
-- accessors: `NestedSlice` finds no slice, a slice or an error. A volume has a name.
pub record Objects (App Raw Vol : Type 0) : Type 0 where
  pub app_name : App → String
  pub app_labels : App → List (String × String)
  pub volumes : App → Result (Option (List Vol))
  pub set_volumes : App → List Vol → Result App
  pub volume_name : Vol → String
  pub volume_of : SecretVolume → Result Vol
  pub containers_at : ContainersPath → App → Result (Option (List Raw))
  pub set_containers : ContainersPath → App → List Raw → Result App

abbrev pub or_empty {ℓ} : {A : Type ℓ} → Option (List A) → List A
or_empty none = []
or_empty (some l) = l

abbrev pub apps_of : {A : Type 0} → Result A → List A
apps_of (ok a) = a ∷ []
apps_of (err e) = []
apps_of panic = []

module _ {App Raw Vol : Type 0} (objects : Objects App Raw Vol) (converter : Converter Raw) where
  -- The loop over the volumes, with the append where none has the name.
  unfoldable pub put_volume : String → Vol → List Vol → List Vol
  put_volume name volume [] = volume ∷ []
  put_volume name volume (v ∷ volumes) =
      let later = put_volume name volume volumes in
      if objects.volume_name v == name then volume ∷ volumes else v ∷ later

  -- One round of the loop over the paths of containers.
  unfoldable pub update_containers :
      (List Raw → Result (List Raw)) → ContainersPath → App → Result App
  update_containers f path app =
      and_then (objects.containers_at path app)
        λ found. and_then (f (or_empty found)) λ updated. objects.set_containers path app updated

  unfoldable pub update_both : (List Raw → Result (List Raw)) → App → Result App
  update_both f app =
      and_then (update_containers f containers app) λ app'. update_containers f init_containers app'

  -- `prepareContainerWithMounts`, up to the update.
  unfoldable pub mount_in : ServiceBinding → String → String → String → Vol → App → Result App
  mount_in sb secret_name dir name volume app = and_then (objects.volumes app) λ found.
      and_then (objects.set_volumes app (put_volume name volume (or_empty found)))
        λ app'. update_both (update_container_info converter sb dir name secret_name) app'

  -- `removeVolumeMountAndEnvironment`, up to the update; a workload without volumes is left alone.
  unfoldable pub unmount_volumes :
      ServiceBinding → String → App → Option (List Vol) → Result (Option App)
  unmount_volumes sb name app none = ok none
  unmount_volumes sb name app (some volumes) =
      and_then (remove_matching (λ v. objects.volume_name v == name) volumes) λ kept.
        and_then (objects.set_volumes app kept) λ app'.
          and_then (update_both (remove_binding_information_from_container converter sb name) app')
            λ app''. ok (some app'')

  unfoldable pub unmount_in : ServiceBinding → String → App → Result (Option App)
  unmount_in sb name app = and_then (objects.volumes app) (unmount_volumes sb name app)

  -- The clients of the kind and the version of the workloads.
  module _ {W : Type 0} (workloads : String → String → Client W App) where
    abbrev pub client_of : ServiceBinding → Client W App
    client_of sb = workloads sb.spec.application.kind sb.spec.application.api_version

    -- `prepareContainerWithMounts`
    unfoldable pub prepare_container_with_mounts :
        ServiceBinding → String → String → String → Vol → App → Action W Unit
    prepare_container_with_mounts sb secret_name dir name volume app = do
      updated ← lift (mount_in sb secret_name dir name volume app)
      (client_of sb).update updated
      pure tt

    unfoldable pub update_unmounted : ServiceBinding → Option App → Action W Unit
    update_unmounted sb none = pure tt
    update_unmounted sb (some app) = do (client_of sb).update app; pure tt

    -- `removeVolumeMountAndEnvironment`
    unfoldable pub remove_volume_mount_and_environment :
        ServiceBinding → String → App → Action W Unit
    remove_volume_mount_and_environment sb name app = do
      updated ← lift (unmount_in sb name app)
      update_unmounted sb updated

    -- `unbindApplications`
    unfoldable pub unbind_applications : ServiceBinding → List App → Action W Unit
    unbind_applications sb applications = do
      el ← collect_errors (remove_volume_mount_and_environment sb sb.meta.name) applications
      lift (join_all el)

    -- `getBoundApplications`: the workloads that were found, and the errors of the others.
    unfoldable pub look_up_workloads :
        ServiceBinding → List BoundWorkload → Action W (List App × List Error)
    look_up_workloads sb [] = pure ([], [])
    look_up_workloads sb (bw ∷ connections) = do
      r ← attempt ((client_of sb).get (record { namespace = sb.meta.namespace; name = bw.name }))
      (applications, errs) ← look_up_workloads sb connections
      pure (apps_of r ++ applications, errors_of r ++ errs)

    unfoldable pub get_bound_applications : ServiceBinding → Action W (List App × List Error)
    get_bound_applications sb = look_up_workloads sb sb.status.connections

    abbrev pub none_found : List App → Action W (List App)
    none_found [] = raise (message "applications not found")
    none_found (app ∷ applications) = pure (app ∷ applications)

    unfoldable pub select_applications : ServiceBinding → Option LabelSelector → Action W (List App)
    select_applications sb none = none_found []
    select_applications sb (some selector) = do
      items ←
          (client_of sb).list
            (record { namespace = some sb.meta.namespace; labels = selector.match_labels })
      none_found items

    -- `getApplication`
    unfoldable pub get_application : ServiceBinding → Action W (List App)
    get_application sb =
        if sb.spec.application.name == ""
        then select_applications sb sb.spec.application.selector
        else (do
          app ←
              (client_of sb).get
                (record { namespace = sb.meta.namespace; name = sb.spec.application.name })
          pure (app ∷ []))
