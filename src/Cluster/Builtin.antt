-- ===== src/Cluster/Builtin.antt =====
-- What the program sets and reads of the built-in kinds.
use primaza.Common.{ℕ, String, Bool, Option, List}
use primaza.Api.{ObjectMeta}

-- `batchv1.CronJobSpec` with one container, at the fields that the program sets.
pub record CronJobSpec : Type 0 where
  pub schedule : String
  pub concurrency_policy : String
  pub successful_jobs_history_limit : ℕ
  pub failed_jobs_history_limit : ℕ
  pub active_deadline_seconds : ℕ
  pub backoff_limit : ℕ
  pub parallelism : ℕ
  pub container_name : String
  pub container_command : List String
  pub container_image : String
  pub image_pull_policy : String
  pub dropped_capabilities : List String
  pub privileged : Bool
  pub container_run_as_non_root : Bool
  pub allow_privilege_escalation : Bool
  pub restart_policy : String
  pub run_as_user : ℕ
  pub run_as_group : ℕ
  pub run_as_non_root : Bool
  pub seccomp_profile : String

pub record CronJob : Type 0 where
  pub meta : ObjectMeta
  pub spec : Option CronJobSpec

pub record JobCondition : Type 0 where
  pub type : String
  pub status : String

pub record Job : Type 0 where
  pub meta : ObjectMeta
  pub conditions : List JobCondition

-- `rbacv1.RoleBinding` to one role, with one service account for its subject.
pub record RoleBinding : Type 0 where
  pub meta : ObjectMeta
  pub role : String
  pub service_account : String

-- `appsv1.Deployment`: its labels may be nil maps, and its pod has a list of containers' images.
pub record Deployment : Type 0 where
  pub meta : ObjectMeta
  pub labels : Option (List (String × String))
  pub template_labels : Option (List (String × String))
  pub container_images : List String

-- `corev1.ConfigMap`: its maps may be nil.
pub record ConfigMap : Type 0 where
  pub meta : ObjectMeta
  pub labels : Option (List (String × String))
  pub content : Option (List (String × String))
