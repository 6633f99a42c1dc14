-- ===== src/Registered/Health.antt =====
-- registeredservice_controller.go: health checks, and `Reconcile`.
use primaza.Common.{Bool, true, false, ◌&&◌, String, ◌<>◌, Option, none, some, List, [], ◌∷◌}
use primaza.Common.{◌==◌, string_eq, if◌then◌else◌, any, decimal}
use primaza.Common.Errors.{Result, ok, err, panic, is_not_found, ignore_not_found, join_all}
use primaza.Common.Effects.{
  Action, pure, raise, lift, crash, attempt, ◌>>=◌, ◌>>◌, collect_errors, when,
}
use primaza.Api.{Key, key_of, ObjectMeta, new_meta, RegisteredService, HealthCheck}
use primaza.Api.{RegisteredServiceState, available, claimed, unknown, unreachable, service_state_eq}
use primaza.Cluster.{Cluster, Platform, in_namespace}
use primaza.Cluster.Builtin.{CronJob, CronJobSpec, Job, JobCondition}
use primaza.Registered.Catalogs.{remove_service_from_catalogs, reconcile_catalogs}

-- `job.OwnerReferences` or `cronjob.OwnerReferences` name the owner.
abbrev pub owned_by : String → ObjectMeta → Bool
owned_by uid m = any (λ o. o.uid == uid) m.owner_references

-- What the conditions of one job add to `completed` and `failed`: the first that is true decides.
unfoldable pub conditions_loop : List JobCondition → Bool × Bool → Bool × Bool
conditions_loop [] r = r
conditions_loop (cond ∷ conditions) r =
    let rest = conditions_loop conditions r in
    if cond.type == "Complete" && cond.status == "True"
    then (true, r.1)
    else (if cond.type == "Failed" && cond.status == "True" then (r.0, true) else rest)

-- The loop over the jobs.
unfoldable pub jobs_loop : String → List Job → Bool × Bool → Bool × Bool
jobs_loop uid [] r = r
jobs_loop uid (job ∷ jobs) r =
    jobs_loop uid jobs (if owned_by uid job.meta then conditions_loop job.conditions r else r)

-- The state after a health check, from `completed` and `failed`.
unfoldable pub checked_state : Bool × Bool → RegisteredServiceState → RegisteredServiceState
checked_state (completed, failed) state =
    if completed
    then (if state == claimed then state else available)
    else (if failed then unreachable else unknown)

-- What the mutate function of `registerHealthcheck` sets.
unfoldable pub healthcheck_spec : HealthCheck → CronJobSpec
healthcheck_spec h = record {
  schedule = "*/" <> decimal h.container.minutes <> " * * * *";
  concurrency_policy = "Forbid";
  successful_jobs_history_limit = 1;
  failed_jobs_history_limit = 1;
  active_deadline_seconds = 30;
  backoff_limit = 2;
  parallelism = 1;
  container_name = "healthcheck";
  container_command = h.container.command;
  container_image = h.container.image;
  image_pull_policy = "IfNotPresent";
  dropped_capabilities = "ALL" ∷ [];
  privileged = false;
  container_run_as_non_root = true;
  allow_privilege_escalation = false;
  restart_policy = "Never";
  run_as_user = 65530;
  run_as_group = 65530;
  run_as_non_root = true;
  seccomp_profile = "RuntimeDefault";
}

abbrev pub with_state : RegisteredServiceState → RegisteredService → RegisteredService
with_state state rs = record rs { status = record { state = state } }

module _ {W Config : Type 0} (cli : Cluster W) (platform : Platform W Config) where
  abbrev pub set_owner : RegisteredService → CronJob → Result CronJob
  set_owner rs c = elim (platform.set_controller_reference rs.meta c.meta) [
    | ok m ↦ ok (record c { meta = m })
    | err e ↦ err e
    | panic ↦ panic
  ]

  -- The mutate function of `registerHealthcheck`; it reads `rs.Spec.HealthCheck`.
  unfoldable pub mutate_cron_job : RegisteredService → Option HealthCheck → CronJob → Result CronJob
  mutate_cron_job rs none c = panic
  mutate_cron_job rs (some h) c = set_owner rs (record c { spec = some (healthcheck_spec h) })

  -- `registerHealthcheck`
  unfoldable pub register_healthcheck : RegisteredService → Action W Unit
  register_healthcheck rs = do
    cli.cron_jobs.create_or_update
        (record { meta = new_meta rs.meta.name rs.meta.namespace; spec = none })
        (mutate_cron_job rs rs.spec.health_check)
    pure tt

  -- `handleHealthcheck` behind the lookup of the cron job: the state that it leaves in `rs.Status`.
  unfoldable pub check_jobs : RegisteredService → CronJob → Action W RegisteredServiceState
  check_jobs rs cron_job = do
    jobs ← cli.jobs.list (in_namespace cron_job.meta.namespace)
    let state = checked_state (jobs_loop cron_job.meta.uid jobs (false, false)) rs.status.state
    register_healthcheck (with_state state rs)
    pure state

  -- The cases of the lookup's error.
  unfoldable pub healthcheck_of :
      RegisteredService → Result CronJob → Action W RegisteredServiceState
  healthcheck_of rs (ok cron_job) = check_jobs rs cron_job
  healthcheck_of rs (err e) =
      if is_not_found e then register_healthcheck rs >> pure unknown else raise e
  healthcheck_of rs panic = crash

  -- `handleHealthcheck`
  unfoldable pub handle_healthcheck : RegisteredService → Action W RegisteredServiceState
  handle_healthcheck rs = do
    found ← attempt (cli.cron_jobs.get (key_of rs.meta))
    healthcheck_of rs found

  -- One round of the loop of `cleanupHealthchecks`.
  unfoldable pub cleanup_healthcheck : RegisteredService → CronJob → Action W Unit
  cleanup_healthcheck rs c =
      when (owned_by rs.meta.uid c.meta) (cli.cron_jobs.delete (key_of c.meta))

  unfoldable pub cleanup_listed : RegisteredService → Result (List CronJob) → Action W Unit
  cleanup_listed rs (ok cron_jobs) = do
    errs ← collect_errors (cleanup_healthcheck rs) cron_jobs
    lift (join_all errs)
  cleanup_listed rs (err e) = lift (ignore_not_found e)
  cleanup_listed rs panic = crash

  -- `cleanupHealthchecks`
  unfoldable pub cleanup_healthchecks : RegisteredService → Action W Unit
  cleanup_healthchecks rs = do
    listed ← attempt (cli.cron_jobs.list (in_namespace rs.meta.namespace))
    cleanup_listed rs listed

  -- The first half of `Reconcile`: the state that the service gets.
  unfoldable pub new_state :
      RegisteredService → Option HealthCheck → Action W RegisteredServiceState
  new_state rs (some h) = handle_healthcheck rs
  new_state rs none = do
    cleanup_healthchecks rs
    pure (if rs.status.state == claimed then claimed else available)

  -- The second half: the catalogs, then the status.
  unfoldable pub publish : Key → RegisteredService → Action W Unit
  publish req rs = do
    if rs.status.state == available
        then reconcile_catalogs cli rs
        else remove_service_from_catalogs cli req.namespace req.name
    cli.registered_services.update_status rs
    pure tt

  unfoldable pub reconcile_found : Key → Result RegisteredService → Action W Unit
  reconcile_found req (ok rs) = do
    state ← new_state rs rs.spec.health_check
    publish req (with_state state rs)
  reconcile_found req (err e) =
      if is_not_found e then remove_service_from_catalogs cli req.namespace req.name else raise e
  reconcile_found req panic = crash

  -- `Reconcile`
  unfoldable pub reconcile : Key → Action W Unit
  reconcile req = do found ← attempt (cli.registered_services.get req); reconcile_found req found
