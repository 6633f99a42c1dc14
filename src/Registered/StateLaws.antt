-- ===== src/Registered/StateLaws.antt =====
-- registeredservice_controller.go: the state that the jobs of a health check give a service.
use primaza.Common.{
  ◌≡◌, ◌≢◌, refl, sym, ◌∙◌, Bool, true, false, ◌&&◌, ◌||◌, String, List, [], ◌∷◌, any, arith,
}
use primaza.Common.{◌==◌, string_eq, if◌then◌else◌, eq_of_test}
use primaza.Api.{RegisteredServiceState, available, claimed, unknown, unreachable, service_state_eq}
use primaza.Cluster.Builtin.{Job, JobCondition}
use primaza.Registered.Health.{owned_by, conditions_loop, jobs_loop, checked_state}

-- How a job has ended.
pub data Verdict : Type 0 where
  complete failed running : Verdict

-- The first condition that is true and that names an end.
abbrev pub verdict : List JobCondition → Verdict
verdict [] = running
verdict (c ∷ conditions) =
    let rest = verdict conditions in
    if c.type == "Complete" && c.status == "True"
    then complete
    else (if c.type == "Failed" && c.status == "True" then failed else rest)

abbrev pub is_complete : Verdict → Bool
is_complete complete = true
is_complete failed = false
is_complete running = false

abbrev pub is_failed : Verdict → Bool
is_failed complete = false
is_failed failed = true
is_failed running = false

-- The job belongs to the cron job and has ended with success.
abbrev pub succeeds : String → Job → Bool
succeeds uid job = owned_by uid job.meta && is_complete (verdict job.conditions)

-- The job belongs to the cron job and has ended with a failure.
abbrev pub fails : String → Job → Bool
fails uid job = owned_by uid job.meta && is_failed (verdict job.conditions)

-- The state after a sequence of checks, each with the jobs that it finds.
abbrev pub states_after : String → RegisteredServiceState → List (List Job) → RegisteredServiceState
states_after uid state [] = state
states_after uid state (jobs ∷ checks) =
    states_after uid (checked_state (jobs_loop uid jobs (false, false)) state) checks

or_true : (b : Bool) → (b || true) ≡ true
or_true true = refl
or_true false = refl

or_false : (b : Bool) → (b || false) ≡ b
or_false true = refl
or_false false = refl

or_assoc : (a b c : Bool) → ((a || b) || c) ≡ (a || (b || c))
or_assoc true b c = refl
or_assoc false b c = refl

by_tests :
    (is_complete_now is_failed_now : Bool) (r rest : Bool × Bool) (later : Verdict)
    → rest ≡ (r.0 || is_complete later, r.1 || is_failed later)
    → let now = if is_complete_now then complete else (if is_failed_now then failed else later) in
      ◌≡◌ {A = Bool × Bool}
        (if is_complete_now then (true, r.1) else (if is_failed_now then (r.0, true) else rest))
        (r.0 || is_complete now, r.1 || is_failed now)
by_tests true f r rest later h = rw (or_true r.0, or_false r.1) refl
by_tests false true r rest later h = rw (or_true r.1, or_false r.0) refl
by_tests false false r rest later h = h

conditions_loop-verdict :
    (conditions : List JobCondition) (r : Bool × Bool)
    → conditions_loop conditions r
      ≡ (r.0 || is_complete (verdict conditions), r.1 || is_failed (verdict conditions))
unfolding conditions_loop
conditions_loop-verdict [] r = rw (or_false r.0, or_false r.1) refl
conditions_loop-verdict (c ∷ conditions) r =
    by_tests (c.type == "Complete" && c.status == "True") (c.type == "Failed" && c.status == "True")
      r _ (verdict conditions) (conditions_loop-verdict conditions r)

if_owned :
    (owned : Bool) (r v x : Bool × Bool) (s t : Bool)
    → v ≡ (r.0 || x.0, r.1 || x.1)
    → ◌≡◌ {A = Bool × Bool}
        ((if owned then v else r).0 || s, (if owned then v else r).1 || t)
        (r.0 || ((owned && x.0) || s), r.1 || ((owned && x.1) || t))
if_owned true r v x s t h = rw (h, or_assoc r.0 x.0 s, or_assoc r.1 x.1 t) refl
if_owned false r v x s t h = refl

jobs_loop-any :
    (uid : String) (jobs : List Job) (r : Bool × Bool)
    → jobs_loop uid jobs r ≡ (r.0 || any (succeeds uid) jobs, r.1 || any (fails uid) jobs)
unfolding jobs_loop
jobs_loop-any uid [] r = rw (or_false r.0, or_false r.1) refl
jobs_loop-any uid (job ∷ jobs) r =
    jobs_loop-any uid jobs _
    ∙ if_owned (owned_by uid job.meta) r (conditions_loop job.conditions r)
        (is_complete (verdict job.conditions), is_failed (verdict job.conditions)) _ _
        (conditions_loop-verdict job.conditions r)

-- After a check of the jobs: a service whose cron job has a successful job keeps the state Claimed
-- and gets Available from any other; without one, a failed job makes it Unreachable; without
-- either it is Unknown.
pub checked_state-jobs_loop :
    (uid : String) (jobs : List Job) (state : RegisteredServiceState)
    → checked_state (jobs_loop uid jobs (false, false)) state ≡ (
        if any (succeeds uid) jobs
        then (if state == claimed then claimed else available)
        else (if any (fails uid) jobs then unreachable else unknown))
unfolding checked_state
checked_state-jobs_loop uid jobs state = rw (jobs_loop-any uid jobs (false, false)) (ground arith)

was_claimed :
    (success failure : Bool) (state : RegisteredServiceState)
    → (if success
        then (if state == claimed then claimed else available)
        else (if failure then unreachable else unknown))
      ≡ claimed
    → state ≡ claimed
was_claimed true failure state e = ground (arith, eq_of_test state claimed)
was_claimed false true state e = cc
was_claimed false false state e = cc

-- A claimed service that a check finds without a successful job is never claimed again by later
-- checks, however many there are and whatever jobs they find.
pub checks-lose-claim :
    (first : List Job) (uid : String) (checks : List (List Job))
    → any (succeeds uid) first ≡ false
    → states_after uid (checked_state (jobs_loop uid first (false, false)) claimed) checks ≢ claimed
checks-lose-claim first uid checks h =
    stays_lost checks _
      (rw (checked_state-jobs_loop uid first claimed, h) (not_claimed (any (fails uid) first)))
  where
    not_claimed : (b : Bool) → (if b then unreachable else unknown) ≢ claimed
    not_claimed true e = cc
    not_claimed false e = cc

    stays_lost :
        (checks : List (List Job)) (state : RegisteredServiceState)
        → state ≢ claimed
        → states_after uid state checks ≢ claimed
    stays_lost [] state lost = lost
    stays_lost (jobs ∷ checks) state lost =
        stays_lost checks _
          (λ e. lost (was_claimed _ _ state (sym (checked_state-jobs_loop uid jobs state) ∙ e)))
