-- ===== src/AppAgent/Steps.antt =====
-- The agent as a sequence of steps: visits of the reconciler, and events of its informers, in any order.
use primaza.Common.{Bool, String, List, [], ◌∷◌}
use primaza.Common.Errors.{Error}
use primaza.Common.Effects.{Action}
use primaza.Api.{Key, Condition, ServiceBinding}
use primaza.Cluster.{Client, Cluster, Platform}
use primaza.AppAgent.Containers.{Converter}
use primaza.AppAgent.Workloads.{Objects}
use primaza.AppAgent.Informers.{Informers}
use primaza.AppAgent.Reconciler.{reconcile_binding}
use primaza.AppAgent.Events.{handle_applied, handle_deleted}

-- The flag says whether the informer has synced; the binding is the informer's copy of it.
pub data AgentStep (App : Type 0) : Type 0 where
  visited : Key → AgentStep App
  applied removed : Bool → ServiceBinding → App → AgentStep App

module _ {W Config App Raw Vol Resource : Type 0} (cli : Cluster W) (platform : Platform W Config)
    (objects : Objects App Raw Vol) (converter : Converter Raw)
    (workloads : String → String → Client W App) (informers : Informers W Resource)
    (set_condition : List Condition → Condition → List Condition)
    (error_text : Error → String) where
  unfoldable pub agent_step : AgentStep App → Action W Unit
  agent_step (visited req) =
      reconcile_binding cli platform objects converter workloads informers set_condition error_text
        req
  agent_step (applied synced sb app) =
      handle_applied cli objects converter workloads set_condition error_text synced sb app
  agent_step (removed synced sb app) =
      handle_deleted cli objects converter workloads set_condition error_text synced sb app

  -- What a step returns is written to the log, or puts the binding into the queue again.
  unfoldable pub after_steps : List (AgentStep App) → W → W
  after_steps [] w = w
  after_steps (s ∷ l) w = after_steps l (agent_step s w).1
