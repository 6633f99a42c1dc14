-- ===== src/Lib.antt =====
-- Primaza: a control plane that offers registered services to the applications of other Kubernetes
-- clusters. This library models the control plane's handlers and what they write, and proves what
-- they do.
--
-- The parts, and the files that model them (paths from the repository's root):
--
--   Api                api/v1alpha1/*_types.go, types.go: a record for each kind of object, with the
--                      fields that the program reads or writes; a pointer is an `Option`.
--   EnvTag             pkg/envtag/envtag.go: environments against constraints.
--   Slices             pkg/slices/slices.go: the difference of two lists.
--   Registered         controllers/registeredservice_controller.go: `Reconcile` of registered
--                      services. Catalogs has the entries of the catalogs, Health the health checks
--                      and `Reconcile`.
--   Claims             controllers/serviceclaim_controller.go: `Reconcile` of service claims. Matching
--                      has the choice of a service and the data of the secret, Status the status of a
--                      claim, Push the cluster environments, Process what a claim goes through,
--                      Handler the deletion, the finalizer and `Reconcile`.
--   ServiceClasses     controllers/serviceclass_controller.go: `Reconcile` of service classes.
--   ServiceCatalogs    controllers/servicecatalog_controller.go: `Reconcile` of service catalogs.
--   Webhook            api/v1alpha1/serviceclass_webhook.go: which service classes are accepted. The
--                      parser of JSON paths is a parameter.
--   Environments       controllers/clusterenvironment_controller.go and its informers: the catalog of an
--                      environment and the classes of its service namespaces (in Environments itself),
--                      the tests and their conditions (Status), its secret (Secrets), what is written
--                      into its namespaces (Namespaces), the watched namespaces (Informers, Events),
--                      `Reconcile` and the finalizer (Reconciler), the health monitor (Monitor).
--   Sed                pkg/primaza/sed: the readers of values of an endpoint definition.
--   ControlPlane       pkg/primaza/controlplane and pkg/primaza/workercluster: what is written into
--                      the namespaces of worker clusters (Bindings, Classes), the agents (Agents), and
--                      the binding and unbinding of namespaces (Namespaces, Naming).
--   ClusterContext     pkg/primaza/clustercontext/clustercontext.go: from a cluster environment to a
--                      client of its cluster.
--   Authz              pkg/authz/types.go, permissions.go: reviews of what an agent may do (Reports),
--                      and of what it may do beyond its role (Excess).
--   AppAgent           controllers/agents/app/servicebinding_controller.go and its informers: the agent
--                      that writes bindings into workloads. Containers and Workloads have what is
--                      written and taken out (Removal is the loop that removes from the slice that it
--                      ranges over), Binder the binding and its status, Reconciler `Reconcile`,
--                      Informers and Events the watched workloads, Steps the agent as a sequence of
--                      visits and events.
--                      ClaimSync is serviceclaim_controller.go beside it: the claims that are sent to the
--                      control plane. Agent has agentapp_controller.go, the agent's deployment, and
--                      servicecatalog_controller.go, the owner of the catalogs.
--   SvcAgent           controllers/agents/svc/serviceclass_controller.go: the agent that registers the
--                      resources of a service namespace. Descriptor has the endpoint definition of a
--                      resource, Registration its registered service, Reconciler `Reconcile` and the
--                      handlers of the watched resources.
--                      Agent is agentsvc_controller.go: the agent's deployment.
--   Common, Cluster    Go's errors, results and loops, and the API server: parameters and their laws.
--   Tests              runs on a small world in memory.
--
-- How they interact. The handler of claims chooses a service (EnvTag), records it in the claim,
-- claims the service, and pushes a binding and its secret through ControlPlane to clusters that
-- ClusterContext connects to. The handler of registered services keeps the state of a service and,
-- by it, the catalogs. The reconciler of namespaces binds those that a cluster environment asks for
-- and unbinds those that role bindings name beyond them (Slices). The visit of an environment
-- tests its namespaces (Authz) and watches them where it pulls (Environments/Events), while agents that
-- push send claims (AppAgent/ClaimSync) and registered services (SvcAgent) themselves; the application
-- agent writes the bindings that ControlPlane has pushed into the workloads.
--
-- How the code is modelled. A handler is an `Action W A`: a function from a world to a result and
-- the world that it leaves. `W` is a parameter, as is the API server, a `Client` for each kind of
-- object; what the theorems need of a server is a hypothesis that states its documented behaviour
-- (Cluster/Stores, KeepsOthers), and Cluster/Memory is a server that has it. An error is a value that
-- keeps what `IsNotFound` and `IsAlreadyExists` look at; a nil dereference and a write to a nil map
-- are the result `panic`, which ends the handler. A Go map that is used as a set is a list without
-- repetition. An object that a call writes through a pointer is returned by the model's function.
-- Loops are by recursion on the list that they range over, so there is no fuel; a loop that goes on
-- after an error has the call's result as a value (`attempt`).
--
-- What is not modelled: logging, contexts and the texts of errors beyond their format strings; the
-- resource versions of objects (a write of a stale copy, as the release of a service behind a
-- failed push, is a call that may fail); the clock, so the times of conditions are those that
-- `SetStatusCondition`, a parameter, sets; the order in which Go ranges over a map; what
-- `CreateOrUpdate` leaves in the caller's object when it fails (where the service agent looks at
-- it, it is taken to be as it was sent); the wiring of managers and watches but for the map from
-- services to claims; client-go's informers and clients of unstructured objects, which are
-- parameters, as are the files of a pod and the deletion of all objects of a kind; the main
-- programs. The application agent's workloads are a type with the library's accessors as a
-- parameter; the casts of raw volumes and containers are taken to succeed. An exit of the process
-- is a panic.
pub mod Common
pub mod Api
pub mod AppAgent
pub mod SvcAgent
pub mod Cluster
pub mod Authz
pub mod Claims
pub mod ClusterContext
pub mod ControlPlane
pub mod EnvTag
pub mod Environments
pub mod Registered
pub mod Sed
pub mod ServiceCatalogs
pub mod ServiceClasses
pub mod Slices
pub mod Tests
pub mod Webhook
