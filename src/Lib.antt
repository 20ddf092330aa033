-- ===== src/Lib.antt =====
-- Hyve: a Kubernetes cluster manager that brings clusters to what their definitions say.
--
-- A definition (internal/types) comes from a YAML file or from a custom resource
-- (internal/apis/hyve/v1alpha1), between which internal/crdconv converts. The engine
-- (internal/reconcile) checks it against the lock file (internal/module), runs the driver module's
-- operations and the lifecycle hooks, and brings the cluster's resources up to date. Hooks and
-- resources name files in remote repositories (internal/workflowref); kubeconfig entries are merged
-- and tidied by internal/kubeconfig. Run from a checkout, the engine keeps its state in files
-- (internal/state). In a cluster, a controller (internal/controller) reconciles each custom
-- resource: it resolves the references, calls the same engine and writes the status, the conditions
-- and the finalizer. An API server (internal/api) keeps users, their memberships and organizations in
-- a database (internal/orgdb), and decides who may act where.
--
-- Types, Types/Refs: internal/types/types.go and resource.go, with the YAML forms of references.
-- V1alpha1: internal/apis/hyve/v1alpha1/types.go and clusterdefinition_types.go; V1alpha1/Records
-- the resources of module_types.go, workflowrefstatus_types.go and resourcerefstatus_types.go.
-- Crdconv: internal/crdconv/clusterdefinition.go (Forward) and totypes_reverse.go (Reverse).
-- Kubeconfig: internal/kubeconfig/merge.go; Kubeconfig/Files its operations on files.
-- Lock: internal/module/lock.go, and the types of types.go and resolver.go that it uses;
-- Lock/Names is `CRName`.
-- Workflowref: internal/workflowref/parse.go and types.go; Workflowref/Install is `Install` of
-- orchestration.go.
-- Workflow: internal/workflow; Requirements is requirements.go, Validate the two loops over the
-- jobs in validate.go and its search for circular dependencies, on fuel for as many calls as there
-- are names.
-- State: internal/state/state.go, its reads; State/Store what writes, searches and lists the files.
-- filepath.Join cleans the path of a name: this is a parameter.
-- Controller: internal/controller. Api is the client, the resolvers and the log of actions; Assumed
-- what is relied on in the packages imported; Conditions the Ready/Error pair; Upsert the records of
-- what was resolved; Resolve the three resolve...IfNeeded; Loop is `Reconcile` and
-- `reconcileDelete` of reconciler.go; Provider is `CRDStateProvider` of state_provider.go.
-- Reconcile: internal/reconcile. World is the monad of a history of effects, Host the record of all
-- answers from outside. Refs has clusterref.go, vars.go and the small functions of manager.go;
-- Locked its checks of the lock file; Resources, Resources/Loop and Resources/Pass are resources.go;
-- Hooks is `runWorkflows`; Mgmt `resolveMgmtCluster`; Cluster creates, deletes, scales and maintains;
-- Dispatch is `reconcileCluster` and `reconcileHostCluster` of host.go; One is `ReconcileOne`; All is
-- `ReconcileAll`. Traces says which effects are permitted and follows them through all of these.
-- Orgdb: internal/orgdb. The tables of types.go, and a statement as a step on them; Tables has ORDER BY
-- and UPDATE, Users is users.go, and Sessions, Bindings and Organizations are parts of crud.go.
-- Api: internal/api. Token is token.go; Server has `requireAuth`, `resolveAccess` and `RequireRole` of
-- server.go with identity.go; Auth is auth_handlers.go, Naming environmentnaming.go, and Accounts
-- accounts.go, with Accounts/Creation for what creates an account, Accounts/Update for what
-- changes its role or email, and Accounts/Changes for what removes one or sets a password.
-- Prelude: shared helpers. Tests: concrete inputs.
--
-- Functions keep their names in snake_case. A function that returns `(T, error)` returns a `Result`
-- or an `Option`; one that acts is a computation of the monad `M`. A long function is cut at its
-- calls: the part after the create operation of `createCluster` is `conclude_create`, and so on.
-- Every answer from outside is a function of the history of effects, so it may differ from call to
-- call, and likewise of the log of actions in the controller, whose pass of the engine is the model
-- of `ReconcileOne`, started with an empty history. The executor of modules and workflows, kubectl,
-- helm, the state provider, the clock, the YAML library and hyve-agent's own reconciliation are
-- such answers or parameters. The convergence loop runs on fuel: one more than the number of names
-- that are ever loaded is enough.
--
-- The database is a value: a SQL statement is the operation on rows that it says, refused where a
-- unique column or a key of another table forbids it, and each statement may fail, by its number, as
-- the engine answers. A transaction whose commit fails is rolled back. Hashes, random texts, ids,
-- JSON, base64 and HMAC are parameters, and a mail that is handed to email.Send is only noted.
-- Timestamps, service accounts and the health of clusters are left out of the rows, and an API server
-- without a database is left out as well.
--
-- Not modelled: log lines, Kubernetes events, contexts and cancellation; the registration of the
-- controllers; letters outside ASCII in names and in the statuses of drivers; the order in which Go
-- ranges over a map (the order of an association list stands for it); the difference of nil and
-- empty slices and maps; the locator of the management cluster's kubeconfig, which runs inside the
-- module executor; the routes of the API server and its handlers for clusters, organizations and
-- templates; and the packages that deliver mail, run workflows, and tunnel to agents.
pub mod Prelude
pub mod Types
pub mod V1alpha1
pub mod Api
pub mod Controller
pub mod Crdconv
pub mod Kubeconfig
pub mod Lock
pub mod Orgdb
pub mod Workflow
pub mod Workflowref
pub mod Reconcile
pub mod State
pub mod Tests
