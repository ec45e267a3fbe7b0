-- ===== src/Lib.antt =====
-- Verification of the openMCP operator: the API types and their selectors (api/), the
-- configuration (internal/config/) and the controllers on the platform cluster
-- (internal/controllers/). A ClusterRequest asks for a cluster for a purpose. The scheduler finds
-- the definition of the purpose in its configuration, shares an existing Cluster within the
-- tenancy limit or makes a new one, and marks it with a finalizer of the request, by which it
-- counts the requests of a cluster and releases them.
--
-- Prelude holds the tests on numbers and texts, the lists, sets and integers that the parts
-- share. Flow is the control flow of a reconciler: a call changes the world, and the code goes
-- on, returns early or panics; Flow.Run reasons about it. Api has the object metadata and the
-- types of api/clusters/v1alpha1 and api/common, with Endpoints.Get and Set, GetRequestUIDs,
-- GetTenancyCount and FinalizerForCluster under their names in snake case; Api.Tenancy is about
-- the count.
--
-- Config.Selector is internal/config/selector.go and Config.Scheduler is
-- internal/config/config_scheduler.go. Platform is the interface to what is not in the
-- repository: the helpers of controller-runtime and controller-utils with their laws, and the
-- client of the platform cluster. The client's answers are arbitrary, so a theorem about a
-- handler holds for every behaviour of the API server and of other writers.
--
-- Scheduler is internal/controllers/scheduler/controller.go: Granted, Select and Make are the
-- parts of handleCreateOrUpdate in its order, Choose holds its loops, Naming is
-- initializeNewCluster, Delete is handleDelete, and Reconcile composes them. Allowed writes
-- (Scheduler.Writes) state what a handler may do to clusters: a property of the world that reads
-- and allowed writes keep is kept by the handler.
--
-- A shared object is a value that is passed on, with what the server answers in its place after a
-- successful call, as Go writes it into the object. Every loop is structural recursion on a list,
-- so there is no fuel. Timestamps are natural numbers, and int is the integers where it may be
-- negative; the counts compared are lengths of lists, far below the bound of int. A Go map is a
-- list of entries whose keys are distinct, and theorems that depend on it say so; nil is kept
-- apart because writing to it panics.
--
-- Api.Selectors is api/clusters/v1alpha1/selectors.go, each method under its verb and the kind of
-- selector, and its children are about what the selectors match. AccessRequest is
-- internal/controllers/accessrequest/controller.go: Responsible is
-- IsClusterProviderResponsibleForAccessRequest of lib/utils/provider.go, Ttl is hasExpiredTTL and
-- the time until the next check, with the bounds of a 64-bit duration written out, and Reconcile
-- is the rest in its order, with the clock as a call. Guard is
-- internal/disconnectguard/handler.go and inspect.go, which refuse to delete an APIBinding while
-- objects of a service are left; the workspace API is its parameter. Provider is
-- internal/controllers/provider: Install is install/installer.go with the resources that it
-- applies as names, Status is status.go and Reconcile is install of controller.go, Delete its
-- handleDeleteOperation; the readiness check and the integer parser are parameters.
-- Config.ControlPlane is internal/config/config_platformservices.go, with the exposed endpoints
-- and the checks. ControlPlane is internal/controllers/controlplane, which makes a ClusterRequest
-- and AccessRequests on the platform cluster for each ControlPlane of the onboarding cluster:
-- State has the result that is being built up, with its conditions, and the clients of both
-- clusters, Services is services.go, Requests is clusters.go, Access is access.go in the order of
-- manageAccessRequests, Shared is what the two handlers have in common, Delete is handleDelete by
-- its stages, Create is handleCreateOrUpdate, and Reconcile composes them. The order of a range
-- over a Go map is a call of the client. Keeps states which writes keep a property of the world,
-- and Runs has its rules for actions; the children of Delete are about the order of the stages,
-- and Allowed of Create states the writes of handleCreateOrUpdate. Api.Conditions, Api.Iam and
-- Api.ControlPlane are the types it uses. ClusterAccess is lib/clusteraccess: Names has the
-- stable names of advanced/utils.go, and Mutators and Manager are clusteraccess.go, where a poll
-- of apimachinery is a parameter with the law that it ends well only behind a test that was true.
-- Examples applies the theorems to a platform in memory.
--
-- Not modelled: logging, the event filters and watches of SetupWithManager, the texts of errors
-- beyond their fixed part, the conditions that the controllers other than that of ControlPlanes
-- set, how a status is written behind a reconciliation, and the controllers and libraries outside
-- the files named here.
pub mod Prelude
pub mod Flow
pub mod Api
pub mod Config
pub mod Platform
pub mod Scheduler
pub mod AccessRequest
pub mod Guard
pub mod Provider
pub mod ControlPlane
pub mod ClusterAccess
pub mod Examples
