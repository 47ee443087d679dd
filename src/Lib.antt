-- ===== src/Lib.antt =====
-- dolt-operator: a Kubernetes operator for clusters of Dolt servers, modelled and proved.
--
-- The operator reconciles a DoltDB object (api/v1alpha) with a StatefulSet of Pods that each run a
-- Dolt server. One server is the primary, the others are standbys. The controller
-- (internal/controller/doltdb_controller.go) runs phases in an order, and each phase reads and patches
-- the same object: the status, the resize of the volumes (pkg/controller/storage), a guard for
-- scale-downs, the StatefulSet with its updates (pkg/controller/statefulset), replication and
-- switchovers (pkg/controller/replication), and labels. A second controller watches Pods and asks for
-- a failover when the primary's Pod is not ready (pkg/controller/replication/pod_readiness.go). The
-- phases interact through the conditions and the status of the object, through the labels of Pods,
-- and through the roles and epochs that the servers keep.
--
-- Files and the code that they model:
--   Naming: pkg/statefulset/statefulset.go, the names of Pods and their indices.
--   Api/Condition, Api/Status: api/v1alpha/condition_types.go. Api/DoltDb: doltdb_types.go,
--     replication_types.go, doltdb_keys.go and base_types.go beside it. Api/Pod: pkg/pod/pod.go.
--   Conditions: pkg/conditions, the setters (SetPrimarySwitching is set_primary_switching, and so on).
--   Dolt, PodRoles: pkg/dolt/replication.go.
--   Cluster: the calls of the Kubernetes API and of the servers, and pkg/patch/status.go.
--   Sql: pkg/dolt/sql, the queries of replication and the set of clients.
--   Health: pkg/health.
--   Update, Update/Primary: pkg/controller/statefulset/updater.go and revision.go.
--   Replication: config.go and clientset.go of pkg/controller/replication; Replication/Reconcile,
--     Replication/Switchover and Replication/Failover: controller.go, switchover.go, pod_readiness.go.
--   Storage: pkg/controller/storage/storage.go and pkg/pvc.
--   Status: pkg/controller/status/status.go.
--   Labels: reconcilePodLabels and cleanPodRoleLabels of internal/controller/doltdb_controller.go.
--   Backup, Backup/Reconcile: pkg/controller/backup/backup.go and internal/controller/backup_controller.go,
--     with an environment of their own; the wait for the DoltDB is a call. Backup/Credentials:
--     EnsureS3EnvVars of backup.go, on a state of its own, and a call in Backup/Reconcile.
--   Backup/Lifecycle: the phases of a Backup as a machine, which the reconciler implements.
--   Schedule: pkg/controller/backupschedule/backupschedule.go and
--     internal/controller/backupschedule_controller.go, with the parser of cron expressions as an argument.
--   Snapshot: internal/controller/snapshot_controller.go and pkg/controller/volumesnapshot/volumesnapshot.go,
--     with an environment of their own.
--   Rbac: pkg/controller/rbac/rbac.go and pkg/builder/rbac_builder.go, with an environment of their own.
--   Service: pkg/builder/service_builder.go, labels.go and metadata.go, pkg/controller/service/service.go and
--     reconcileService of internal/controller/doltdb_controller.go, with an environment of their own.
--   ServerConfig: pkg/dolt/generate.go and config.go, with the writer of YAML as an argument.
--   Resource: pkg/controller/database/database.go and the calls of it. Resource/Reconcile: reconciler.go and
--     finalizer.go there, shared by databases, users and grants. Resource/Kinds: database_controller.go,
--     user_controller.go and grant_controller.go of internal/controller. Resource/Statements, Resource/Vcs
--     and Resource/Client: database.go, user.go, grant.go, vcs.go and sql.go of pkg/dolt/sql, and
--     pkg/refresolver/refresolver.go.
--   Controller: doltdb_controller.go, the loop over the phases and the guard for scale-downs.
--   The other modules below these hold proofs. Scenarios holds a concrete cluster, on which each theorem
--   with a hypothesis is applied.
--   Prelude and Effect are shared: numbers, text and lists, and operations that change a state.
--
-- Conventions. An operation takes a state to a result and a state; what was done before an error stays
-- done (Effect). A result that the code returns beside an error is left out, as controller-runtime
-- ignores it then. An error keeps the format of its text without the arguments; an error that is
-- wrapped with %v is no longer recognised as not found. Kubernetes, database/sql and net/url are not
-- part of the repository: Cluster.Env is a parameter whose answers are any functions of the calls made
-- so far, which stand on a trace, the latest first. A patch replaces the object by what the server
-- answers; where a theorem needs that nobody else writes, it says that the answer is the object
-- patched. The laws of meta.SetStatusCondition and its companions are the fields of Api.Condition.Meta.
-- Pod indices, replica counts, epochs and sizes are natural numbers, a pointer is an option, a time is
-- a number of nanoseconds with Go's zero time as 0. The order of a map's iteration is a parameter. Text
-- is a list of bytes; atoi rejects what does not fit 64 bits.
--
-- Loops are structural recursion on lists or on the number of replicas that remain. A poll runs for as
-- many rounds as the environment says before its context ends, so no bound is chosen.
--
-- Not modelled: log lines, events of the recorder and metrics; builders of Kubernetes objects other
-- than Services and RBAC objects; the reconcilers of ConfigMaps and disruption budgets and the creation of the
-- StatefulSet, which the controller takes as arguments; the objects of a snapshot, field by field;
-- the closing of SQL clients.
pub mod Prelude
pub mod Effect
pub mod Naming
pub mod Api
pub mod Conditions
pub mod Dolt
pub mod Cluster
pub mod Sql
pub mod Health
pub mod PodRoles
pub mod Update
pub mod Replication
pub mod Storage
pub mod Status
pub mod Labels
pub mod Service
pub mod ServerConfig
pub mod Backup
pub mod Schedule
pub mod Snapshot
pub mod Rbac
pub mod Resource
pub mod Controller
pub mod Scenarios
