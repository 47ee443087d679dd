-- ===== src/Scenarios/Reporting.antt =====
-- The theorems on the status and the labels at a concrete cluster.
use doltdb_operator.Prelude.{some, [], ◌∷◌, Bytes, codes, ◌≡◌, ◌⊎◌, refl}
use mathlib.Core.Path.{ap, sym}
use doltdb_operator.Effect.{ok}
use doltdb_operator.Api.DoltDb.{DoltDb}
use doltdb_operator.Api.Pod.{Pod}
use doltdb_operator.Dolt.{standby}
use doltdb_operator.Naming.{pod_name}
use doltdb_operator.Cluster.{State}
use doltdb_operator.Status.{reconcile_status}
use doltdb_operator.Status.Monotone.{Settled, reconcile_status-Settled}
use doltdb_operator.Labels.{reconcile_pod_labels}
use doltdb_operator.Labels.Due.{role_labels, DueLabels, reconcile_pod_labels-DueLabels}
use doltdb_operator.Replication.Switchover.{ClusterContext, shift_traffic_to_new_primary}
use doltdb_operator.Replication.Shift.{shift_traffic_labels_old_primary}
use doltdb_operator.Scenarios.{cluster, desired_at, state, pod_at}

abbrev running : State
running = state (desired_at 1 [])

answered : (d d' : DoltDb) → ok d ≡ ok d' → d' ≡ d
answered d d' e = cc

reconcile_status-Settled_example : Settled 0 4 (reconcile_status (cluster standby) running).1.doltdb
reconcile_status-Settled_example =
    reconcile_status-Settled (cluster standby) 0 4 running (λ t d d' e. answered d d' e) refl refl

reconcile_pod_labels-DueLabels_example :
    ((reconcile_pod_labels (cluster standby) running).1.doltdb ≡ running.doltdb)
    × DueLabels 0 [] (role_labels (reconcile_pod_labels (cluster standby) running).1.trace)
reconcile_pod_labels-DueLabels_example =
    reconcile_pod_labels-DueLabels (cluster standby) 0 running refl refl

-- A switchover from the first server to the second.
abbrev context : ClusterContext
context = record { states = []; current_primary = 0; next_epoch = 5 }

named : (name : Bytes) (pod : Pod) → ok (pod_at name) ≡ ok pod → pod.name ≡ name
named name pod e = let q : pod_at name ≡ pod = cc in sym (ap (λ (p : Pod). p.name) q)

shift_traffic_labels_old_primary_example :
    (role_labels (shift_traffic_to_new_primary (cluster standby) context running).1.trace ≡ [])
    ⊎ (role_labels (shift_traffic_to_new_primary (cluster standby) context running).1.trace
        ≡ (pod_name (codes "db") 0, some (codes "primary")) ∷ [])
shift_traffic_labels_old_primary_example =
    shift_traffic_labels_old_primary (cluster standby) context running
      (λ t name pod e. named name pod e)
