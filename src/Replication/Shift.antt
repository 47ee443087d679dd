-- ===== src/Replication/Shift.antt =====
-- Whom a switchover labels as primary.
use doltdb_operator.Prelude.{
  List, ◌∷◌, Option, some, Bytes, codes, ◌∙◌, String, ◌≡◌, refl, ap, ◌⊎◌, inl, inr, Bool-cases,
}
use doltdb_operator.Effect.{
  Error, message, Result, ok, err, pure, fail, resume, ◌>>=◌, attempt, wrap,
}
use doltdb_operator.Api.Pod.{Pod, is_pod_ready, label}
use doltdb_operator.Dolt.{primary}
use doltdb_operator.Naming.{pod_name}
use doltdb_operator.Cluster.{Env, State, Event, Trace, call}
use doltdb_operator.Health.{is_dolt_db_replica_healthy}
use doltdb_operator.PodRoles.{mark_role, patch_labels, role_label, with_role, label-with_role}
use doltdb_operator.Labels.Due.{role_labels}
use doltdb_operator.Replication.Switchover.{ClusterContext, shift_traffic_to_new_primary}

Result-cases : {A : Type 0} (r : Result A) → ((a : A) × (r ≡ ok a)) ⊎ ((e : Error) × (r ≡ err e))
Result-cases (ok a) = inl (a, refl)
Result-cases (err e) = inr (e, refl)

-- No label since, or one, which makes the Pod of the name primary.
abbrev LabelsOnly : Bytes → List (Bytes × Option Bytes) → State → Type 0
LabelsOnly name before s =
    (role_labels s.trace ≡ before) ⊎ (role_labels s.trace ≡ (name, some (codes "primary")) ∷ before)

module _ (env : Env) where
  mark_labels :
      (text : String) (pod : Pod) (name : Bytes) (t : State)
      → pod.name ≡ name
      → LabelsOnly name (role_labels t.trace) (wrap text (mark_role env pod primary) t).1
  unfolding attempt mark_role patch_labels with_role call pure fail
  mark_labels text pod name t same =
      marked (mark_role env pod primary t).0 (mark_role env pod primary t).1 (
        inr (
          ap (λ n. (n, label role_label (with_role primary pod).labels) ∷ role_labels t.trace) same
          ∙ ap (λ l. (name, l) ∷ role_labels t.trace) (label-with_role primary pod)))
    where
      marked :
          (r : Result (Unit {0})) (u : State)
          → LabelsOnly name (role_labels t.trace) u
          → LabelsOnly name (role_labels t.trace) (resume r pure (λ _. fail (message text)) u).1
      marked (ok a) u h = h
      marked (err e) u h = h

  -- Where a Pod is answered under its own name, the step of a switchover that shifts the traffic to
  -- the new primary sends no Pod to be labelled, or one with the role label primary, and that is the
  -- Pod of the old primary.
  pub shift_traffic_labels_old_primary :
      (ctx : ClusterContext) (s : State)
      → ((t : Trace) (name : Bytes) (pod : Pod) → env.get_pod t name ≡ ok pod → pod.name ≡ name)
      → let t = (shift_traffic_to_new_primary env ctx s).1 in
        (role_labels t.trace ≡ role_labels s.trace)
        ⊎ (role_labels t.trace
            ≡ (pod_name s.doltdb.name ctx.current_primary, some (codes "primary"))
              ∷ role_labels s.trace)
  unfolding shift_traffic_to_new_primary is_dolt_db_replica_healthy ◌>>=◌ attempt call pure fail
  shift_traffic_labels_old_primary ctx s named =
      elim (Result-cases (
        env.get_pod (Event.got_pod (pod_name s.doltdb.name ctx.current_primary) ∷ s.trace)
          (pod_name s.doltdb.name ctx.current_primary))) [
            | inl (pod, e) ↦ elim (Bool-cases (is_pod_ready pod)) [
              | inl r ↦
                  rw (e, r)
                    (mark_labels "error patching primary pod '%s' to shift traffic to it: %v" pod
                      (pod_name s.doltdb.name ctx.current_primary)
                      (record s {
                        trace =
                            Event.got_pod (pod_name s.doltdb.name ctx.current_primary) ∷ s.trace;
                      })
                      (named _ _ pod e))
              | inr r ↦ rw (e, r) (inl refl)
            ]
            | inr (x, e) ↦ rw e (inl refl)
          ]
