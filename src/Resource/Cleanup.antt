-- ===== src/Resource/Cleanup.antt =====
-- `SqlFinalizer.Finalize`: when a finalizer leaves the object on the server.
use doltdb_operator.Prelude.{
  Bool, true, false, List, Option, none, some, Bytes, ◌≡◌, ◌⊎◌, inl, inr, refl, sym, if◌then◌else◌,
  Bool-cases,
}
use doltdb_operator.Effect.{
  Error, is_not_found, message, Requeue, nothing, is_zero, Result, ok, err, Op, pure, fail, resume,
  ◌>>=◌, ◌>>◌, attempt, wrap,
}
use doltdb_operator.Effect.Keeps.{Keeps, keeps_rules, Keeps-fail, Keeps-pure}
use doltdb_operator.Effect.Ends.{Ends, Ends-Keeps, Ends-if, Ends-bind}
use doltdb_operator.Api.DoltDb.{DoltDb}
use doltdb_operator.Resource.{
  Resource, CleanupPolicy, skip, delete, Event, State, Env, Wrapped, Trace, call, on_cluster,
}
use doltdb_operator.Resource.Client.{
  resolve_doltdb, secret_key_ref, new_client, new_client_with_doltdb,
}
use doltdb_operator.Resource.Reconcile.{
  Options, wait_for_doltdb, clean_up_and_release, finalize_on, release_or_fail, finalize,
}

-- What the kinds promise: cleaning up in SQL leaves the object on the server alone.
pub record LeavesObject (w : Wrapped) : Type 0 where
  pub clean_up_kept : (fs : List Bytes) → Keeps (λ s. s.stored.finalizers ≡ fs) w.clean_up

-- A last step that only returns leaves the state.
return_state : {A B : Type 0} (m : Op State A) (b : B) (s : State) → ((m >> pure b) s).1 ≡ (m s).1
unfolding ◌>>=◌ pure fail
return_state m b s = left b (m s).0 (m s).1
  where
    left : {A B : Type 0} (b : B) (r : Result A) (t : State) → (resume r (λ _. pure b) fail t).1 ≡ t
    left b (ok a) t = refl
    left b (err e) t = refl

module _ (env : Env) (o : Options) (w : Wrapped) (leaves : LeavesObject w) (r : Resource)
    (start : State) where
  -- The clean-up has returned without an error, and then the finalizer was removed, and no more.
  abbrev pub Cleaned : State → Type 0
  Cleaned end =
      (s : State) × ((w.clean_up s).0 ≡ ok tt)
      × (end
          ≡ (wrap "error removing finalizer in TemplateFinalizer: %v" w.remove_finalizer
              (w.clean_up s).1).1)

  -- Why a finalizer may be gone at the end of a pass from `start`: the first call has told that the
  -- DoltDB is not found, the policy is to skip the clean-up, or the object was cleaned up.
  abbrev pub MayRelease : State → Type 0
  MayRelease end =
      ((e : Error) × ((resolve_doltdb env r start).0 ≡ err e) × (is_not_found e ≡ true))
      ⊎ (r.cleanup_policy ≡ some skip)
      ⊎ Cleaned end

  abbrev Kept : State → Type 0
  Kept s = s.stored.finalizers ≡ start.stored.finalizers

  abbrev KeptOrMay : State → Type 0
  KeptOrMay s = Kept s ⊎ MayRelease s

  call-Kept : {A : Type 0} (e : Event) (answer : Trace → Result A) → Keeps Kept (call e answer)
  unfolding call
  call-Kept e answer = record { at = λ s h. h }

  cluster-Kept : {A : Type 0} (m : Op _ A) → Keeps Kept (on_cluster m)
  unfolding on_cluster
  cluster-Kept m = record { at = λ s h. h }

  wait-Kept : (d : DoltDb) → Keeps Kept (wait_for_doltdb env d)
  unfolding wait_for_doltdb
  wait-Kept d = search (keeps_rules, cluster-Kept) depth 8

  secret-Kept : (namespace name key : Bytes) → Keeps Kept (secret_key_ref env namespace name key)
  unfolding secret_key_ref
  secret-Kept namespace name key = search (keeps_rules, call-Kept) depth 8

  new_client-Kept : (opts : _) → Keeps Kept (new_client env opts)
  unfolding new_client
  new_client-Kept opts = search (keeps_rules, call-Kept) depth 8

  client-Kept : (d : DoltDb) → Keeps Kept (new_client_with_doltdb env o.cluster_name d)
  unfolding new_client_with_doltdb
  client-Kept d = search (keeps_rules, secret-Kept, new_client-Kept) depth 12

  resolve-Kept : Keeps Kept (resolve_doltdb env r)
  unfolding resolve_doltdb
  resolve-Kept = search (keeps_rules, call-Kept) depth 6

  cleaned-Ends : Ends Kept KeptOrMay (clean_up_and_release env o w none)
  unfolding ◌>>=◌ attempt pure fail
  cleaned-Ends = record {
    at = λ s h.
        cleaned s (w.clean_up s).0 refl ((leaves.clean_up_kept start.stored.finalizers).at s h);
  }
    where
      release : Op State Requeue
      release =
          wrap "error removing finalizer in TemplateFinalizer: %v" w.remove_finalizer
          >> pure nothing

      cleaned :
          (s : State) (a : Result (Unit {0}))
          → (w.clean_up s).0 ≡ a
          → Kept (w.clean_up s).1
          → let y =
              resume a pure
                (λ e. fail (message "error reconciling in TemplateFinalizer: %v"))
                (w.clean_up s).1 in
            KeptOrMay (resume y.0 (λ _. release) fail y.1).1
      cleaned s (ok a) run h = inr (
          inr (
            inr (
              s,
              run,
              return_state
                  (wrap "error removing finalizer in TemplateFinalizer: %v" w.remove_finalizer)
                  nothing (w.clean_up s).1,
            )))
      cleaned s (err e) run h = inl h

  -- After the clean-up, or where the policy skips it, the finalizer may go.
  released-Ends :
      (policy : Option CleanupPolicy)
      → policy ≡ r.cleanup_policy
      → Ends Kept KeptOrMay (clean_up_and_release env o w policy)
  released-Ends none e = cleaned-Ends
  released-Ends (some delete) e = cleaned-Ends
  released-Ends (some skip) e = record { at = λ s h. inr (inr (inl (sym e))) }

  finalize_on-Ends : (d : DoltDb) → Ends Kept KeptOrMay (finalize_on env o w r d)
  finalize_on-Ends d =
      Ends-bind _ _ (wait-Kept d)
        (λ result.
          Ends-if (is_zero result) _ _
            (Ends-bind _ _ (search (keeps_rules, client-Kept) depth 6)
              (λ _. released-Ends r.cleanup_policy refl) (λ s h. inl h))
            (Ends-Keeps _ (Keeps-pure result) (λ s h. inl h)))
        (λ s h. inl h)

  not_found-Ends :
      (e : Error)
      → (resolve_doltdb env r start).0 ≡ err e
      → Ends Kept KeptOrMay (release_or_fail env o w e)
  not_found-Ends e run = elim (Bool-cases (is_not_found e)) [
    | inl gone ↦ record { at = λ s h. inr (inl (e, run, gone)) }
    | inr other ↦ rw other (Ends-Keeps _ (Keeps-fail _) (λ s h. inl h))
  ]

  -- A finalizer leaves the object on the server only where it may: the DoltDB is not found, the
  -- policy of the object is to skip the clean-up, or the clean-up in SQL has returned without an
  -- error just before. Else, whatever fails on the way, the finalizers on the server are as before.
  pub finalize_keeps_or_may : KeptOrMay (finalize env o w r start).1
  unfolding finalize attempt pure
  finalize_keeps_or_may = held (w.contains_finalizer start)
    where
      resolved :
          (a : Result DoltDb)
          → (resolve_doltdb env r start).0 ≡ a
          → KeptOrMay
              (resume a
                (finalize_on env o w r)
                (release_or_fail env o w)
                (resolve_doltdb env r start).1).1
      resolved (ok d) run = (finalize_on-Ends d).at _ (resolve-Kept.at start refl)
      resolved (err e) run = (not_found-Ends e run).at _ (resolve-Kept.at start refl)

      held :
          (b : Bool)
          → KeptOrMay
              ((if b
                  then attempt
                      (resolve_doltdb env r)
                      (finalize_on env o w r)
                      (release_or_fail env o w)
                  else pure nothing)
                start).1
      held true = resolved (resolve_doltdb env r start).0 refl
      held false = inl refl
