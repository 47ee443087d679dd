-- ===== src/Replication/Safety.antt =====
-- A switchover promotes at most one server, that of the spec.
use doltdb_operator.Prelude.{ℕ, List, ◌∷◌, Option, String, ◌≡◌, refl, ◌∙◌, ap, ◌⊎◌, inl, inr}
use mathlib.Core.Path.{subst, sym}
use doltdb_operator.Effect.{Result, ok, err, Op, fail, modify, resume, ◌>>=◌, wrap}
use doltdb_operator.Effect.Keeps.{
  Keeps, keeps_rules, Keeps-bind, Keeps-pure, Keeps-fail, Keeps-lift, Keeps-attempt, Keeps-if,
}
use doltdb_operator.Effect.Ends.{Ends, Ends-bind, Ends-then, Ends-attempt_first}
use doltdb_operator.Dolt.{Role, DbState, primary}
use doltdb_operator.Api.DoltDb.{DoltDb, DoltDbStatus, primary_pod_index}
use doltdb_operator.Cluster.{Env, State, Trace, Event, call, set_doltdb, patch_status}
use doltdb_operator.Cluster.Traces.{assumed_roles}
use doltdb_operator.Cluster.Roles.{assumed_roles-quiet}
use doltdb_operator.Sql.{assume_role}
use doltdb_operator.Replication.{then_remove_client}
use doltdb_operator.Replication.Calls.{
  Stable, client_for_index_kept, remove_client_kept, shift_away_kept, set_primary_read_only_kept,
  shift_to_new_kept, phase_kept,
}
use doltdb_operator.Replication.Switchover.{
  ClusterContext, phase, configure_new_primary, run_phases, record_switch, switch_over,
  cluster_context,
}

abbrev pub Changes : Type 0
Changes = List (ℕ × Role × ℕ)

-- The spec asks for the server with index `j`, and the roles asked for so far are `changes`.
abbrev pub Asked : ℕ → Changes → State → Type 0
Asked j changes s = (primary_pod_index s.doltdb ≡ j) × (assumed_roles s.trace ≡ changes)

-- No server was asked to assume a role since, or `j` to become the primary at epoch `e`.
abbrev pub AtMostOne : ℕ → ℕ → Changes → State → Type 0
AtMostOne j e changes s =
    (primary_pod_index s.doltdb ≡ j)
    × ((assumed_roles s.trace ≡ changes) ⊎ (assumed_roles s.trace ≡ (j, primary, e) ∷ changes))

module _ {j : ℕ} {changes : Changes} where
  pub Asked-stable : Stable (Asked j changes)
  unfolding call
  Asked-stable = record {
    of_call = λ e answer h. record { at = λ s q. (q.0, assumed_roles-quiet e s.trace h ∙ q.1) };
    of_clients = λ s c q. q;
  }

  module _ {e : ℕ} where
    pub at_most_stable : Stable (AtMostOne j e changes)
    unfolding call
    at_most_stable = record {
      of_call = λ ev answer h. record {
        at = λ s q. (
          q.0,
          elim q.1 [
            | inl same ↦ inl (assumed_roles-quiet ev s.trace h ∙ same)
            | inr one ↦ inr (assumed_roles-quiet ev s.trace h ∙ one)
          ],
        );
      };
      of_clients = λ s c q. q;
    }

    pub Asked-at_most : (s : State) → Asked j changes s → AtMostOne j e changes s
    Asked-at_most s q = (q.0, inl q.1)

    module _ (env : Env) where
      call-Ends :
          (answer : Trace → Result (Option ℕ))
          → Ends
              (Asked j changes)
              (AtMostOne j e changes)
              (call (Event.assumed_role j primary e) answer)
      unfolding call
      call-Ends answer = record { at = λ s q. (q.0, inr (ap (λ l. (j, primary, e) ∷ l) q.1)) }

      assume-Ends : Ends (Asked j changes) (AtMostOne j e changes) (assume_role env j primary e)
      unfolding assume_role
      assume-Ends =
          Ends-then _ _ (call-Ends (λ t. env.call_assume_role t j primary e)) (λ row. Keeps-lift _)

      wrapped_assume-Ends :
          (text : String)
          → Ends
              (Asked j changes)
              (AtMostOne j e changes)
              (then_remove_client j (wrap text (assume_role env j primary e)))
      unfolding then_remove_client
      wrapped_assume-Ends text =
          Ends-attempt_first _ _ _
            (Ends-attempt_first _ _ _ assume-Ends (λ a. Keeps-pure a) (λ x. Keeps-fail _))
            (λ a. Keeps-bind _ _ (remove_client_kept at_most_stable env j) (λ _. Keeps-pure a))
            (λ x. Keeps-bind _ _ (remove_client_kept at_most_stable env j) (λ _. Keeps-fail x))

phase-Ends : {P Q : State → Type 0} (m : Op State (Unit {0})) → Ends P Q m → Ends P Q (phase m)
unfolding phase
phase-Ends m em =
    Ends-attempt_first _ _ _ em (λ a. Keeps-pure a)
      (λ e. Keeps-if _ _ _ (Keeps-fail e) (Keeps-fail _))

module _ {changes : Changes} (env : Env) (ctx : ClusterContext) where
  configure_at :
      (s : State)
      → assumed_roles s.trace ≡ changes
      → AtMostOne
          (primary_pod_index s.doltdb)
          ctx.next_epoch
          changes
          (configure_new_primary env ctx s).1
  unfolding configure_new_primary ◌>>=◌
  configure_at s q =
      (Ends-bind _ _
          (Keeps-attempt _ _ _ (client_for_index_kept Asked-stable env (primary_pod_index s.doltdb))
            (λ a. Keeps-pure a) (λ x. Keeps-fail _))
          (λ _. wrapped_assume-Ends env _) Asked-at_most).at
        s (refl, q)

  configure-Ends :
      {j : ℕ}
      → Ends (Asked j changes) (AtMostOne j ctx.next_epoch changes) (configure_new_primary env ctx)
  configure-Ends = record {
    at = λ s q.
        subst (λ i. AtMostOne i ctx.next_epoch changes (configure_new_primary env ctx s).1) q.0
          (configure_at s q.1);
  }

  phases-Ends :
      {j : ℕ} → Ends (Asked j changes) (AtMostOne j ctx.next_epoch changes) (run_phases env ctx)
  unfolding run_phases
  phases-Ends =
      Ends-bind _ _ (phase_kept Asked-stable env _ (shift_away_kept Asked-stable env))
        (λ _.
          Ends-bind _ _
            (phase_kept Asked-stable env _ (set_primary_read_only_kept Asked-stable env ctx))
            (λ _.
              Ends-then _ _ (phase-Ends _ configure-Ends)
                (λ _. phase_kept at_most_stable env _ (shift_to_new_kept at_most_stable env ctx)))
            Asked-at_most)
        Asked-at_most

-- The answer of a patch replaces the object by the same.
pub echoed :
    (P : State → Type 0) (r : Result DoltDb) (t : State)
    → P t
    → ((d' : DoltDb) → r ≡ ok d' → d' ≡ t.doltdb)
    → P (resume r set_doltdb fail t).1
unfolding set_doltdb fail modify
echoed P (ok d') t p h = subst (λ d. P (record t { doltdb = d })) (sym (h d' refl)) p
echoed P (err e) t p h = p

module _ (env : Env)
    (echoes : (t : Trace) (d d' : DoltDb) → env.patch_status t d ≡ ok d' → d' ≡ d) where
  -- A patch of the status keeps what depends on the spec and on the roles.
  pub patch_status-Keeps :
      (j : ℕ) (R : Trace → Type 0) (f : DoltDbStatus → DoltDbStatus)
      → ((status : DoltDbStatus) (t : Trace) → R t → R (Event.patched_status status ∷ t))
      → Keeps (λ s. (primary_pod_index s.doltdb ≡ j) × R s.trace) (patch_status env f)
  unfolding patch_status set_doltdb call ◌>>=◌
  patch_status-Keeps j R f h = record {
    at = λ s q.
        echoed (λ s. (primary_pod_index s.doltdb ≡ j) × R s.trace) _ _ (q.0, h _ s.trace q.1)
          (λ d' e. echoes _ _ d' e);
  }

  at_most_patched :
      {j e : ℕ} {changes : Changes} (text : String) (f : DoltDbStatus → DoltDbStatus)
      → Keeps (AtMostOne j e changes) (wrap text (patch_status env f))
  at_most_patched {j = j} {e = e} {changes = changes} text f =
      Keeps-attempt _ _ _
        (patch_status-Keeps j
          (λ t. (assumed_roles t ≡ changes) ⊎ (assumed_roles t ≡ (j, primary, e) ∷ changes)) f
          (λ status t q. q))
        (λ a. Keeps-pure a) (λ x. Keeps-fail _)

  pub Asked-patched :
      {j : ℕ} {changes : Changes} (text : String) (f : DoltDbStatus → DoltDbStatus)
      → Keeps (Asked j changes) (wrap text (patch_status env f))
  Asked-patched {j = j} {changes = changes} text f =
      Keeps-attempt _ _ _
        (patch_status-Keeps j (λ t. assumed_roles t ≡ changes) f (λ status t q. q))
        (λ a. Keeps-pure a) (λ x. Keeps-fail _)

  record_switch-Keeps :
      {j e : ℕ} {changes : Changes} (index : ℕ) (ctx : ClusterContext)
      → Keeps (AtMostOne j e changes) (record_switch env index ctx)
  unfolding record_switch
  record_switch-Keeps index ctx = search (keeps_rules, at_most_patched) depth 8

  switch_over-Ends :
      {j : ℕ} {changes : Changes} (d : DoltDb) (states : List DbState)
      → Ends
          (Asked j changes)
          (AtMostOne j (cluster_context d states).next_epoch changes)
          (switch_over env d states)
  unfolding switch_over
  switch_over-Ends d states =
      Ends-bind _ _ (Asked-patched _ _)
        (λ _.
          Ends-then _ _ (phases-Ends env (cluster_context d states))
            (λ _. record_switch-Keeps (primary_pod_index d) (cluster_context d states)))
        Asked-at_most

  -- Where a patch of the status answers with the object patched, a switchover, whether it succeeds
  -- or fails, calls DOLT_ASSUME_CLUSTER_ROLE at no server, or once, and then at the server of the
  -- spec, to become the primary, at the epoch after the highest that was read or, without one primary, after
  -- that of the status. The transition of the old primary to standby is another call and is not
  -- counted.
  pub switch_over_promotes_at_most_one :
      (d : DoltDb) (states : List DbState) (s : State)
      → (assumed_roles (switch_over env d states s).1.trace ≡ assumed_roles s.trace)
        ⊎ (assumed_roles (switch_over env d states s).1.trace
            ≡ (primary_pod_index s.doltdb, primary, (cluster_context d states).next_epoch)
              ∷ assumed_roles s.trace)
  switch_over_promotes_at_most_one d states s = ((switch_over-Ends d states).at s (refl, refl)).1
