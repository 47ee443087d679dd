-- ===== src/Replication/Writable.antt =====
-- A switchover does not go past an old primary that stays writable.
use doltdb_operator.Prelude.{
  ℕ, Bool, true, false, List, ◌∷◌, Option, none, some, Bytes, String, ◌≡◌, refl, ◌∙◌, if◌then◌else◌,
}
use mathlib.Core.Path.{subst, sym}
use doltdb_operator.Effect.{
  Error, Result, ok, err, Op, pure, fail, resume, ◌>>=◌, wrap, attempt, is_not_found, message,
}
use doltdb_operator.Effect.Keeps.{Keeps, Keeps-attempt, Keeps-pure, Keeps-fail}
use doltdb_operator.Effect.Gives.{
  Gives, Good, Any, Fails, Gives-Any, Gives-fail, Gives-pure, Gives-lift, Gives-attempt, Gives-bind,
  Good-bind,
}
use doltdb_operator.Dolt.{Role, DbState, is_standby}
use doltdb_operator.Api.DoltDb.{DoltDb}
use doltdb_operator.Api.Pod.{Pod, is_pod_ready}
use doltdb_operator.Cluster.{Env, State, Trace, Event, call, patch_status, set_doltdb}
use doltdb_operator.Cluster.Traces.{assumed_roles}
use doltdb_operator.Cluster.Roles.{assumed_roles-quiet}
use doltdb_operator.Naming.{pod_name}
use doltdb_operator.Sql.{
  TransitionStandbyOpts, require_row, get_role_and_epoch, transition_to_standby,
}
use doltdb_operator.Health.{is_dolt_db_replica_healthy}
use doltdb_operator.Replication.{then_remove_client, current_primary_client, client_of}
use doltdb_operator.Replication.Calls.{
  Stable, shift_away_kept, set_primary_read_only_kept, phase_kept, current_primary_ready_kept,
}
use doltdb_operator.Replication.Switchover.{
  ClusterContext, is_read_only, phase, ready_of, current_primary_ready, drain_primary,
  drain_unless_standby, set_primary_read_only, run_phases, switch_over, switching_status,
  cluster_context,
}
use doltdb_operator.Replication.Safety.{echoed}

module _ {A : Type 0} {Q : A → Type 0} {E : Error → Type 0} where
  Gives-call :
      (e : Event) (answer : Trace → Result A)
      → ((t : Trace) → Good Q E (answer t))
      → Gives Q E (call e answer)
  unfolding call
  Gives-call e answer h = record { at = λ s. h (e ∷ s.trace) }

Fails-after :
    {A B : Type 0} (m : Op State A) (f : A → Op State B) → ((a : A) → Fails (f a)) → Fails (m >>= f)
Fails-after m f k = Gives-bind _ _ (Gives-Any m) (λ a _. k a) (λ e _. tt)

then_remove_client-Fails :
    {A : Type 0} (i : ℕ) (m : Op State A) → Fails m → Fails (then_remove_client i m)
unfolding then_remove_client
then_remove_client-Fails i m k =
    Gives-attempt _ _ _ k (λ a q. absurd q) (λ e _. Fails-after _ _ (λ _. Gives-fail e tt))

wrap_kept :
    {P : State → Type 0} {A : Type 0} (text : String) (m : Op State A)
    → Keeps P m
    → Keeps P (wrap text m)
wrap_kept text m k = Keeps-attempt _ _ _ k (λ a. Keeps-pure a) (λ e. Keeps-fail _)

Good-wrap :
    {A : Type 0} (Q : A → Type 0) (text : String) (m : Op State A) (s : State)
    → Good Q Any (m s).0
    → Good Q Any (wrap text m s).0
unfolding attempt pure fail
Good-wrap Q text m s h = wrapped (m s).0 (m s).1 h
  where
    wrapped :
        (r : Result _) (t : State)
        → Good Q Any r
        → Good Q Any (resume r pure (λ e. fail (message text)) t).0
    wrapped (ok a) t h = h
    wrapped (err e) t h = tt

module _ (P : State → Type 0) where
  -- From the state `m` fails, and `P` holds after it.
  abbrev Stops : {A : Type 0} → State → Op State A → Type 0
  Stops s m = Good (λ _. ⊥) Any (m s).0 × P (m s).1

  Stops-after :
      {A B : Type 0} (m : Op State A) (f : A → Op State B) (s : State)
      → P (m s).1
      → ((a : A) (t : State) → P t → Stops t (f a))
      → Stops s (m >>= f)
  unfolding ◌>>=◌ fail
  Stops-after m f s p k = after (m s).0 (m s).1 p
    where
      after : (r : Result _) (t : State) → P t → Stops t (resume r f fail)
      after (ok a) t p = k a t p
      after (err e) t p = (tt, p)

  Stops-first :
      {A B : Type 0} (m : Op State A) (f : A → Op State B) (s : State)
      → Stops s m
      → Stops s (m >>= f)
  unfolding ◌>>=◌ fail
  Stops-first m f s h = first (m s).0 (m s).1 h.0 h.1
    where
      first : (r : Result _) (t : State) → Good (λ _. ⊥) Any r → P t → Stops t (resume r f fail)
      first (ok a) t n p = absurd n
      first (err e) t n p = (tt, p)

  Stops-phase : (m : Op State (Unit {0})) (s : State) → Stops s m → Stops s (phase m)
  unfolding phase attempt pure fail
  Stops-phase m s h = failed (m s).0 (m s).1 h.0 h.1
    where
      given : Error → Op State (Unit {0})
      given e =
          if is_not_found e
          then fail e
          else fail (message "error in '%s' switchover reconcile phase: %v")

      by_kind :
          (b : Bool) (e : Error) (t : State)
          → P t
          → Stops t (
              if b
              then fail {S = State} {A = Unit {0}} e
              else fail (message "error in '%s' switchover reconcile phase: %v"))
      by_kind true e t p = (tt, p)
      by_kind false e t p = (tt, p)

      failed :
          (r : Result (Unit {0})) (t : State)
          → Good (λ _. ⊥) Any r
          → P t
          → Stops t (resume r pure given)
      failed (ok a) t n p = absurd n
      failed (err e) t n p = by_kind (is_not_found e) e t p

abbrev Changes : Type 0
Changes = List (ℕ × Role × ℕ)

module _ (env : Env) (name : Bytes) (i : ℕ)
    (up : (t : Trace) (pod : Pod)
      → env.get_pod t (pod_name name i) ≡ ok pod
      → is_pod_ready pod ≡ true)
    (writable : (t : Trace) (r : Role) (e : ℕ)
      → env.query_role t i ≡ ok (some (r, e))
      → is_standby r ≡ false)
    (refuses : (t : Trace) (e n : ℕ)
      → (x : Error) × (env.call_transition t i e n ≡ err x) × (is_read_only x ≡ false)) where
  Good-role :
      (r : Result (Option (Role × ℕ)))
      → ((role : Role) (e : ℕ) → r ≡ ok (some (role, e)) → is_standby role ≡ false)
      → Good
          (λ (o : Option (Role × ℕ)).
            (role : Role) (e : ℕ) → o ≡ some (role, e) → is_standby role ≡ false)
          Any
          r
  Good-role (ok o) h = λ role e p. h role e (rw p refl)
  Good-role (err e) h = tt

  role_writable : Gives (λ (f : Role × ℕ). is_standby f.0 ≡ false) Any (get_role_and_epoch env i)
  unfolding get_role_and_epoch
  role_writable =
      Gives-bind {E = Any} _ _
        (Gives-call _ (λ t. env.query_role t i) (λ t. Good-role _ (λ r e p. writable t r e p)))
        (λ row h. Gives-lift _ (row_good row h)) (λ e _. tt)
    where
      row_good :
          (o : Option (Role × ℕ))
          → ((role : Role) (e : ℕ) → o ≡ some (role, e) → is_standby role ≡ false)
          → Good (λ (f : Role × ℕ). is_standby f.0 ≡ false) Any (require_row o)
      row_good none h = tt
      row_good (some (role, e)) h = h role e refl

  transition_refused :
      (o : TransitionStandbyOpts)
      → Gives (λ _. ⊥) (λ e. is_read_only e ≡ false) (transition_to_standby env i o)
  unfolding transition_to_standby
  transition_refused o =
      Gives-bind _ _ (Gives-call {Q = λ _. ⊥} _ _ (λ t. refused t)) (λ a q. absurd q) (λ e h. h)
    where
      refused :
          (t : Trace)
          → Good
              (λ _. ⊥)
              (λ e. is_read_only e ≡ false)
              (env.call_transition t i o.epoch o.min_caught_up_standbys)
      refused t =
          let (x, e, h) = refuses t o.epoch o.min_caught_up_standbys in
          subst (Good (λ _. ⊥) (λ e. is_read_only e ≡ false)) (sym e) h

  drain-Fails : (ctx : ClusterContext) → Fails (drain_primary env i ctx)
  unfolding drain_primary
  drain-Fails ctx = Fails-after _ _ (λ hosts.
      Gives-attempt _ _ _ (transition_refused _) (λ a q. absurd q) (λ e h. rw h (Gives-fail _ tt)))

  unless_standby-Fails : (ctx : ClusterContext) → Fails (drain_unless_standby env i ctx)
  unless_standby-Fails ctx =
      Gives-attempt _ _ _ role_writable (λ f w. rw w (drain-Fails ctx)) (λ e _. drain-Fails ctx)

  -- The status has the primary at `i`, and the roles asked for so far are `changes`.
  abbrev At : Changes → State → Type 0
  At changes s =
      (s.doltdb.status.current_primary_pod_index ≡ some i)
      × (s.doltdb.name ≡ name)
      × (assumed_roles s.trace ≡ changes)

  At-stable : (changes : Changes) → Stable (At changes)
  unfolding call
  At-stable changes = record {
    of_call =
        λ e answer h. record { at = λ s (q, n, r). (q, n, assumed_roles-quiet e s.trace h ∙ r) };
    of_clients = λ s c q. q;
  }

  module _ (changes : Changes) where
    up_at :
        (n : Bytes)
        → n ≡ name
        → (t : Trace) (pod : Pod) → env.get_pod t (pod_name n i) ≡ ok pod
        → is_pod_ready pod ≡ true
    up_at n named =
        subst
          (λ n.
            (t : Trace) (pod : Pod)
            → env.get_pod t (pod_name n i) ≡ ok pod
            → is_pod_ready pod ≡ true)
          (sym named) up

    ready-At :
        (s : State)
        → At changes s
        → Good (λ (f : Pod × Bool). f.1 ≡ true) Any (current_primary_ready env s).0
    unfolding current_primary_ready is_dolt_db_replica_healthy call ◌>>=◌ pure
    ready-At s (at_i, named, _) =
        subst (λ o. Good (λ (f : Pod × Bool). f.1 ≡ true) Any (ready_of env o s).0) (sym at_i)
          (found _ (λ pod e. up_at s.doltdb.name named _ pod e) _)
      where
        found :
            (r : Result Pod)
            → ((pod : Pod) → r ≡ ok pod → is_pod_ready pod ≡ true)
            → (t : State)
            → Good
                (λ (f : Pod × Bool). f.1 ≡ true)
                Any
                (resume r (λ pod. pure (pod, is_pod_ready pod)) fail t).0
        found (ok pod) h t = h pod refl
        found (err e) h t = tt

    client_of-Gives : Gives (λ k. k ≡ i) Any (client_of env (some i))
    client_of-Gives = Gives-bind _ _ (Gives-Any _) (λ _ _. Gives-pure i refl) (λ e _. tt)

    client-At : (s : State) → At changes s → Good (λ k. k ≡ i) Any (current_primary_client env s).0
    unfolding current_primary_client ◌>>=◌ pure
    client-At s (at_i, _, _) =
        subst (λ o. Good (λ k. k ≡ i) Any (client_of env o s).0) (sym at_i) (client_of-Gives.at s)

    read_only_fails :
        (ctx : ClusterContext) (s : State)
        → At changes s
        → Good (λ _. ⊥) Any (set_primary_read_only env ctx s).0
    unfolding set_primary_read_only
    read_only_fails ctx s p = Good-bind _ _ _ _ s (Good-wrap _ _ _ s (ready-At s p)) (λ found ready.
        rw ready (
          Good-bind _ _ _ _ _
            (Good-wrap _ _ _ _ (
              client-At _
                ((wrap_kept _ _ (current_primary_ready_kept (At-stable changes) env)).at s p)))
            (λ k same.
              subst
                (λ j.
                  (u : State)
                  → Good (λ _. ⊥) Any (then_remove_client j (drain_unless_standby env j ctx) u).0)
                (sym same) (then_remove_client-Fails i _ (unless_standby-Fails ctx)).at _)))

    phases-Stops :
        (ctx : ClusterContext) (s : State)
        → At changes s
        → Stops (At changes) s (run_phases env ctx)
    unfolding run_phases
    phases-Stops ctx s p =
        let st = At-stable changes in
        Stops-after (At changes) _ _ s ((phase_kept st env _ (shift_away_kept st env)).at s p)
          (λ _ t q. Stops-first (At changes) _ _ t (
            Stops-phase (At changes) _ t
              (read_only_fails ctx t q, (set_primary_read_only_kept st env ctx).at t q)))

    module _ (echoes : (t : Trace) (d d' : DoltDb) → env.patch_status t d ≡ ok d' → d' ≡ d) where
      marked_kept :
          (d : DoltDb) → Keeps (At changes) (patch_status env (switching_status env.meta d))
      unfolding patch_status set_doltdb call ◌>>=◌
      marked_kept d = record {
        at = λ s q.
            let sent = record s.doltdb { status = switching_status env.meta d s.doltdb.status } in
            let t = record s {
              doltdb = sent;
              trace = Event.patched_status sent.status ∷ s.trace;
            } in
            echoed (At changes) (env.patch_status t.trace sent) t (q.0, q.1, q.2)
              (λ d' e. echoes t.trace sent d' e);
      }

      switch_over-Stops :
          (d : DoltDb) (states : List DbState) (s : State)
          → At changes s
          → Stops (At changes) s (switch_over env d states)
      unfolding switch_over
      switch_over-Stops d states s p =
          Stops-after (At changes) _ _ s ((wrap_kept _ _ (marked_kept d)).at s p)
            (λ _ t q. Stops-first (At changes) _ _ t (phases-Stops (cluster_context d states) t q))

-- Where the Pod of the primary of the status is ready when it is read, and its server does not report
-- to be a standby and refuses the transition with another error than that of a read-only server, a
-- switchover fails, and it asks no server to assume a role: the transition that was refused is all
-- that it asks of a role. Nothing is assumed of the other servers; a patch of the status that is
-- accepted answers with the object patched.
pub writable_primary_stops_switchover :
    (env : Env) (i : ℕ) (d : DoltDb) (states : List DbState) (s : State)
    → s.doltdb.status.current_primary_pod_index ≡ some i
    → ((t : Trace) (pod : Pod)
        → env.get_pod t (pod_name s.doltdb.name i) ≡ ok pod
        → is_pod_ready pod ≡ true)
    → ((t : Trace) (r : Role) (e : ℕ)
        → env.query_role t i ≡ ok (some (r, e))
        → is_standby r ≡ false)
    → ((t : Trace) (e n : ℕ)
        → (x : Error) × (env.call_transition t i e n ≡ err x) × (is_read_only x ≡ false))
    → ((t : Trace) (d d' : DoltDb) → env.patch_status t d ≡ ok d' → d' ≡ d)
    → ((e : Error) × ((switch_over env d states s).0 ≡ err e))
      × (assumed_roles (switch_over env d states s).1.trace ≡ assumed_roles s.trace)
writable_primary_stops_switchover env i d states s at_i up writable refuses echoes =
    let (fails, (_, _, same)) =
      switch_over-Stops env s.doltdb.name i up writable refuses (assumed_roles s.trace) echoes d
        states s (at_i, refl, refl) in
    (failed _ fails, same)
  where
    failed : (r : Result (Unit {0})) → Good (λ _. ⊥) Any r → (e : Error) × (r ≡ err e)
    failed (ok a) n = absurd n
    failed (err e) n = (e, refl)
