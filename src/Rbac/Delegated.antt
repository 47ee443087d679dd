-- ===== src/Rbac/Delegated.antt =====
-- The ClusterRoleBinding that lets the ServiceAccount of a DoltDB delegate.
use doltdb_operator.Prelude.{
  Bool, true, false, ◌∷◌, ◌≡◌, refl, sym, ap, ◌∙◌, ◌⊎◌, inl, inr, if◌then◌else◌,
}
use mathlib.Core.Path.{subst}
use doltdb_operator.Effect.{message, Result, ok, Op, pure, fail, ◌>>◌}
use doltdb_operator.Effect.Steps.{step-inv, wrap-inv, attempt-inv}
use doltdb_operator.Effect.Knows.{wrap_returned, wrap_state}
use doltdb_operator.Rbac.{
  Owner, Key, ObjectMeta, RoleRef, Binding, got_cluster_binding, created_cluster_binding, Trace,
  State, Env, call, service_account_key, auth_delegator_key, auth_delegator, role_to, is_owned_by,
  metadata, owned, binding_of, own, make, build_binding, reconcile_service_account, reconcile_role,
  reconcile_role_binding, reconcile_cluster_role_binding, reconcile_dolt_rbac,
}

module _ (env : Env) (d : Owner) where
  -- The last call of the trace: the server has shown a binding of that key that belongs to the DoltDB,
  -- or it has accepted the one that is built for the account.
  abbrev pub IsBound : Key → ObjectMeta → RoleRef → Trace → Type 0
  IsBound key account ref after =
      (t : Trace) × (((b : Binding) × (after ≡ got_cluster_binding key ∷ t)
          × (env.get_cluster_binding after key ≡ ok b)
          × (is_owned_by d b.meta.owners ≡ true))
        ⊎ ((after ≡ created_cluster_binding (binding_of key d account ref) ∷ t)
            × (env.create_cluster_binding after (binding_of key d account ref) ≡ ok tt)))

  module _ (key : Key) (account : ObjectMeta) (ref : RoleRef) where
    built_binding :
        (s : State) (b : Binding)
        → (build_binding env d key account ref s).0 ≡ ok b
        → b ≡ binding_of key d account ref
    unfolding build_binding pure
    built_binding s b h =
        let (m, m_ok, last, _) = step-inv (own env d (metadata key d)) _ s h in
        let (u, _, m_is, _) = step-inv _ (λ _. pure (owned d (metadata key d))) s m_ok in cc

    created-IsBound :
        (s : State) (r : Binding)
        → let m =
            make "error building ClusterRoleBinding: %v" "error creating ClusterRoleBinding: %v"
              (build_binding env d key account ref)
              (λ b. call (created_cluster_binding b) (λ t. env.create_cluster_binding t b)) in
          (m s).0 ≡ ok r → IsBound key account ref (m s).1.trace
    unfolding call pure
    created-IsBound s r h =
        let (b, b_ok, rest, e) = wrap-inv _ (build_binding env d key account ref) _ s h in
        let t = (build_binding env d key account ref s).1 in
        let (u, created, _, e') =
          wrap-inv _ (call (created_cluster_binding b) (λ x. env.create_cluster_binding x b))
            (λ _. pure b) t rest in
        let bound =
          subst
            (λ x.
              env.create_cluster_binding (created_cluster_binding x ∷ t.trace) x ≡ ok tt
              → IsBound key account ref (created_cluster_binding x ∷ t.trace))
            (sym (built_binding s b b_ok)) (λ c. (t.trace, inr (refl, c))) created in
        subst (λ (y : Result Binding × State). IsBound key account ref y.1.trace) (sym (e ∙ e'))
          bound

    found-IsBound :
        (t : Trace) (b : Binding) (o : Bool)
        → env.get_cluster_binding (got_cluster_binding key ∷ t) key ≡ ok b
        → is_owned_by d b.meta.owners ≡ o
        → let m =
            if o
            then pure {S = State} tt
            else fail (message "ClusterRoleBinding '%s' already exists") in
          let y = m (record { trace = got_cluster_binding key ∷ t }) in
          y.0 ≡ ok tt → IsBound key account ref y.1.trace
    unfolding fail pure
    found-IsBound t b true found mine h = (t, inl (b, refl, found, mine))
    found-IsBound t b false found other h = cc

    absent-IsBound :
        (t : State) (o : Bool) (m : Op State Binding)
        → ((r : Binding) → (m t).0 ≡ ok r → IsBound key account ref (m t).1.trace)
        → let y =
            (if o then m >> pure tt else fail (message "error getting ClusterRoleBinding: %v")) t in
          y.0 ≡ ok tt → IsBound key account ref y.1.trace
    unfolding fail pure
    absent-IsBound t true m k h =
        let (r, r_ok, _, e) = step-inv m (λ _. pure tt) t h in
        subst (λ (y : Result (Unit {0}) × State). IsBound key account ref y.1.trace) (sym e)
          (k r r_ok)
    absent-IsBound t false m k h = cc

    bind-IsBound :
        (s : State)
        → let y = reconcile_cluster_role_binding env d key account ref s in
          y.0 ≡ ok tt → IsBound key account ref y.1.trace
    unfolding reconcile_cluster_role_binding call
    bind-IsBound s h =
        let after = λ (y : Result (Unit {0}) × State). IsBound key account ref y.1.trace in
        elim (attempt-inv (call (got_cluster_binding key) (λ t. env.get_cluster_binding t key)) _ _
          s h) [
            | inl (b, found, rest, e) ↦
                subst after (sym e) (found-IsBound s.trace b _ found refl rest)
            | inr (x, _, rest, e) ↦
                subst after (sym e) (absent-IsBound _ _ _ (created-IsBound _) rest)
          ]

  -- A pass over the RBAC objects of a DoltDB that returns has begun by reconciling a ServiceAccount,
  -- and its last call is one of two: the server has shown a ClusterRoleBinding of the DoltDB's name
  -- with an owner reference to the DoltDB, or it has accepted one whose subject is that account and
  -- whose role is system:auth-delegator.
  pub reconcile_dolt_rbac-IsBound :
      (s : State)
      → (reconcile_dolt_rbac env d s).0 ≡ ok tt
      → (account : ObjectMeta) × ((reconcile_service_account env d (service_account_key d) s).0
          ≡ ok account)
        × IsBound
            (auth_delegator_key d)
            account
            auth_delegator
            (reconcile_dolt_rbac env d s).1.trace
  unfolding reconcile_dolt_rbac
  reconcile_dolt_rbac-IsBound s h =
      let key = service_account_key d in
      let (sa, made, h1, e1) = wrap-inv _ (reconcile_service_account env d key) _ s h in
      let (role, _, h2, e2) = wrap-inv _ (reconcile_role env d key) _ _ h1 in
      let (_, _, h3, e3) =
        wrap-inv _ (reconcile_role_binding env d key sa (role_to role.meta.key.name)) _ _ h2 in
      let last = reconcile_cluster_role_binding env d (auth_delegator_key d) sa auth_delegator in
      let end =
        ap (λ (y : Result (Unit {0}) × State). y.1) (e1 ∙ (e2 ∙ e3)) ∙ wrap_state _ last _ in
      (
        sa,
        made,
        subst (λ (t : State). IsBound (auth_delegator_key d) sa auth_delegator t.trace) (sym end)
            (bind-IsBound _ sa auth_delegator _ (wrap_returned _ last _ _ h3)),
      )
