-- ===== src/Rbac.antt =====
-- pkg/controller/rbac/rbac.go and pkg/builder/rbac_builder.go: the ServiceAccount of a DoltDB and what
-- it may do. The server and the reference to the owner are an environment.
pub mod Delegated
use doltdb_operator.Prelude.{
  String, Bool, List, [], ◌∷◌, ◌++◌, Option, none, some, Bytes, codes, str_eq, split, any,
  if◌then◌else◌,
}
use doltdb_operator.Effect.{
  is_not_found, message, Result, Op, pure, fail, lift, ◌>>=◌, ◌>>◌, attempt, wrap,
}
use doltdb_operator.Service.{Texts, put_all}

-- What the reconciler reads of a DoltDB.
pub record Owner : Type 0 where
  pub name : Bytes
  pub namespace : Bytes
  pub uid : Bytes
  pub labels : Texts
  pub annotations : Texts
  pub service_account_name : Option Bytes
  pub service_account_annotations : Texts

pub record Key : Type 0 where
  pub name : Bytes
  pub namespace : Bytes

-- An object's metadata: its key, and the UIDs of its owners.
pub record ObjectMeta : Type 0 where
  pub key : Key
  pub labels : Texts
  pub annotations : Texts
  pub owners : List Bytes

pub record PolicyRule : Type 0 where
  pub api_groups : List Bytes
  pub resources : List Bytes
  pub verbs : List Bytes

pub record Role : Type 0 where
  pub meta : ObjectMeta
  pub rules : List PolicyRule

pub record RoleRef : Type 0 where
  pub kind : Bytes
  pub name : Bytes

-- A RoleBinding or a ClusterRoleBinding; its one subject is a ServiceAccount.
pub record Binding : Type 0 where
  pub meta : ObjectMeta
  pub subject : Key
  pub role_ref : RoleRef

pub data Event : Type 0 where
  got_account got_role got_binding got_cluster_binding : Key → Event
  created_account patched_account : ObjectMeta → Event
  created_role : Role → Event
  created_binding created_cluster_binding : Binding → Event

abbrev pub Trace : Type 0
Trace = List Event

pub record State : Type 0 where
  pub trace : Trace

pub record Env : Type 0 where
  -- `GroupName` of the external snapshotter.
  pub volume_snapshot_group : Bytes
  pub set_controller_reference : ObjectMeta → Result (Unit {0})
  pub get_account : Trace → Key → Result ObjectMeta
  pub create_account : Trace → ObjectMeta → Result (Unit {0})
  pub patch_account : Trace → ObjectMeta → Result (Unit {0})
  pub get_role : Trace → Key → Result Role
  pub create_role : Trace → Role → Result (Unit {0})
  pub get_binding : Trace → Key → Result Binding
  pub create_binding : Trace → Binding → Result (Unit {0})
  pub get_cluster_binding : Trace → Key → Result Binding
  pub create_cluster_binding : Trace → Binding → Result (Unit {0})

unfoldable pub call : {A : Type 0} → Event → (Trace → Result A) → Op State A
call e answer s = let t = e ∷ s.trace in (answer t, record { trace = t })

-- `ServiceAccountKey`.
abbrev pub or_default : Option Bytes → Bytes → Bytes
or_default none name = name
or_default (some n) name = n

abbrev pub service_account_key : Owner → Key
service_account_key d = record {
  name = or_default d.service_account_name d.name;
  namespace = d.namespace;
}

-- `parts[0]`, where a part is there.
abbrev pub with_first : Bytes → List Bytes → Bytes
with_first name [] = name
with_first name (part ∷ parts) = name ++ codes "-" ++ part

unfoldable pub auth_delegator_role_name_or_default : Owner → Bytes
unfolding split
auth_delegator_role_name_or_default d =
    with_first (d.name ++ codes "-" ++ d.namespace) (split 45 d.uid)

abbrev pub auth_delegator_key : Owner → Key
unfolding auth_delegator_role_name_or_default
auth_delegator_key d = record {
  name = auth_delegator_role_name_or_default d ++ codes ":auth-delegator";
  namespace = d.namespace;
}

unfoldable pub is_owned_by : Owner → List Bytes → Bool
unfolding str_eq
is_owned_by d owners = any (λ o. str_eq o d.uid) owners

-- `NewMetadataBuilder(key).WithMetadata(&doltdb.ObjectMeta).Build()`, without an owner yet.
abbrev pub metadata : Key → Owner → ObjectMeta
unfolding put_all
metadata key d = record {
  key = key;
  labels = put_all d.labels [];
  annotations = put_all d.annotations [];
  owners = [];
}

abbrev pub policy_rules : Bytes → List PolicyRule
policy_rules snapshots =
    record {
      api_groups = codes "k8s.dolthub.com" ∷ [];
      resources = codes "doltdbs" ∷ [];
      verbs = codes "get" ∷ [];
    }
    ∷ record { api_groups = [] ∷ []; resources = codes "pods" ∷ []; verbs = codes "get" ∷ [] }
    ∷ record {
      api_groups = snapshots ∷ [];
      resources = codes "volumesnapshots" ∷ [];
      verbs =
          codes "get"
          ∷ codes "list"
          ∷ codes "watch"
          ∷ codes "create"
          ∷ codes "update"
          ∷ codes "patch"
          ∷ codes "delete"
          ∷ [];
    }
    ∷ []

abbrev pub role_to : Bytes → RoleRef
role_to name = record { kind = codes "Role"; name = name }

abbrev pub auth_delegator : RoleRef
auth_delegator = record { kind = codes "ClusterRole"; name = codes "system:auth-delegator" }

-- The owner reference that `SetControllerReference` adds.
abbrev pub owned : Owner → ObjectMeta → ObjectMeta
owned d m = record m { owners = d.uid ∷ m.owners }

abbrev pub binding_of : Key → Owner → ObjectMeta → RoleRef → Binding
binding_of key d account ref = record {
  meta = owned d (metadata key d);
  subject = account.key;
  role_ref = ref;
}

-- An object is built and created.
abbrev pub make :
    {A : Type 0} → String → String → Op State A → (A → Op State (Unit {0})) → Op State A
make building creating build create =
    wrap building build >>= λ x. wrap creating (create x) >> pure x

module _ (env : Env) (d : Owner) where
  -- `SetControllerReference` on an object with the metadata.
  abbrev pub own : ObjectMeta → Op State ObjectMeta
  own m =
      wrap "error setting controller reference: %v" (lift (env.set_controller_reference m))
      >> pure (owned d m)

  unfoldable pub build_service_account : Key → Op State ObjectMeta
  unfolding put_all
  build_service_account key =
      let m = metadata key d in
      own (record m { annotations = put_all d.service_account_annotations m.annotations })

  unfoldable pub build_role : Key → Op State Role
  unfolding put_all
  build_role key = own (metadata key d) >>= λ m.
      pure (record { meta = m; rules = policy_rules env.volume_snapshot_group })

  unfoldable pub build_binding : Key → ObjectMeta → RoleRef → Op State Binding
  unfolding put_all
  build_binding key account ref = own (metadata key d) >>= λ m.
      pure (record { meta = m; subject = account.key; role_ref = ref })

  unfoldable pub patch_service_account_annotations : ObjectMeta → Op State ObjectMeta
  unfolding build_service_account call put_all
  patch_service_account_annotations existing =
      wrap "error building desired ServiceAccount: %v" (build_service_account existing.key)
      >>= λ desired.
          let patched = record existing {
            annotations = put_all desired.annotations existing.annotations;
          } in
          wrap "error patching ServiceAccount annotations: %v"
            (call (patched_account patched) (λ t. env.patch_account t patched))
          >> pure patched

  unfoldable pub reconcile_service_account : Key → Op State ObjectMeta
  unfolding patch_service_account_annotations build_service_account call
  reconcile_service_account key =
      attempt (call (got_account key) (λ t. env.get_account t key))
        patch_service_account_annotations
        (λ e.
          if is_not_found e
          then make "error building ServiceAccount: %v" "error creating ServiceAccount: %v"
              (build_service_account key)
              (λ x. call (created_account x) (λ t. env.create_account t x))
          else fail (message "error getting ServiceAccount: %v"))

  unfoldable pub reconcile_role : Key → Op State Role
  unfolding build_role call
  reconcile_role key = attempt (call (got_role key) (λ t. env.get_role t key)) pure (λ e.
      if is_not_found e
      then make "error building Role: %v" "error creating Role: %v" (build_role key)
          (λ x. call (created_role x) (λ t. env.create_role t x))
      else fail (message "error getting Role: %v"))

  unfoldable pub reconcile_role_binding : Key → ObjectMeta → RoleRef → Op State (Unit {0})
  unfolding build_binding call
  reconcile_role_binding key account ref =
      attempt (call (got_binding key) (λ t. env.get_binding t key)) (λ found. pure tt)
        (λ e.
          if is_not_found e
          then make "error building RoleBinding: %v" "error creating RoleBinding: %v"
              (build_binding key account ref)
              (λ x. call (created_binding x) (λ t. env.create_binding t x))
            >> pure tt
          else fail (message "error getting RoleBinding: %v"))

  unfoldable pub reconcile_cluster_role_binding : Key → ObjectMeta → RoleRef → Op State (Unit {0})
  unfolding build_binding call is_owned_by
  reconcile_cluster_role_binding key account ref =
      attempt (call (got_cluster_binding key) (λ t. env.get_cluster_binding t key))
        (λ found.
          if is_owned_by d found.meta.owners
          then pure tt
          else fail (message "ClusterRoleBinding '%s' already exists"))
        (λ e.
          if is_not_found e
          then make "error building ClusterRoleBinding: %v" "error creating ClusterRoleBinding: %v"
              (build_binding key account ref)
              (λ x. call (created_cluster_binding x) (λ t. env.create_cluster_binding t x))
            >> pure tt
          else fail (message "error getting ClusterRoleBinding: %v"))

  unfoldable pub reconcile_dolt_rbac : Op State (Unit {0})
  unfolding reconcile_service_account reconcile_role reconcile_role_binding
      reconcile_cluster_role_binding auth_delegator_role_name_or_default
  reconcile_dolt_rbac = do
    let key = service_account_key d
    sa ← wrap "error reconciling ServiceAccount: %v" (reconcile_service_account key)
    role ← wrap "error reconciling Role: %v" (reconcile_role key)
    wrap "error reconciling RoleBinding: %v"
        (reconcile_role_binding key sa (role_to role.meta.key.name))
    wrap "error reconciling system:auth-delegator ClusterRoleBinding: %v"
        (reconcile_cluster_role_binding (auth_delegator_key d) sa auth_delegator)
