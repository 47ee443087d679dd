-- ===== src/Service.antt =====
-- pkg/builder/service_builder.go, labels.go and metadata.go, pkg/controller/service/service.go, and
-- `reconcileService` of internal/controller/doltdb_controller.go: the Services of a DoltDB.
pub mod Selection
pub mod Ports
use doltdb_operator.Prelude.{
  ℕ, Bool, true, false, List, [], ◌∷◌, ◌++◌, Option, none, some, Bytes, codes, ◌==◌, ◌&&◌, not, any,
  keep, map, is_empty, String, str_eq, if◌then◌else◌,
}
use doltdb_operator.Effect.{
  Error, is_not_found, Requeue, nothing, after, is_zero, message, Result, ok, err, Op, pure, fail,
  lift, ◌>>=◌, ◌>>◌, attempt, wrap,
}
use doltdb_operator.Api.DoltDb.{
  DoltDb, replication_enabled, internal_service_name, primary_service_name, reader_service_name,
}
use doltdb_operator.Naming.{pod_name}

-- A Go map of texts, with one entry for each key.
abbrev pub Texts : Type 0
Texts = List (Bytes × Bytes)

unfoldable pub put : Bytes → Bytes → Texts → Texts
put k v [] = (k, v) ∷ []
put k v ((j, w) ∷ m) = let rest = put k v m in if str_eq k j then (k, v) ∷ m else (j, w) ∷ rest

unfoldable pub put_all : Texts → Texts → Texts
unfolding put
put_all [] m = m
put_all ((k, v) ∷ more) m = put_all more (put k v m)

-- A `ServicePort`; a node port of 0 is unset.
pub record ServicePort : Type 0 where
  pub port : ℕ
  pub name : Bytes
  pub node_port : ℕ

pub data ServiceType : Type 0 where
  unset_type cluster_ip node_port_type load_balancer : ServiceType

pub record Service : Type 0 where
  pub name : Bytes
  pub labels : Texts
  pub annotations : Texts
  pub ports : List ServicePort
  pub selector : Texts
  pub kind : ServiceType
  pub cluster_ip_none : Bool
  pub allocate_node_ports : Option Bool

-- What only the Services use of a DoltDB: its labels and annotations, the port of the remotes API and
-- that of the MCP server.
pub record Exposed : Type 0 where
  pub labels : Texts
  pub annotations : Texts
  pub remotes_api_port : ℕ
  pub mcp_port : Option ℕ

abbrev pub app_label : Bytes
app_label = codes "app.kubernetes.io/name"

abbrev pub pod_name_label : Bytes
pod_name_label = codes "statefulset.kubernetes.io/pod-name"

abbrev pub role_label : Bytes
role_label = codes "k8s.dolthub.com/cluster-role"

-- `LabelsBuilder`: `WithDoltSelectorLabels`, `WithPodPrimaryRole`, `WithPodStandbyRole`,
-- `WithStatefulSetPod`.
unfoldable pub dolt_selector_labels : DoltDb → Texts → Texts
unfolding put
dolt_selector_labels d = put app_label d.name

unfoldable pub pod_primary_role : Texts → Texts
unfolding put
pod_primary_role = put role_label (codes "primary")

unfoldable pub pod_standby_role : Texts → Texts
unfolding put
pod_standby_role = put role_label (codes "standby")

unfoldable pub stateful_set_pod : DoltDb → ℕ → Texts → Texts
unfolding put
stateful_set_pod d index = put pod_name_label (pod_name d.name index)

abbrev port_named : Bytes → ℕ → ServicePort
port_named name port = record { port = port; name = name; node_port = 0 }

abbrev pub mysql_port_name : Bytes
mysql_port_name = codes "tcp-dolt"

abbrev mcp_ports : Option ℕ → List ServicePort
mcp_ports none = []
mcp_ports (some port) = port_named (codes "http-mcp") port ∷ []

-- `doltServicePorts`.
unfoldable pub dolt_service_ports : DoltDb → Exposed → List ServicePort
dolt_service_ports d x = port_named mysql_port_name d.spec.listener_port ∷ mcp_ports x.mcp_port

-- `doltInternalServicePorts`.
unfoldable pub dolt_internal_service_ports : DoltDb → Exposed → List ServicePort
dolt_internal_service_ports d x =
    port_named mysql_port_name d.spec.listener_port
    ∷ port_named (codes "grpc-remotesapi") x.remotes_api_port
    ∷ mcp_ports x.mcp_port

-- The part that the builders share: `NewMetadataBuilder` with the metadata of the DoltDB.
abbrev built : Bytes → Exposed → List ServicePort → Texts → ServiceType → Bool → Service
built name x ports selector kind cluster_ip_none = record {
  name = name;
  labels = put_all x.labels [];
  annotations = put_all x.annotations [];
  ports = ports;
  selector = selector;
  kind = kind;
  cluster_ip_none = cluster_ip_none;
  allocate_node_ports = none;
}

-- `BuildDoltInternalService`, `BuildDoltService`, `BuildDoltPrimaryService` for the index that its
-- caller has checked, and `BuildDoltReaderService`, without the reference to the owner.
unfoldable pub internal_service : DoltDb → Exposed → Service
unfolding dolt_internal_service_ports dolt_selector_labels put_all
internal_service d x =
    built (internal_service_name d) x (dolt_internal_service_ports d x) (dolt_selector_labels d [])
      unset_type true

unfoldable pub standalone_service : DoltDb → Exposed → Service
unfolding dolt_service_ports dolt_selector_labels put_all
standalone_service d x =
    built d.name x (dolt_service_ports d x) (dolt_selector_labels d []) cluster_ip false

unfoldable pub primary_service : DoltDb → Exposed → ℕ → Service
unfolding dolt_service_ports dolt_selector_labels pod_primary_role stateful_set_pod put_all
primary_service d x index =
    built (primary_service_name d) x (dolt_service_ports d x)
      (stateful_set_pod d index (pod_primary_role (dolt_selector_labels d []))) cluster_ip false

unfoldable pub reader_service : DoltDb → Exposed → Service
unfolding dolt_service_ports dolt_selector_labels pod_standby_role put_all
reader_service d x =
    built (reader_service_name d) x (dolt_service_ports d x)
      (pod_standby_role (dolt_selector_labels d [])) cluster_ip false

abbrev pub has_port : List ServicePort → ℕ → Bool
has_port ports port = any (λ p. p.port == port) ports

abbrev takes_node_ports : ServiceType → Bool
takes_node_ports node_port_type = true
takes_node_ports load_balancer = true
takes_node_ports _ = false

abbrev without_node_port : ServicePort → ServicePort
without_node_port p = record p { node_port = 0 }

-- `updateServicePorts`.
unfoldable pub update_service_ports :
    List ServicePort → ServiceType → List ServicePort → List ServicePort
update_service_ports existing kind desired =
    if is_empty existing
    then desired
    else let ports = existing ++ keep (λ p. not (has_port existing p.port)) desired in
      if takes_node_ports kind then ports else map without_node_port ports

-- The existing Service with what is desired of it.
unfoldable pub updated_service : Service → Service → Service
unfolding update_service_ports put_all
updated_service existing desired = record existing {
  ports = update_service_ports existing.ports desired.kind desired.ports;
  allocate_node_ports = desired.allocate_node_ports;
  selector = desired.selector;
  kind = desired.kind;
  annotations = put_all desired.annotations existing.annotations;
  labels = put_all desired.labels existing.labels;
}

pub data Event : Type 0 where
  got deleted : Bytes → Event
  created patched : Service → Event

abbrev pub Trace : Type 0
Trace = List Event

-- Calls by the name of a Service, in the namespace of the DoltDB.
pub record Env : Type 0 where
  pub set_controller_reference : Bytes → Result (Unit {0})
  pub get_service : Trace → Bytes → Result Service
  pub create_service : Trace → Service → Result (Unit {0})
  pub patch_service : Trace → Service → Result (Unit {0})
  pub delete_service : Trace → Bytes → Result (Unit {0})

unfoldable pub call : {A : Type 0} → Event → (Trace → Result A) → Op Trace A
call e answer t = (answer (e ∷ t), e ∷ t)

module _ (env : Env) where
  -- `Reconciler.Reconcile` of the package service.
  unfoldable pub reconcile_one : Service → Op Trace (Unit {0})
  unfolding call updated_service
  reconcile_one desired =
      attempt (call (got desired.name) (λ t. env.get_service t desired.name))
        (λ existing.
          let new = updated_service existing desired in
          call (patched new) (λ t. env.patch_service t new))
        (λ e.
          if is_not_found e
          then wrap "error creating Service: %v"
              (call (created desired) (λ t. env.create_service t desired))
          else fail (message "error getting Service: %v"))

  -- A Service is built, with its owner, and reconciled.
  abbrev pub build_and_reconcile : Service → Op Trace Requeue
  build_and_reconcile s =
      wrap "error building Service: %v" (lift (env.set_controller_reference s.name))
      >> (reconcile_one s >> pure nothing)

  -- `deleteServiceIfExists`.
  unfoldable pub delete_service_if_exists : Bytes → Op Trace (Unit {0})
  unfolding call
  delete_service_if_exists name =
      attempt (call (got name) (λ t. env.get_service t name))
        (λ found. call (deleted name) (λ t. env.delete_service t name))
        (λ e. if is_not_found e then pure tt else fail e)

  -- `reconcilePrimaryService`.
  abbrev pub reconcile_primary_service : DoltDb → Exposed → Option ℕ → Op Trace Requeue
  reconcile_primary_service d x none = pure (after 1)
  reconcile_primary_service d x (some index) = build_and_reconcile (primary_service d x index)

  -- `if result, err := m(); !result.IsZero() || err != nil { return …, fmt.Errorf(text, err) }`.
  abbrev pub must_rest : String → Op Trace Requeue → Op Trace (Unit {0})
  must_rest text m = wrap text m >>= λ r. if is_zero r then pure tt else fail (message text)

  abbrev pub replicated_services : DoltDb → Exposed → Op Trace (Unit {0})
  replicated_services d x = do
    must_rest "error reconciling primary Service: %v"
        (reconcile_primary_service d x d.status.current_primary_pod_index)
    must_rest "error reconciling reader Service: %v" (build_and_reconcile (reader_service d x))
    wrap "error deleting stale standalone Service: %v" (delete_service_if_exists d.name)

  abbrev pub standalone_services : DoltDb → Exposed → Op Trace (Unit {0})
  standalone_services d x = do
    must_rest "error reconciling standalone Service: %v"
        (build_and_reconcile (standalone_service d x))
    wrap "error deleting stale primary Service: %v"
        (delete_service_if_exists (primary_service_name d))
    wrap "error deleting stale reader Service: %v"
        (delete_service_if_exists (reader_service_name d))

  -- `reconcileService`.
  unfoldable pub reconcile_service : DoltDb → Exposed → Op Trace Requeue
  unfolding reconcile_one delete_service_if_exists internal_service standalone_service
      primary_service reader_service
  reconcile_service d x = do
    must_rest "error reconciling internal Service: %v" (build_and_reconcile (internal_service d x))
    if replication_enabled d then replicated_services d x else standalone_services d x
    pure nothing
