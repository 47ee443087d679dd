-- ===== src/Scenarios/Services.antt =====
-- The theorems on the Services of a DoltDB at a concrete one.
use doltdb_operator.Prelude.{
  ℕ, true, false, [], ◌∷◌, none, some, codes, str_eq, decimal, length, ◌≡◌, refl, ◌||◌,
}
use doltdb_operator.Effect.{ok, err, not_found, nothing, ◌>>=◌, attempt}
use doltdb_operator.Naming.{pod_name}
use doltdb_operator.Api.DoltDb.{DoltDb}
use doltdb_operator.Service.{
  Texts, Exposed, Env, created, got, app_label, pod_name_label, role_label, primary_service,
  reader_service, internal_service, build_and_reconcile, reconcile_one, cluster_ip,
  dolt_service_ports, has_port, update_service_ports, mysql_port_name,
}
use doltdb_operator.Service.Selection.{look_up, selects, one_pod_is_chosen}
use doltdb_operator.Service.Ports.{named, has_port-update_service_ports, changed_port_repeats_name}
use doltdb_operator.Scenarios.{desired_at}

abbrev replicated : DoltDb
replicated = desired_at 1 []

abbrev on_port : ℕ → DoltDb
on_port port = record replicated { spec = record replicated.spec { listener_port = port } }

abbrev exposed : Exposed
exposed = record { labels = []; annotations = []; remotes_api_port = 50051; mcp_port = some 8080 }

abbrev first_labels : Texts
first_labels =
    (role_label, codes "primary")
    ∷ (app_label, codes "db")
    ∷ (pod_name_label, pod_name (codes "db") 0)
    ∷ []

-- Nothing is there, and everything can be created.
abbrev empty : Env
empty = record {
  set_controller_reference = λ name. ok tt;
  get_service = λ t name. err not_found;
  create_service = λ t s. ok tt;
  patch_service = λ t s. ok tt;
  delete_service = λ t name. ok tt;
}

abbrev without_primary : DoltDb
without_primary = record replicated {
  status = record replicated.status { current_primary_pod_index = none };
}

first_is_selected : selects (primary_service replicated exposed 0).selector first_labels ≡ true
unfolding selects primary_service pod_name str_eq decimal
first_is_selected = refl

one_pod_is_chosen_example :
    (look_up role_label first_labels ≡ some (codes "primary"))
    × (look_up pod_name_label first_labels ≡ some (pod_name (codes "db") 0))
    × (selects (reader_service replicated exposed).selector first_labels ≡ false)
one_pod_is_chosen_example = one_pod_is_chosen replicated exposed 0 first_labels first_is_selected

has_port-update_service_ports_example :
    has_port
      (update_service_ports
        (dolt_service_ports replicated exposed)
        cluster_ip
        (dolt_service_ports (on_port 3307) exposed))
      3306
    ≡ has_port (dolt_service_ports replicated exposed) 3306
      || has_port (dolt_service_ports (on_port 3307) exposed) 3306
has_port-update_service_ports_example =
    has_port-update_service_ports 3306 (dolt_service_ports replicated exposed) cluster_ip
      (dolt_service_ports (on_port 3307) exposed)

is_new : has_port (dolt_service_ports replicated exposed) 3307 ≡ false
unfolding dolt_service_ports
is_new = refl

changed_port_repeats_name_example :
    length (
      named mysql_port_name (
        update_service_ports
          (dolt_service_ports replicated exposed)
          cluster_ip
          (dolt_service_ports (on_port 3307) exposed)))
    ≡ 2
changed_port_repeats_name_example =
    changed_port_repeats_name replicated (on_port 3307) exposed is_new

internal_is_created :
    let s = internal_service without_primary exposed in
    build_and_reconcile empty s [] ≡ (ok nothing, created s ∷ got s.name ∷ [])
unfolding ◌>>=◌ attempt reconcile_one
internal_is_created = refl
