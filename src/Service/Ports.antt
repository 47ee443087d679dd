-- ===== src/Service/Ports.antt =====
-- The ports of a Service that is reconciled again.
use doltdb_operator.Prelude.{
  ℕ, Bool, true, false, List, [], ◌∷◌, ◌++◌, Option, none, some, Bytes, str_eq, Bool-cases, keep,
  map, not, ◌==◌, ◌||◌, ◌≡◌, ◌⊎◌, inl, inr, refl, ap, ◌∙◌, arith, if◌then◌else◌, length,
}
use mathlib.Core.Path.{subst}
use doltdb_operator.Api.DoltDb.{DoltDb}
use doltdb_operator.Service.{
  ServicePort, ServiceType, cluster_ip, Exposed, has_port, takes_node_ports, without_node_port,
  update_service_ports, dolt_service_ports, mysql_port_name,
}

module _ (p : ℕ) where
  has-append : (ps qs : List ServicePort) → has_port (ps ++ qs) p ≡ has_port ps p || has_port qs p
  has-append [] qs = refl
  has-append (q ∷ ps) qs = rw (has-append ps qs) (ground arith)

  has-without : (ps : List ServicePort) → has_port (map without_node_port ps) p ≡ has_port ps p
  has-without [] = refl
  has-without (q ∷ ps) = ap (λ b. q.port == p || b) (has-without ps)

  or_swap : (h b k d : Bool) → h || k ≡ h || d → h || (b || k) ≡ h || (b || d)
  or_swap true b k d e = refl
  or_swap false true k d e = refl
  or_swap false false k d e = e

  same_port : {q : ℕ} → (q == p) ≡ true → q ≡ p
  same_port e = ground arith

  -- The desired ports that are not there yet, with those that are there.
  added :
      (existing desired : List ServicePort)
      → has_port existing p || has_port (keep (λ q. not (has_port existing q.port)) desired) p
        ≡ has_port existing p || has_port desired p
  added existing [] = refl
  added existing (q ∷ qs) =
      by_cases (Bool-cases (has_port existing q.port)) (Bool-cases (q.port == p))
        (added existing qs)
    where
      fresh : List ServicePort → List ServicePort
      fresh = keep (λ q. not (has_port existing q.port))

      by_cases :
          (has_port existing q.port ≡ true) ⊎ (has_port existing q.port ≡ false)
          → ((q.port == p) ≡ true) ⊎ ((q.port == p) ≡ false)
          → has_port existing p || has_port (fresh qs) p ≡ has_port existing p || has_port qs p
          → has_port existing p || has_port (fresh (q ∷ qs)) p
            ≡ has_port existing p || has_port (q ∷ qs) p
      by_cases (inr e) f ih = rw e (or_swap (has_port existing p) (q.port == p) _ _ ih)
      by_cases (inl e) (inr f) ih = rw (e, f) ih
      by_cases (inl e) (inl f) ih =
          let there : has_port existing p ≡ true =
            subst (λ n. has_port existing n ≡ true) (same_port f) e in
          rw (e, there) refl

  -- The Service has, after it is reconciled again, each port that it had and each that is desired, and
  -- no other.
  pub has_port-update_service_ports :
      (existing : List ServicePort) (kind : ServiceType) (desired : List ServicePort)
      → has_port (update_service_ports existing kind desired) p
        ≡ has_port existing p || has_port desired p
  unfolding update_service_ports
  has_port-update_service_ports [] kind desired = refl
  has_port-update_service_ports (e ∷ es) kind desired = by_kind (takes_node_ports kind)
    where
      all_ports : List ServicePort
      all_ports = (e ∷ es) ++ keep (λ q. not (has_port (e ∷ es) q.port)) desired

      united : has_port all_ports p ≡ has_port (e ∷ es) p || has_port desired p
      united = has-append (e ∷ es) _ ∙ added (e ∷ es) desired

      by_kind :
          (b : Bool)
          → has_port (if b then all_ports else map without_node_port all_ports) p
            ≡ has_port (e ∷ es) p || has_port desired p
      by_kind true = united
      by_kind false = has-without all_ports ∙ united

abbrev pub named : Bytes → List ServicePort → List ServicePort
named name = keep (λ q. str_eq q.name name)

module _ (d e : DoltDb) where
  abbrev RepeatsName : Exposed → Type 0
  RepeatsName x =
      length (
        named mysql_port_name
          (update_service_ports (dolt_service_ports d x) cluster_ip (dolt_service_ports e x)))
      ≡ 2

  by_mcp_port :
      (x : Exposed) (o : Option ℕ)
      → has_port (dolt_service_ports d (record x { mcp_port = o })) e.spec.listener_port ≡ false
      → RepeatsName (record x { mcp_port = o })
  unfolding update_service_ports dolt_service_ports str_eq
  by_mcp_port x none h = rw h refl
  by_mcp_port x (some m) h =
      let there : has_port (dolt_service_ports d (record x { mcp_port = some m })) m ≡ true =
        ground arith in
      rw (h, there) refl

  -- After the port of the listener changes to one that the Service does not have, the Service is asked
  -- to have two ports of the listener's name, the old one and the new one.
  pub changed_port_repeats_name :
      (x : Exposed)
      → has_port (dolt_service_ports d x) e.spec.listener_port ≡ false
      → length (
          named mysql_port_name
            (update_service_ports (dolt_service_ports d x) cluster_ip (dolt_service_ports e x)))
        ≡ 2
  changed_port_repeats_name x h = by_mcp_port x x.mcp_port h
