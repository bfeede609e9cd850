-- ===== src/Deploy/Validate/Accepted.antt =====
-- What a document has that App.Validate of internal/deploy/v1alpha1/validate.go accepts.
use orch.Prelude.{
  ℕ, String, true, false, none, some, List, [], ◌∷◌, ◌≡◌, refl, inl, inr, arith, ◌==◌, eq_iff,
  Bool-cases,
}
use mathlib.Core.List.{Memᴰ}
use orch.Prelude.Int.{ℤ, pos, negsuc, ◌≤ℤ◌, ltb_ℤ}
use orch.Prelude.Lists.{All}
use orch.Deploy.Document.{Endpoint, Ingress, IngressRoute, Workload, App}
use orch.Deploy.Errors.{Check, reject, replicas_negative}
use orch.Deploy.Names.{name_re}
use orch.Deploy.Libraries.{Libraries, SetLaws}
use orch.Deploy.Validate.Runtime.{validate_run_for_runtime}
use orch.Deploy.Validate.Endpoints
use orch.Deploy.Validate.Endpoints.{validate_endpoint_port}
use orch.Deploy.Validate.Workloads
use orch.Deploy.Validate.Workloads.{validate_fields, validate_from, validate_replica_count}
use orch.Deploy.Validate.Apps
use orch.Deploy.Validate.Apps.{
  validate_metadata, validate_workload_endpoints_all, validate_workload_cross_refs,
  validate_ingresses, wrap_endpoint, validate_route,
}
use orch.Meta.Keys.{IsNamed}
use orch.Prelude.Members.{Distinct}
use orch.Deploy.Validate.Registered.{
  names_of, both_none, not_rejected, first_error-none, IsRegistered, validate_from-IsRegistered,
}

module _ {S G : Type 0} (lib : Libraries S G) (laws : SetLaws lib) where
  -- The ports that an accepted endpoint has: 0 for the host port leaves it open.
  pub record HasPorts (e : Endpoint) : Type 0 where
    pub named : name_re e.name ≡ true
    pub port_low : pos 1 ≤ℤ e.port
    pub port_high : e.port ≤ℤ pos 65535
    pub host_port_low : pos 0 ≤ℤ e.host_port
    pub host_port_high : e.host_port ≤ℤ pos 65535

  port_in_range :
      (field : String) (port : ℤ)
      → validate_endpoint_port field port true ≡ none
      → (pos 1 ≤ℤ port) × (port ≤ℤ pos 65535)
  unfolding validate_endpoint_port
  port_in_range field (pos n) h = (ground arith, ground arith)
  port_in_range field (negsuc n) h = absurd (ground arith)

  host_port_in_range :
      (field : String) (port : ℤ)
      → validate_endpoint_port field port false ≡ none
      → (pos 0 ≤ℤ port) × (port ≤ℤ pos 65535)
  unfolding validate_endpoint_port
  host_port_in_range field (pos n) h = (ground arith, ground arith)
  host_port_in_range field (negsuc n) h = absurd (ground arith)

  endpoint_named : (e : Endpoint) → Endpoints.validate_name e ≡ none → name_re e.name ≡ true
  unfolding Endpoints.validate_name
  endpoint_named e h = ground arith

  HasPorts-of_none : (e : Endpoint) → Endpoints.validate lib e ≡ none → HasPorts e
  unfolding Endpoints.validate Endpoints.validate_name
  HasPorts-of_none e h =
      let (name, rest) = both_none _ _ h in
      let (port, rest2) = both_none _ _ rest in
      let (host_port, rest3) = both_none _ _ rest2 in
      let p = port_in_range "port" e.port port in
      let q = host_port_in_range "hostPort" e.host_port host_port in
      record {
        named = endpoint_named e name;
        port_low = p.0;
        port_high = p.1;
        host_port_low = q.0;
        host_port_high = q.1;
      }

  -- What App.Validate has made sure of.
  pub record IsAccepted (a : App) : Type 0 where
    pub named : IsNamed a.metadata
    pub workloads_named : All (λ (w : Workload). name_re w.name ≡ true) a.workloads
    pub distinct : Distinct (names_of a.workloads)
    pub replicas : All (λ (w : Workload). pos 0 ≤ℤ w.replicas) a.workloads
    pub endpoints : All (λ (w : Workload). All HasPorts w.endpoints) a.workloads
    pub backends :
        All
          (λ (ing : Ingress).
            All (λ (r : IngressRoute). Memᴰ r.backend.workload (names_of a.workloads)) ing.routes)
          a.ingresses

  replicas_in_range : (n : ℤ) → ltb_ℤ n (pos 0) ≡ false → pos 0 ≤ℤ n
  replicas_in_range (pos n) h = ground arith
  replicas_in_range (negsuc n) h = absurd (ground arith)

  not_negative : (w : Workload) → validate_fields lib w ≡ none → ltb_ℤ w.replicas (pos 0) ≡ false
  unfolding validate_fields validate_replica_count
  not_negative w h =
      let rest = (both_none (Workloads.validate_kind w) _ h).1 in
      let rest2 = (both_none (Workloads.validate_runtime w) _ rest).1 in
      let rest3 = (both_none (validate_run_for_runtime lib w) _ rest2).1 in
      let rest4 = (both_none (Workloads.validate_env w) _ rest3).1 in
      not_rejected (ltb_ℤ w.replicas (pos 0)) replicas_negative
        (both_none (reject (ltb_ℤ w.replicas (pos 0)) replicas_negative) _ rest4).0

  replicas_of_checked :
      (ws : List Workload)
      → All (λ w. validate_fields lib w ≡ none) ws
      → All (λ (w : Workload). pos 0 ≤ℤ w.replicas) ws
  unfolding validate_fields validate_replica_count
  replicas_of_checked [] h = tt
  replicas_of_checked (w ∷ ws) h =
      (replicas_in_range w.replicas (not_negative w h.0), replicas_of_checked ws h.1)

  IsNamed-of_checked : (a : App) → validate_metadata a ≡ none → IsNamed a.metadata
  unfolding validate_metadata
  IsNamed-of_checked a h = record {
    name = ground arith;
    namespace = elim (Bool-cases (a.metadata.namespace == "")) [
      | inl empty ↦ inl ((eq_iff a.metadata.namespace "").0 empty)
      | inr set ↦ inr (ground arith)
    ];
  }

  unwrapped : (i j : ℕ) (c : Check) → wrap_endpoint i j c ≡ none → c ≡ none
  unfolding wrap_endpoint
  unwrapped i j none h = refl
  unwrapped i j (some e) h = absurd cc

  endpoints_of_checked :
      (a : App)
      → validate_workload_endpoints_all lib a ≡ none
      → All (λ (w : Workload). All HasPorts w.endpoints) a.workloads
  unfolding validate_workload_endpoints_all
  endpoints_of_checked a h =
      first_error-none (λ (w : Workload). All HasPorts w.endpoints) _
        (λ i w e.
          first_error-none HasPorts _
            (λ j p f. HasPorts-of_none p (unwrapped i j (Endpoints.validate lib p) f)) 0 w.endpoints
            e)
        0 a.workloads h

  route_known :
      (i j : ℕ) (seen : S) (r : IngressRoute)
      → validate_route lib i seen j r ≡ none
      → lib.contains seen r.backend.workload ≡ true
  unfolding validate_route
  route_known i j seen r h = ground arith

  backends_of_checked :
      (a : App) (seen : S)
      → ((x : String) → lib.contains seen x ≡ true → Memᴰ x (names_of a.workloads))
      → validate_ingresses lib a seen ≡ none
      → All
          (λ (ing : Ingress).
            All (λ (r : IngressRoute). Memᴰ r.backend.workload (names_of a.workloads)) ing.routes)
          a.ingresses
  unfolding validate_ingresses Apps.validate_ingress_one
  backends_of_checked a seen known h =
      first_error-none
        (λ (ing : Ingress).
          All (λ (r : IngressRoute). Memᴰ r.backend.workload (names_of a.workloads)) ing.routes)
        _
        (λ i ing e.
          first_error-none (λ (r : IngressRoute). Memᴰ r.backend.workload (names_of a.workloads)) _
            (λ j r f. known r.backend.workload (route_known i j seen r f)) 0 ing.routes
            (both_none _ _ e).1)
        0 a.ingresses h

  all_known :
      (ws : List Workload) (seen : S)
      → IsRegistered lib laws ws lib.new_set seen
      → (x : String) → lib.contains seen x ≡ true
      → Memᴰ x (names_of ws)
  all_known ws seen r x c = elim (r.known x c) [
    | inl new ↦ absurd (let e = laws.contains-new_set x in cc (e, new))
    | inr m ↦ m
  ]

  -- Under the laws of the set, a document that App.Validate accepts has a named app, workloads with distinct names that a name
  -- may have, replica counts that are not negative, endpoints with named ports in range, and ingress
  -- routes that lead to its own workloads.
  pub validate-IsAccepted : (a : App) → Apps.validate lib a ≡ none → IsAccepted a
  unfolding Apps.validate validate_workload_cross_refs
  validate-IsAccepted a h =
      let (metadata, rest) = both_none _ _ h in
      let (workloads, rest2) = both_none _ _ rest in
      let (cross, ingresses) = both_none _ _ rest2 in
      let (depends, rest3) = both_none _ _ cross in
      let (mounts, endpoints) = both_none _ _ rest3 in
      let r = validate_from-IsRegistered lib laws 0 a.workloads lib.new_set workloads in
      record {
        named = IsNamed-of_checked a metadata;
        workloads_named = r.named;
        distinct = r.distinct;
        replicas = replicas_of_checked a.workloads r.checked;
        endpoints = endpoints_of_checked a endpoints;
        backends = backends_of_checked a _ (all_known a.workloads _ r) ingresses;
      }
