-- ===== src/Ingress/Compile/Compiled.antt =====
-- Every route that the ingress compiles stands in a document, and where it forwards to.
use orch.Prelude.{
  String, true, false, not, ◌&&◌, Option, none, some, List, [], ◌∷◌, ◌≡◌, ◌≢◌, refl, sym, ap, subst,
  ◌∙◌, ◌⊎◌, inl, inr, arith, ◌==◌, eq_iff, Bool-cases, Option-cases,
}
use mathlib.Core.List.{Memᴰ}
use orch.Prelude.Int.{ℤ, pos, leb_ℤ}
use orch.Prelude.Text.{trim_space}
use orch.Prelude.Options.{first_step}
use orch.Prelude.GoMap
use orch.Prelude.GoMap.{GoMap, lookup-insert_cases}
use orch.Deploy.Document.{Endpoint, Workload, Ingress, IngressRoute, App}
use orch.Deploy.Constants.{proto_http}
use orch.Meta.{Assignment, assignment_key}
use orch.Config.Ingress.{Route}
use orch.Task.Libraries.{NodeSet}
use orch.Ingress.Libraries.{Urls}
use orch.Ingress.Target.{
  ingress_path, local_url, endpoint_port_from, endpoint_http_port, remote_ingress_base_url,
}
use orch.Ingress.Compile.{
  IngressCompileOptions, IngressRouteTarget, running_or_none, map_from, workload_map,
  running_assignment, upstream_of, remote_ingress_upstream, local_workload_upstream, target_or,
  workload_target, compile_route,
}

-- The endpoint of the name, which takes HTTP on a port.
pub record IsHttp (w : Workload) (name : String) (port : ℤ) : Type 0 where
  pub endpoint : Endpoint
  pub listed : Memᴰ endpoint w.endpoints
  pub named : trim_space endpoint.name ≡ name
  pub protocol : (endpoint.protocol ≡ "") ⊎ (endpoint.protocol ≡ proto_http)
  pub positive : leb_ℤ port (pos 0) ≡ false
  pub of_port : endpoint.port ≡ port

endpoint_port_found :
    (name : String) (eps : List Endpoint) (port : ℤ)
    → endpoint_port_from name eps ≡ some port
    → (ep : Endpoint) × Memᴰ ep eps
      × (trim_space ep.name ≡ name)
      × ((ep.protocol ≡ "") ⊎ (ep.protocol ≡ proto_http))
      × (leb_ℤ port (pos 0) ≡ false)
      × (ep.port ≡ port)
unfolding endpoint_port_from
endpoint_port_found name [] port e = absurd (cc e)
endpoint_port_found name (ep ∷ eps) port e = elim (Bool-cases (trim_space ep.name == name)) [
  | inr other ↦
      let (x, m, n, p, h, q) =
        endpoint_port_found name eps port (rw (endpoint_port_from, other) at e) in
      (x, Memᴰ.tail m, n, p, h, q)
  | inl same ↦ elim (Bool-cases (not (ep.protocol == "") && not (ep.protocol == proto_http))) [
    | inl odd ↦ absurd (let q = (rw (endpoint_port_from, same, odd) at e) in cc q)
    | inr http ↦ elim (Bool-cases (leb_ℤ ep.port (pos 0))) [
      | inl low ↦ absurd (let q = (rw (endpoint_port_from, same, http, low) at e) in cc q)
      | inr high ↦
          let q : ep.port ≡ port =
            (let r = (rw (endpoint_port_from, same, http, high) at e) in cc r) in
          (
            ep,
            Memᴰ.head refl,
            (eq_iff (trim_space ep.name) name).0 same,
            protocol_of http,
            subst (λ p. leb_ℤ p (pos 0) ≡ false) q high,
            q,
          )
    ]
  ]
]
  where
    protocol_of :
        (not (ep.protocol == "") && not (ep.protocol == proto_http)) ≡ false
        → (ep.protocol ≡ "") ⊎ (ep.protocol ≡ proto_http)
    protocol_of h = elim (Bool-cases (ep.protocol == "")) [
      | inl blank ↦ inl ((eq_iff ep.protocol "").0 blank)
      | inr set ↦ inr ((eq_iff ep.protocol proto_http).0 (ground arith))
    ]

map_from_found :
    (ws : List Workload) (m : GoMap Workload) (name : String) (w : Workload)
    → GoMap.lookup name (map_from ws m) ≡ some w
    → (Memᴰ w ws × (trim_space w.name ≡ name)) ⊎ (GoMap.lookup name m ≡ some w)
unfolding map_from
map_from_found [] m name w e = inr e
map_from_found (x ∷ ws) m name w e =
    elim (map_from_found ws (GoMap.insert (trim_space x.name) x m) name w e) [
      | inl (k, named) ↦ inl (Memᴰ.tail k, named)
      | inr before ↦ elim (lookup-insert_cases (trim_space x.name) name x w m before) [
        | inl (key, same) ↦
            inl (Memᴰ.head (sym same), subst (λ (v : Workload). trim_space v.name ≡ name) same key)
        | inr old ↦ inr old
      ]
    ]

workload_map_found :
    (app : App) (name : String) (w : Workload)
    → GoMap.lookup name (workload_map app) ≡ some w
    → Memᴰ w app.workloads × (trim_space w.name ≡ name)
unfolding workload_map GoMap.lookup
workload_map_found app name w e = elim (map_from_found app.workloads (GoMap.made []) name w e) [
  | inl found ↦ found
  | inr old ↦ absurd (cc old)
]

module _ {U S : Type 0} (urls : Urls U) (set : NodeSet S) (opts : IngressCompileOptions)
    (app : App) where
  -- The workload is assigned to another node, runs there, and the ingress of that node has the URL.
  pub record IsElsewhere (workload : String) (upstream : String) : Type 0 where
    pub get : String → Option Assignment
    pub reads : opts.assignments ≡ some get
    pub assignment : Assignment
    pub found : get (assignment_key app.metadata workload) ≡ some assignment
    pub running : assignment.status ≡ "running"
    pub placed : trim_space assignment.node ≢ ""
    pub other : trim_space assignment.node ≢ trim_space opts.local_node_id
    pub url :
        remote_ingress_base_url urls set opts.cluster opts.ingress (trim_space assignment.node)
        ≡ some upstream

  -- Where a route of a workload forwards to: the ingress of the other node that runs it, or, if there
  -- is none with a URL, the address that the DNS has for it.
  pub data Forwards (workload : String) (port : ℤ) : IngressRouteTarget → Type 0 where
    to_node :
        (upstream : String)
        → IsElsewhere workload upstream
        → Forwards workload port (record { upstream = upstream; strip_prefix = "/" })
    to_address :
        (find : String → String → Option String) (ip : String)
        → ((upstream : String) → ¬ (IsElsewhere workload upstream))
        → opts.dns ≡ some find
        → find (trim_space app.metadata.namespace) workload ≡ some ip
        → Forwards workload port
            (record { upstream = local_url urls set ip port; strip_prefix = "" })

  running_found :
      (workload : String) (read : Option (String → Option Assignment)) (a : Assignment)
      → opts.assignments ≡ read
      → elim read [
        | none ↦ none
        | some get ↦ running_or_none (get (assignment_key app.metadata workload))
      ]
        ≡ some a
      → (get : String → Option Assignment) × (b : Assignment) × (opts.assignments ≡ some get)
        × (get (assignment_key app.metadata workload) ≡ some b)
        × (running_or_none (some b) ≡ some a)
  unfolding running_or_none
  running_found workload none a r e = absurd (cc e)
  running_found workload (some get) a r e =
      elim (Option-cases (get (assignment_key app.metadata workload))) [
        | inl gone ↦ absurd (let q = (rw gone at e) in cc q)
        | inr (b, found) ↦ (get, b, r, found, rw found at e)
      ]

  running_kept :
      (b a : Assignment)
      → running_or_none (some b) ≡ some a
      → (b.status ≡ "running") × (trim_space b.node ≢ "") × (a.node ≡ trim_space b.node)
  unfolding running_or_none
  running_kept b a e = elim (Bool-cases (b.status == "running")) [
    | inr idle ↦ absurd (let q = (rw idle at e) in cc q)
    | inl runs ↦ elim (Bool-cases (trim_space b.node == "")) [
      | inl blank ↦ absurd (let q = (rw (runs, blank) at e) in cc q)
      | inr placed ↦
          let q : record b { node = trim_space b.node } ≡ a =
            (let r = (rw (runs, placed) at e) in cc r) in
          (
            (eq_iff b.status "running").0 runs,
            λ p. let s = (eq_iff (trim_space b.node) "").1 p in cc (s, placed),
            ap (λ (x : Assignment). x.node) (sym q),
          )
    ]
  ]

  IsElsewhere-remote :
      (workload upstream : String)
      → IsElsewhere workload upstream
      → remote_ingress_upstream urls set opts app workload ≡ some upstream
  unfolding remote_ingress_upstream running_assignment running_or_none upstream_of
  IsElsewhere-remote workload upstream h =
      let placed : (trim_space h.assignment.node == "") ≡ false =
        grind (arith, h.placed, eq_iff (trim_space h.assignment.node) "") in
      let other : (trim_space h.assignment.node == trim_space opts.local_node_id) ≡ false =
        grind
          (arith, h.other, eq_iff (trim_space h.assignment.node) (trim_space opts.local_node_id)) in
      let runs : (h.assignment.status == "running") ≡ true =
        (eq_iff h.assignment.status "running").1 h.running in
      rw (h.reads, h.found) (rw runs (rw placed (rw other h.url)))

  upstream_of_found :
      (workload : String) (o : Option Assignment) (upstream : String)
      → upstream_of urls set opts app o ≡ some upstream
      → (a : Assignment) × (o ≡ some a)
        × (a.node ≢ trim_space opts.local_node_id)
        × (remote_ingress_base_url urls set opts.cluster opts.ingress a.node ≡ some upstream)
  unfolding upstream_of
  upstream_of_found workload none upstream e = absurd (cc e)
  upstream_of_found workload (some a) upstream e =
      elim (Bool-cases (a.node == trim_space opts.local_node_id)) [
        | inl here ↦ absurd (let q = (rw here at e) in cc q)
        | inr there ↦ (
          a,
          refl,
          λ n. let t = (eq_iff a.node (trim_space opts.local_node_id)).1 n in cc (t, there),
          rw there at e,
        )
      ]

  local_found :
      (find : Option (String → String → Option String)) (workload : String) (port : ℤ) (ip : String)
      → opts.dns ≡ find
      → elim find [
        | none ↦ none
        | some f ↦ elim (f (trim_space app.metadata.namespace) workload) [
          | none ↦ none
          | some x ↦ some (local_url urls set x port)
        ]
      ]
        ≡ some ip
      → (f : String → String → Option String) × (x : String) × (opts.dns ≡ some f)
        × (f (trim_space app.metadata.namespace) workload ≡ some x)
        × (local_url urls set x port ≡ ip)
  local_found none workload port ip d e = absurd (cc e)
  local_found (some f) workload port ip d e =
      elim (Option-cases (f (trim_space app.metadata.namespace) workload)) [
        | inl gone ↦ absurd (let q = (rw gone at e) in cc q)
        | inr (x, found) ↦ (f, x, d, found, (let q = (rw found at e) in cc q))
      ]

  workload_target-Forwards :
      (workload : String) (port : ℤ) (t : IngressRouteTarget)
      → workload_target urls set opts app workload port ≡ some t
      → Forwards workload port t
  unfolding workload_target remote_ingress_upstream local_workload_upstream target_or
  workload_target-Forwards workload port t e = of_target _ _ refl refl e
    where
      of_target :
          (remote at_home : Option String)
          → upstream_of urls set opts app (running_assignment urls set opts app workload) ≡ remote
          → local_workload_upstream urls set opts app workload port ≡ at_home
          → target_or urls set opts app remote at_home ≡ some t
          → Forwards workload port t
      of_target (some upstream) at_home r h q =
          let (a, run, other, url) =
            upstream_of_found workload (running_assignment urls set opts app workload) upstream r in
          let (get, b, reads, found, kept) =
            running_found workload opts.assignments a refl (unfold running_assignment in run) in
          let (running, placed, node) = running_kept b a kept in
          subst (Forwards workload port) (cc q) (
            to_node upstream (record {
              get = get;
              reads = reads;
              assignment = b;
              found = found;
              running = running;
              placed = placed;
              other = rw (← node) other;
              url = rw (← node) url;
            }))
      of_target none none r h q = absurd (cc q)
      of_target none (some ip) r h q =
          let (f, x, d, found, same) = local_found opts.dns workload port ip refl h in
          subst (Forwards workload port)
            (let p : record { upstream = ip; strip_prefix = "" } ≡ t = cc q in
              subst (λ y. record { upstream = y; strip_prefix = "" } ≡ t) (sym same) p)
            (to_address f x
              (λ u e. let s = IsElsewhere-remote workload u e in absurd (cc (sym r ∙ s))) d found)

  -- A compiled route: the document's route, its workload and endpoint, and where it forwards to.
  pub record IsCompiled (route : Route) : Type 0 where
    pub ingress : Ingress
    pub of_app : Memᴰ ingress app.ingresses
    pub source : IngressRoute
    pub of_ingress : Memᴰ source ingress.routes
    pub path : ingress_path source.path ≡ some route.path_prefix
    pub workload : Workload
    pub of_workload : Memᴰ workload app.workloads
    pub named : trim_space workload.name ≡ trim_space source.backend.workload
    pub port : ℤ
    pub http : IsHttp workload (trim_space source.backend.endpoint) port
    pub forwards :
        Forwards
          (trim_space source.backend.workload)
          port
          (record { upstream = route.upstream; strip_prefix = route.strip_prefix })

  pub compile_route-IsCompiled :
      (ing : Ingress) (r : IngressRoute) (route : Route)
      → Memᴰ ing app.ingresses
      → Memᴰ r ing.routes
      → compile_route urls set opts app r ≡ some route
      → IsCompiled route
  unfolding compile_route
  compile_route-IsCompiled ing r route of_app of_ingress e =
      let (path, at_path, e1) = first_step (ingress_path r.path) _ route e in
      let (w, at_workload, e2) =
        first_step (GoMap.lookup (trim_space r.backend.workload) (workload_map app)) _ route e1 in
      let (port, at_port, e3) =
        first_step (endpoint_http_port w (trim_space r.backend.endpoint)) _ route e2 in
      let (t, at_target, e4) =
        first_step (workload_target urls set opts app (trim_space r.backend.workload) port) _ route
          e3 in
      let (member, named) = workload_map_found app (trim_space r.backend.workload) w at_workload in
      let (ep, k, n, p, h, q) =
        endpoint_port_found (trim_space r.backend.endpoint) w.endpoints port
          (unfold endpoint_http_port in at_port) in
      let compiled : Route = record {
        path_prefix = path;
        upstream = t.upstream;
        upstreams = [];
        strip_prefix = t.strip_prefix;
        lb = "";
      } in
      let same : compiled ≡ route = cc e4 in
      subst IsCompiled same (record {
        ingress = ing;
        of_app = of_app;
        source = r;
        of_ingress = of_ingress;
        path = at_path;
        workload = w;
        of_workload = member;
        named = named;
        port = port;
        http = record {
          endpoint = ep;
          listed = k;
          named = n;
          protocol = p;
          positive = h;
          of_port = q;
        };
        forwards = workload_target-Forwards (trim_space r.backend.workload) port t at_target;
      })
