-- ===== src/Deploy/Validate/Health.antt =====
-- internal/deploy/v1alpha1/validate_health.go: the probes of a workload.
use orch.Prelude.{
  ℕ, ◌+◌, String, Bool, true, false, not, ◌&&◌, ◌||◌, Option, none, some, List, [], ◌∷◌, ◌==◌,
  if◌then◌else◌, eqb, ltb,
}
use Prim.Native.String.{◌++◌}
use orch.Prelude.Int.{ℤ, pos, ltb_ℤ, eqb_ℤ}
use orch.Prelude.Text.{trim_space}
use orch.Deploy.Document.{
  Endpoint, EndpointProto, EndpointRef, HttpProbe, TcpProbe, Probe, Health, Workload,
}
use orch.Deploy.Constants.{proto_tcp, proto_http}
use orch.Deploy.Errors.{
  Check, reject, ◌<|>◌, probe_retries_negative, probe_duration_invalid, probe_kind_required,
  probe_kind_not_unique, probe_port_out_of_range, probe_workload_mismatch, probe_unknown_endpoint,
  probe_protocol_mismatch, probe_endpoint_or_port_required,
}
use orch.Deploy.Libraries.{Libraries}

abbrev pub is_some {ℓ} : {A : Type ℓ} → Option A → Bool
is_some none = false
is_some (some a) = true

unfoldable pub probe_endpoint_protocol_matches : EndpointProto → EndpointProto → Bool
probe_endpoint_protocol_matches actual want =
    if want == proto_tcp then actual == proto_tcp || actual == proto_http else actual == want

-- The first element that passes the test, as the two loops over the endpoints look for it.
unfoldable pub find_first {ℓ} : {A : Type ℓ} → (A → Bool) → List A → Option A
find_first p [] = none
find_first p (x ∷ xs) = let rest = find_first p xs in if p x then some x else rest

unfoldable pub first_probe_endpoint : Workload → EndpointProto → Option Endpoint
unfolding find_first probe_endpoint_protocol_matches
first_probe_endpoint w want =
    find_first (λ e. probe_endpoint_protocol_matches e.protocol want) w.endpoints

unfoldable pub endpoint_by_name : Workload → String → Option Endpoint
unfolding find_first
endpoint_by_name w name = find_first (λ e. trim_space e.name == name) w.endpoints

unfoldable pub has_probe_endpoint : Workload → EndpointProto → Bool
unfolding first_probe_endpoint
has_probe_endpoint w want = is_some (first_probe_endpoint w want)

unfoldable pub validate_default_probe_endpoint : Workload → String → EndpointProto → ℤ → Check
unfolding has_probe_endpoint
validate_default_probe_endpoint w field want explicit_port =
    reject (not (ltb_ℤ (pos 0) explicit_port || has_probe_endpoint w want))
      (probe_endpoint_or_port_required field)

named_probe_endpoint : Option Endpoint → String → EndpointProto → String → Check
unfolding probe_endpoint_protocol_matches
named_probe_endpoint none field want name = some (probe_unknown_endpoint field name)
named_probe_endpoint (some e) field want name =
    reject (not (probe_endpoint_protocol_matches e.protocol want))
      (probe_protocol_mismatch field e.protocol name)

unfoldable pub validate_probe_endpoint : Workload → String → EndpointRef → EndpointProto → ℤ → Check
unfolding validate_default_probe_endpoint named_probe_endpoint endpoint_by_name
validate_probe_endpoint w field ref want explicit_port =
    let workload = trim_space ref.workload in
    let endpoint_name = trim_space ref.endpoint in
    reject (not (workload == "") && not (workload == w.name)) (probe_workload_mismatch field w.name)
    <|> (if endpoint_name == ""
        then validate_default_probe_endpoint w field want explicit_port
        else named_probe_endpoint (endpoint_by_name w endpoint_name) field want endpoint_name)

unfoldable pub validate_probe_port : String → ℤ → Check
validate_probe_port field port =
    if eqb_ℤ port (pos 0)
    then none
    else reject (ltb_ℤ port (pos 0) || ltb_ℤ (pos 65535) port) (probe_port_out_of_range field port)

unfoldable pub validate_http_probe : Workload → String → HttpProbe → Check
unfolding validate_probe_port validate_probe_endpoint
validate_http_probe w name probe =
    validate_probe_port ("health." ++ name ++ ".http.port") probe.port
    <|> validate_probe_endpoint w ("health." ++ name ++ ".http.endpoint") probe.endpoint proto_http
        probe.port

unfoldable pub validate_tcp_probe : Workload → String → TcpProbe → Check
unfolding validate_probe_port validate_probe_endpoint
validate_tcp_probe w name probe =
    validate_probe_port ("health." ++ name ++ ".tcp.port") probe.port
    <|> validate_probe_endpoint w ("health." ++ name ++ ".tcp.endpoint") probe.endpoint proto_tcp
        probe.port

unfoldable pub probe_kind_count : Probe → ℕ
probe_kind_count probe =
    (if is_some probe.http then 1 else 0) + (if is_some probe.tcp then 1 else 0)

-- `if probe.HTTP != nil`, and else the TCP probe, which is then not nil
probe_of_kind : Workload → String → Option HttpProbe → Option TcpProbe → Check
unfolding validate_http_probe validate_tcp_probe
probe_of_kind w name (some http) tcp = validate_http_probe w name http
probe_of_kind w name none (some tcp) = validate_tcp_probe w name tcp
probe_of_kind w name none none = none

unfoldable pub validate_probe_kind : Workload → String → Probe → Check
unfolding probe_kind_count probe_of_kind
validate_probe_kind w name probe =
    let kinds = probe_kind_count probe in
    reject (eqb kinds 0) (probe_kind_required name)
    <|> reject (ltb 1 kinds) (probe_kind_not_unique name)
    <|> probe_of_kind w name probe.http probe.tcp

module _ {S G : Type 0} (lib : Libraries S G) where
  unfoldable pub validate_probe_duration : String → String → Check
  validate_probe_duration field raw =
      if trim_space raw == ""
      then none
      else reject (not (is_some (lib.parse_duration raw))) (probe_duration_invalid field)

  unfoldable pub validate_probe_timing : String → Probe → Check
  unfolding validate_probe_duration
  validate_probe_timing name probe =
      reject (ltb_ℤ probe.retries (pos 0)) (probe_retries_negative name)
      <|> validate_probe_duration ("health." ++ name ++ ".interval") probe.interval
      <|> validate_probe_duration ("health." ++ name ++ ".timeout") probe.timeout
      <|> validate_probe_duration ("health." ++ name ++ ".startPeriod") probe.start_period

  unfoldable pub validate_probe : Workload → String → Option Probe → Check
  unfolding validate_probe_timing validate_probe_kind
  validate_probe w name none = none
  validate_probe w name (some probe) =
      validate_probe_timing name probe <|> validate_probe_kind w name probe

  health_checks : Workload → Option Health → Check
  unfolding validate_probe
  health_checks w none = none
  health_checks w (some h) =
      validate_probe w "readiness" h.readiness
      <|> validate_probe w "liveness" h.liveness
      <|> validate_probe w "startup" h.startup

  unfoldable pub validate_health : Workload → Check
  unfolding health_checks
  validate_health w = health_checks w w.health
