-- ===== src/Deploy/Validate/Endpoints.antt =====
-- internal/deploy/v1alpha1/validate_endpoint.go: one endpoint of a workload.
use orch.Prelude.{String, Bool, false, not, ◌&&◌, ◌||◌, none, ◌==◌, if◌then◌else◌}
use orch.Prelude.Int.{ℤ, pos, ltb_ℤ, leb_ℤ, eqb_ℤ}
use orch.Prelude.Text.{trim_space}
use orch.Deploy.Document.{Endpoint}
use orch.Deploy.Constants.{proto_tcp, proto_udp, proto_http}
use orch.Deploy.Errors.{
  Check, reject, ◌<|>◌, name_required, name_invalid, port_out_of_range, host_ip_invalid,
  invalid_protocol,
}
use orch.Deploy.Names.{name_re}
use orch.Deploy.Libraries.{Libraries}

unfoldable pub validate_name : Endpoint → Check
validate_name e =
    reject (trim_space e.name == "") name_required
    <|> reject (not (name_re e.name)) (name_invalid e.name)

-- The two messages of the source differ in their words only; the field's name tells them apart.
unfoldable pub validate_endpoint_port : String → ℤ → Bool → Check
validate_endpoint_port field port required =
    if not required && eqb_ℤ port (pos 0)
    then none
    else reject (leb_ℤ port (pos 0) || ltb_ℤ (pos 65535) port) (port_out_of_range field port)

unfoldable pub validate_protocol : Endpoint → Check
validate_protocol e =
    reject (not (e.protocol == proto_tcp || (e.protocol == proto_udp || e.protocol == proto_http)))
      (invalid_protocol e.protocol)

module _ {S G : Type 0} (lib : Libraries S G) where
  unfoldable pub validate_endpoint_host_ip : String → Check
  validate_endpoint_host_ip raw =
      let host_ip = trim_space raw in
      if host_ip == "" || lib.parse_ip host_ip
      then none
      else reject Bool.true (host_ip_invalid host_ip)

  unfoldable pub validate : Endpoint → Check
  unfolding validate_name validate_endpoint_port validate_endpoint_host_ip validate_protocol
  validate e =
      validate_name e
      <|> validate_endpoint_port "port" e.port Bool.true
      <|> validate_endpoint_port "hostPort" e.host_port false
      <|> validate_endpoint_host_ip e.host_ip
      <|> validate_protocol e
