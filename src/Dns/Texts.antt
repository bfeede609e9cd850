-- ===== src/Dns/Texts.antt =====
-- The names of internal/dnssvc/workload_dns.go and the zone of internal/config/dns.go.
use orch.Prelude.{String, ◌==◌, if◌then◌else◌}
use Prim.Native.String.{◌++◌}
use orch.Prelude.Text.{trim_space}
use orch.Dns.Libraries.{Server}

or_default : String → String
or_default ns = if ns == "" then "default" else ns

module _ (server : Server) where
  unfoldable pub zone_name : String → String
  zone_name zone =
      let z = server.trim_dots (server.to_lower (trim_space zone)) in
      if z == "" then "orch.local" else z

  unfoldable pub workload_record_key : String → String → String
  unfolding or_default
  workload_record_key namespace workload_name =
      server.to_lower (or_default (trim_space namespace))
      ++ "/"
      ++ server.to_lower (trim_space workload_name)

  -- fmt.Sprintf("%s.%s.svc.%s", workload, namespace, base)
  unfoldable pub workload_service_fqdn : String → String → String → String
  unfolding or_default
  workload_service_fqdn namespace workload_name zone =
      server.to_lower (trim_space workload_name)
      ++ "."
      ++ server.to_lower (or_default (trim_space namespace))
      ++ ".svc."
      ++ server.trim_dots (server.to_lower zone)
