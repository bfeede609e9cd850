-- ===== src/Ingress/Libraries.antt =====
-- What internal/ingress calls and the repository does not hold: package path, net, net/url and fmt.
use orch.Prelude.{String, Option}
use orch.Prelude.Int.{ℤ}

-- `U` is *url.URL. `split_port` is the port of net.SplitHostPort and `parse` is url.Parse, `none` for
-- their errors; `rebased` is String() of a URL with a scheme and a host, and no path, query or
-- fragment; `decimal` is fmt's %d.
pub record Urls (U : Type 0) : Type 0 where
  pub clean : String → String
  pub split_port : String → Option String
  pub join_host_port : String → String → String
  pub parse : String → Option U
  pub hostname : U → String
  pub rebased : String → String → U → String
  pub decimal : ℤ → String
