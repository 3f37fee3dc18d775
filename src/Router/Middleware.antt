-- ===== src/Router/Middleware.antt =====
-- The middleware in front of the routes: server/internal/httpapi/middleware.go. What it calls of Go's
-- net and strings is the parameter `Net`. The log line of a request and the recovery of a panic are not
-- modelled.
use familycards.Prelude.{ℕ, String, ◌==◌, Bool, true, Option, none, some, if◌then◌else◌}
use familycards.Auth.Middleware.{Authorization}

abbrev pub max_body_bytes_default : ℕ
max_body_bytes_default = 1048576

abbrev pub max_body_bytes_blob : ℕ
max_body_bytes_blob = 8388608

-- What the chain looks at of a request; a header that is not there is the empty text.
pub record HttpRequest : Type 0 where
  pub method : String
  pub path : String
  -- r.TLS != nil
  pub tls : Bool
  pub forwarded_proto : String
  pub forwarded_for : String
  pub remote_addr : String
  pub authorization : Authorization

pub record Net : Type 0 where
  -- the host and the port
  pub split_host_port : String → Option (String × String)
  -- strings.SplitN(s, ",", 2)[0]
  pub before_comma : String → String
  pub trim_space : String → String
  -- strings.HasPrefix
  pub has_prefix : String → String → Bool

-- `LimitBody`
unfoldable pub body_limit : HttpRequest → ℕ
body_limit r = if r.path == "/v1/blobs" then max_body_bytes_blob else max_body_bytes_default

-- `EnforceHTTPS`: whether the request is let through.
unfoldable pub passes_https : Bool → Bool → HttpRequest → Bool
passes_https tls_terminated_locally allow_insecure r =
    if allow_insecure
    then true
    else if tls_terminated_locally
    then r.tls
    else r.forwarded_proto == "https"

module _ (net : Net) where
  open net use {split_host_port, before_comma, trim_space}

  abbrev pub host_or : String → Option (String × String) → String
  host_or remote_addr none = remote_addr
  host_or remote_addr (some (host, port)) = host

  unfoldable pub remote_addr_ip : String → String
  remote_addr_ip remote_addr = host_or remote_addr (split_host_port remote_addr)

  abbrev pub first_forwarded_ip : String → String
  first_forwarded_ip header = trim_space (before_comma header)

  -- `ResolveClientIP`, and `ClientIP` behind it.
  unfoldable pub client_ip : Bool → HttpRequest → String
  unfolding remote_addr_ip
  client_ip trust_proxy r =
      if trust_proxy
      then (if r.forwarded_for == ""
          then remote_addr_ip r.remote_addr
          else first_forwarded_ip r.forwarded_for)
      else remote_addr_ip r.remote_addr
