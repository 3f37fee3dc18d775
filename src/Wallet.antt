-- ===== src/Wallet.antt =====
-- How the server is put together, server/cmd/wallet/main.go, and the redirect of the plain HTTP
-- listener, server/cmd/wallet/tls.go.
pub mod Secure
pub mod Serves
pub mod Fingerprints
pub mod Main
use familycards.Prelude.{
  ℕ, ◌*◌, String, ◌==◌, Bool, true, false, not, ◌&&◌, ◌||◌, Option, none, some, List, if◌then◌else◌,
}
use familycards.Http.{Result, ok, err, other}
use familycards.SelfSigned.{Ips, Leaf, Issuing, load_or_issue}
use familycards.RateLimit.{Clockwork, new_limiter}
use familycards.Config.{TlsMode, off, acme, file, selfsigned, Config, is_off}
use familycards.Router.{RouterConfig, Limiters}

abbrev pub tls_terminated_locally : Config → Bool
tls_terminated_locally cfg = not (is_off cfg.tls_mode)

abbrev pub trust_proxy : Config → Bool
trust_proxy cfg = not cfg.allow_insecure && not (tls_terminated_locally cfg)

-- The argument of the call of `httpapi.Router`.
unfoldable pub router_config : Config → RouterConfig
router_config cfg = record {
  membership = true;
  sync = true;
  blobs = true;
  admin = true;
  allow_insecure = cfg.allow_insecure;
  trust_proxy = trust_proxy cfg;
  tls_terminated_locally = tls_terminated_locally cfg;
}

abbrev pub hour : ℕ
hour = 3600 * 1000000000

-- 10 requests a minute on the paths of auth, 120 on the others.
abbrev pub limiters : {Float : Type 0} → Clockwork Float → Limiters Float
limiters clock = record {
  auth_limiter = new_limiter clock 10 hour;
  general_limiter = new_limiter clock 120 hour;
}

-- Where the certificates of the HTTPS listener come from.
pub data TlsSetup (Ip : Type 0) : Type 0 where
  from_files : String → String → TlsSetup Ip
  own_certificate : Leaf Ip → TlsSetup Ip
  -- the cache, the names that the host policy admits, and the address of the account
  acme_manager : String → List String → String → TlsSetup Ip

abbrev pub own_or_error :
    {Ip : Type 0} → Result (Leaf Ip) × Option (Leaf Ip) → Result (TlsSetup Ip) × Option (Leaf Ip)
own_or_error (ok leaf, stored) = (ok (own_certificate leaf), stored)
own_or_error (err e, stored) = (err e, stored)

abbrev pub files_or_error : {Ip : Type 0} → Config → Option String → Result (TlsSetup Ip)
files_or_error cfg none = ok (from_files cfg.tls_cert_file cfg.tls_key_file)
files_or_error cfg (some e) = err other

-- `buildTLSConfig`, with the pair in the cache directory after it; `load_key_pair` is that of the
-- configuration's library.
unfoldable pub build_tls_config :
    {Ip : Type 0}
    → Ips Ip
    → (String → String → Option String)
    → Issuing Ip
    → ℕ
    → ℕ
    → Config
    → Option (Leaf Ip)
    → Result (TlsSetup Ip) × Option (Leaf Ip)
unfolding load_or_issue
build_tls_config ips load_key_pair issuing serial now cfg stored = elim cfg.tls_mode [
  | file ↦ (files_or_error cfg (load_key_pair cfg.tls_cert_file cfg.tls_key_file), stored)
  | selfsigned ↦ own_or_error (load_or_issue ips issuing serial now cfg.tls_domains stored)
  | acme ↦ (ok (acme_manager cfg.tls_cache_dir cfg.tls_domains cfg.tls_acme_email), stored)
  | off ↦ (err other, stored)
]

-- net.SplitHostPort and net.JoinHostPort
module _ (split_host_port : String → Option (String × String))
    (join_host_port : String → String → String) where
  abbrev pub port_or_empty : Option (String × String) → String
  port_or_empty none = ""
  port_or_empty (some (host, port)) = port

  unfoldable pub https_port : String → String
  https_port addr = port_or_empty (split_host_port addr)

  abbrev pub without_port : String → Option (String × String) → String
  without_port host none = host
  without_port host (some (h, port)) = h

  pub record Target : Type 0 where
    pub scheme : String
    pub host : String
    pub path : String
    pub raw_query : String

  -- Where `newRedirectHandler` sends a request, by its host, path and query: the status is 308.
  unfoldable pub redirect_target : String → String → String → String → Target
  redirect_target port host path raw_query =
      let bare = without_port host (split_host_port host) in
      record {
        scheme = "https";
        host = if port == "" || port == "443" then bare else join_host_port bare port;
        path = path;
        raw_query = raw_query;
      }
