-- ===== src/Tests/WiringRuns.antt =====
-- The configuration of a server that signs its own certificate, a request of Ann's through the chain
-- that is built from it, and the limiters. A `Float` is a natural number here.
use Prim.Native.String.{len}
use familycards.Prelude.{
  ℕ, ◌+◌, ◌-◌, ◌*◌, ◌/◌, ltb, leb, pos, String, ◌==◌, ◌≡◌, ◌⊎◌, refl, true, false, Option, none,
  some, List, [], ◌∷◌, if◌then◌else◌,
}
use familycards.Prelude.Table.{find, exists}
use familycards.Auth.Context.{Context, empty_context, with_identity}
use familycards.Auth.Repository.{get_device_by_id, get_user_by_id}
use familycards.Auth.Tokens.{issue_access_token}
use familycards.Auth.Middleware.{bearer, require_auth}
use familycards.RateLimit.{Clockwork, Limiter, new_limiter, bucket_for, store_bucket, allow}
use familycards.RateLimit.Isolation.{after_requests, allow_isolated}
use familycards.Config.{
  Library, done, selfsigned, is_off, Config, mode_of, parse_domain_list, default_self_signed_names,
  check_mode, load_base, load_tls, load,
}
use familycards.Router.Middleware.{
  HttpRequest, Net, body_limit, passes_https, client_ip, remote_addr_ip,
}
use familycards.Router.{auth_me, routes, Limiters, reached, dual_rate_limit, router}
use familycards.Router.Reached.{Reached, router_reached}
use familycards.Wallet.{router_config, limiters}
use familycards.Wallet.Secure.{wallet_secure}
use familycards.Tests.Encoding.{read_token-write_token, zeros, plain_services}
use familycards.Tests.AccountRuns.{db, ann, ann_claims, token}

abbrev clock : Clockwork ℕ
clock = record {
  of_int = λ n. n;
  add = λ a b. a + b;
  sub = λ a b. a - b;
  mul = λ a b. a * b;
  div = λ a b. a / b;
  less = λ a b. ltb a b;
  at_least = λ a b. leb b a;
  minutes_between = λ now since. (now - since) / 60000000000;
  of_minutes = λ m. m * 60000000000;
  whole_seconds = λ d. d / 1000000000 + 1;
}

-- A limiter of one request a minute that "a" has used.
abbrev used : Limiter ℕ
used = (allow clock 5 "a" (new_limiter clock 1 3600000000000)).1

allow_isolated_example :
    (allow clock 9 "b" (after_requests clock ((6, "a") ∷ (7, "c") ∷ []) used)).0
    ≡ (allow clock 9 "b" used).0
allow_isolated_example =
    allow_isolated clock 9 "b" ((6, "a") ∷ (7, "c") ∷ []) used (refl, (refl, tt))

abbrev pub lib : Library
lib = record {
  bytes_of = λ s. zeros (len s);
  parse_bool = λ s. some (s == "true");
  atoi = λ s. some (pos (len s));
  trim_space = λ s. s;
  split_commas = λ s. s ∷ [];
  split_host_port = λ s. none;
  beside = λ path name. name;
  load_key_pair = λ cert key. none;
}

abbrev pub env_with : String → String → Option String
env_with mode key =
    if key == "WALLET_JWT_SECRET"
    then some "0123456789abcdef0123456789abcdef"
    else if key == "WALLET_TLS_MODE"
    then some mode
    else if key == "WALLET_ADDR"
    then some "wallet.example"
    else none

abbrev pub cfg : Config
cfg = record {
  addr = "wallet.example";
  db_path = "data/wallet.db";
  blob_dir = "data/blobs";
  jwt_secret = zeros 32;
  bootstrap_token = "";
  admin_token = "";
  log_level = "info";
  allow_insecure = false;
  tombstone_days = pos 90;
  tls_mode = selfsigned;
  tls_domains = "localhost" ∷ "127.0.0.1" ∷ "wallet.example" ∷ [];
  tls_cert_file = "";
  tls_key_file = "";
  tls_cache_dir = "certs";
  tls_acme_email = "";
  http_addr = "";
}

pub loads : load lib (env_with "selfsigned") ≡ done cfg
unfolding load load_base load_tls mode_of parse_domain_list default_self_signed_names check_mode
loads = refl

abbrev net : Net
net = record {
  split_host_port = λ s. some (s, "1000");
  before_comma = λ s. s;
  trim_space = λ s. s;
  has_prefix = λ s prefix. s == prefix;
}

abbrev mux : List String → HttpRequest → Option String
mux patterns r = if r.path == "/v1/me" then some "GET /v1/me" else none

abbrev me_request : HttpRequest
me_request = record {
  method = "GET";
  path = "/v1/me";
  tls = true;
  forwarded_proto = "https";
  forwarded_for = "6.6.6.6";
  remote_addr = "1.2.3.4";
  authorization = bearer token;
}

abbrev after_me : Config → Limiters ℕ
after_me c =
    (dual_rate_limit net clock plain_services "secret" mux 100
      (client_ip net (router_config c).trust_proxy me_request) me_request (limiters clock)).1

abbrev ann_ctx : Context
ann_ctx = with_identity empty_context ann

served :
    router net clock plain_services "secret" mux
      (router_config cfg)
      100
      me_request
      db
      (limiters clock)
    ≡ (reached auth_me ann_ctx 1048576, after_me cfg)
unfolding router router_config routes body_limit passes_https client_ip remote_addr_ip
    dual_rate_limit allow bucket_for store_bucket require_auth issue_access_token get_device_by_id
    get_user_by_id find exists
served = rw (read_token-write_token "secret" 100 ann_claims) refl

router_reached_example :
    Reached net clock plain_services "secret" mux
      (router_config cfg)
      100
      me_request
      db
      (limiters clock)
      (after_me cfg)
      auth_me
      ann_ctx
      1048576
router_reached_example =
    router_reached net clock plain_services "secret" mux (router_config cfg) 100 me_request db
      (limiters clock) (after_me cfg) auth_me ann_ctx 1048576 served

wallet_secure_example :
    ((is_off cfg.tls_mode ≡ false)
      × (me_request.tls ≡ true)
      × (client_ip net (router_config cfg).trust_proxy me_request
          ≡ remote_addr_ip net me_request.remote_addr))
    ⊎ (((is_off cfg.tls_mode ≡ true) × ((me_request.forwarded_proto == "https") ≡ true))
        ⊎ ((is_off cfg.tls_mode ≡ true) × (cfg.allow_insecure ≡ true)))
wallet_secure_example =
    wallet_secure lib (env_with "selfsigned") net clock plain_services "secret" mux cfg 100
      me_request db (limiters clock) (after_me cfg) auth_me ann_ctx 1048576 loads served
