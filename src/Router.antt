-- ===== src/Router.antt =====
-- The routes and the chain in front of them: server/internal/httpapi/router.go. A handler is its name;
-- what http.ServeMux picks for a request is a parameter.
pub mod Middleware
pub mod Response
pub mod Reached
use familycards.Prelude.{
  ℕ, String, ◌==◌, Bool, true, false, not, Option, none, some, List, [], ◌∷◌, ◌++◌, map,
  if◌then◌else◌,
}
use familycards.Prelude.Table.{find}
use familycards.Http.{Error, Result, ok, err, bad_request}
use familycards.Store.{Db}
use familycards.Auth.Context.{Identity, Context, empty_context, with_identity}
use familycards.Auth.Services.{Services}
use familycards.Auth.Middleware.{require_auth}
use familycards.RateLimit.{Clockwork, Limiter, allow}
use familycards.Router.Middleware.{HttpRequest, Net, body_limit, passes_https, client_ip}

pub data Endpoint : Type 0 where
  health : Endpoint
  auth_bootstrap : Endpoint
  auth_prelogin : Endpoint
  auth_login : Endpoint
  auth_refresh : Endpoint
  auth_recovery_prelogin : Endpoint
  auth_recovery_redeem : Endpoint
  auth_logout : Endpoint
  auth_change_password : Endpoint
  auth_me : Endpoint
  membership_create_invite : Endpoint
  membership_get_invite : Endpoint
  membership_redeem_invite : Endpoint
  membership_delete_invite : Endpoint
  membership_list_members : Endpoint
  membership_remove_member : Endpoint
  sync_get_changes : Endpoint
  sync_push : Endpoint
  blobs_upload : Endpoint
  blobs_get : Endpoint
  admin_backup : Endpoint

-- Which of the optional endpoint sets are given, and the switches.
pub record RouterConfig : Type 0 where
  pub membership : Bool
  pub sync : Bool
  pub blobs : Bool
  pub admin : Bool
  pub allow_insecure : Bool
  pub trust_proxy : Bool
  pub tls_terminated_locally : Bool

-- A pattern with its handler, which stands behind `RequireAuth` or not.
pub record Route : Type 0 where
  pub pattern : String
  pub protected : Bool
  pub endpoint : Endpoint

abbrev pub handle_func : String → Endpoint → Route
handle_func pattern e = record { pattern = pattern; protected = false; endpoint = e }

abbrev pub protect : String → Endpoint → Route
protect pattern e = record { pattern = pattern; protected = true; endpoint = e }

abbrev pub auth_routes : List Route
auth_routes =
    handle_func "GET /v1/health" health
    ∷ handle_func "POST /v1/auth/bootstrap" auth_bootstrap
    ∷ handle_func "POST /v1/auth/prelogin" auth_prelogin
    ∷ handle_func "POST /v1/auth/login" auth_login
    ∷ handle_func "POST /v1/auth/refresh" auth_refresh
    ∷ handle_func "POST /v1/auth/recovery/prelogin" auth_recovery_prelogin
    ∷ handle_func "POST /v1/auth/recovery/redeem" auth_recovery_redeem
    ∷ protect "POST /v1/auth/logout" auth_logout
    ∷ protect "POST /v1/auth/password" auth_change_password
    ∷ protect "GET /v1/me" auth_me
    ∷ []

abbrev pub membership_routes : List Route
membership_routes =
    protect "POST /v1/invites" membership_create_invite
    ∷ handle_func "GET /v1/invites/{code_hash}" membership_get_invite
    ∷ handle_func "POST /v1/invites/{code_hash}/redeem" membership_redeem_invite
    ∷ protect "DELETE /v1/invites/{code_hash}" membership_delete_invite
    ∷ protect "GET /v1/members" membership_list_members
    ∷ protect "DELETE /v1/members/{user_id}" membership_remove_member
    ∷ []

abbrev pub sync_routes : List Route
sync_routes =
    protect "GET /v1/sync/changes" sync_get_changes ∷ protect "POST /v1/sync/push" sync_push ∷ []

abbrev pub blob_routes : List Route
blob_routes =
    protect "POST /v1/blobs" blobs_upload ∷ protect "GET /v1/blobs/{blob_id}" blobs_get ∷ []

abbrev pub admin_routes : List Route
admin_routes = handle_func "POST /v1/admin/backup" admin_backup ∷ []

abbrev pub given : Bool → List Route → List Route
given b routes = if b then routes else []

-- What `Router` registers, in its order.
unfoldable pub routes : RouterConfig → List Route
routes cfg =
    auth_routes
    ++ (given cfg.membership membership_routes
        ++ (given cfg.sync sync_routes
            ++ (given cfg.blobs blob_routes ++ given cfg.admin admin_routes)))

abbrev pub pattern_of : Route → String
pattern_of route = route.pattern

abbrev pub has_pattern : String → Route → Bool
has_pattern pattern route = route.pattern == pattern

-- The limiters of the two classes of paths.
pub record Limiters (Float : Type 0) : Type 0 where
  pub auth_limiter : Limiter Float
  pub general_limiter : Limiter Float

-- What comes of a request: a handler gets it, with its context and the limit on its body; or it is
-- answered before, with an error, with 429 and a Retry-After, or by the mux.
pub data Routed : Type 0 where
  reached : Endpoint → Context → ℕ → Routed
  rejected : Error → Routed
  limited : ℕ → Routed
  unmatched : Routed

module _ {Float : Type 0} (net : Net) (clock : Clockwork Float) (services : Services)
    (secret : String)
    -- the pattern that the mux picks of those registered
    (serve_mux : List String → HttpRequest → Option String) where
  -- `dualRateLimit`
  unfoldable pub dual_rate_limit :
      ℕ → String → HttpRequest → Limiters Float → (Bool × ℕ) × Limiters Float
  unfolding allow
  dual_rate_limit now ip r l =
      if net.has_prefix r.path "/v1/auth/"
      then (let (answer, after) = allow clock now ip l.auth_limiter in
          (answer, record l { auth_limiter = after }))
      else (let (answer, after) = allow clock now ip l.general_limiter in
          (answer, record l { general_limiter = after }))

  abbrev pub behind_auth : Endpoint → ℕ → Result Identity → Routed
  behind_auth e limit (err error) = rejected error
  behind_auth e limit (ok id) = reached e (with_identity empty_context id) limit

  -- The handler of a route.
  abbrev pub serve_route : ℕ → HttpRequest → Db → Option Route → Routed
  serve_route now r db none = unmatched
  serve_route now r db (some route) =
      if route.protected
      then behind_auth route.endpoint (body_limit r)
          (require_auth services secret now r.authorization db)
      else reached route.endpoint empty_context (body_limit r)

  abbrev pub find_route : RouterConfig → Option String → Option Route
  find_route cfg none = none
  find_route cfg (some pattern) = find (has_pattern pattern) (routes cfg)

  abbrev pub serve : RouterConfig → ℕ → HttpRequest → Db → Routed
  serve cfg now r db =
      serve_route now r db (find_route cfg (serve_mux (map pattern_of (routes cfg)) r))

  abbrev pub after_limit :
      RouterConfig → ℕ → HttpRequest → Db → (Bool × ℕ) × Limiters Float → Routed × Limiters Float
  after_limit cfg now r db ((true, wait), l) = (serve cfg now r db, l)
  after_limit cfg now r db ((false, wait), l) = (limited (clock.whole_seconds wait), l)

  -- The chain that `Router` builds.
  unfoldable pub router :
      RouterConfig → ℕ → HttpRequest → Db → Limiters Float → Routed × Limiters Float
  unfolding routes body_limit passes_https client_ip dual_rate_limit require_auth with_identity
  router cfg now r db l =
      if passes_https cfg.tls_terminated_locally cfg.allow_insecure r
      then after_limit cfg now r db (dual_rate_limit now (client_ip net cfg.trust_proxy r) r l)
      else (rejected (bad_request "HTTPS required"), l)
