-- ===== src/Router/Reached.antt =====
-- What is known of a request that gets to a handler: server/internal/httpapi/router.go.
use familycards.Prelude.{
  ℕ, String, ◌≡◌, refl, sym, ap, inl, inr, Bool, true, false, ◌&&◌, ◌||◌, Option, none, some, List,
  [], ◌∷◌, All, All-append, arith, Bool-cases,
}
use familycards.Prelude.Table.{find_All}
use familycards.Http.{Result, ok, err}
use familycards.Store.{Db}
use familycards.Auth.Context.{Identity, Context, empty_context, with_identity}
use familycards.Auth.Services.{Services}
use familycards.Auth.Middleware.{require_auth}
use familycards.RateLimit.{Clockwork}
use familycards.Router.Middleware.{HttpRequest, Net, body_limit, passes_https, client_ip}
use familycards.Router.{
  Endpoint, health, auth_bootstrap, auth_prelogin, auth_login, auth_refresh, auth_recovery_prelogin,
  auth_recovery_redeem, membership_get_invite, membership_redeem_invite, admin_backup, RouterConfig,
  Route, auth_routes, membership_routes, sync_routes, blob_routes, admin_routes, given, routes,
  has_pattern, Limiters, reached, rejected, limited, dual_rate_limit, behind_auth, serve_route,
  find_route, serve, after_limit, router,
}

-- The endpoints that ask for no bearer token.
abbrev pub is_public : Endpoint → Bool
is_public health = true
is_public auth_bootstrap = true
is_public auth_prelogin = true
is_public auth_login = true
is_public auth_refresh = true
is_public auth_recovery_prelogin = true
is_public auth_recovery_redeem = true
is_public membership_get_invite = true
is_public membership_redeem_invite = true
is_public admin_backup = true
is_public _ = false

abbrev Guarded : Route → Type 0
Guarded route = (is_public route.endpoint || route.protected) ≡ true

abbrev all_guarded : List Route → Bool
all_guarded [] = true
all_guarded (route ∷ rs) = (is_public route.endpoint || route.protected) && all_guarded rs

all_guarded-All : (rs : List Route) → all_guarded rs ≡ true → All Guarded rs
all_guarded-All [] h = tt
all_guarded-All (route ∷ rs) h = (ground arith, all_guarded-All rs (ground arith))

given-Guarded : (b : Bool) (rs : List Route) → all_guarded rs ≡ true → All Guarded (given b rs)
given-Guarded true rs h = all_guarded-All rs h
given-Guarded false rs h = tt

routes-Guarded : (cfg : RouterConfig) → All Guarded (routes cfg)
unfolding routes
routes-Guarded cfg = All-append Guarded auth_routes _ (all_guarded-All auth_routes refl) (
    All-append Guarded (given cfg.membership membership_routes) _
      (given-Guarded cfg.membership membership_routes refl)
      (All-append Guarded (given cfg.sync sync_routes) _ (given-Guarded cfg.sync sync_routes refl) (
        All-append Guarded (given cfg.blobs blob_routes) _
          (given-Guarded cfg.blobs blob_routes refl) (given-Guarded cfg.admin admin_routes refl))))

module _ {Float : Type 0} (net : Net) (clock : Clockwork Float) (services : Services)
    (secret : String) (serve_mux : List String → HttpRequest → Option String) where
  -- The context of a request is that of a bearer token that was accepted, or the endpoint asks for none.
  pub record Called (now : ℕ) (r : HttpRequest) (db : Db) (e : Endpoint) (ctx : Context) (limit : ℕ)
      : Type 0 where
    pub identified :
        is_public e ≡ false
        → (id : Identity) × (require_auth services secret now r.authorization db ≡ ok id)
          × (ctx ≡ with_identity empty_context id)
    pub limit_of_path : limit ≡ body_limit r

  reached-inj :
      (e e' : Endpoint) (c c' : Context) (n n' : ℕ)
      → reached e c n ≡ reached e' c' n'
      → (e ≡ e') × (c ≡ c') × (n ≡ n')
  reached-inj e e' c c' n n' h = (cc, cc, cc)

  behind_auth-Called :
      (now : ℕ) (r : HttpRequest) (db : Db) (e' e : Endpoint) (o : Result Identity) (ctx : Context)
      (limit : ℕ)
      → o ≡ require_auth services secret now r.authorization db
      → behind_auth net clock services secret serve_mux e' (body_limit r) o ≡ reached e ctx limit
      → Called now r db e ctx limit
  behind_auth-Called now r db e' e (err error) ctx limit same h = cc
  behind_auth-Called now r db e' e (ok id) ctx limit same h =
      let (es, cs, ls) = reached-inj e' e _ ctx _ limit h in
      record { identified = λ p. (id, sym same, sym cs); limit_of_path = sym ls }

  serve_route-Called :
      (now : ℕ) (r : HttpRequest) (db : Db) (o : Option Route) (e : Endpoint) (ctx : Context)
      (limit : ℕ)
      → ((route : Route) → o ≡ some route → Guarded route)
      → serve_route net clock services secret serve_mux now r db o ≡ reached e ctx limit
      → Called now r db e ctx limit
  serve_route-Called now r db none e ctx limit guarded h = cc
  serve_route-Called now r db (some route) e ctx limit guarded h =
      elim (Bool-cases route.protected) [
        | inl behind ↦
            behind_auth-Called now r db route.endpoint e _ ctx limit refl (rw behind at h)
        | inr open_to_all ↦
            let (es, cs, ls) =
              reached-inj route.endpoint e empty_context ctx _ limit (rw open_to_all at h) in
            let g = guarded route refl in
            let public : is_public route.endpoint ≡ true = ground arith in
            record { identified = λ p. cc (public, es, p); limit_of_path = sym ls }
      ]

  find_route-Guarded :
      (cfg : RouterConfig) (o : Option String) (route : Route)
      → find_route net clock services secret serve_mux cfg o ≡ some route
      → Guarded route
  find_route-Guarded cfg none route h = cc
  find_route-Guarded cfg (some pattern) route h =
      find_All Guarded (has_pattern pattern) (routes cfg) route (routes-Guarded cfg) h

  module _ (cfg : RouterConfig) (now : ℕ) (r : HttpRequest) (db : Db) (l after : Limiters Float)
      (e : Endpoint) (ctx : Context) (limit : ℕ) where
    pub record Reached : Type 0 where
      pub secure : passes_https cfg.tls_terminated_locally cfg.allow_insecure r ≡ true
      pub within_rate :
          (dual_rate_limit net clock services secret serve_mux now
            (client_ip net cfg.trust_proxy r)
            r
            l).0.0
          ≡ true
      pub called : Called now r db e ctx limit

    after_limit-Reached :
        (d : (Bool × ℕ) × Limiters Float)
        → after_limit net clock services secret serve_mux cfg now r db d
          ≡ (reached e ctx limit, after)
        → (d.0.0 ≡ true) × Called now r db e ctx limit
    after_limit-Reached ((true, wait), l') h =
        let served : serve net clock services secret serve_mux cfg now r db ≡ reached e ctx limit =
          ap (λ x. x.0) h in
        (
          refl,
          serve_route-Called now r db _ e ctx limit
              (λ route found. find_route-Guarded cfg _ route found) served,
        )
    after_limit-Reached ((false, wait), l') h =
        let stopped : limited _ ≡ reached e ctx limit = ap (λ x. x.0) h in cc

    -- A request that gets to a handler came over HTTPS, as far as the configuration asks for it, was let
    -- through by the limiter of its path for the IP that it counts for, and has the limit of its path on
    -- its body; and unless the handler is health, a backup, one of bootstrap, prelogin, login, refresh
    -- and the two of recovery, or the reading or redeeming of an invite, it runs with the identity that
    -- the bearer check found in the request.
    pub router_reached :
        router net clock services secret serve_mux cfg now r db l ≡ (reached e ctx limit, after)
        → Reached
    unfolding router
    router_reached h =
        elim (Bool-cases (passes_https cfg.tls_terminated_locally cfg.allow_insecure r)) [
          | inl secure ↦
              let (within, called) = after_limit-Reached _ (rw secure at h) in
              record { secure = secure; within_rate = within; called = called }
          | inr plain ↦
              let k = rw plain at h in
              let stopped : rejected _ ≡ reached e ctx limit = ap (λ x. x.0) k in cc
        ]
