-- ===== src/Wallet/Secure.antt =====
-- The chain as server/cmd/wallet/main.go builds it from the configuration.
use familycards.Prelude.{
  ℕ, String, ◌==◌, ◌≡◌, ◌⊎◌, inl, inr, true, false, Option, List, arith, Bool-cases,
}
use familycards.Store.{Db}
use familycards.Auth.Context.{Context}
use familycards.Auth.Services.{Services}
use familycards.RateLimit.{Clockwork}
use familycards.Config.{Library, done, Config, is_off, load}
use familycards.Config.Valid.{load-IsValid}
use familycards.Router.Middleware.{HttpRequest, Net, passes_https, client_ip, remote_addr_ip}
use familycards.Router.{Endpoint, Limiters, reached, router}
use familycards.Router.Reached.{router_reached}
use familycards.Wallet.{router_config}

module _ (lib : Library) (lookup_env : String → Option String) {Float : Type 0} (net : Net)
    (clock : Clockwork Float) (services : Services) (secret : String)
    (serve_mux : List String → HttpRequest → Option String) (cfg : Config) (now : ℕ)
    (r : HttpRequest) (db : Db) (l after : Limiters Float) (e : Endpoint) (ctx : Context)
    (limit : ℕ) where
  -- With a configuration that is loaded, a request that gets to a handler came over TLS and counts for
  -- the IP of its TCP peer, whatever its headers say, if the server terminates TLS itself; and if it
  -- does not, then the proxy says that the request came over HTTPS, or the HTTPS check is switched off.
  pub wallet_secure :
      load lib lookup_env ≡ done cfg
      → router net clock services secret serve_mux (router_config cfg) now r db l
        ≡ (reached e ctx limit, after)
      → ((is_off cfg.tls_mode ≡ false)
          × (r.tls ≡ true)
          × (client_ip net (router_config cfg).trust_proxy r ≡ remote_addr_ip net r.remote_addr))
        ⊎ (((is_off cfg.tls_mode ≡ true) × ((r.forwarded_proto == "https") ≡ true))
            ⊎ ((is_off cfg.tls_mode ≡ true) × (cfg.allow_insecure ≡ true)))
  unfolding router_config passes_https client_ip
  wallet_secure loaded served =
      let both = (load-IsValid lib lookup_env cfg loaded).not_both in
      let secure =
        (router_reached net clock services secret serve_mux (router_config cfg) now r db l after e
          ctx limit served).secure in
      elim (Bool-cases (is_off cfg.tls_mode)) [
        | inr local ↦ inl (local, ground (arith, local, both, secure), ground (arith, local))
        | inl proxied ↦ elim (Bool-cases cfg.allow_insecure) [
          | inl insecure ↦ inr (inr (proxied, insecure))
          | inr checked ↦ inr (inl (proxied, ground (arith, proxied, checked, secure)))
        ]
      ]
