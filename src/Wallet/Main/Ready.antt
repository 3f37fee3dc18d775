-- ===== src/Wallet/Main/Ready.antt =====
-- When the process gets to listening, what it has done by then, and how it ends: `main` of
-- server/cmd/wallet/main.go.
use familycards.Prelude.{
  String, ◌≡◌, ◌⊎◌, inl, inr, refl, ap, subst, ◌∙◌, Bool, true, false, Option, none, some, List, [],
  ◌∷◌, All, Bool-cases, is_some, if◌then◌else◌,
}
use familycards.Http.{Result, ok, err}
use familycards.Store.Pools.{Settled, close, open_pools-Settled}
use familycards.Migrations.{load as load_migrations}
use familycards.Migrations.{Migration, Tracked, is_applied, apply}
use familycards.Migrations.Rerun.{apply_completes}
use familycards.Config.{Library, Loading, done, refused, Config, is_off, load}
use familycards.Config.Valid.{IsValid, load-IsValid}
use familycards.Wallet.{TlsSetup, router_config}
use familycards.Wallet.Main.{
  Machine, Host, Listener, api_over_tls, api_plain, Process, Stop, interrupted, listener_ended,
  exit_code, api_listener, note_undrained, shut_api, shut_redirect, shut_down, start, boot, finish,
  main,
}
use familycards.Wallet.Main.Boots.{Secured, Started, start-done}

abbrev pub has_failed : Stop → Bool
has_failed interrupted = false
has_failed (listener_ended none) = false
has_failed (listener_ended (some e)) = true

exit_code-lem : (stop : Stop) → exit_code stop ≡ (if has_failed stop then 1 else 0)
exit_code-lem interrupted = refl
exit_code-lem (listener_ended none) = refl
exit_code-lem (listener_ended (some e)) = refl

module _ {Ip Schema : Type 0} (host : Host Ip Schema) (lib : Library) where
  open host use {driver, names, entries, exec}

  -- How the API is served.
  abbrev pub ServesApi : Config → Process Ip → Type 0
  ServesApi cfg server =
      ((is_off cfg.tls_mode ≡ true) × (server.api ≡ api_plain cfg.addr))
      ⊎ ((is_off cfg.tls_mode ≡ false)
          × ((setup : TlsSetup Ip) × (server.api ≡ api_over_tls cfg.addr (some setup))))

  pub record IsReady (cfg : Config) (server : Process Ip) (m : Machine Ip Schema) : Type 0 where
    pub valid : IsValid lib cfg
    pub migrations : List Migration
    pub known : load_migrations names entries ≡ ok migrations
    pub recorded :
        All (λ (x : Migration). is_applied m.tracked.versions x.version ≡ true) migrations
    pub pools_open : m.live ≡ server.pools.write ∷ server.pools.read ∷ []
    pub routing : server.routing ≡ router_config cfg
    pub serves : ServesApi cfg server

  boot-Started :
      (loaded : Loading Config) (m m' : Machine Ip Schema) (server : Process Ip)
      → boot host lib loaded m ≡ (done server, m')
      → (cfg : Config) × (loaded ≡ done cfg) × Started host lib cfg m server m'
  boot-Started (refused e) m m' server h = cc
  boot-Started (done cfg) m m' server h = (cfg, refl, start-done host lib cfg m m' server h)

  Secured-ServesApi :
      (cfg : Config) (tls : Option (TlsSetup Ip)) (server : Process Ip)
      → Secured host lib cfg tls
      → server.api ≡ api_listener cfg tls
      → ServesApi cfg server
  Secured-ServesApi cfg tls server (inl (plain, same)) api = inl (plain, api ∙ rw plain refl)
  Secured-ServesApi cfg tls server (inr (local, (setup, same))) api =
      inr (local, (setup, api ∙ rw (local, same) refl))

  apply-known :
      (loaded : Result (List Migration)) (t t' : Tracked Schema)
      → load_migrations names entries ≡ loaded
      → apply exec names entries t ≡ (t', ok tt)
      → (migs : List Migration) × (load_migrations names entries ≡ ok migs)
  unfolding apply
  apply-known (ok migs) t t' same h = (migs, same)
  apply-known (err e) t t' same h = cc (rw same at h)

  module _ (m m' : Machine Ip Schema) (server : Process Ip) where
    -- A process that gets to listening has a configuration that was loaded and is valid, has every
    -- migration of its directory recorded, its two pools open, its routes built from the
    -- configuration, and the API on plain HTTP only where the mode is off, and else over TLS with a
    -- setup.
    pub boot-IsReady :
        (lookup_env : String → Option String)
        → boot host lib (load lib lookup_env) m ≡ (done server, m')
        → (cfg : Config) × (load lib lookup_env ≡ done cfg) × IsReady cfg server m'
    boot-IsReady lookup_env h =
        let (cfg, loaded, s) = boot-Started (load lib lookup_env) m m' server h in
        let (migs, known) = apply-known _ m.tracked m'.tracked refl s.applied in
        let settled =
          subst (Settled driver) s.opened_pools (open_pools-Settled driver cfg.db_path) in
        (
          cfg,
          loaded,
          record {
            valid = load-IsValid lib lookup_env cfg loaded;
            migrations = migs;
            known = known;
            recorded =
                (apply_completes exec names entries migs m.tracked m'.tracked known s.applied).0;
            pools_open = settled.0;
            routing = s.routing;
            serves = Secured-ServesApi cfg s.tls server s.secured s.api;
          },
        )

  note_undrained-live :
      (l : Listener Ip) (m : Machine Ip Schema)
      → ((note_undrained host lib l m).live ≡ m.live)
        × ((note_undrained host lib l m).api_up ≡ m.api_up)
        × ((note_undrained host lib l m).redirect_up ≡ m.redirect_up)
  note_undrained-live l m = elim (Bool-cases (host.drains l)) [
    | inl drained ↦ rw drained (refl, refl, refl)
    | inr running ↦ rw running (refl, refl, refl)
  ]

  -- Neither listener takes connections.
  abbrev pub AllDown : Machine Ip Schema → Type 0
  AllDown m = (m.api_up ≡ false) × (m.redirect_up ≡ false)

  shut_down-AllDown :
      (server : Process Ip) (m : Machine Ip Schema)
      → m.redirect_up ≡ is_some server.redirect
      → AllDown (shut_down host lib server m) × ((shut_down host lib server m).live ≡ m.live)
  unfolding shut_down
  shut_down-AllDown server m up = go server.redirect up
    where
      go :
          (redirect : Option (Listener Ip))
          → m.redirect_up ≡ is_some redirect
          → AllDown (shut_redirect host lib redirect (shut_api host lib server.api m))
            × ((shut_redirect host lib redirect (shut_api host lib server.api m)).live ≡ m.live)
      go none up =
          let a = note_undrained-live server.api (record m { api_up = false }) in
          ((a.1, a.2 ∙ up), a.0)
      go (some l) up =
          let a = note_undrained-live server.api (record m { api_up = false }) in
          let b =
            note_undrained-live l
              (record (shut_api host lib server.api m) { redirect_up = false }) in
          ((b.1 ∙ a.1, b.2), b.0 ∙ a.0)

  start-up :
      (cfg : Config) (m m' : Machine Ip Schema) (server : Process Ip)
      → start host lib cfg m ≡ (done server, m')
      → m'.redirect_up ≡ is_some server.redirect
  start-up cfg m m' server h =
      ap (λ (x : Machine Ip Schema). x.redirect_up) (start-done host lib cfg m m' server h).all_up

  close-empties :
      (cfg : Config) (m m' : Machine Ip Schema) (server : Process Ip)
      → start host lib cfg m ≡ (done server, m')
      → (close driver server.pools (shut_down host lib server m').live).1 ≡ []
  close-empties cfg m m' server h =
      let s = start-done host lib cfg m m' server h in
      let same = (shut_down-AllDown server m' (start-up cfg m m' server h)).1 in
      ap (λ live. (close driver server.pools live).1) same
      ∙ (subst (Settled driver) s.opened_pools (open_pools-Settled driver cfg.db_path)).1

  finish-AllDown :
      (stop : Stop) (m' : Machine Ip Schema) (server : Process Ip)
      → AllDown (shut_down host lib server m')
      → AllDown (finish host lib stop (done server, m')).machine
  unfolding finish
  finish-AllDown interrupted m' server h = h
  finish-AllDown (listener_ended none) m' server h = h
  finish-AllDown (listener_ended (some e)) m' server h = h

  -- A process that gets to listening ends with neither of its listeners taking connections, whatever
  -- ends the wait, a failure of one listener included, and with status 1 exactly for such a failure.
  pub main_shuts_down :
      (loaded : Loading Config) (stop : Stop) (m m' : Machine Ip Schema) (server : Process Ip)
      → boot host lib loaded m ≡ (done server, m')
      → AllDown (main host lib loaded stop m).machine
        × ((main host lib loaded stop m).status ≡ (if has_failed stop then 1 else 0))
  unfolding main finish
  main_shuts_down (refused e) stop m m' server h = cc
  main_shuts_down (done cfg) stop m m' server h = rw h (
    finish-AllDown stop m' server (shut_down-AllDown server m' (start-up cfg m m' server h)).0,
    exit_code-lem stop,
  )

  finish-closed :
      (cfg : Config) (stop : Stop) (m : Machine Ip Schema)
      (r : Loading (Process Ip) × Machine Ip Schema)
      → start host lib cfg m ≡ r
      → (finish host lib stop r).status ≡ 0
      → (finish host lib stop r).machine.live ≡ []
  unfolding finish
  finish-closed cfg stop m (refused e, m') same h = cc
  finish-closed cfg (listener_ended (some e)) m (done server, m') same h = cc
  finish-closed cfg (listener_ended none) m (done server, m') same h =
      close-empties cfg m m' server same
  finish-closed cfg interrupted m (done server, m') same h = close-empties cfg m m' server same

  -- A process that ends with status 0 leaves none of its pools open.
  pub main_closes :
      (loaded : Loading Config) (stop : Stop) (m : Machine Ip Schema)
      → (main host lib loaded stop m).status ≡ 0
      → (main host lib loaded stop m).machine.live ≡ []
  unfolding main finish
  main_closes (refused e) stop m h = cc
  main_closes (done cfg) stop m h = finish-closed cfg stop m (start host lib cfg m) refl h
