-- ===== src/Wallet/Main/Boots.antt =====
-- What a start that gets to listening has done, step by step: `main` of
-- server/cmd/wallet/main.go.
use familycards.Prelude.{
  ℕ, String, ◌≡◌, ◌⊎◌, inl, inr, refl, sym, ap, subst, ◌∙◌, true, false, Option, none, some, List,
  Bool-cases,
}
use familycards.Http.{Result, ok, err}
use familycards.Store.Pools.{Pool, Pools, open_pools}
use familycards.SelfSigned.{Leaf}
use familycards.Migrations.{Tracked, apply}
use familycards.Config.{Library, Loading, done, refused, Config, is_off}
use familycards.Wallet.{TlsSetup, build_tls_config, router_config}
use familycards.Wallet.Main.{
  Machine, Host, Process, Boot, opened, after_migrations, configured, make_dir, open_db, migrate,
  listen, configure_tls, continue, needs_cache_dir, make_cache_dir, api_listener, redirect_listener,
  start,
}

-- A start that goes on after a step has passed the step.
continue-done :
    {S A B : Type 0} (r : Loading A × S) (k : A → Boot S B) (m' : S) (out : B)
    → continue r k ≡ (done out, m')
    → (a : A) × (mid : S) × (r ≡ (done a, mid)) × (k a mid ≡ (done out, m'))
continue-done (done a, mid) k m' out h = (a, mid, refl, h)
continue-done (refused e, mid) k m' out h = cc

abbrev Keeps : {Ip Schema : Type 0} → Machine Ip Schema → Machine Ip Schema → Type 0
Keeps m m' = (m'.live ≡ m.live) × (m'.tracked ≡ m.tracked)

opened-done :
    {Ip Schema : Type 0} (r : Result Pools × List Pool) (m m' : Machine Ip Schema) (pools : Pools)
    → opened r m ≡ (done pools, m')
    → (r ≡ (ok pools, m'.live)) × (m'.tracked ≡ m.tracked)
opened-done (ok p, live) m m' pools h = (cc, cc)
opened-done (err e, live) m m' pools h = cc

after_migrations-done :
    {Ip Schema : Type 0} (r : Tracked Schema × Result (Unit {0})) (m m' : Machine Ip Schema)
    (u : Unit {0})
    → after_migrations r m ≡ (done u, m')
    → (r ≡ (m'.tracked, ok tt)) × (m'.live ≡ m.live)
after_migrations-done (t, ok u) m m' v h = (cc, cc)
after_migrations-done (t, err e) m m' v h = cc

configured-done :
    {Ip Schema : Type 0} (r : Result (TlsSetup Ip) × Option (Leaf Ip)) (m m' : Machine Ip Schema)
    (tls : Option (TlsSetup Ip))
    → configured r m ≡ (done tls, m')
    → ((setup : TlsSetup Ip) × (tls ≡ some setup)) × Keeps m m'
configured-done (ok setup, pair) m m' tls h = ((setup, cc), (cc, cc))
configured-done (err e, pair) m m' tls h = cc

module _ {Ip Schema : Type 0} (host : Host Ip Schema) (lib : Library) where
  make_dir-Keeps :
      (path : String) (mode : ℕ) (failure : String) (m m' : Machine Ip Schema) (u : Unit {0})
      → make_dir host lib path mode failure m ≡ (done u, m')
      → Keeps m m'
  unfolding make_dir
  make_dir-Keeps path mode failure m m' u h = elim (Bool-cases (host.makes_dir path mode)) [
    | inl made ↦ (cc (rw made at h), cc (rw made at h))
    | inr failed ↦ cc (rw failed at h)
  ]

  -- The server terminates TLS with a setup, unless the mode is off.
  abbrev pub Secured : Config → Option (TlsSetup Ip) → Type 0
  Secured cfg tls =
      ((is_off cfg.tls_mode ≡ true) × (tls ≡ none))
      ⊎ ((is_off cfg.tls_mode ≡ false) × ((setup : TlsSetup Ip) × (tls ≡ some setup)))

  make_cache_dir-Keeps :
      (cfg : Config) (m m' : Machine Ip Schema) (u : Unit {0})
      → make_cache_dir host lib cfg m ≡ (done u, m')
      → Keeps m m'
  make_cache_dir-Keeps cfg m m' u h = elim (Bool-cases (needs_cache_dir cfg.tls_mode)) [
    | inl needed ↦ make_dir-Keeps cfg.tls_cache_dir 448 _ m m' u (rw needed at h)
    | inr unneeded ↦ (cc (rw unneeded at h), cc (rw unneeded at h))
  ]

  configure_tls-done :
      (cfg : Config) (m m' : Machine Ip Schema) (tls : Option (TlsSetup Ip))
      → configure_tls host lib cfg m ≡ (done tls, m')
      → Secured cfg tls × Keeps m m'
  unfolding configure_tls
  configure_tls-done cfg m m' tls h = elim (Bool-cases (is_off cfg.tls_mode)) [
    | inl plain ↦ (inl (plain, cc (rw plain at h)), (cc (rw plain at h), cc (rw plain at h)))
    | inr local ↦
        let (u, mid, made, k) =
          continue-done (make_cache_dir host lib cfg m) _ m' tls (rw local at h) in
        let (live, tracked) = make_cache_dir-Keeps cfg m mid u made in
        let (setup, (live', tracked')) =
          configured-done
            (build_tls_config host.ips lib.load_key_pair host.issuing host.serial host.now cfg
              mid.pair)
            mid m' tls k in
        (inr (local, setup), (live' ∙ live, tracked' ∙ tracked))
  ]

  -- The machine with the listeners up.
  abbrev pub up : Process Ip → Machine Ip Schema → Machine Ip Schema
  up server m = (listen host lib server m).1

  -- What is known of a configured server that waits for a signal.
  pub record Started (cfg : Config) (m : Machine Ip Schema) (server : Process Ip)
      (m' : Machine Ip Schema) : Type 0 where
    pub opened_pools : open_pools host.driver cfg.db_path ≡ (ok server.pools, m'.live)
    pub applied : apply host.exec host.names host.entries m.tracked ≡ (m'.tracked, ok tt)
    pub tls : Option (TlsSetup Ip)
    pub secured : Secured cfg tls
    pub api : server.api ≡ api_listener cfg tls
    pub routing : server.routing ≡ router_config cfg
    pub last : Machine Ip Schema
    pub all_up : m' ≡ up server last

  abbrev pub server_of : Config → Pools → Option (TlsSetup Ip) → Process Ip
  server_of cfg pools tls = record {
    pools = pools;
    routing = router_config cfg;
    api = api_listener cfg tls;
    redirect = redirect_listener host lib cfg tls;
  }

  -- The steps after the directories, as what each has found and left.
  from_steps :
      (cfg : Config) (m m1 m2 m3 m4 m5 m' : Machine Ip Schema) (pools : Pools)
      (tls : Option (TlsSetup Ip)) (server : Process Ip)
      → Keeps m m1
      → Keeps m1 m2
      → (open_pools host.driver cfg.db_path ≡ (ok pools, m3.live)) × (m3.tracked ≡ m2.tracked)
      → (apply host.exec host.names host.entries m3.tracked ≡ (m4.tracked, ok tt))
        × (m4.live ≡ m3.live)
      → Secured cfg tls × Keeps m4 m5
      → (server ≡ server_of cfg pools tls) × (m' ≡ up server m5)
      → Started cfg m server m'
  from_steps cfg m m1 m2 m3 m4 m5 m' pools tls server a b c d e f =
      let tracked = c.1 ∙ b.1 ∙ a.1 in
      let live = ap (λ (x : Machine Ip Schema). x.live) f.1 ∙ e.1.0 ∙ d.1 in
      let left = ap (λ (x : Machine Ip Schema). x.tracked) f.1 ∙ e.1.1 in
      record {
        opened_pools = rw (f.0, live) c.0;
        applied =
            subst (λ t. apply host.exec host.names host.entries t ≡ (m'.tracked, ok tt)) tracked
              (d.0 ∙ ap (λ t. (t, ok tt)) (sym left));
        tls = tls;
        secured = e.0;
        api = ap (λ (x : Process Ip). x.api) f.0;
        routing = ap (λ (x : Process Ip). x.routing) f.0;
        last = m5;
        all_up = f.1;
      }

  waits-inj :
      (s server : Process Ip) (m5 m' : Machine Ip Schema)
      → ◌≡◌ {A = Loading (Process Ip) × Machine Ip Schema} (done s, up s m5) (done server, m')
      → (server ≡ s) × (m' ≡ up server m5)
  waits-inj s server m5 m' h = (cc, cc)

  pub start-done :
      (cfg : Config) (m m' : Machine Ip Schema) (server : Process Ip)
      → start host lib cfg m ≡ (done server, m')
      → Started cfg m server m'
  unfolding start open_db migrate
  start-done cfg m m' server h =
      let (u1, m1, h1, k1) =
        continue-done (make_dir host lib (host.dir cfg.db_path) 493 _ m) _ m' server h in
      let (u2, m2, h2, k2) =
        continue-done (make_dir host lib cfg.blob_dir 493 _ m1) _ m' server k1 in
      let (pools, m3, h3, k3) = continue-done (open_db host lib cfg m2) _ m' server k2 in
      let (u4, m4, h4, k4) = continue-done (migrate host lib m3) _ m' server k3 in
      let (tls, m5, h5, k5) = continue-done (configure_tls host lib cfg m4) _ m' server k4 in
      from_steps cfg m m1 m2 m3 m4 m5 m' pools tls server (make_dir-Keeps _ 493 _ m m1 u1 h1)
        (make_dir-Keeps _ 493 _ m1 m2 u2 h2)
        (opened-done (open_pools host.driver cfg.db_path) m2 m3 pools h3)
        (after_migrations-done (apply host.exec host.names host.entries m3.tracked) m3 m4 u4 h4)
        (configure_tls-done cfg m4 m5 tls h5) (waits-inj (server_of cfg pools tls) server m5 m' k5)
