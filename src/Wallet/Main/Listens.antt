-- ===== src/Wallet/Main/Listens.antt =====
-- A start in which nothing fails gets to listening: `main` of server/cmd/wallet/main.go.
use familycards.Prelude.{
  ℕ, String, ◌≡◌, inl, inr, refl, sym, subst, true, false, Option, none, some, List, Bool-cases,
}
use familycards.Prelude.Table.{insert}
use familycards.Http.{Result, ok, err}
use familycards.Store.Pools.{Pool, Pools, open_pools}
use familycards.SelfSigned.{Leaf, works}
use familycards.Migrations.{Tracked, apply}
use familycards.Config.{Library, done, Config, is_off, load}
use familycards.Wallet.{TlsSetup, build_tls_config}
use familycards.Wallet.Serves.{build_tls_config-Serves}
use familycards.Wallet.Main.{
  Machine, Host, Process, opened, after_migrations, configured, needs_cache_dir, make_dir,
  make_cache_dir, open_db, migrate, configure_tls, start, boot,
}
use familycards.Wallet.Main.Boots.{up, server_of}

module _ {Ip Schema : Type 0} (host : Host Ip Schema) (lib : Library) where
  open host use {driver, names, entries, exec}

  make_dir-goes :
      (path : String) (mode : ℕ) (failure : String) (m : Machine Ip Schema)
      → host.makes_dir path mode ≡ true
      → make_dir host lib path mode failure m
        ≡ (done tt, record m { dirs = insert (path, mode) m.dirs })
  unfolding make_dir
  make_dir-goes path mode failure m made = rw made refl

  make_cache_dir-goes :
      (cfg : Config) (m : Machine Ip Schema)
      → ((path : String) (mode : ℕ) → host.makes_dir path mode ≡ true)
      → (m' : Machine Ip Schema) × (make_cache_dir host lib cfg m ≡ (done tt, m'))
  make_cache_dir-goes cfg m dirs = elim (Bool-cases (needs_cache_dir cfg.tls_mode)) [
    | inl needed ↦ (
      record m { dirs = insert (cfg.tls_cache_dir, 448) m.dirs },
      rw needed (make_dir-goes cfg.tls_cache_dir 448 _ m (dirs cfg.tls_cache_dir 448)),
    )
    | inr unneeded ↦ (m, rw unneeded refl)
  ]

  configured-goes :
      (cfg : Config) (r : Result (TlsSetup Ip) × Option (Leaf Ip)) (m : Machine Ip Schema)
      → ((setup : TlsSetup Ip) × (r.0 ≡ ok setup))
      → (tls : Option (TlsSetup Ip)) × (m' : Machine Ip Schema) × (configured r m ≡ (done tls, m'))
  configured-goes cfg (ok setup, pair) m h = (some setup, _, refl)
  configured-goes cfg (err e, pair) m (setup, h) = cc

  setup_is_built :
      (lookup_env : String → Option String) (cfg : Config) (pair : Option (Leaf Ip))
      → load lib lookup_env ≡ done cfg
      → host.issuing ≡ works
      → is_off cfg.tls_mode ≡ false
      → (setup : TlsSetup Ip) × ((build_tls_config host.ips lib.load_key_pair host.issuing
            host.serial host.now cfg pair).0
          ≡ ok setup)
  setup_is_built lookup_env cfg pair loaded issues local =
      subst
        (λ issuing.
          (setup : TlsSetup Ip) × ((build_tls_config host.ips lib.load_key_pair issuing host.serial
              host.now cfg pair).0
            ≡ ok setup))
        (sym issues)
        (build_tls_config-Serves host.ips host.serial host.now lib cfg pair lookup_env loaded local)

  configure_tls-goes :
      (lookup_env : String → Option String) (cfg : Config) (m : Machine Ip Schema)
      → load lib lookup_env ≡ done cfg
      → ((path : String) (mode : ℕ) → host.makes_dir path mode ≡ true)
      → host.issuing ≡ works
      → (tls : Option (TlsSetup Ip)) × (m' : Machine Ip Schema) × (configure_tls host lib cfg m
          ≡ (done tls, m'))
  unfolding configure_tls
  configure_tls-goes lookup_env cfg m loaded dirs issues = elim (Bool-cases (is_off cfg.tls_mode)) [
    | inl plain ↦ (none, m, rw plain refl)
    | inr local ↦
        let (mid, made) = make_cache_dir-goes cfg m dirs in
        let (tls, m', k) =
          configured-goes cfg
            (build_tls_config host.ips lib.load_key_pair host.issuing host.serial host.now cfg
              mid.pair)
            mid (setup_is_built lookup_env cfg mid.pair loaded issues local) in
        (tls, m', rw (local, made) k)
  ]

  opened-goes :
      (r : Result Pools × List Pool) (m : Machine Ip Schema) (pools : Pools)
      → r.0 ≡ ok pools
      → opened r m ≡ (done pools, record m { live = r.1 })
  opened-goes (ok p, live) m pools h = cc
  opened-goes (err e, live) m pools h = cc

  after_migrations-goes :
      (r : Tracked Schema × Result (Unit {0})) (m : Machine Ip Schema)
      → r.1 ≡ ok tt
      → after_migrations r m ≡ (done tt, record m { tracked = r.0 })
  after_migrations-goes (t, ok u) m h = refl
  after_migrations-goes (t, err e) m h = cc

  module _ (m : Machine Ip Schema) (cfg : Config) (pools : Pools) where
    -- With a loaded configuration, and where the directories can be made, the pools open, the
    -- migrations run without an error and a certificate can be issued, the process gets to
    -- listening.
    pub start_listens :
        (lookup_env : String → Option String)
        → load lib lookup_env ≡ done cfg
        → ((path : String) (mode : ℕ) → host.makes_dir path mode ≡ true)
        → (open_pools driver cfg.db_path).0 ≡ ok pools
        → (apply exec names entries m.tracked).1 ≡ ok tt
        → host.issuing ≡ works
        → (server : Process Ip) × (m' : Machine Ip Schema) × (boot host lib (load lib lookup_env) m
            ≡ (done server, m'))
    unfolding start open_db migrate
    start_listens lookup_env loaded dirs opens applies issues =
        let m1 = record m { dirs = insert (host.dir cfg.db_path, 493) m.dirs } in
        let m2 = record m1 { dirs = insert (cfg.blob_dir, 493) m1.dirs } in
        let m3 = record m2 { live = (open_pools driver cfg.db_path).1 } in
        let m4 = record m3 { tracked = (apply exec names entries m.tracked).0 } in
        let (tls, m5, secured) = configure_tls-goes lookup_env cfg m4 loaded dirs issues in
        (
          server_of host lib cfg pools tls,
          up host lib (server_of host lib cfg pools tls) m5,
          rw
              (
                loaded,
                make_dir-goes (host.dir cfg.db_path) 493 "failed to create database directory" m
                    (dirs _ 493),
                make_dir-goes cfg.blob_dir 493 "failed to create blob directory" m1 (dirs _ 493),
                opened-goes (open_pools driver cfg.db_path) m2 pools opens,
                after_migrations-goes (apply exec names entries m.tracked) m3 applies,
                secured,
              )
              refl,
        )
