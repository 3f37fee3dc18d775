-- ===== src/Wallet/Main.antt =====
-- The start and the end of the process: `main` of server/cmd/wallet/main.go. What the operating system
-- answers is the parameter `Host`; a step that fails prints its message and exits with status 1, so
-- the calls that it deferred do not run. The timers that `main` starts are steps of System, and the
-- log lines are left out.
pub mod Boots
pub mod Ready
pub mod Listens
use familycards.Prelude.{
  ℕ, zero, suc, String, ◌==◌, Bool, true, false, not, ◌||◌, Option, none, some, is_some, List, [],
  ◌∷◌, if◌then◌else◌,
}
use familycards.Prelude.Table.{insert}
use familycards.Http.{Result, ok, err}
use familycards.Store.Pools.{Pool, Pools, Driver, open_pools, close}
use familycards.SelfSigned.{Ips, Leaf, Issuing}
use familycards.Migrations.{Names, DirEntry, Tracked, apply}
use familycards.Config.{
  Library, Loading, done, refused, TlsMode, off, acme, file, selfsigned, Config,
}
use familycards.Router.{RouterConfig}
use familycards.Wallet.{
  TlsSetup, build_tls_config, https_port, router_config, tls_terminated_locally,
}

pub data Listener (Ip : Type 0) : Type 0 where
  api_over_tls : String → Option (TlsSetup Ip) → Listener Ip
  api_plain : String → Listener Ip
  -- the address, the port of the redirect, and whether ACME challenges are answered
  redirects : String → String → Bool → Listener Ip

-- What the process changes: the directories, the pools that are open, the schema, the pair in the
-- cache directory, which of the two listeners takes connections, and the listeners that were shut
-- down while requests were still running.
pub record Machine (Ip Schema : Type 0) : Type 0 where
  pub dirs : List (String × ℕ)
  pub live : List Pool
  pub tracked : Tracked Schema
  pub pair : Option (Leaf Ip)
  pub api_up : Bool
  pub redirect_up : Bool
  pub undrained : List (Listener Ip)

-- os.MkdirAll, filepath.Dir, database/sql, the embedded scripts, and the certificates.
pub record Host (Ip Schema : Type 0) : Type 0 where
  pub makes_dir : String → ℕ → Bool
  pub dir : String → String
  -- net.JoinHostPort
  pub join_host_port : String → String → String
  pub driver : Driver
  pub names : Names
  pub entries : List DirEntry
  pub exec : String → Schema → Option Schema
  pub ips : Ips Ip
  pub issuing : Issuing Ip
  pub serial : ℕ
  pub now : ℕ
  -- whether the requests of a listener end before the deadline of its Shutdown
  pub drains : Listener Ip → Bool

-- What `main` has built when it waits for a signal.
pub record Process (Ip : Type 0) : Type 0 where
  pub pools : Pools
  pub routing : RouterConfig
  pub api : Listener Ip
  pub redirect : Option (Listener Ip)

-- What ends the wait: a signal, or the end of a listener, with its error if it has one.
pub data Stop : Type 0 where
  interrupted : Stop
  listener_ended : Option String → Stop

abbrev pub exit_code : Stop → ℕ
exit_code interrupted = 0
exit_code (listener_ended none) = 0
exit_code (listener_ended (some e)) = 1

-- How the process ended: its status, the message before an exit at the start, and the machine after
-- it.
pub record Ended (Ip Schema : Type 0) : Type 0 where
  pub status : ℕ
  pub message : Option String
  pub machine : Machine Ip Schema

abbrev pub needs_cache_dir : TlsMode → Bool
needs_cache_dir off = false
needs_cache_dir acme = true
needs_cache_dir file = false
needs_cache_dir selfsigned = true

abbrev pub has_acme_manager : {Ip : Type 0} → Option (TlsSetup Ip) → Bool
has_acme_manager none = false
has_acme_manager (some (TlsSetup.from_files cert key)) = false
has_acme_manager (some (TlsSetup.own_certificate leaf)) = false
has_acme_manager (some (TlsSetup.acme_manager cache names email)) = true

abbrev pub api_listener : {Ip : Type 0} → Config → Option (TlsSetup Ip) → Listener Ip
api_listener cfg tls =
    if tls_terminated_locally cfg then api_over_tls cfg.addr tls else api_plain cfg.addr

-- A step of the start: its value, or the message before the exit, and the state after it.
abbrev pub Boot : Type 0 → Type 0 → Type 0
Boot S A = S → Loading A × S

module _ {S : Type 0} where
  abbrev pub continue : {A B : Type 0} → Loading A × S → (A → Boot S B) → Loading B × S
  continue (done a, m) k = k a m
  continue (refused e, m) k = (refused e, m)

  infixl 5 ◌>>=◌ ◌>>◌
  abbrev pub ◌>>=◌ : {A B : Type 0} → Boot S A → (A → Boot S B) → Boot S B
  ◌>>=◌ b k m = continue (b m) k

  abbrev pub ◌>>◌ : {B : Type 0} → Boot S (Unit {0}) → Boot S B → Boot S B
  b >> k = b >>= λ _. k

  abbrev pub pure : {A : Type 0} → A → Boot S A
  pure a m = (done a, m)

module _ {Ip Schema : Type 0} where
  abbrev pub opened : Result Pools × List Pool → Boot (Machine Ip Schema) Pools
  opened (ok pools, live) m = (done pools, record m { live = live })
  opened (err e, live) m = (refused "failed to open database", record m { live = live })

  abbrev pub after_migrations :
      Tracked Schema × Result (Unit {0}) → Boot (Machine Ip Schema) (Unit {0})
  after_migrations (t, ok u) m = (done tt, record m { tracked = t })
  after_migrations (t, err e) m = (refused "failed to apply migrations", record m { tracked = t })

  abbrev pub configured :
      Result (TlsSetup Ip) × Option (Leaf Ip) → Boot (Machine Ip Schema) (Option (TlsSetup Ip))
  configured (ok setup, pair) m = (done (some setup), record m { pair = pair })
  configured (err e, pair) m = (refused "failed to configure TLS", record m { pair = pair })

module _ {Ip Schema : Type 0} (host : Host Ip Schema) (lib : Library) where
  open host use {
    makes_dir, dir, join_host_port, driver, names, entries, exec, ips, issuing, serial, now, drains,
  }
  open lib use {split_host_port, load_key_pair}

  unfoldable pub redirect_listener : Config → Option (TlsSetup Ip) → Option (Listener Ip)
  unfolding https_port
  redirect_listener cfg tls =
      if cfg.http_addr == ""
      then none
      else some (
          redirects cfg.http_addr (https_port split_host_port join_host_port cfg.addr)
            (has_acme_manager tls))

  unfoldable pub make_dir : String → ℕ → String → Boot (Machine Ip Schema) (Unit {0})
  make_dir path mode failure m =
      if makes_dir path mode
      then (done tt, record m { dirs = insert (path, mode) m.dirs })
      else (refused failure, m)

  unfoldable pub open_db : Config → Boot (Machine Ip Schema) Pools
  unfolding open_pools
  open_db cfg = opened (open_pools driver cfg.db_path)

  unfoldable pub migrate : Boot (Machine Ip Schema) (Unit {0})
  unfolding apply
  migrate m = after_migrations (apply exec names entries m.tracked) m

  -- The directory of the certificates, 0o700.
  abbrev pub make_cache_dir : Config → Boot (Machine Ip Schema) (Unit {0})
  make_cache_dir cfg =
      if needs_cache_dir cfg.tls_mode
      then make_dir cfg.tls_cache_dir 448 "failed to create TLS cache directory"
      else pure tt

  unfoldable pub configure_tls : Config → Boot (Machine Ip Schema) (Option (TlsSetup Ip))
  unfolding make_dir build_tls_config
  configure_tls cfg =
      if tls_terminated_locally cfg
      then (make_cache_dir cfg >> λ m.
          configured (build_tls_config ips load_key_pair issuing serial now cfg m.pair) m)
      else pure none

  -- The two goroutines that listen.
  abbrev pub listen : Process Ip → Boot (Machine Ip Schema) (Process Ip)
  listen server m = (done server, record m { api_up = true; redirect_up = is_some server.redirect })

  -- `main` after its call of `config.Load`, up to the wait.
  unfoldable pub start : Config → Boot (Machine Ip Schema) (Process Ip)
  unfolding make_dir open_db migrate configure_tls router_config redirect_listener
  start cfg = do
    make_dir (dir cfg.db_path) 493 "failed to create database directory"
    make_dir cfg.blob_dir 493 "failed to create blob directory"
    pools ← open_db cfg
    migrate
    tls ← configure_tls cfg
    listen (record {
      pools = pools;
      routing = router_config cfg;
      api = api_listener cfg tls;
      redirect = redirect_listener cfg tls;
    })

  abbrev pub boot : Loading Config → Boot (Machine Ip Schema) (Process Ip)
  boot (refused e) m = (refused e, m)
  boot (done cfg) m = start cfg m

  -- The error of a Shutdown, which is logged: the listener is closed before the wait for its requests.
  abbrev pub note_undrained : Listener Ip → Machine Ip Schema → Machine Ip Schema
  note_undrained l m = if drains l then m else record m { undrained = insert l m.undrained }

  abbrev pub shut_api : Listener Ip → Machine Ip Schema → Machine Ip Schema
  shut_api l m = note_undrained l (record m { api_up = false })

  abbrev pub shut_redirect : Option (Listener Ip) → Machine Ip Schema → Machine Ip Schema
  shut_redirect none m = m
  shut_redirect (some l) m = note_undrained l (record m { redirect_up = false })

  unfoldable pub shut_down : Process Ip → Machine Ip Schema → Machine Ip Schema
  shut_down server m = shut_redirect server.redirect (shut_api server.api m)

  -- The deferred close runs where `main` returns, and not where it calls os.Exit.
  abbrev pub deferred_close : ℕ → Process Ip → Machine Ip Schema → Machine Ip Schema
  deferred_close zero server m = record m { live = (close driver server.pools m.live).1 }
  deferred_close (suc n) server m = m

  unfoldable pub finish : Stop → Loading (Process Ip) × Machine Ip Schema → Ended Ip Schema
  unfolding close shut_down
  finish stop (refused e, m) = record { status = 1; message = some e; machine = m }
  finish stop (done server, m) = record {
    status = exit_code stop;
    message = none;
    machine = deferred_close (exit_code stop) server (shut_down server m);
  }

  unfoldable pub main : Loading Config → Stop → Machine Ip Schema → Ended Ip Schema
  unfolding start finish
  main loaded stop m = finish stop (boot loaded m)
