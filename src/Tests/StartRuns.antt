-- ===== src/Tests/StartRuns.antt =====
-- What happens at a start: two migrations and a certificate; and a path and a password.
use Prim.Native.String.{len, ◌++◌ as ◌<>◌}
use familycards.Prelude.{
  ℤ, pos, String, ◌==◌, ◌≡◌, refl, true, false, Option, none, some, List, [], ◌∷◌, All, arith,
  eq_refl, ap, if◌then◌else◌,
}
use familycards.Prelude.Table.{exists}
use familycards.Http.{Result, ok}
use familycards.Config.{Config, done, load}
use familycards.Store.Pools.{write_pool, read_pool, pragmas, open_pools, ping_pools}
use familycards.Wallet.Main.{
  Host, Machine, Process, Stop, interrupted, listener_ended, make_dir, open_db, start, boot, main,
}
use familycards.Wallet.Main.Ready.{
  IsReady, boot-IsReady, AllDown, has_failed, main_closes, main_shuts_down,
}
use familycards.Wallet.Main.Listens.{start_listens}
use familycards.Migrations.{load as load_migrations}
use familycards.Migrations.{
  Names, DirEntry, Migration, Tracked, is_applied, sort_migrations, parse_filename, read_all,
  apply_one, apply_all, apply,
}
use familycards.Migrations.Rerun.{apply_completes}
use familycards.SelfSigned.{
  Ips, Leaf, works, ips_of, dns_of, is_current, covers_all_names, try_load, issue_and_persist,
  load_or_issue,
}
use familycards.SelfSigned.Stable.{load_or_issue_stable}
use familycards.Admin.{escape_sqlite_string}
use familycards.Admin.Literal.{read_literal, read_literal-escape}
use familycards.Crypto.{bytes_beq, hash_password, verify_password}
use familycards.Crypto.Verify.{verify_password-hash}
use familycards.Tests.Encoding.{zeros}
use familycards.Tests.Hashing.{plain_argon}
use familycards.Tests.WiringRuns.{lib, env_with, cfg, loads}

abbrev names : Names
names = record {
  has_suffix = λ s suffix. true;
  trim_suffix = λ s suffix. s;
  split_underscore = λ s. s ∷ "init" ∷ [];
  atoi = λ s. some (pos (len s));
}

abbrev entries : List DirEntry
entries =
    (record { name = "bb"; is_dir = false; content = "add" })
    ∷ (record { name = "a"; is_dir = false; content = "create" })
    ∷ []

abbrev migrations : List Migration
migrations =
    (record { version = pos 1; name = "init"; filename = "a"; sql = "create" })
    ∷ (record { version = pos 2; name = "init"; filename = "bb"; sql = "add" })
    ∷ []

-- The schema is the list of the scripts that were executed.
abbrev exec : String → List String → Option (List String)
exec script done_before = some (script ∷ done_before)

abbrev fresh : Tracked (List String)
fresh = record { schema = []; versions = [] }

abbrev migrated : Tracked (List String)
migrated = record { schema = "add" ∷ "create" ∷ []; versions = pos 1 ∷ pos 2 ∷ [] }

loads_migrations : load_migrations names entries ≡ ok migrations
unfolding load_migrations read_all parse_filename sort_migrations
loads_migrations = refl

migrates : apply exec names entries fresh ≡ (migrated, ok tt)
unfolding apply load_migrations read_all parse_filename sort_migrations apply_all apply_one exists
migrates = refl

apply_completes_example :
    All (λ (m : Migration). is_applied (pos 1 ∷ pos 2 ∷ []) m.version ≡ true) migrations
    × ((v : ℤ) → is_applied [] v ≡ true → is_applied (pos 1 ∷ pos 2 ∷ []) v ≡ true)
    × (apply exec names entries migrated ≡ (migrated, ok tt))
apply_completes_example =
    apply_completes exec names entries migrations fresh migrated loads_migrations migrates

abbrev ips : Ips String
ips = record {
  parse_ip = λ s. if s == "127.0.0.1" then some s else none;
  equal = λ a b. a == b;
  equal_refl = eq_refl;
}

abbrev names_to_cover : List String
names_to_cover = "localhost" ∷ "127.0.0.1" ∷ []

abbrev certificate : Leaf String
certificate = record {
  serial = 7;
  dns_names = "localhost" ∷ [];
  ip_addresses = "127.0.0.1" ∷ [];
  not_before = 700;
  not_after = 315361000;
}

issues : load_or_issue ips works 7 1000 names_to_cover none ≡ (ok certificate, some certificate)
unfolding load_or_issue try_load issue_and_persist ips_of dns_of
issues = refl

load_or_issue_stable_example :
    (is_current ips 1000 certificate ≡ true)
    × (covers_all_names ips certificate names_to_cover ≡ true)
    × (load_or_issue ips works 8 2000 names_to_cover (some certificate)
        ≡ (ok certificate, some certificate))
load_or_issue_stable_example =
    load_or_issue_stable ips works works 7 8 1000 2000 names_to_cover none (some certificate)
      certificate issues (omega arith) (omega arith)

abbrev host : Host String (List String)
host = record {
  makes_dir = λ path mode. true;
  dir = λ path. "data";
  join_host_port = λ name port. name;
  driver = record { opens = λ dsn. true; pings = λ p. true; closes = λ p. true };
  names = names;
  entries = entries;
  exec = exec;
  ips = ips;
  issuing = works;
  serial = 7;
  now = 1000;
  drains = λ l. false;
}

abbrev machine : Machine String (List String)
machine = record {
  dirs = [];
  live = [];
  tracked = fresh;
  pair = none;
  api_up = false;
  redirect_up = false;
  undrained = [];
}

opens :
    (open_pools host.driver "data/wallet.db").0
    ≡ ok (record {
      write = write_pool ("file:data/wallet.db" <> (pragmas <> "&_txlock=immediate")) 1;
      read = read_pool ("file:data/wallet.db" <> pragmas) 4;
    })
unfolding open_pools ping_pools
opens = refl

listening :
    (server : Process String) × (m' : Machine String (List String)) × (boot host lib
        (load lib (env_with "selfsigned"))
        machine
      ≡ (done server, m'))
listening =
    start_listens host lib machine cfg _ (env_with "selfsigned") loads (λ path mode. refl) opens
      (ap (λ (r : Tracked (List String) × Result (Unit {0})). r.1) migrates) refl

start_listens_example :
    (server : Process String) × (m' : Machine String (List String)) × (boot host lib
        (load lib (env_with "selfsigned"))
        machine
      ≡ (done server, m'))
start_listens_example =
    start_listens host lib machine cfg _ (env_with "selfsigned") loads (λ path mode. refl) opens
      (ap (λ (r : Tracked (List String) × Result (Unit {0})). r.1) migrates) refl

boot-IsReady_example :
    (c : Config) × (load lib (env_with "selfsigned") ≡ done c)
    × IsReady host lib c listening.0 listening.1
boot-IsReady_example =
    boot-IsReady host lib machine listening.1 listening.0 (env_with "selfsigned") listening.2

ends : (main host lib (load lib (env_with "selfsigned")) interrupted machine).status ≡ 0
unfolding main start make_dir open_db load exists
ends = refl

main_closes_example :
    (main host lib (load lib (env_with "selfsigned")) interrupted machine).machine.live ≡ []
main_closes_example =
    main_closes host lib (load lib (env_with "selfsigned")) interrupted machine ends

abbrev port_taken : Stop
port_taken = listener_ended (some "listen on :80: address in use")

main_shuts_down_example :
    AllDown host lib (main host lib (load lib (env_with "selfsigned")) port_taken machine).machine
    × ((main host lib (load lib (env_with "selfsigned")) port_taken machine).status
        ≡ (if has_failed port_taken then 1 else 0))
main_shuts_down_example =
    main_shuts_down host lib (load lib (env_with "selfsigned")) port_taken machine listening.1
      listening.0 listening.2

abbrev quoted : String
quoted = "it's"

read_literal-escape_example :
    read_literal false (escape_sqlite_string quoted <> "'") ≡ some (quoted, "")
read_literal-escape_example = read_literal-escape quoted

verify_password-hash_example :
    (verify_password plain_argon "other" (hash_password plain_argon (1 ∷ []) "password")
      ≡ some (bytes_beq (zeros 32) (zeros 32)))
    × (verify_password plain_argon "password" (hash_password plain_argon (1 ∷ []) "password")
        ≡ some true)
verify_password-hash_example = verify_password-hash plain_argon "password" "other" (1 ∷ [])
