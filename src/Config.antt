-- ===== src/Config.antt =====
-- The configuration: server/internal/config/config.go. The environment is a function, and what the code
-- calls of Go's library is the parameter `Library`; of an error there is its text.
pub mod Valid
use Prim.Native.String.{◌++◌ as ◌<>◌}
use familycards.Prelude.{
  ℕ, ℤ, pos, ltb, ltb_ℤ, String, ◌==◌, ◌≡◌, Bool, true, false, not, ◌&&◌, ◌||◌, Option, none, some,
  List, [], ◌∷◌, ◌++◌, length, if◌then◌else◌,
}
use familycards.Http.{Bytes}

-- strconv, strings, net, path/filepath and crypto/tls
pub record Library : Type 0 where
  pub bytes_of : String → Bytes
  pub parse_bool : String → Option Bool
  pub atoi : String → Option ℤ
  pub trim_space : String → String
  -- strings.Split(s, ",")
  pub split_commas : String → List String
  -- the host and the port
  pub split_host_port : String → Option (String × String)
  -- filepath.Join(filepath.Dir(path), name)
  pub beside : String → String → String
  -- whether tls.LoadX509KeyPair succeeds, and else the text of its error
  pub load_key_pair : String → String → Option String

-- A result, or the text of the error.
pub data Loading (A : Type 0) : Type 0 where
  done : A → Loading A
  refused : String → Loading A

infixl 5 ◌>>=◌
abbrev pub ◌>>=◌ : {A B : Type 0} → Loading A → (A → Loading B) → Loading B
done a >>= f = f a
refused e >>= f = refused e

pub data TlsMode : Type 0 where
  off : TlsMode
  acme : TlsMode
  file : TlsMode
  selfsigned : TlsMode

pub record Config : Type 0 where
  pub addr : String
  pub db_path : String
  pub blob_dir : String
  pub jwt_secret : Bytes
  pub bootstrap_token : String
  pub admin_token : String
  pub log_level : String
  pub allow_insecure : Bool
  pub tombstone_days : ℤ
  pub tls_mode : TlsMode
  pub tls_domains : List String
  pub tls_cert_file : String
  pub tls_key_file : String
  pub tls_cache_dir : String
  pub tls_acme_email : String
  pub http_addr : String

abbrev pub min_jwt_secret_bytes : ℕ
min_jwt_secret_bytes = 32

abbrev pub mode_text : TlsMode → String
mode_text off = "off"
mode_text acme = "acme"
mode_text file = "file"
mode_text selfsigned = "selfsigned"

unfoldable pub mode_of : String → Loading TlsMode
mode_of s =
    if s == "off"
    then done off
    else if s == "acme"
    then done acme
    else if s == "file"
    then done file
    else if s == "selfsigned"
    then done selfsigned
    else refused "config: WALLET_TLS_MODE has an unknown value"

abbrev pub is_off : TlsMode → Bool
is_off off = true
is_off _ = false

abbrev pub is_empty : List String → Bool
is_empty [] = true
is_empty (x ∷ xs) = false

module _ (lib : Library) where
  open lib use {
    bytes_of, parse_bool, atoi, trim_space, split_commas, split_host_port, beside, load_key_pair,
  }

  abbrev pub trimmed : List String → List String
  trimmed [] = []
  trimmed (part ∷ parts) =
      let rest = trimmed parts in if trim_space part == "" then rest else trim_space part ∷ rest

  unfoldable pub parse_domain_list : String → List String
  parse_domain_list raw = if raw == "" then [] else trimmed (split_commas raw)

  abbrev pub host_or : String → Option (String × String) → String
  host_or addr none = addr
  host_or addr (some (host, port)) = host

  unfoldable pub default_self_signed_names : String → List String
  default_self_signed_names addr =
      let host = host_or addr (split_host_port addr) in
      if host == "" || host == "0.0.0.0" || host == "::" || host == "[::]"
      then "localhost" ∷ "127.0.0.1" ∷ []
      else "localhost" ∷ "127.0.0.1" ∷ host ∷ []

  abbrev pub check_pair : Config → Option String → Loading Config
  check_pair cfg none = done cfg
  check_pair cfg (some e) = refused (
      "config: WALLET_TLS_CERT_FILE/WALLET_TLS_KEY_FILE do not form a loadable certificate pair: "
      <> e)

  -- The last switch of `loadTLS`.
  unfoldable pub check_mode : TlsMode → Config → Loading Config
  unfolding default_self_signed_names
  check_mode off cfg = done cfg
  check_mode acme cfg =
      if is_empty cfg.tls_domains
      then refused "config: WALLET_TLS_DOMAINS is required when WALLET_TLS_MODE=acme"
      else done cfg
  check_mode file cfg =
      if cfg.tls_cert_file == ""
      then refused "config: WALLET_TLS_CERT_FILE is required when WALLET_TLS_MODE=file"
      else if cfg.tls_key_file == ""
      then refused "config: WALLET_TLS_KEY_FILE is required when WALLET_TLS_MODE=file"
      else check_pair cfg (load_key_pair cfg.tls_cert_file cfg.tls_key_file)
  check_mode selfsigned cfg = done (
      if is_empty cfg.tls_domains
      then record cfg { tls_domains = default_self_signed_names cfg.addr }
      else cfg)

  -- os.LookupEnv
  module _ (lookup_env : String → Option String) where
    abbrev pub or_empty : Option String → String
    or_empty none = ""
    or_empty (some v) = v

    -- os.Getenv
    abbrev pub os_getenv : String → String
    os_getenv key = or_empty (lookup_env key)

    abbrev pub value_or : String → Option String → String
    value_or fallback none = fallback
    value_or fallback (some v) = if trim_space v == "" then fallback else v

    abbrev pub get_env : String → String → String
    get_env key fallback = value_or fallback (lookup_env key)

    abbrev pub with_mode : Config → TlsMode → Config
    with_mode cfg mode = record cfg {
      tls_mode = mode;
      tls_domains = parse_domain_list (os_getenv "WALLET_TLS_DOMAINS");
      tls_cert_file = os_getenv "WALLET_TLS_CERT_FILE";
      tls_key_file = os_getenv "WALLET_TLS_KEY_FILE";
      tls_cache_dir = get_env "WALLET_TLS_CACHE_DIR" (beside cfg.db_path "certs");
      tls_acme_email = os_getenv "WALLET_TLS_ACME_EMAIL";
      http_addr = os_getenv "WALLET_HTTP_ADDR";
    }

    unfoldable pub load_tls : Config → Loading Config
    unfolding mode_of parse_domain_list check_mode
    load_tls cfg = mode_of (get_env "WALLET_TLS_MODE" (mode_text off)) >>= λ mode.
        if not (is_off mode) && cfg.allow_insecure
        then refused (
            "config: WALLET_TLS_MODE="
            <> mode_text mode
            <> " cannot be combined with WALLET_ALLOW_INSECURE=true")
        else check_mode mode (with_mode cfg mode)

    abbrev pub insecure_of : String → Option Bool → Loading Bool
    insecure_of raw v = if raw == "" then done false else (elim v [
      | none ↦ refused "config: WALLET_ALLOW_INSECURE must be a boolean"
      | some b ↦ done b
    ])

    abbrev pub days_of : String → Option ℤ → Loading ℤ
    days_of raw v = if raw == "" then done (pos 90) else (elim v [
      | none ↦ refused "config: WALLET_TOMBSTONE_DAYS must be a positive integer"
      | some n ↦
          if ltb_ℤ n (pos 1)
          then refused "config: WALLET_TOMBSTONE_DAYS must be a positive integer"
          else done n
    ])

    abbrev pub secret_of : String → Loading Bytes
    secret_of secret =
        if secret == ""
        then refused "config: WALLET_JWT_SECRET is required"
        else if ltb (length (bytes_of secret)) min_jwt_secret_bytes
        then refused "config: WALLET_JWT_SECRET must be at least 32 bytes"
        else done (bytes_of secret)

    -- `Load` before its call of `loadTLS`.
    unfoldable pub load_base : Loading Config
    load_base = secret_of (os_getenv "WALLET_JWT_SECRET") >>= λ secret.
        insecure_of (os_getenv "WALLET_ALLOW_INSECURE")
          (parse_bool (os_getenv "WALLET_ALLOW_INSECURE"))
        >>= λ insecure.
            days_of (os_getenv "WALLET_TOMBSTONE_DAYS") (atoi (os_getenv "WALLET_TOMBSTONE_DAYS"))
            >>= λ days. done (record {
              addr = get_env "WALLET_ADDR" ":8443";
              db_path = get_env "WALLET_DB_PATH" "data/wallet.db";
              blob_dir = get_env "WALLET_BLOB_DIR" "data/blobs";
              jwt_secret = secret;
              bootstrap_token = os_getenv "WALLET_BOOTSTRAP_TOKEN";
              admin_token = os_getenv "WALLET_ADMIN_TOKEN";
              log_level = get_env "WALLET_LOG_LEVEL" "info";
              allow_insecure = insecure;
              tombstone_days = days;
              tls_mode = off;
              tls_domains = [];
              tls_cert_file = "";
              tls_key_file = "";
              tls_cache_dir = "";
              tls_acme_email = "";
              http_addr = "";
            })

    unfoldable pub load : Loading Config
    unfolding load_base load_tls
    load = load_base >>= load_tls
