-- ===== src/Wallet/Serves.antt =====
-- The TLS setup of a server whose configuration was loaded: server/cmd/wallet/tls.go.
use familycards.Prelude.{ℕ, String, ◌≡◌, refl, false, Option, none, some, List, [], ◌∷◌}
use familycards.Http.{Result, ok}
use familycards.SelfSigned.{Ips, Leaf, works, try_load, issue_and_persist, loaded_or, load_or_issue}
use familycards.Config.{
  Library, done, TlsMode, off, acme, file, selfsigned, Config, is_off, is_empty, load,
}
use familycards.Config.Valid.{ModeReady, load-IsValid}
use familycards.Wallet.{TlsSetup, own_or_error, build_tls_config}

module _ {Ip : Type 0} (ips : Ips Ip) (serial now : ℕ) where
  abbrev pub Serves : Result (TlsSetup Ip) × Option (Leaf Ip) → Type 0
  Serves out = (setup : TlsSetup Ip) × (out.0 ≡ ok setup)

  loaded_or-Serves :
      (stored found : Option (Leaf Ip)) (names : List String) (not_before not_after : ℕ)
      → Serves (
          own_or_error (
            loaded_or ips stored found
              (issue_and_persist ips works serial names not_before not_after)))
  unfolding issue_and_persist
  loaded_or-Serves stored none names not_before not_after = (_, refl)
  loaded_or-Serves stored (some leaf) names not_before not_after = (_, refl)

  load_or_issue-Serves :
      (names : List String) (stored : Option (Leaf Ip))
      → is_empty names ≡ false
      → Serves (own_or_error (load_or_issue ips works serial now names stored))
  unfolding load_or_issue
  load_or_issue-Serves [] stored h = cc
  load_or_issue-Serves (name ∷ names) stored h =
      loaded_or-Serves stored (try_load ips now (name ∷ names) stored) (name ∷ names) _ _

  module _ (lib : Library) (cfg : Config) (stored : Option (Leaf Ip)) where
    open lib use {load_key_pair}

    ready-Serves :
        (mode : TlsMode)
        → cfg.tls_mode ≡ mode
        → is_off mode ≡ false
        → ModeReady lib cfg mode
        → Serves (build_tls_config ips load_key_pair works serial now cfg stored)
    unfolding build_tls_config load_or_issue
    ready-Serves off e on r = cc
    ready-Serves acme e on r = rw e (_, refl)
    ready-Serves file e on r = rw (e, r) (_, refl)
    ready-Serves selfsigned e on r = rw e (load_or_issue-Serves cfg.tls_domains stored r)

    -- With a configuration that is loaded and a mode in which the server terminates TLS, the TLS setup
    -- of the listener is built without an error, where a certificate can be issued.
    pub build_tls_config-Serves :
        (lookup_env : String → Option String)
        → load lib lookup_env ≡ done cfg
        → is_off cfg.tls_mode ≡ false
        → Serves (build_tls_config ips load_key_pair works serial now cfg stored)
    build_tls_config-Serves lookup_env loaded local =
        ready-Serves cfg.tls_mode refl local (load-IsValid lib lookup_env cfg loaded).mode_ready
