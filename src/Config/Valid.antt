-- ===== src/Config/Valid.antt =====
-- What holds of a configuration that `Load` of server/internal/config/config.go returns.
use familycards.Prelude.{
  ◌≤◌, ℤ, pos, ltb, ltb_ℤ, String, ◌==◌, ◌≡◌, refl, sym, subst, inl, inr, Bool, true, false, not,
  ◌&&◌, Option, none, some, length, if◌then◌else◌, arith, Bool-cases,
}
use familycards.Http.{Bytes}
use familycards.Config.{
  Library, Loading, done, refused, ◌>>=◌, TlsMode, off, acme, file, selfsigned, Config,
  min_jwt_secret_bytes, mode_text, mode_of, is_off, is_empty, default_self_signed_names, check_pair,
  check_mode, with_mode, load_tls, insecure_of, days_of, secret_of, load_base, load, os_getenv,
  get_env,
}

bind-done :
    {A B : Type 0} (r : Loading A) (k : A → Loading B) (b : B)
    → (r >>= k) ≡ done b
    → (a : A) × (r ≡ done a) × (k a ≡ done b)
bind-done (done a) k b h = (a, refl, h)
bind-done (refused e) k b h = cc

done-inj : {A : Type 0} (a b : A) → done a ≡ done b → a ≡ b
done-inj a b h = cc

unless-done :
    {A : Type 0} (t : Bool) (e : String) (r : Loading A) (a : A)
    → (if t then refused e else r) ≡ done a
    → (t ≡ false) × (r ≡ done a)
unless-done true e r a h = cc
unless-done false e r a h = (refl, h)

module _ (lib : Library) where
  open lib use {bytes_of, parse_bool, atoi, load_key_pair}

  -- What the mode needs.
  abbrev pub ModeReady : Config → TlsMode → Type 0
  ModeReady cfg off = Unit {0}
  ModeReady cfg acme = is_empty cfg.tls_domains ≡ false
  ModeReady cfg file = load_key_pair cfg.tls_cert_file cfg.tls_key_file ≡ none
  ModeReady cfg selfsigned = is_empty cfg.tls_domains ≡ false

  pub record IsValid (cfg : Config) : Type 0 where
    pub long_secret : 32 ≤ length cfg.jwt_secret
    pub some_days : ltb_ℤ cfg.tombstone_days (pos 1) ≡ false
    pub not_both : (not (is_off cfg.tls_mode) && cfg.allow_insecure) ≡ false
    pub mode_ready : ModeReady cfg cfg.tls_mode

  check_pair-loads :
      (cfg out : Config) (o : Option String)
      → check_pair lib cfg o ≡ done out
      → (o ≡ none) × (cfg ≡ out)
  check_pair-loads cfg out none h = (refl, done-inj cfg out h)
  check_pair-loads cfg out (some e) h = cc

  default_names : (addr : String) → is_empty (default_self_signed_names lib addr) ≡ false
  unfolding default_self_signed_names
  default_names addr = ground arith

  record Checked (cfg : Config) (mode : TlsMode) (out : Config) : Type 0 where
    same_secret : out.jwt_secret ≡ cfg.jwt_secret
    same_days : out.tombstone_days ≡ cfg.tombstone_days
    same_mode : out.tls_mode ≡ cfg.tls_mode
    same_insecure : out.allow_insecure ≡ cfg.allow_insecure
    ready : ModeReady out mode

  Checked-same :
      (cfg out : Config) (mode : TlsMode) → ModeReady cfg mode → cfg ≡ out → Checked cfg mode out
  Checked-same cfg out mode ready e = subst (Checked cfg mode) e (record {
    same_secret = refl;
    same_days = refl;
    same_mode = refl;
    same_insecure = refl;
    ready = ready;
  })

  check_mode-Checked :
      (mode : TlsMode) (cfg out : Config)
      → check_mode lib mode cfg ≡ done out
      → Checked cfg mode out
  unfolding check_mode
  check_mode-Checked off cfg out h = Checked-same cfg out off tt (done-inj cfg out h)
  check_mode-Checked acme cfg out h =
      let (some_names, e) = unless-done (is_empty cfg.tls_domains) _ _ out h in
      Checked-same cfg out acme some_names (done-inj cfg out e)
  check_mode-Checked file cfg out h =
      let (cert, h1) = unless-done (cfg.tls_cert_file == "") _ _ out h in
      let (key, h2) = unless-done (cfg.tls_key_file == "") _ _ out h1 in
      let (loads, e) =
        check_pair-loads cfg out (load_key_pair cfg.tls_cert_file cfg.tls_key_file) h2 in
      Checked-same cfg out file loads e
  check_mode-Checked selfsigned cfg out h =
      let e = done-inj _ out h in
      elim (Bool-cases (is_empty cfg.tls_domains)) [
        | inl empty ↦ subst (Checked cfg selfsigned) (rw empty at e) (record {
          same_secret = refl;
          same_days = refl;
          same_mode = refl;
          same_insecure = refl;
          ready = default_names cfg.addr;
        })
        | inr given ↦ Checked-same cfg out selfsigned given (rw given at e)
      ]

  module _ (lookup_env : String → Option String) where
    secret_of-long :
        (secret : String) (b : Bytes) → secret_of lib lookup_env secret ≡ done b → 32 ≤ length b
    secret_of-long secret b h =
        let (given, h1) = unless-done (secret == "") _ _ b h in
        let (long, e) =
          unless-done (ltb (length (bytes_of secret)) min_jwt_secret_bytes) _ _ b h1 in
        subst (λ x. 32 ≤ length x) (done-inj _ b e) (ground (arith, long))

    days_of-positive :
        (raw : String) (v : Option ℤ) (n : ℤ)
        → days_of lib lookup_env raw v ≡ done n
        → ltb_ℤ n (pos 1) ≡ false
    days_of-positive raw none n h = elim (Bool-cases (raw == "")) [
      | inl empty ↦ subst (λ x. ltb_ℤ x (pos 1) ≡ false) (done-inj (pos 90) n (rw empty at h)) refl
      | inr given ↦ let bad = rw given at h in cc
    ]
    days_of-positive raw (some m) n h = elim (Bool-cases (raw == "")) [
      | inl empty ↦ subst (λ x. ltb_ℤ x (pos 1) ≡ false) (done-inj (pos 90) n (rw empty at h)) refl
      | inr given ↦
          let (positive, e) = unless-done (ltb_ℤ m (pos 1)) _ (done m) n (rw given at h) in
          subst (λ x. ltb_ℤ x (pos 1) ≡ false) (done-inj m n e) positive
    ]

    load_base-lem :
        (cfg : Config)
        → load_base lib lookup_env ≡ done cfg
        → (32 ≤ length cfg.jwt_secret) × (ltb_ℤ cfg.tombstone_days (pos 1) ≡ false)
    unfolding load_base
    load_base-lem cfg h =
        let insecure_text = os_getenv lib lookup_env "WALLET_ALLOW_INSECURE" in
        let days_text = os_getenv lib lookup_env "WALLET_TOMBSTONE_DAYS" in
        let (secret, h1, k1) =
          bind-done (secret_of lib lookup_env (os_getenv lib lookup_env "WALLET_JWT_SECRET")) _ cfg
            h in
        let (insecure, h2, k2) =
          bind-done (insecure_of lib lookup_env insecure_text (parse_bool insecure_text)) _ cfg
            k1 in
        let (days, h3, k3) =
          bind-done (days_of lib lookup_env days_text (atoi days_text)) _ cfg k2 in
        subst (λ c. (32 ≤ length c.jwt_secret) × (ltb_ℤ c.tombstone_days (pos 1) ≡ false))
          (done-inj _ cfg k3)
          (secret_of-long _ secret h1, days_of-positive days_text (atoi days_text) days h3)

    -- A configuration that is loaded has a secret of 32 bytes at least and a positive number of days for
    -- tombstones, does not switch the HTTPS check off while the server terminates TLS, and has what its
    -- TLS mode needs: domains in the modes acme and selfsigned, and in the mode file a certificate and a
    -- key that load.
    pub load-IsValid : (cfg : Config) → load lib lookup_env ≡ done cfg → IsValid cfg
    unfolding load load_tls
    load-IsValid cfg h =
        let (base, h1, k1) = bind-done (load_base lib lookup_env) (load_tls lib lookup_env) cfg h in
        let (long, days) = load_base-lem base h1 in
        let (mode, h2, k2) =
          bind-done (mode_of (get_env lib lookup_env "WALLET_TLS_MODE" (mode_text off))) _ cfg k1 in
        let (not_both, k3) = unless-done (not (is_off mode) && base.allow_insecure) _ _ cfg k2 in
        let c = check_mode-Checked mode (with_mode lib lookup_env base mode) cfg k3 in
        record {
          long_secret = rw c.same_secret long;
          some_days = rw c.same_days days;
          not_both = rw (c.same_mode, c.same_insecure) not_both;
          mode_ready = subst (ModeReady cfg) (sym c.same_mode) c.ready;
        }
