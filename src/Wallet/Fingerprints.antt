-- ===== src/Wallet/Fingerprints.antt =====
-- The fingerprints in the log: `Fingerprint` of server/internal/selfsigned/selfsigned.go, and
-- `logFingerprintOnce` and `wrapWithFingerprintLogging` of server/cmd/wallet/tls.go. What they call of
-- Go's crypto, fmt and strings is the parameter `X509`. The mutex makes the handshakes take turns at
-- the map, so they are a list.
use familycards.Prelude.{
  ℕ, String, ◌==◌, ◌≡◌, inl, inr, Bool, true, false, Option, none, some, List, [], ◌∷◌, ◌++◌, map,
  arith, eq_refl, ==→≡, Bool-cases, if◌then◌else◌,
}
use familycards.Prelude.Table.{count, exists, count-append}
use familycards.Http.{Bytes}
use familycards.Sync.Repository.{contains}

pub record X509 : Type 0 where
  pub sha256 : Bytes → Bytes
  -- fmt.Sprintf("%02X", b)
  pub hex_byte : ℕ → String
  -- strings.Join
  pub join : List String → String → String
  -- x509.ParseCertificate, which keeps the DER bytes in `Raw`
  pub parses : Bytes → Bool

-- tls.Certificate: the DER bytes of the chain, and those of the parsed leaf, if it is set.
pub record Certificate : Type 0 where
  pub chain : List Bytes
  pub leaf : Option Bytes

-- What `GetCertificate` returns: the certificate, if it is not nil, and whether there is an error.
pub record Handed : Type 0 where
  pub certificate : Option Certificate
  pub failed : Bool

module _ (x509 : X509) where
  open x509 use {sha256, hex_byte, join, parses}

  unfoldable pub fingerprint : Bytes → String
  fingerprint raw = join (map hex_byte (sha256 raw)) ":"

  abbrev pub parsed_leaf : List Bytes → Option Bytes
  parsed_leaf [] = none
  parsed_leaf (der ∷ rest) = if parses der then some der else none

  abbrev pub leaf_or_parsed : Certificate → Option Bytes → Option Bytes
  leaf_or_parsed cert none = parsed_leaf cert.chain
  leaf_or_parsed cert (some raw) = some raw

  abbrev pub fingerprint_of : Option Bytes → Option String
  fingerprint_of none = none
  fingerprint_of (some raw) = some (fingerprint raw)

  -- The fingerprint that is logged at the start; `none` is the warning.
  unfoldable pub log_fingerprint_once : Certificate → Option String
  unfolding fingerprint
  log_fingerprint_once cert = fingerprint_of (leaf_or_parsed cert cert.leaf)

  abbrev pub presented : List Bytes → Certificate → Option String
  presented [] cert = none
  presented (der ∷ rest) cert = fingerprint_of (leaf_or_parsed cert cert.leaf)

  -- The fingerprint of the certificate that is handed out, if it has one.
  unfoldable pub handed_fingerprint : Bool → Option Certificate → Option String
  unfolding fingerprint
  handed_fingerprint failed none = none
  handed_fingerprint failed (some cert) = if failed then none else presented cert.chain cert

  abbrev pub log_new : Option String → List String → List String × List String
  log_new none logged = ([], logged)
  log_new (some fp) logged = if contains fp logged then ([], logged) else (fp ∷ [], fp ∷ logged)

  -- The line that a handshake logs, if any, and the map `logged` after it.
  unfoldable pub get_certificate : Handed → List String → List String × List String
  unfolding handed_fingerprint
  get_certificate h logged = log_new (handed_fingerprint h.failed h.certificate) logged

  -- The lines of a run of handshakes.
  unfoldable pub log_lines : List Handed → List String → List String
  unfolding get_certificate
  log_lines [] logged = []
  log_lines (h ∷ hs) logged = let out = get_certificate h logged in out.0 ++ log_lines hs out.1

  abbrev pub is_text : String → Option String → Bool
  is_text fp none = false
  is_text fp (some s) = s == fp

  -- The certificate handed out has this fingerprint.
  abbrev pub shows : String → Handed → Bool
  shows fp h = is_text fp (handed_fingerprint h.failed h.certificate)

  count-log_new :
      (fp : String) (o : Option String) (logged : List String)
      → (count (λ s. s == fp) (log_new o logged).0
          ≡ (if contains fp logged then 0 else if is_text fp o then 1 else 0))
        × (contains fp (log_new o logged).1 ≡ (if contains fp logged then true else is_text fp o))
  unfolding count
  count-log_new fp none logged = (ground arith, ground arith)
  count-log_new fp (some s) logged = elim (Bool-cases (s == fp)) [
    | inl same ↦
        let e = ==→≡ s fp same in rw e (ground (arith, eq_refl fp), ground (arith, eq_refl fp))
    | inr other ↦ (ground (arith, other), ground (arith, other))
  ]

  count-log_lines :
      (fp : String) (hs : List Handed) (logged : List String)
      → count (λ s. s == fp) (log_lines hs logged)
        ≡ (if contains fp logged then 0 else if exists (shows fp) hs then 1 else 0)
  unfolding log_lines get_certificate exists count
  count-log_lines fp [] logged = ground arith
  count-log_lines fp (h ∷ hs) logged =
      let o = handed_fingerprint h.failed h.certificate in
      let step = count-log_new fp o logged in
      ground (
        arith,
        step,
        count-append (λ s. s == fp) (log_new o logged).0 (log_lines hs (log_new o logged).1),
        count-log_lines fp hs (log_new o logged).1,
      )

  -- Over a run of handshakes from the start of the server, a fingerprint is logged exactly once if a
  -- certificate with it was handed out, and never if none was.
  pub log_lines_once :
      (fp : String) (hs : List Handed)
      → count (λ s. s == fp) (log_lines hs []) ≡ (if exists (shows fp) hs then 1 else 0)
  log_lines_once fp hs = count-log_lines fp hs []
