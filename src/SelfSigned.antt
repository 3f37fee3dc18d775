-- ===== src/SelfSigned.antt =====
-- The server's own certificate: server/internal/selfsigned/selfsigned.go. What x509 makes of a template,
-- the two files included, is what the certificate says; the parsing and the comparison of IP addresses
-- are the parameter `Ips`. Times are in seconds,
-- and a call reads the clock once.
pub mod Stable
use familycards.Prelude.{
  ℕ, ◌+◌, ◌-◌, ◌*◌, ltb, leb, String, ◌==◌, ◌≡◌, Bool, true, false, not, ◌&&◌, ◌||◌, Option, none,
  some, List, [], ◌∷◌, ◌++◌, if◌then◌else◌,
}
use familycards.Http.{Error, other, Result, ok, err}

pub record Ips (Ip : Type 0) : Type 0 where
  pub parse_ip : String → Option Ip
  pub equal : Ip → Ip → Bool
  pub equal_refl : (a : Ip) → equal a a ≡ true

-- What is looked at of a certificate.
pub record Leaf (Ip : Type 0) : Type 0 where
  pub serial : ℕ
  pub dns_names : List String
  pub ip_addresses : List Ip
  pub not_before : ℕ
  pub not_after : ℕ

-- Whether the steps of issuing succeed, and if not, the pair that loads from the directory afterwards.
pub data Issuing (Ip : Type 0) : Type 0 where
  works : Issuing Ip
  breaks : Option (Leaf Ip) → Issuing Ip

abbrev pub validity : ℕ
validity = 10 * 365 * 24 * 3600

abbrev pub clock_skew : ℕ
clock_skew = 5 * 60

module _ {Ip : Type 0} (ips : Ips Ip) where
  open ips use {parse_ip, equal}

  unfoldable pub contains_ip : List Ip → Ip → Bool
  contains_ip [] target = false
  contains_ip (ip ∷ rest) target =
      let later = contains_ip rest target in if equal ip target then true else later

  unfoldable pub contains_string : List String → String → Bool
  contains_string [] target = false
  contains_string (v ∷ values) target =
      let later = contains_string values target in if v == target then true else later

  abbrev pub covers_name : Leaf Ip → String → Option Ip → Bool
  covers_name cert name (some ip) = contains_ip cert.ip_addresses ip
  covers_name cert name none = contains_string cert.dns_names name

  unfoldable pub covers_all_names : Leaf Ip → List String → Bool
  unfolding contains_ip contains_string
  covers_all_names cert [] = true
  covers_all_names cert (name ∷ names) =
      let rest = covers_all_names cert names in
      if covers_name cert name (parse_ip name) then rest else false

  abbrev pub is_current : ℕ → Leaf Ip → Bool
  is_current now leaf = not (ltb now leaf.not_before || ltb leaf.not_after now)

  -- `stored` is the pair in the cache directory, if it loads.
  unfoldable pub try_load : ℕ → List String → Option (Leaf Ip) → Option (Leaf Ip)
  unfolding covers_all_names
  try_load now names none = none
  try_load now names (some leaf) =
      if not (is_current now leaf)
      then none
      else if not (covers_all_names leaf names)
      then none
      else some leaf

  -- The loop that sorts the names into addresses and DNS names, in their order.
  abbrev pub add_ip : Option Ip → List Ip → List Ip
  add_ip none rest = rest
  add_ip (some ip) rest = ip ∷ rest

  unfoldable pub ips_of : List String → List Ip
  ips_of [] = []
  ips_of (name ∷ names) = add_ip (parse_ip name) (ips_of names)

  abbrev pub add_dns : String → Option Ip → List String → List String
  add_dns name none rest = name ∷ rest
  add_dns name (some ip) rest = rest

  unfoldable pub dns_of : List String → List String
  dns_of [] = []
  dns_of (name ∷ names) = add_dns name (parse_ip name) (dns_of names)

  abbrev pub template : ℕ → List String → ℕ → ℕ → Leaf Ip
  template serial names not_before not_after = record {
    serial = serial;
    dns_names = dns_of names;
    ip_addresses = ips_of names;
    not_before = not_before;
    not_after = not_after;
  }

  -- `issueAndPersist`: `serial` is drawn at random.
  unfoldable pub issue_and_persist :
      Issuing Ip → ℕ → List String → ℕ → ℕ → Result (Leaf Ip) × Option (Leaf Ip)
  unfolding ips_of dns_of
  issue_and_persist (breaks left) serial names not_before not_after = (err other, left)
  issue_and_persist works serial names not_before not_after = (
    ok (template serial names not_before not_after),
    some (template serial names not_before not_after),
  )

  abbrev pub loaded_or :
      Option (Leaf Ip)
      → Option (Leaf Ip)
      → Result (Leaf Ip) × Option (Leaf Ip)
      → Result (Leaf Ip) × Option (Leaf Ip)
  loaded_or stored (some leaf) issued = (ok leaf, stored)
  loaded_or stored none issued = issued

  -- The certificate, and the pair in the cache directory after it.
  unfoldable pub load_or_issue :
      Issuing Ip → ℕ → ℕ → List String → Option (Leaf Ip) → Result (Leaf Ip) × Option (Leaf Ip)
  unfolding try_load issue_and_persist
  load_or_issue issuing serial now [] stored = (err other, stored)
  load_or_issue issuing serial now (name ∷ names) stored =
      loaded_or stored (try_load now (name ∷ names) stored)
        (issue_and_persist issuing serial (name ∷ names) (now - clock_skew) (now + validity))
