-- ===== src/SelfSigned/Stable.antt =====
-- The certificate stays the same from start to start: server/internal/selfsigned/selfsigned.go.
use familycards.Prelude.{
  ℕ, ◌+◌, ◌-◌, ◌≤◌, String, ◌≡◌, refl, sym, ap, subst, ◌∙◌, inl, inr, Bool, true, false, Option,
  none, some, List, [], ◌∷◌, arith, eq_refl, if◌then◌else◌, Bool-cases, Option-cases,
}
use familycards.Http.{ok, result-inj}
use familycards.SelfSigned.{
  Ips, Leaf, Issuing, works, breaks, validity, clock_skew, contains_ip, contains_string,
  covers_name, covers_all_names, is_current, try_load, add_ip, ips_of, add_dns, dns_of, template,
  issue_and_persist, load_or_issue,
}

if-both : (b c : Bool) → (if b then c else false) ≡ true → (b ≡ true) × (c ≡ true)
if-both true c h = (refl, h)
if-both false c h = cc

module _ {Ip : Type 0} (ips : Ips Ip) where
  open ips use {parse_ip, equal, equal_refl}

  -- The lists of the certificate, which cover what they have been made of.
  record Within (a b : Leaf Ip) : Type 0 where
    all_ips :
        (ip : Ip)
        → contains_ip ips a.ip_addresses ip ≡ true
        → contains_ip ips b.ip_addresses ip ≡ true
    all_dns :
        (s : String)
        → contains_string ips a.dns_names s ≡ true
        → contains_string ips b.dns_names s ≡ true

  covers_name-Within :
      (a b : Leaf Ip) (name : String) (o : Option Ip)
      → Within a b
      → covers_name ips a name o ≡ true
      → covers_name ips b name o ≡ true
  covers_name-Within a b name none w h = w.all_dns name h
  covers_name-Within a b name (some ip) w h = w.all_ips ip h

  covers_all_names-Within :
      (a b : Leaf Ip) (names : List String)
      → Within a b
      → covers_all_names ips a names ≡ true
      → covers_all_names ips b names ≡ true
  unfolding covers_all_names
  covers_all_names-Within a b [] w h = refl
  covers_all_names-Within a b (name ∷ names) w h =
      let (first, rest) = if-both (covers_name ips a name (parse_ip name)) _ h in
      rw (covers_name-Within a b name (parse_ip name) w first)
        (covers_all_names-Within a b names w rest)

  module _ (serial not_before not_after : ℕ) where
    abbrev issued : List String → Leaf Ip
    issued names = template ips serial names not_before not_after

    contains_string-later :
        (name s : String) (values : List String)
        → contains_string ips values s ≡ true
        → contains_string ips (name ∷ values) s ≡ true
    unfolding contains_string
    contains_string-later name s values h = ground (arith, h)

    contains_ip-later :
        (ip target : Ip) (rest : List Ip)
        → contains_ip ips rest target ≡ true
        → contains_ip ips (ip ∷ rest) target ≡ true
    unfolding contains_ip
    contains_ip-later ip target rest h = ground (arith, h)

    -- With one more name the certificate covers what it covered, and the name.
    record Extends (name : String) (a b : Leaf Ip) (o : Option Ip) : Type 0 where
      within : Within a b
      first : covers_name ips b name o ≡ true

    extended : String → List String → Option Ip → Leaf Ip
    extended name names o = record (issued names) {
      dns_names = add_dns ips name o (dns_of ips names);
      ip_addresses = add_ip ips o (ips_of ips names);
    }

    extended-Extends :
        (name : String) (names : List String) (o : Option Ip)
        → Extends name (issued names) (extended name names o) o
    unfolding extended contains_ip contains_string
    extended-Extends name names none = record {
      within = record { all_ips = λ ip q. q; all_dns = λ s q. contains_string-later name s _ q };
      first = rw eq_refl refl;
    }
    extended-Extends name names (some ip) = record {
      within = record { all_ips = λ target q. contains_ip-later ip target _ q; all_dns = λ s q. q };
      first = rw (equal_refl ip) refl;
    }

    covers_all_names-issued :
        (names : List String) → covers_all_names ips (issued names) names ≡ true
    unfolding covers_all_names extended ips_of dns_of
    covers_all_names-issued [] = refl
    covers_all_names-issued (name ∷ names) =
        let x = extended-Extends name names (parse_ip name) in
        rw x.first (
          covers_all_names-Within (issued names) (extended name names (parse_ip name)) names
            x.within (covers_all_names-issued names))

  try_load-found :
      (now : ℕ) (names : List String) (leaf : Leaf Ip)
      → is_current ips now leaf ≡ true
      → covers_all_names ips leaf names ≡ true
      → try_load ips now names (some leaf) ≡ some leaf
  unfolding try_load
  try_load-found now names leaf c h = rw (c, h) refl

  record Loaded (now : ℕ) (names : List String) (stored : Option (Leaf Ip)) (leaf : Leaf Ip)
      : Type 0 where
    same : stored ≡ some leaf
    current : is_current ips now leaf ≡ true
    covers : covers_all_names ips leaf names ≡ true

  try_load-Loaded :
      (now : ℕ) (names : List String) (stored : Option (Leaf Ip)) (leaf : Leaf Ip)
      → try_load ips now names stored ≡ some leaf
      → Loaded now names stored leaf
  unfolding try_load
  try_load-Loaded now names none leaf h = cc
  try_load-Loaded now names (some old) leaf h = elim (Bool-cases (is_current ips now old)) [
    | inr stale ↦ let gone = rw stale at h in cc
    | inl current ↦ elim (Bool-cases (covers_all_names ips old names)) [
      | inr lacks ↦ let gone = rw (current, lacks) at h in cc
      | inl covers ↦
          let same : old ≡ leaf = some-inj (rw (current, covers) at h) in
          subst (Loaded now names (some old)) same
            (record { same = refl; current = current; covers = covers })
    ]
  ]
    where
      some-inj : {x y : Leaf Ip} → some x ≡ some y → x ≡ y
      some-inj e = cc

  -- Where a certificate is given out, it is one that is valid now, covers every name, and is the pair
  -- that is left in the directory.
  record Served (now : ℕ) (names : List String) (leaf : Leaf Ip) (stored : Option (Leaf Ip))
      : Type 0 where
    kept : stored ≡ some leaf
    current : is_current ips now leaf ≡ true
    covers : covers_all_names ips leaf names ≡ true

  issue-Served :
      (issuing : Issuing Ip) (serial now : ℕ) (names : List String) (leaf : Leaf Ip)
      (after : Option (Leaf Ip))
      → issue_and_persist ips issuing serial names (now - clock_skew) (now + validity)
        ≡ (ok leaf, after)
      → Served now names leaf after
  unfolding issue_and_persist
  issue-Served (breaks left) serial now names leaf after h = let failed = ap (λ x. x.0) h in cc
  issue-Served works serial now names leaf after h =
      let made = template ips serial names (now - clock_skew) (now + validity) in
      let same : made ≡ leaf = result-inj made leaf (ap (λ x. x.0) h) in
      let left : some made ≡ after = ap (λ x. x.1) h in
      subst (λ x. Served now names leaf x) left
        (subst (λ x. Served now names x (some made)) same
          (record {
            kept = refl;
            current = ground arith;
            covers = covers_all_names-issued serial (now - clock_skew) (now + validity) names;
          }))

  load_or_issue-Served :
      (issuing : Issuing Ip) (serial now : ℕ) (names : List String)
      (stored after : Option (Leaf Ip)) (leaf : Leaf Ip)
      → load_or_issue ips issuing serial now names stored ≡ (ok leaf, after)
      → Served now names leaf after
  unfolding load_or_issue
  load_or_issue-Served issuing serial now [] stored after leaf h =
      let failed = ap (λ x. x.0) h in cc
  load_or_issue-Served issuing serial now (name ∷ names) stored after leaf h =
      elim (Option-cases (try_load ips now (name ∷ names) stored)) [
        | inl nothing ↦ issue-Served issuing serial now (name ∷ names) leaf after (rw nothing at h)
        | inr (old, found) ↦
            let k = rw found at h in
            let l = try_load-Loaded now (name ∷ names) stored old found in
            let same : old ≡ leaf = result-inj old leaf (ap (λ x. x.0) k) in
            subst (λ x. Served now (name ∷ names) x after) same
              (record {
                kept = sym (ap (λ x. x.1) k) ∙ l.same;
                current = l.current;
                covers = l.covers;
              })
      ]

  -- A certificate that is given out is valid at that time and covers every name that it was asked for,
  -- and the same one is given out, and the stored pair left alone, at every later start with these names
  -- before it expires.
  pub load_or_issue_stable :
      (issuing again : Issuing Ip) (serial serial' now later : ℕ) (names : List String)
      (stored after : Option (Leaf Ip)) (leaf : Leaf Ip)
      → load_or_issue ips issuing serial now names stored ≡ (ok leaf, after)
      → now ≤ later
      → later ≤ leaf.not_after
      → (is_current ips now leaf ≡ true)
        × (covers_all_names ips leaf names ≡ true)
        × (load_or_issue ips again serial' later names after ≡ (ok leaf, after))
  unfolding load_or_issue
  load_or_issue_stable issuing again serial serial' now later [] stored after leaf h before valid =
      let failed = ap (λ x. x.0) h in cc
  load_or_issue_stable issuing again serial serial' now later (name ∷ names) stored after leaf h
        before valid =
      let s = load_or_issue-Served issuing serial now (name ∷ names) stored after leaf h in
      let c = s.current in
      let still : is_current ips later leaf ≡ true = ground (arith, c) in
      (c, s.covers, rw (s.kept, try_load-found later (name ∷ names) leaf still s.covers) refl)
