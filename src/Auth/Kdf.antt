-- ===== src/Auth/Kdf.antt =====
-- The parameters and the fake answers for unknown logins: server/internal/auth/kdf.go. The text
-- that `fmt.Sprintf("%s:%d", label, i)` gives is a parameter.
use Prim.Native.String.{◌++◌ as ◌<>◌}
use familycards.Prelude.{
  ℕ, zero, suc, ◌+◌, ◌≤◌, ltb, String, ◌≡◌, refl, ap, inl, inr, false, List, [], ◌∷◌, ◌++◌, length,
  take, length-append, arith, Bool-cases, if◌then◌else◌,
}
use familycards.Http.{Bytes}
use familycards.Auth.Services.{Services}

abbrev pub default_kdf_params : String
default_kdf_params = "{\"m\":65536,\"t\":3,\"p\":1}"

abbrev pub fake_salt_len : ℕ
fake_salt_len = 16

abbrev pub fake_wrap_nonce_len : ℕ
fake_wrap_nonce_len = 24

abbrev pub fake_wrap_cipher_len : ℕ
fake_wrap_cipher_len = 48

length-take : {A : Type 0} (n : ℕ) (xs : List A) → n ≤ length xs → length (take n xs) ≡ n
length-take zero xs h = refl
length-take (suc n) [] h = absurd (omega arith)
length-take (suc n) (x ∷ xs) h = ap suc (length-take n xs (omega arith))

module _ (services : Services) (secret : String) where
  unfoldable pub fake_kdf_salt : String → Bytes
  fake_kdf_salt login = take fake_salt_len (services.hmac_sha256 secret login)

  unfoldable pub fake_recovery_kdf_salt : String → Bytes
  fake_recovery_kdf_salt login =
      take fake_salt_len (services.hmac_sha256 secret ("recovery:" <> login))

  module _ (label_at : String → ℕ → String) where
    -- for i := 0; len(out) < length; i++
    unfoldable pub expand_loop : ℕ → String → ℕ → ℕ → Bytes → Bytes
    expand_loop zero label size i out = out
    expand_loop (suc fuel) label size i out =
        let rest =
          expand_loop fuel label size (i + 1)
            (out ++ services.hmac_sha256 secret (label_at label i)) in
        if ltb (length out) size then rest else out

    -- Each round adds bytes, so `size` rounds are enough.
    unfoldable pub expand_hmac : String → ℕ → Bytes
    unfolding expand_loop
    expand_hmac label size = take size (expand_loop size label size 0 [])

    unfoldable pub fake_recovery_wrap_nonce : String → Bytes
    unfolding expand_hmac
    fake_recovery_wrap_nonce login = expand_hmac ("recovery-nonce:" <> login) fake_wrap_nonce_len

    unfoldable pub fake_recovery_wrapped_vault_key : String → Bytes
    unfolding expand_hmac
    fake_recovery_wrapped_vault_key login =
        expand_hmac ("recovery-wrap:" <> login) fake_wrap_cipher_len

    expand_loop_size :
        (fuel : ℕ) (label : String) (size i : ℕ) (out : Bytes)
        → size ≤ fuel + length out
        → size ≤ length (expand_loop fuel label size i out)
    unfolding expand_loop
    expand_loop_size zero label size i out h = omega arith
    expand_loop_size (suc fuel) label size i out h = elim (Bool-cases (ltb (length out) size)) [
      | inl more ↦ rw more (
          expand_loop_size fuel label size (i + 1) _ (
            omega (
              arith,
              length-append out (services.hmac_sha256 secret (label_at label i)),
              services.hmac_length secret (label_at label i),
            )))
      | inr done ↦ rw done (ground arith)
    ]

    expand_loop_enough :
        (f g : ℕ) (label : String) (size i : ℕ) (out : Bytes)
        → size ≤ f + length out
        → size ≤ g + length out
        → expand_loop f label size i out ≡ expand_loop g label size i out
    unfolding expand_loop
    expand_loop_enough zero zero label size i out h k = refl
    expand_loop_enough zero (suc g) label size i out h k =
        let full : ltb (length out) size ≡ false = ground (arith, h) in rw full refl
    expand_loop_enough (suc f) zero label size i out h k =
        let full : ltb (length out) size ≡ false = ground (arith, k) in rw full refl
    expand_loop_enough (suc f) (suc g) label size i out h k =
        elim (Bool-cases (ltb (length out) size)) [
          | inl more ↦
              let grown = length-append out (services.hmac_sha256 secret (label_at label i)) in
              let block = services.hmac_length secret (label_at label i) in
              rw more (
                expand_loop_enough f g label size (i + 1) _ (omega (arith, grown, block, h))
                  (omega (arith, grown, block, k)))
          | inr full ↦ rw full refl
        ]

    -- The loop of the expansion ends within the fuel that it is given: with any fuel that is at least
    -- the number of bytes asked for it stops at the same bytes, and they are as many as asked for at
    -- least.
    pub expand_loop_ends :
        (fuel : ℕ) (label : String) (size : ℕ)
        → size ≤ fuel
        → (expand_loop fuel label size 0 [] ≡ expand_loop size label size 0 [])
          × (size ≤ length (expand_loop fuel label size 0 []))
    expand_loop_ends fuel label size h = (
      expand_loop_enough fuel size label size 0 [] (omega (arith, h)) (omega arith),
      expand_loop_size fuel label size 0 [] (omega (arith, h)),
    )

    -- The expansion has exactly the number of bytes that is asked for.
    pub length-expand_hmac : (label : String) (size : ℕ) → length (expand_hmac label size) ≡ size
    unfolding expand_hmac
    length-expand_hmac label size =
        length-take size _ (expand_loop_size size label size 0 [] (omega arith))

  -- An unknown login gets a salt of the length of a real one.
  pub length-fake_kdf_salt : (login : String) → length (fake_kdf_salt login) ≡ 16
  unfolding fake_kdf_salt
  length-fake_kdf_salt login =
      length-take 16 (services.hmac_sha256 secret login)
        (omega (arith, services.hmac_length secret login))
