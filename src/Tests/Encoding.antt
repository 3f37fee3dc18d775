-- ===== src/Tests/Encoding.antt =====
-- Concrete services for the examples: an encoding of bytes and of claims as text that is read back,
-- and a hash that keeps its argument.
use Prim.Native.Char.{Char, code}
use familycards.Prelude.{
  nat_beq, arith, ap, subst, ℕ, zero, suc, ◌+◌, ltb, String, ◌==◌, ◌≡◌, refl, Bool, true, false,
  Option, none, some, [], ◌∷◌, eq_refl, if◌then◌else◌,
}
use familycards.Http.{Bytes, Base64}
use familycards.Auth.Services.{Claims, Services}

-- A number, then a text.
unfoldable pub write_nat : ℕ → String → String
write_nat zero rest = String.◌∷◌ "e" rest
write_nat (suc n) rest = String.◌∷◌ "x" (write_nat n rest)

abbrev is_char : ℕ → Char → Bool
is_char n c = nat_beq (code c) n

abbrev one_more : Option (ℕ × String) → Option (ℕ × String)
one_more none = none
one_more (some (n, s)) = some (suc n, s)

read_nat : String → Option (ℕ × String)
read_nat String.[] = none
read_nat (String.◌∷◌ c rest) =
    let more = one_more (read_nat rest) in if is_char b'e' c then some (0, rest) else more

read_nat-write_nat : (n : ℕ) (rest : String) → read_nat (write_nat n rest) ≡ some (n, rest)
unfolding write_nat read_nat
read_nat-write_nat zero rest = refl
read_nat-write_nat (suc n) rest = rw (read_nat-write_nat n rest) refl

-- A text, then another.
write_text : String → String → String
write_text String.[] rest = String.◌∷◌ "e" rest
write_text (String.◌∷◌ c s) rest = String.◌∷◌ "x" (String.◌∷◌ c (write_text s rest))

abbrev in_front : Char → Option (String × String) → Option (String × String)
in_front c none = none
in_front c (some (t, s)) = some (String.◌∷◌ c t, s)

-- The flag tells that the next character belongs to the text.
read_text : Bool → String → Option (String × String)
read_text escaped String.[] = none
read_text true (String.◌∷◌ c rest) = in_front c (read_text false rest)
read_text false (String.◌∷◌ c rest) =
    let more = read_text true rest in if is_char b'e' c then some ("", rest) else more

read_text-write_text : (t rest : String) → read_text false (write_text t rest) ≡ some (t, rest)
unfolding write_text read_text
read_text-write_text String.[] rest = refl
read_text-write_text (String.◌∷◌ c s) rest = rw (read_text-write_text s rest) refl

-- Bytes: `x` as often as the byte says and then `y`, for each, and `e` behind the last.
unfoldable pub write_byte : ℕ → String → String
write_byte zero rest = String.◌∷◌ "y" rest
write_byte (suc n) rest = String.◌∷◌ "x" (write_byte n rest)

unfoldable pub write_bytes : Bytes → String
write_bytes [] = "e"
write_bytes (b ∷ bs) = write_byte b (write_bytes bs)

abbrev in_list : ℕ → Option Bytes → Option Bytes
in_list n none = none
in_list n (some bs) = some (n ∷ bs)

unfoldable pub read_bytes : ℕ → String → Option Bytes
read_bytes n String.[] = none
read_bytes n (String.◌∷◌ c rest) =
    let more = read_bytes (suc n) rest in
    let next = in_list n (read_bytes 0 rest) in
    if is_char b'e' c then some [] else if is_char b'x' c then more else next

plus_zero : (n : ℕ) → n ≡ n + 0
plus_zero n = omega arith

zero_plus : (n : ℕ) → 0 + n ≡ n
zero_plus n = omega arith

plus_suc : (n b : ℕ) → n + suc b ≡ suc n + b
plus_suc n b = omega arith

read_bytes-write_byte :
    (n b : ℕ) (rest : String) (bs : Bytes)
    → read_bytes 0 rest ≡ some bs
    → read_bytes n (write_byte b rest) ≡ some ((n + b) ∷ bs)
unfolding write_byte read_bytes
read_bytes-write_byte n zero rest bs h = rw h (ap (λ k. some (k ∷ bs)) (plus_zero n))
read_bytes-write_byte n (suc b) rest bs h =
    rw (plus_suc n b) (read_bytes-write_byte (suc n) b rest bs h)

pub read_bytes-write_bytes : (bs : Bytes) → read_bytes 0 (write_bytes bs) ≡ some bs
unfolding write_bytes read_bytes
read_bytes-write_bytes [] = refl
read_bytes-write_bytes (b ∷ bs) =
    subst (λ k. read_bytes 0 (write_byte b (write_bytes bs)) ≡ some (k ∷ bs)) (zero_plus b)
      (read_bytes-write_byte 0 b (write_bytes bs) bs (read_bytes-write_bytes bs))

abbrev pub plain_base64 : Base64
plain_base64 = record {
  encode = write_bytes;
  decode = read_bytes 0;
  decode-encode = read_bytes-write_bytes;
}

write_claims : Claims → String
unfolding write_text write_nat
write_claims c = write_text c.user_id (
    write_text c.vault_id
      (write_text c.device_id (write_nat c.issued_at (write_nat c.expires_at ""))))

infixl 5 ◌>>=◌
abbrev ◌>>=◌ : {A B : Type 0} → Option A → (A → Option B) → Option B
none >>= k = none
some a >>= k = k a

-- The fields one after another.
read_claims : String → Option Claims
unfolding read_text read_nat
read_claims s = do
  u ← read_text false s
  v ← read_text false u.1
  d ← read_text false v.1
  i ← read_nat d.1
  e ← read_nat i.1
  some
      (record { user_id = u.0; vault_id = v.0; device_id = d.0; issued_at = i.0; expires_at = e.0 })

read_claims-write_claims : (c : Claims) → read_claims (write_claims c) ≡ some c
unfolding read_claims write_claims
read_claims-write_claims c =
    rw
      (
        read_text-write_text c.user_id _,
        read_text-write_text c.vault_id _,
        read_text-write_text c.device_id _,
        read_nat-write_nat c.issued_at _,
        read_nat-write_nat c.expires_at _,
      )
      refl

-- The token carries its secret.
pub write_token : String → Claims → String
unfolding write_claims
write_token secret c = write_text secret (write_claims c)

signed_by : String → ℕ → String × String → Option Claims
unfolding read_claims
signed_by secret now (s, rest) =
    if s == secret
    then (do c ← read_claims rest; if ltb now c.expires_at then some c else none)
    else none

pub read_token : String → ℕ → String → Option Claims
unfolding read_text signed_by
read_token secret now token = do t ← read_text false token; signed_by secret now t

pub read_token-write_token :
    (secret : String) (now : ℕ) (c : Claims)
    → read_token secret now (write_token secret c) ≡ (if ltb now c.expires_at then some c else none)
unfolding read_token write_token signed_by
read_token-write_token secret now c =
    rw (read_text-write_text secret (write_claims c), eq_refl secret, read_claims-write_claims c)
      refl

abbrev pub zeros : ℕ → Bytes
zeros zero = []
zeros (suc n) = 0 ∷ zeros n

abbrev pub check_password : String → String → Option Bool
check_password password hash = some (password == hash)

abbrev pub plain_services : Services
plain_services = record {
  b64 = plain_base64;
  sha256_hex = λ s. s;
  hmac_sha256 = λ secret message. zeros 32;
  hmac_length = λ secret message. refl;
  hash_password = λ salt password. password;
  verify_password = check_password;
  verify-hash = λ salt password. rw eq_refl refl;
  sign = write_token;
  parse = read_token;
  parse-sign = read_token-write_token;
}
