-- ===== src/Tests/Hashing.antt =====
-- A concrete Argon: the key forgets its arguments, and a hash is split at its dollars.
use Prim.Native.Char.{Char, code}
use Prim.Native.String.append
use Prim.Native.String.{◌++◌ as ◌<>◌}
use familycards.Prelude.{
  nat_beq, ap, ℕ, zero, suc, String, ◌==◌, ◌≡◌, refl, ◌∙◌, inl, inr, Bool-cases, length, List, true,
  Option, none, some, [], ◌∷◌, eq_refl, if◌then◌else◌,
}
use familycards.Http.{Bytes}
use familycards.Crypto.{PasswordParams, default_password_params, no_dollar, params_text, Argon}
use familycards.Tests.Encoding.{
  write_nat, write_byte, write_bytes, read_bytes, read_bytes-write_bytes, zeros,
}

-- A text that has no dollar.
write_byte-plain :
    (b : ℕ) (rest : String) → no_dollar rest ≡ true → no_dollar (write_byte b rest) ≡ true
unfolding write_byte no_dollar
write_byte-plain zero rest h = h
write_byte-plain (suc b) rest h = write_byte-plain b rest h

pub write_bytes-plain : (bs : Bytes) → no_dollar (write_bytes bs) ≡ true
unfolding write_bytes no_dollar
write_bytes-plain [] = refl
write_bytes-plain (b ∷ bs) = write_byte-plain b (write_bytes bs) (write_bytes-plain bs)

write_nat-plain : (n : ℕ) → no_dollar (write_nat n "") ≡ true
unfolding write_nat no_dollar
write_nat-plain zero = refl
write_nat-plain (suc n) = write_nat-plain n

pub length-zeros : (n : ℕ) → length (zeros n) ≡ n
length-zeros zero = refl
length-zeros (suc n) = ap suc (length-zeros n)

-- The parts between the dollars.
abbrev onto_first : Char → List String → List String
onto_first c [] = String.◌∷◌ c "" ∷ []
onto_first c (p ∷ ps) = String.◌∷◌ c p ∷ ps

pub split_dollars : String → List String
split_dollars String.[] = "" ∷ []
split_dollars (String.◌∷◌ c s) =
    let rest = split_dollars s in if nat_beq (code c) 36 then "" ∷ rest else onto_first c rest

pub split_dollars-plain : (s : String) → no_dollar s ≡ true → split_dollars s ≡ s ∷ []
unfolding split_dollars no_dollar
split_dollars-plain String.[] h = refl
split_dollars-plain (String.◌∷◌ c s) h = elim (Bool-cases (nat_beq (code c) 36)) [
  | inl dollar ↦ let bad = rw dollar at h in cc
  | inr other ↦ rw (other, split_dollars-plain s (rw other at h)) refl
]

pub split_dollars-first :
    (s rest : String)
    → no_dollar s ≡ true
    → split_dollars (s <> ("$" <> rest)) ≡ s ∷ split_dollars rest
unfolding split_dollars no_dollar
split_dollars-first String.[] rest h =
    ap split_dollars (append.nil ("$" <> rest) ∙ append.cons _ "" rest)
    ∙ ap (λ r. "" ∷ split_dollars r) (append.nil rest)
split_dollars-first (String.◌∷◌ c s) rest h = elim (Bool-cases (nat_beq (code c) 36)) [
  | inl dollar ↦ let bad = rw dollar at h in cc
  | inr other ↦
      ap split_dollars (append.cons c s ("$" <> rest))
      ∙ rw (other, split_dollars-first s rest (rw other at h)) refl
]

-- The text of the parameters that are used.
abbrev pub scan_like : String → String → Option PasswordParams
scan_like t s = if s == t then some default_password_params else none

pub scan_like-same : (t : String) → scan_like t t ≡ some default_password_params
scan_like-same t = rw (eq_refl t) refl

pub decimal_of : ℕ → String
unfolding write_nat
decimal_of n = write_nat n ""

pub decimal_of-plain : (n : ℕ) → no_dollar (decimal_of n) ≡ true
unfolding decimal_of
decimal_of-plain n = write_nat-plain n

abbrev pub plain_argon : Argon
plain_argon = record {
  id_key = λ pw salt t m p n. zeros n;
  id_key_length = λ pw salt t m p n. length-zeros n;
  encode = write_bytes;
  decode = read_bytes 0;
  decode-encode = read_bytes-write_bytes;
  encode_plain = write_bytes-plain;
  decimal = decimal_of;
  decimal_plain = decimal_of-plain;
  split = split_dollars;
  split_plain = split_dollars-plain;
  split_first = split_dollars-first;
  scan_params = scan_like (params_text decimal_of default_password_params);
  scan_default = scan_like-same (params_text decimal_of default_password_params);
}
