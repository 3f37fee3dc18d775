-- ===== src/Crypto/Filled.antt =====
-- The account handlers with the password hashing of server/internal/crypto/password.go.
use familycards.Auth.Services.{Services}
use familycards.Crypto.{Argon, hash_password, verify_password}
use familycards.Crypto.Verify.{verify_password-hash}

-- The services with the two functions of password.go in the place of those that they have.
abbrev pub with_argon : Argon → Services → Services
with_argon argon services = record services {
  hash_password = hash_password argon;
  verify_password = verify_password argon;
  verify-hash = λ salt password. (verify_password-hash argon password password salt).1;
}
