-- ===== src/Auth/Middleware.antt =====
-- The bearer check in front of every protected endpoint: server/internal/auth/middleware.go.
pub mod Sound
use familycards.Prelude.{
  ℕ, String, ◌==◌, ◌≡◌, refl, Bool, true, false, not, ◌&&◌, ◌||◌, Option, none, some, arith, eq_iff,
  if◌then◌else◌,
}
use familycards.Http.{Error, Result, ok, err, ◌>>=◌, unauthorized}
use familycards.Store.{User, Device, Db}
use familycards.Auth.Context.{Identity}
use familycards.Auth.Services.{Claims, Services}
use familycards.Auth.Repository.{get_device_by_id, get_user_by_id}
use familycards.Auth.Tokens.{parse_access_token}

-- The value of the Authorization header: with the prefix `Bearer ` and a token behind it, or not.
pub data Authorization : Type 0 where
  bearer : String → Authorization
  other_header : Authorization

abbrev pub or_unauthorized : {A : Type 0} → String → Option A → Result A
or_unauthorized m none = err (unauthorized m)
or_unauthorized m (some a) = ok a

abbrev pub reject_if : {A : Type 0} → Bool → String → A → Result A
reject_if true m a = err (unauthorized m)
reject_if false m a = ok a

module _ (services : Services) (secret : String) where
  abbrev pub check_device : Claims → Option Device → Result Device
  check_device claims none = err (unauthorized "device access revoked")
  check_device claims (some d) =
      reject_if (d.revoked || not (d.user_id == claims.user_id)) "device access revoked" d

  abbrev pub check_user : Claims → Option User → Result User
  check_user claims none = err (unauthorized "account access revoked")
  check_user claims (some u) =
      reject_if (u.disabled || not (u.vault_id == claims.vault_id)) "account access revoked" u

  abbrev pub token_of : Authorization → Result String
  token_of (bearer t) = ok t
  token_of other_header = err (unauthorized "missing bearer token")

  -- The identity that the handler behind the check gets, or the error that answers the request.
  unfoldable pub require_auth : ℕ → Authorization → Db → Result Identity
  unfolding parse_access_token get_device_by_id get_user_by_id
  require_auth now header db = token_of header >>= λ token.
      or_unauthorized "invalid or expired token" (parse_access_token services secret now token)
      >>= λ claims. check_device claims (get_device_by_id claims.device_id db) >>= λ device.
          check_user claims (get_user_by_id claims.user_id db) >>= λ user. ok (record {
            user_id = claims.user_id;
            vault_id = claims.vault_id;
            device_id = claims.device_id;
          })
