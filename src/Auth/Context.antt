-- ===== src/Auth/Context.antt =====
-- The authenticated caller in the request context: server/internal/auth/context.go.
use familycards.Prelude.{String, ◌≡◌, refl, Option, none, some}

pub record Identity : Type 0 where
  pub user_id : String
  pub vault_id : String
  pub device_id : String

-- The values of the request's context under the keys ctxUserID, ctxVaultID and ctxDeviceID.
pub record Context : Type 0 where
  pub ctx_user_id : Option String
  pub ctx_vault_id : Option String
  pub ctx_device_id : Option String

abbrev pub empty_context : Context
empty_context = record { ctx_user_id = none; ctx_vault_id = none; ctx_device_id = none }

unfoldable pub with_identity : Context → Identity → Context
with_identity ctx id = record {
  ctx_user_id = some id.user_id;
  ctx_vault_id = some id.vault_id;
  ctx_device_id = some id.device_id;
}

identity_of : Option String → Option String → Option String → Option Identity
identity_of (some u) (some v) (some d) = some (record { user_id = u; vault_id = v; device_id = d })
identity_of _ _ _ = none

unfoldable pub current_identity : Context → Option Identity
unfolding identity_of
current_identity ctx = identity_of ctx.ctx_user_id ctx.ctx_vault_id ctx.ctx_device_id

pub current_identity-with_identity :
    (ctx : Context) (id : Identity) → current_identity (with_identity ctx id) ≡ some id
unfolding current_identity with_identity
current_identity-with_identity ctx id = refl
