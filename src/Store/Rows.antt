-- ===== src/Store/Rows.antt =====
-- The row types, and the database as one record of tables. Times of the server are Unix seconds in
-- ℕ; what a client sends as an int64 is a ℤ.
use familycards.Prelude.{ℕ, ℤ, String, Bool, Option, List, []}
use familycards.Http.{Bytes}

pub record Vault : Type 0 where
  pub id : String
  pub created_at : ℕ
  pub last_rev : ℕ
  pub max_users : ℕ

pub record User : Type 0 where
  pub id : String
  pub vault_id : String
  pub login : String
  pub display_name : String
  pub password_hash : String
  pub kdf_salt : Bytes
  pub kdf_params : String
  pub wrapped_vault_key : Bytes
  pub wrap_nonce : Bytes
  pub created_at : ℕ
  pub disabled : Bool

pub record Device : Type 0 where
  pub id : String
  pub user_id : String
  pub name : String
  pub platform : String
  pub refresh_hash : String
  pub created_at : ℕ
  pub last_seen_at : ℕ
  pub revoked : Bool

-- The field `Rev` of an `Item` holds a revision that the server assigned (ℕ), or, in an item that
-- `decodePushItem` has just made, the client's base_rev (an int64, ℤ).
pub record ItemOf (R : Type 0) : Type 0 where
  pub vault_id : String
  pub item_id : String
  pub kind : String
  pub rev : R
  pub updated_at : ℤ
  pub deleted : Bool
  pub device_id : String
  pub nonce : Option Bytes
  pub ciphertext : Option Bytes
  pub blob_refs : List String

abbrev pub Item : Type 0
Item = ItemOf ℕ

pub record Blob : Type 0 where
  pub vault_id : String
  pub blob_id : String
  pub size : ℕ
  pub created_at : ℕ
  pub referenced : Bool

pub record Invite : Type 0 where
  pub code_hash : String
  pub vault_id : String
  pub wrapped_vault_key : Bytes
  pub wrap_nonce : Bytes
  pub kdf_salt : Bytes
  pub kdf_params : String
  pub created_by : String
  pub created_at : ℕ
  pub expires_at : ℤ
  pub used_at : Option ℕ

pub record RecoveryKey : Type 0 where
  pub vault_id : String
  pub wrapped_vault_key : Bytes
  pub wrap_nonce : Bytes
  pub kdf_salt : Bytes
  pub kdf_params : String
  pub created_at : ℕ
  pub verifier_hash : String

-- retired_refresh_tokens
pub record RetiredToken : Type 0 where
  pub hash : String
  pub user_id : String
  pub retired_at : ℕ

pub record DeviceInput : Type 0 where
  pub id : String
  pub name : String
  pub platform : String

pub record Db : Type 0 where
  pub vaults : List Vault
  pub users : List User
  pub devices : List Device
  pub items : List Item
  pub blobs : List Blob
  pub invites : List Invite
  pub recovery_keys : List RecoveryKey
  pub retired : List RetiredToken

abbrev pub empty_db : Db
empty_db = record {
  vaults = [];
  users = [];
  devices = [];
  items = [];
  blobs = [];
  invites = [];
  recovery_keys = [];
  retired = [];
}
