-- ===== src/System.antt =====
-- The server as a system: every request that writes and every job of the timers as a step from one
-- state of the database and the disk to the next. The steps are taken one after another, which is an
-- assumption: the server runs handlers side by side. The one connection of the write pool orders the
-- transactions only. A handler's reads on the read pool may see an older state than its transaction,
-- and a collection is a transaction for each blob with the removal of the file after it; here each of
-- them is one step. `Blobs.Handlers.Race` has an upload between the two halves of a collection.
pub mod Kept
pub mod Stepwise
pub mod Blind
pub mod Accounts
pub mod Members
pub mod Content
pub mod Requests
pub mod Apart
pub mod Keyed
pub mod Staffed
pub mod Sound
pub mod Served
use familycards.Prelude.{ℕ, ℤ, String, Bool, Option, []}
use familycards.Http.{Bytes, Body}
use familycards.Store.{Blob, Db, empty_db}
use familycards.Auth.Context.{Context}
use familycards.Auth.Services.{Services}
use familycards.Auth.Repository.{Draw}
use familycards.Auth.Bootstrap.{BootstrapRequest, bootstrap_server}
use familycards.Auth.Session.{LoginRequest, RefreshRequest, login, refresh, logout}
use familycards.Auth.Account.{PasswordChangeRequest, change_password}
use familycards.Auth.Recovery.{RecoveryRedeemRequest, recovery_redeem}
use familycards.Membership.Invites.{CreateInviteRequest, create_invite, delete_invite}
use familycards.Membership.Redeem.{RedeemInviteRequest, redeem_invite}
use familycards.Membership.Members.{remove_member}
use familycards.Sync.Repository.{delete_tombstones_older_than}
use familycards.Sync.Wire.{PushRequest}
use familycards.Sync.Push.{push}
use familycards.Blobs.Handlers.{Server, ReadBody, upload}
use familycards.Blobs.Gc.{run_gc}

-- How the server was started.
pub record Setup : Type 0 where
  pub services : Services
  pub secret : String
  pub bootstrap_token : String
  pub base_dir : String
  pub sha256_hex : Bytes → String
  pub trim_space : String → String

-- The requests that write, with what they draw.
pub data Request : Type 0 where
  post_bootstrap : String → Draw → Bytes → Bytes → String → Body BootstrapRequest → Request
  post_login : Draw → String → Body LoginRequest → Request
  post_refresh : ℕ → String → Body RefreshRequest → Request
  post_logout : Body RefreshRequest → Request
  post_password : Bytes → Context → Body PasswordChangeRequest → Request
  post_recovery : Draw → Bytes → String → Body RecoveryRedeemRequest → Request
  post_invite : ℕ → Context → Body CreateInviteRequest → Request
  invite_delete : Context → String → Request
  post_redeem : Draw → Bytes → String → String → Body RedeemInviteRequest → Request
  member_delete : Context → String → Request
  post_push : Context → Body PushRequest → Request

abbrev pub empty_server : Server
empty_server = record { db = empty_db; files = [] }

module _ (setup : Setup) where
  open setup use {services, secret, bootstrap_token, base_dir, sha256_hex, trim_space}

  -- The database after a request.
  unfoldable pub handle : Request → Db → Db
  handle (post_bootstrap presented draw salt recovery_salt raw body) db =
      (bootstrap_server services secret bootstrap_token presented draw salt recovery_salt raw body
        db).1
  handle (post_login draw raw body) db = (login services secret draw raw body db).1
  handle (post_refresh now raw body) db = (refresh services secret now raw body db).1
  handle (post_logout body) db = (logout services secret body db).1
  handle (post_password salt ctx body) db = (change_password services salt ctx body db).1
  handle (post_recovery draw salt raw body) db =
      (recovery_redeem services secret draw salt raw body db).1
  handle (post_invite now ctx body) db = (create_invite services.b64 now ctx body db).1
  handle (invite_delete ctx code_hash) db = (delete_invite ctx code_hash db).1
  handle (post_redeem draw salt raw code_hash body) db =
      (redeem_invite services secret draw salt raw code_hash body db).1
  handle (member_delete ctx target_id) db = (remove_member ctx target_id db).1
  handle (post_push ctx body) db = (push services.b64 ctx body db).1

  pub data Step : Server → Server → Type 0 where
    request : (r : Request) (s : Server) → Step s (record s { db = handle r s.db })
    uploaded :
        (fails : Bool) (now : ℕ) (ctx : Context) (claimed_id : String) (body : ReadBody)
        (s : Server)
        → Step s (upload base_dir sha256_hex fails now ctx claimed_id body s).1
    -- the timer of `runBlobGC`
    collected :
        (fails : Blob → Bool) (now : ℕ) (s : Server)
        → Step s (run_gc base_dir fails trim_space now s).0
    -- the timer of `cleanupTombstones`
    purged :
        (cutoff : ℤ) (s : Server)
        → Step s (record s { db = (delete_tombstones_older_than cutoff s.db).0 })

  -- The states that the server can get to from an empty data directory.
  pub data Reach : Server → Type 0 where
    start : Reach empty_server
    later : {s t : Server} → Reach s → Step s t → Reach t
