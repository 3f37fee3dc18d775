-- ===== src/Admin.antt =====
-- The backup endpoint: server/internal/admin/backup.go, its checks and the text of its statement. What
-- the host makes of the paths is a parameter.
pub mod Literal
pub mod Archive
use Prim.Native.Char.{Char, code}
use Prim.Native.String.{◌++◌ as ◌<>◌}
use familycards.Prelude.{
  ℕ, nat_beq, String, ◌==◌, Bool, true, false, not, Option, none, some, List, if◌then◌else◌,
}
use familycards.Http.{Result, ok, err, Reply, json, write_error, unauthorized, missing, internal}
use familycards.Admin.Archive.{Entry, Archiver, archive_blob_dir}

pub record BackupResponse : Type 0 where
  pub database_backup_path : String
  pub database_size : ℕ
  pub blob_archive_path : String
  pub blob_archive_size : ℕ

abbrev pub is_quote : Char → Bool
is_quote c = nat_beq (code c) 39

unfoldable pub escape_sqlite_string : String → String
escape_sqlite_string String.[] = String.[]
escape_sqlite_string (String.◌∷◌ c s) =
    let rest = escape_sqlite_string s in
    if is_quote c then String.◌∷◌ c (String.◌∷◌ c rest) else String.◌∷◌ c rest

-- The statement of `vacuumInto`.
unfoldable pub vacuum_statement : String → String
unfolding escape_sqlite_string
vacuum_statement path = "VACUUM INTO " <> ("'" <> (escape_sqlite_string path <> "'"))

-- What the host makes of the paths: `none` is an error, and else the size of the file.
pub record Host : Type 0 where
  pub make_dir : String → Bool
  pub join : String → String → String
  pub execute : String → Bool
  pub file_size : String → Option ℕ
  pub archiver : Archiver

module _ (host : Host) (db_dir blob_dir : String) where
  open host use {make_dir, join, execute, file_size, archiver}

  abbrev pub archived : String → ℕ → String → Option (ℕ × List Entry) → Reply BackupResponse
  archived db_path db_size blob_path none =
      write_error (internal "failed to archive blob directory")
  archived db_path db_size blob_path (some (blob_size, entries)) = json 200 (record {
    database_backup_path = db_path;
    database_size = db_size;
    blob_archive_path = blob_path;
    blob_archive_size = blob_size;
  })

  abbrev pub measured : String → String → Option ℕ → Reply BackupResponse
  measured db_path blob_path none = write_error (internal "backup file missing after creation")
  measured db_path blob_path (some db_size) =
      archived db_path db_size blob_path (archive_blob_dir archiver blob_dir blob_path)

  -- `at` is the time of the request as the file names show it.
  unfoldable pub back_up : String → Reply BackupResponse
  unfolding vacuum_statement archive_blob_dir
  back_up at =
      let backup_dir = join db_dir "backups" in
      let db_path = join backup_dir ("wallet-" <> (at <> ".db")) in
      if not (make_dir backup_dir)
      then write_error (internal "failed to create backup directory")
      else if not (execute (vacuum_statement db_path))
      then write_error (internal "failed to back up database")
      else measured db_path (join backup_dir ("blobs-" <> (at <> ".tar.gz"))) (file_size db_path)

  unfoldable pub backup : String → String → String → Reply BackupResponse
  unfolding back_up
  backup admin_token presented at =
      if admin_token == ""
      then write_error (missing "not found")
      else if not (admin_token == presented)
      then write_error (unauthorized "invalid admin token")
      else back_up at
