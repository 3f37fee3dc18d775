-- ===== src/Tests/HostRuns.antt =====
-- A driver whose calls fail, a certificate that is served twice, a handler that panics, an archive of one
-- file, and a recovery beside another member's device.
use familycards.Prelude.{
  ℕ, ◌+◌, ◌==◌, ◌≡◌, refl, true, false, ◌&&◌, none, some, [], ◌∷◌, if◌then◌else◌,
}
use familycards.Prelude.Table.{count, exists}
use familycards.Store.{User}
use familycards.Auth.Recovery.Count.{is_active_other, recover_tx-count}
use familycards.Auth.Repository.{count_active_devices}
use familycards.Store.Pools.{Driver, write_pool, read_pool, Settled, open_pools, open_pools-Settled}
use familycards.Wallet.Fingerprints.{X509, Handed, log_lines, shows, log_lines_once}
use familycards.Router.Response.{
  write_header, write_body, Handling, status_sent, recover, recover_answers,
}
use familycards.Admin.Archive.{
  Entry, Visit, Archiver, walk, add_file, files_of, is_regular, archive_blob_dir,
  archive_blob_dir_complete,
}
use familycards.Tests.AccountRuns.{db, draw}
use familycards.Tests.ServerRuns.{recovered, db_recovered, recovers}

-- The read pool does not answer.
abbrev half_open : Driver
half_open = record {
  opens = λ dsn. true;
  pings = λ p. elim p [ write_pool d n ↦ true | read_pool d n ↦ false ];
  closes = λ p. false;
}

open_pools-Settled_example : Settled half_open (open_pools half_open "wallet.db")
open_pools-Settled_example = open_pools-Settled half_open "wallet.db"

abbrev plain_x509 : X509
plain_x509 = record {
  sha256 = λ b. b;
  hex_byte = λ n. "0";
  join = λ parts sep. "print";
  parses = λ der. true;
}

abbrev served : Handed
served = record {
  certificate = some (record { chain = (1 ∷ []) ∷ []; leaf = none });
  failed = false;
}

log_lines_once_example :
    count (λ s. s == "print") (log_lines plain_x509 (served ∷ served ∷ []) [])
    ≡ (if exists (shows plain_x509 "print") (served ∷ served ∷ []) then 1 else 0)
log_lines_once_example = log_lines_once plain_x509 "print" (served ∷ served ∷ [])

-- It has sent a status and a part of the body.
abbrev breaking : Handling
breaking = record { acts = write_header 200 ∷ write_body (7 ∷ []) ∷ []; panics = true }

recover_answers_example :
    (status_sent (recover (8 ∷ []) breaking).0 ≡ 200) × ((recover (8 ∷ []) breaking).1 ≡ none)
recover_answers_example = recover_answers (8 ∷ []) breaking tt

abbrev folder : Visit
folder = record {
  walk_fails = false;
  is_dir = true;
  relative = some ".";
  header_fails = false;
  opened = none;
  copy_fails = false;
}

abbrev photo : Visit
photo = record folder { is_dir = false; relative = some "v/ab/cd/abcd"; opened = some (1 ∷ []) }

abbrev disk : Archiver
disk = record {
  creates = λ dest. true;
  exists_dir = λ dir. true;
  visits = λ dir. folder ∷ photo ∷ [];
  finish = λ entries. some 512;
}

abbrev photo_entry : Entry
photo_entry = record { name = "v/ab/cd/abcd"; content = 1 ∷ [] }

archived : archive_blob_dir disk "blobs" "blobs.tar.gz" ≡ some (512, photo_entry ∷ [])
unfolding archive_blob_dir walk add_file
archived = refl

archive_blob_dir_complete_example :
    (photo_entry ∷ [] ≡ files_of (folder ∷ photo ∷ []))
    × (Path ℕ 1 (count is_regular (folder ∷ photo ∷ [])))
archive_blob_dir_complete_example =
    archive_blob_dir_complete disk "blobs" "blobs.tar.gz" 512 (photo_entry ∷ []) refl archived

ann_is_member : exists (λ (u : User). u.id == "ann" && u.vault_id == "v") db.users ≡ true
unfolding exists
ann_is_member = refl

recover_tx-count_example :
    count_active_devices "v" db_recovered
    ≡ count (is_active_other "v" "ann" db.users) db.devices + 1
recover_tx-count_example =
    recover_tx-count draw recovered "hash" "laptop" "v" db db_recovered recovers ann_is_member
