-- ===== src/Migrations.antt =====
-- The migrations: server/internal/migrations/migrations.go. What a script does to the schema is the
-- parameter `exec`, and what the code calls of Go's strings and strconv is the parameter `Names`. The
-- read of the embedded directory and of its files does not fail.
pub mod Rerun
use familycards.Prelude.{
  ℕ, ℤ, ltb_ℤ, beq_ℤ, String, Bool, true, false, not, ◌&&◌, ◌||◌, Option, none, some, List, [], ◌∷◌,
  if◌then◌else◌,
}
use familycards.Prelude.Table.{exists, insert}
use familycards.Http.{Error, other, Result, ok, err, ◌>>=◌}

pub record Names : Type 0 where
  pub has_suffix : String → String → Bool
  pub trim_suffix : String → String → String
  -- strings.SplitN(s, "_", 2)
  pub split_underscore : String → List String
  pub atoi : String → Option ℤ

-- An entry of the embedded directory.
pub record DirEntry : Type 0 where
  pub name : String
  pub is_dir : Bool
  pub content : String

pub record Migration : Type 0 where
  pub version : ℤ
  pub name : String
  pub filename : String
  pub sql : String

-- What the scripts change, and the table schema_migrations.
pub record Tracked (Schema : Type 0) : Type 0 where
  pub schema : Schema
  pub versions : List ℤ

abbrev pub is_applied : List ℤ → ℤ → Bool
is_applied versions v = exists (beq_ℤ v) versions

abbrev pub insert_migration : Migration → List Migration → List Migration
insert_migration m [] = m ∷ []
insert_migration m (x ∷ xs) =
    let rest = insert_migration m xs in if ltb_ℤ x.version m.version then x ∷ rest else m ∷ x ∷ xs

-- sort.Slice by version
unfoldable pub sort_migrations : List Migration → List Migration
sort_migrations [] = []
sort_migrations (m ∷ ms) = insert_migration m (sort_migrations ms)

module _ (names : Names) where
  open names use {has_suffix, trim_suffix, split_underscore, atoi}

  abbrev pub version_of : Option ℤ → String → Result (ℤ × String)
  version_of none name = err other
  version_of (some version) name = ok (version, name)

  abbrev pub parse_parts : List String → Result (ℤ × String)
  parse_parts (version ∷ name ∷ []) = version_of (atoi version) name
  parse_parts _ = err other

  unfoldable pub parse_filename : String → Result (ℤ × String)
  parse_filename filename = parse_parts (split_underscore (trim_suffix filename ".sql"))

  unfoldable pub read_all : List DirEntry → Result (List Migration)
  unfolding parse_filename
  read_all [] = ok []
  read_all (e ∷ entries) =
      let rest = read_all entries in
      if e.is_dir || not (has_suffix e.name ".sql")
      then rest
      else (parse_filename e.name >>= λ parsed. rest >>= λ migs. ok (
          record { version = parsed.0; name = parsed.1; filename = e.name; sql = e.content }
          ∷ migs))

  unfoldable pub load : List DirEntry → Result (List Migration)
  unfolding read_all sort_migrations
  load entries = read_all entries >>= λ migs. ok (sort_migrations migs)

module _ {Schema : Type 0} (exec : String → Schema → Option Schema) where
  -- INSERT INTO schema_migrations: the version is the primary key.
  abbrev pub record_version : ℤ → List ℤ → Option Schema → Option (Tracked Schema)
  record_version v versions none = none
  record_version v versions (some schema) =
      if is_applied versions v
      then none
      else some (record { schema = schema; versions = insert v versions })

  -- `applyOne`: nothing is changed where it fails.
  unfoldable pub apply_one : Migration → Tracked Schema → Option (Tracked Schema)
  apply_one m t = record_version m.version t.versions (exec m.sql t.schema)

  -- An error ends the loop.
  abbrev pub go_on :
      (Tracked Schema → Tracked Schema × Result (Unit {0}))
      → Tracked Schema
      → Option (Tracked Schema)
      → Tracked Schema × Result (Unit {0})
  go_on rest t none = (t, err other)
  go_on rest t (some t') = rest t'

  -- The loop of `Apply`: the database after it, and the error that ended it, if one did.
  unfoldable pub apply_all :
      List ℤ → List Migration → Tracked Schema → Tracked Schema × Result (Unit {0})
  unfolding apply_one
  apply_all applied [] t = (t, ok tt)
  apply_all applied (m ∷ ms) t =
      let rest = apply_all applied ms in
      if is_applied applied m.version then rest t else go_on rest t (apply_one m t)

  abbrev pub apply_loaded :
      Result (List Migration) → Tracked Schema → Tracked Schema × Result (Unit {0})
  apply_loaded (err e) t = (t, err e)
  apply_loaded (ok migs) t = apply_all t.versions migs t

  -- `Apply`: the versions are read once, before the loop.
  unfoldable pub apply : Names → List DirEntry → Tracked Schema → Tracked Schema × Result (Unit {0})
  unfolding load apply_all
  apply names entries t = apply_loaded (load names entries) t
