-- ===== src/Blobs/Files.antt =====
-- The files of the blobs: server/internal/blobs/store.go. A path is the list of its components
-- below each other, and the disk is the list of its files. A write that fails leaves what was at
-- the path (the rename is the last step), and the environment says which calls fail.
pub mod Laws
use Prim.Native.String.{len, slice}
use familycards.Prelude.{
  ℕ, ltb, String, ◌==◌, ◌≡◌, refl, Bool, true, false, ◌&&◌, Option, none, some, List, [], ◌∷◌, ◌++◌,
  is_some, arith, eq_refl, if◌then◌else◌,
}
use familycards.Prelude.Table.{find, delete, insert}
use familycards.Http.{Bytes, Error, Result, ok, err, other, not_found}

abbrev pub FilePath : Type 0
FilePath = List String

pub record File : Type 0 where
  pub path : FilePath
  pub content : Bytes

abbrev pub path_beq : FilePath → FilePath → Bool
path_beq [] [] = true
path_beq [] (y ∷ ys) = false
path_beq (x ∷ xs) [] = false
path_beq (x ∷ xs) (y ∷ ys) = x == y && path_beq xs ys

abbrev pub is_at : FilePath → File → Bool
is_at p f = path_beq f.path p

module _ (base_dir : String) where
  unfoldable pub path_of : String → String → FilePath
  path_of vault_id blob_id =
      if ltb (len blob_id) 4
      then base_dir ∷ vault_id ∷ blob_id ∷ []
      else base_dir ∷ vault_id ∷ slice blob_id 0 2 ∷ slice blob_id 2 4 ∷ blob_id ∷ []

  unfoldable pub file_exists : String → String → List File → Bool
  unfolding path_of
  file_exists vault_id blob_id files = is_some (find (is_at (path_of vault_id blob_id)) files)

  -- `fails` says whether the write fails before its rename.
  unfoldable pub write_file : Bool → String → String → Bytes → List File → Result (List File)
  unfolding path_of
  write_file fails vault_id blob_id content files =
      if fails
      then err other
      else ok (
          insert (record { path = path_of vault_id blob_id; content = content })
            (delete (is_at (path_of vault_id blob_id)) files))

  unfoldable pub read_file : String → String → List File → Result Bytes
  unfolding path_of
  read_file vault_id blob_id files = elim (find (is_at (path_of vault_id blob_id)) files) [
    | none ↦ err not_found
    | some f ↦ ok f.content
  ]

  -- A missing file is no error.
  unfoldable pub delete_file : Bool → String → String → List File → Result (List File)
  unfolding path_of
  delete_file fails vault_id blob_id files =
      if fails then err other else ok (delete (is_at (path_of vault_id blob_id)) files)
