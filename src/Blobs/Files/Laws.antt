-- ===== src/Blobs/Files/Laws.antt =====
-- The paths of server/internal/blobs/store.go, and reading after writing and deleting.
use familycards.Prelude.{
  String, ◌≡◌, refl, Bool, true, false, none, some, List, [], ◌∷◌, ◌++◌, arith, eq_iff, eq_refl,
}
use familycards.Prelude.Table.{find, delete, find-append}
use familycards.Http.{Bytes, ok, err, not_found}
use familycards.Blobs.Files.{
  FilePath, File, path_beq, is_at, path_of, file_exists, write_file, read_file, delete_file,
}

pub path_beq_refl : (p : FilePath) → path_beq p p ≡ true
path_beq_refl [] = refl
path_beq_refl (x ∷ p) = rw (eq_refl, path_beq_refl p)

pub path_beq→≡ : (p q : FilePath) → path_beq p q ≡ true → p ≡ q
path_beq→≡ [] [] h = refl
path_beq→≡ [] (y ∷ q) h = cc
path_beq→≡ (x ∷ p) [] h = cc
path_beq→≡ (x ∷ p) (y ∷ q) h = ground (arith, eq_iff x y, path_beq→≡ p q)

-- Two blobs at the same path below one base directory are in the same vault and have the same id.
pub path_of_inj :
    (base_dir v w a b : String) → path_of base_dir v a ≡ path_of base_dir w b → (v ≡ w) × (a ≡ b)
unfolding path_of
path_of_inj base_dir v w a b h = ground arith

find-delete_self : (p : File → Bool) (fs : List File) → find p (delete p fs) ≡ none
unfolding find delete
find-delete_self p [] = refl
find-delete_self p (f ∷ fs) = ground (arith, find-delete_self p fs)

find-one : (p : FilePath) (f : File) → f.path ≡ p → find (is_at p) (f ∷ []) ≡ some f
unfolding find
find-one p f e = rw (e, path_beq_refl p)

module _ (base_dir v id : String) where
  -- A file that was removed is not there.
  pub file_exists-delete_file :
      (fs after : List File)
      → delete_file base_dir false v id fs ≡ ok after
      → file_exists base_dir v id after ≡ false
  unfolding delete_file file_exists
  file_exists-delete_file fs after h =
      ground (arith, find-delete_self (is_at (path_of base_dir v id)) fs)

  -- A file that is not there is not read.
  pub read_file-absent :
      (fs : List File)
      → file_exists base_dir v id fs ≡ false
      → read_file base_dir v id fs ≡ err not_found
  unfolding file_exists read_file
  read_file-absent fs h = ground arith

  -- After a write that succeeds, a read of the same blob returns the content that was written.
  pub read_file-write_file :
      (content : Bytes) (fs after : List File)
      → write_file base_dir false v id content fs ≡ ok after
      → read_file base_dir v id after ≡ ok content
  unfolding write_file read_file
  read_file-write_file content fs after h =
      let p = path_of base_dir v id in
      let f : File = record { path = p; content = content } in
      let found : find (is_at p) (delete (is_at p) fs ++ f ∷ []) ≡ some f =
        rw (find-append (is_at p) (delete (is_at p) fs) (f ∷ []), find-delete_self (is_at p) fs)
          (find-one p f refl) in
      ground (arith, found)
