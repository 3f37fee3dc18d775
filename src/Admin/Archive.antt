-- ===== src/Admin/Archive.antt =====
-- The archive of the blob directory: `archiveBlobDir` of server/internal/admin/backup.go. What
-- filepath.Walk visits, and which calls fail, is the parameter `Archiver`; the archive is the list of
-- the entries that were written to it.
use familycards.Prelude.{
  ℕ, String, ◌≡◌, refl, inl, inr, Bool, true, false, not, Option, none, some, List, [], ◌∷◌, ◌++◌,
  ◌+◌, length, length-append, ap, sym, ◌∙◌, arith, Bool-cases, Option-cases, if◌then◌else◌,
}
use mathlib.Core.List.{append-nil, append_assoc}
use familycards.Prelude.Table.{count}
use familycards.Http.{Bytes, Result, ok, err, other, result-inj, unless-ok}

pub record Entry : Type 0 where
  pub name : String
  pub content : Bytes

-- A call of the function that is passed to filepath.Walk, and what the calls in it return.
pub record Visit : Type 0 where
  pub walk_fails : Bool
  pub is_dir : Bool
  -- filepath.Rel and filepath.ToSlash
  pub relative : Option String
  -- tar.FileInfoHeader and WriteHeader
  pub header_fails : Bool
  -- os.Open, and the bytes that are there
  pub opened : Option Bytes
  pub copy_fails : Bool

pub record Archiver : Type 0 where
  pub creates : String → Bool
  pub exists_dir : String → Bool
  pub visits : String → List Visit
  -- the two Close calls and Stat: the size of the archive
  pub finish : List Entry → Option ℕ

abbrev pub copy_content : Visit → String → List Entry → Option Bytes → Result (List Entry)
copy_content v name entries none = err other
copy_content v name entries (some content) =
    if v.copy_fails
    then err other
    else ok (entries ++ (record { name = name; content = content }) ∷ [])

abbrev pub write_entry : Visit → List Entry → Option String → Result (List Entry)
write_entry v entries none = err other
write_entry v entries (some name) =
    if v.header_fails then err other else copy_content v name entries v.opened

-- The function that is passed to filepath.Walk.
unfoldable pub add_file : Visit → List Entry → Result (List Entry)
add_file v entries =
    if v.walk_fails
    then err other
    else if v.is_dir
    then ok entries
    else write_entry v entries v.relative

abbrev pub next_visit :
    Result (List Entry) → (List Entry → Result (List Entry)) → Result (List Entry)
next_visit (err e) rest = err e
next_visit (ok entries) rest = rest entries

-- filepath.Walk stops at the first error.
unfoldable pub walk : List Visit → List Entry → Result (List Entry)
unfolding add_file
walk [] entries = ok entries
walk (v ∷ vs) entries = next_visit (add_file v entries) (λ more. walk vs more)

abbrev pub sized : List Entry → Option ℕ → Option (ℕ × List Entry)
sized entries none = none
sized entries (some size) = some (size, entries)

module _ (archiver : Archiver) where
  open archiver use {creates, exists_dir, visits, finish}

  abbrev pub closed : Result (List Entry) → Option (ℕ × List Entry)
  closed (err e) = none
  closed (ok entries) = sized entries (finish entries)

  -- The size of the archive, with its entries; `none` is an error.
  unfoldable pub archive_blob_dir : String → String → Option (ℕ × List Entry)
  unfolding walk
  archive_blob_dir blob_dir dest =
      if not (creates dest)
      then none
      else closed (if exists_dir blob_dir then walk (visits blob_dir) [] else ok [])

-- The files that a walk comes by.
abbrev pub entry_of : Option String → Option Bytes → List Entry
entry_of none o = []
entry_of (some name) none = []
entry_of (some name) (some content) = (record { name = name; content = content }) ∷ []

unfoldable pub files_of : List Visit → List Entry
files_of [] = []
files_of (v ∷ vs) =
    let rest = files_of vs in if v.is_dir then rest else entry_of v.relative v.opened ++ rest

abbrev pub is_regular : Visit → Bool
is_regular v = not v.is_dir

-- What a call that succeeds has added.
abbrev Added : Visit → List Entry → List Entry → Type 0
Added v entries out =
    (out ≡ entries ++ files_of (v ∷ [])) × (length (files_of (v ∷ [])) ≡ count is_regular (v ∷ []))

copy_content-Added :
    (v : Visit) (name : String) (entries out : List Entry)
    → v.is_dir ≡ false
    → v.relative ≡ some name
    → copy_content v name entries v.opened ≡ ok out
    → Added v entries out
unfolding files_of count
copy_content-Added v name entries out regular named h = elim (Option-cases v.opened) [
  | inl closed ↦ let x = rw closed at h in cc
  | inr (content, opened) ↦
      let copied = unless-ok v.copy_fails other (ok _) out (rw opened at h) in
      rw (regular, named, opened) (sym (result-inj _ out copied.1), refl)
]

write_entry-Added :
    (v : Visit) (entries out : List Entry)
    → v.is_dir ≡ false
    → write_entry v entries v.relative ≡ ok out
    → Added v entries out
write_entry-Added v entries out regular h = elim (Option-cases v.relative) [
  | inl absent ↦ let x = rw absent at h in cc
  | inr (name, named) ↦
      let written = unless-ok v.header_fails other _ out (rw named at h) in
      copy_content-Added v name entries out regular named written.1
]

add_file-Added :
    (v : Visit) (entries out : List Entry) → add_file v entries ≡ ok out → Added v entries out
unfolding add_file files_of count
add_file-Added v entries out h = elim (Bool-cases v.is_dir) [
  | inl dir ↦
      let kept = unless-ok v.walk_fails other _ out (rw dir at h) in
      rw dir (sym (result-inj entries out kept.1) ∙ sym (append-nil entries), refl)
  | inr regular ↦
      let k = unless-ok v.walk_fails other _ out (rw regular at h) in
      write_entry-Added v entries out regular k.1
]

next_visit-ok :
    (r : Result (List Entry)) (rest : List Entry → Result (List Entry)) (out : List Entry)
    → next_visit r rest ≡ ok out
    → (mid : List Entry) × (r ≡ ok mid) × (rest mid ≡ ok out)
next_visit-ok (err e) rest out h = cc
next_visit-ok (ok mid) rest out h = (mid, refl, h)

files_of-cons : (v : Visit) (vs : List Visit) → files_of (v ∷ vs) ≡ files_of (v ∷ []) ++ files_of vs
unfolding files_of
files_of-cons v vs = elim (Bool-cases v.is_dir) [
  | inl dir ↦ rw dir refl
  | inr regular ↦ rw (regular, append-nil (entry_of v.relative v.opened)) refl
]

count-cons :
    (v : Visit) (vs : List Visit)
    → count is_regular (v ∷ vs) ≡ count is_regular (v ∷ []) + count is_regular vs
unfolding count
count-cons v vs = ground arith

walk-files :
    (vs : List Visit) (entries out : List Entry)
    → walk vs entries ≡ ok out
    → (out ≡ entries ++ files_of vs) × (length (files_of vs) ≡ count is_regular vs)
unfolding walk files_of count
walk-files [] entries out h = (sym (result-inj entries out h) ∙ sym (append-nil entries), refl)
walk-files (v ∷ vs) entries out h =
    let (mid, first, then_rest) = next_visit-ok (add_file v entries) (λ more. walk vs more) out h in
    let one = add_file-Added v entries mid first in
    let rest = walk-files vs mid out then_rest in
    let more : length (files_of (v ∷ []) ++ files_of vs) ≡ count is_regular (v ∷ vs) =
      omega
        (arith, length-append (files_of (v ∷ [])) (files_of vs), one.1, rest.1, count-cons v vs) in
    (
      rest.0
          ∙ ap (λ es. es ++ files_of vs) one.0
          ∙ append_assoc entries (files_of (v ∷ [])) (files_of vs)
          ∙ ap (λ es. entries ++ es) (sym (files_of-cons v vs)),
      ap length (files_of-cons v vs) ∙ more,
    )

module _ (archiver : Archiver) where
  open archiver use {creates, exists_dir, visits, finish}

  sized-some :
      (es entries : List Entry) (o : Option ℕ) (size : ℕ)
      → sized es o ≡ some (size, entries)
      → es ≡ entries
  sized-some es entries none size h = cc
  sized-some es entries (some n) size h = cc

  closed-some :
      (r : Result (List Entry)) (size : ℕ) (entries : List Entry)
      → closed archiver r ≡ some (size, entries)
      → r ≡ ok entries
  closed-some (err e) size entries h = cc
  closed-some (ok es) size entries h = ap ok (sized-some es entries (finish es) size h)

  -- An archive of a blob directory that is reported has all of its files: its entries are the regular
  -- files that the walk comes by with their contents, in its order, one for each and nothing else.
  pub archive_blob_dir_complete :
      (blob_dir dest : String) (size : ℕ) (entries : List Entry)
      → exists_dir blob_dir ≡ true
      → archive_blob_dir archiver blob_dir dest ≡ some (size, entries)
      → (entries ≡ files_of (visits blob_dir))
        × (length entries ≡ count is_regular (visits blob_dir))
  unfolding archive_blob_dir
  archive_blob_dir_complete blob_dir dest size entries there h = elim (Bool-cases (creates dest)) [
    | inr broken ↦ let x = rw broken at h in cc
    | inl created ↦
        let walked =
          closed-some (walk (visits blob_dir) []) size entries (rw (created, there) at h) in
        let all = walk-files (visits blob_dir) [] entries walked in (all.0, ap length all.0 ∙ all.1)
  ]
