-- ===== src/Admin/Literal.antt =====
-- The text literal in the statement of a backup: server/internal/admin/backup.go.
use Prim.Native.Char.{Char}
use Prim.Native.String.append
use Prim.Native.String.{◌++◌ as ◌<>◌}
use familycards.Prelude.{
  String, ◌≡◌, refl, ap, ◌∙◌, inl, inr, Bool, true, false, Option, none, some, if◌then◌else◌,
  Bool-cases,
}
use familycards.Admin.{is_quote, escape_sqlite_string}

abbrev in_front : Char → Option (String × String) → Option (String × String)
in_front c none = none
in_front c (some (t, s)) = some (String.◌∷◌ c t, s)

-- SQLite's reading of a text literal behind its first quote: a doubled quote stands for one, and a
-- single one ends it. The flag tells that a quote was just read. The text and what is behind it.
unfoldable pub read_literal : Bool → String → Option (String × String)
read_literal true String.[] = some (String.[], String.[])
read_literal false String.[] = none
read_literal true (String.◌∷◌ c rest) =
    let more = in_front c (read_literal false rest) in
    if is_quote c then more else some (String.[], String.◌∷◌ c rest)
read_literal false (String.◌∷◌ c rest) =
    let closed = read_literal true rest in
    let more = in_front c (read_literal false rest) in if is_quote c then closed else more

module _ (c : Char) (rest : String) where
  read_literal-quote :
      is_quote c ≡ true → read_literal false (String.◌∷◌ c rest) ≡ read_literal true rest
  unfolding read_literal
  read_literal-quote q = rw q refl

  read_literal-doubled :
      is_quote c ≡ true
      → read_literal true (String.◌∷◌ c rest) ≡ in_front c (read_literal false rest)
  unfolding read_literal
  read_literal-doubled q = rw q refl

  read_literal-plain :
      is_quote c ≡ false
      → read_literal false (String.◌∷◌ c rest) ≡ in_front c (read_literal false rest)
  unfolding read_literal
  read_literal-plain q = rw q refl

closing : read_literal false "'" ≡ some (String.[], String.[])
unfolding read_literal
closing = refl

-- The escaped text between quotes is read as one literal that is the text, with nothing behind it.
pub read_literal-escape :
    (s : String) → read_literal false (escape_sqlite_string s <> "'") ≡ some (s, String.[])
unfolding escape_sqlite_string
read_literal-escape String.[] = closing
read_literal-escape (String.◌∷◌ c s) = elim (Bool-cases (is_quote c)) [
  | inl quote ↦
      rw
        (
          quote,
          append.cons c (String.◌∷◌ c (escape_sqlite_string s)) "'",
          append.cons c (escape_sqlite_string s) "'",
        )
        (read_literal-quote c _ quote
          ∙ read_literal-doubled c _ quote
          ∙ ap (in_front c) (read_literal-escape s))
  | inr plain ↦
      rw (plain, append.cons c (escape_sqlite_string s) "'")
        (read_literal-plain c _ plain ∙ ap (in_front c) (read_literal-escape s))
]
