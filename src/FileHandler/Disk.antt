-- ===== src/FileHandler/Disk.antt =====
-- `std::fs` as client/src/file_handler.rs uses it: files by their path, and the directories that
-- exist. An operation keeps what it has done to the disk also where it fails or panics.
use Prim.Native.String.{String}
use bear_torrent_final_proje.Base.{
  ℕ, zero, suc, ◌+◌, Bool, true, false, ◌||◌, Option, none, some, List, [], ◌∷◌, Outcome, ok, err,
  panicked, if◌then◌else◌, leb, ◌==◌, length, take, drop, eqb, bytes_eq,
}
use bear_torrent_final_proje.Base.Dict.{Dict, lookup, insert, erase}
use bear_torrent_final_proje.Proto.{Text, Bytes}

pub data IoError : Type 0 where
  not_found invalid_data unexpected_eof : IoError
  other : String → IoError

pub record Disk : Type 0 where
  pub dirs : List Text
  pub files : Dict Text Bytes

abbrev pub Io : Type 0 → Type 0
Io A = Disk → Outcome IoError A × Disk

abbrev pub continue : {A B : Type 0} → (A → Io B) → Outcome IoError A → Io B
continue f (ok a) d = f a d
continue f (err e) d = (err e, d)
continue f panicked d = (panicked, d)

infixl 5 ◌>>=◌ ◌>>◌
abbrev pub ◌>>=◌ : {A B : Type 0} → Io A → (A → Io B) → Io B
◌>>=◌ m f d = let (r, d') = m d in continue f r d'

abbrev pub ◌>>◌ : {B : Type 0} → Io (Unit {0}) → Io B → Io B
m >> k = m >>= λ _. k

abbrev pub pure : {A : Type 0} → A → Io A
pure a d = (ok a, d)

abbrev pub fail : {A : Type 0} → IoError → Io A
fail e d = (err e, d)

-- `Result::unwrap`.
abbrev pub unwrapped : {A : Type 0} → Outcome IoError A → Outcome IoError A
unwrapped (ok a) = ok a
unwrapped (err e) = panicked
unwrapped panicked = panicked

abbrev pub unwrap_io : {A : Type 0} → Io A → Io A
unwrap_io m d = let (r, d') = m d in (unwrapped r, d')

-- An index check.
abbrev pub check : Bool → Io (Unit {0})
check true d = (ok tt, d)
check false d = (panicked, d)

abbrev pub content_of : Disk → Text → Option Bytes
content_of d path = lookup path d.files

-- `exists`, for a path that names no directory.
unfoldable pub exists : Text → Disk → Bool
exists path d = elim (content_of d path) [ none ↦ false | some content ↦ true ]

unfoldable pub has_dir : List Text → Text → Bool
has_dir [] dir = false
has_dir (d ∷ dirs) dir = eqb d dir || has_dir dirs dir

unfoldable pub has_slash : Text → Bool
has_slash [] = false
has_slash (c ∷ cs) = c == b'/' || has_slash cs

-- The part of a path before its last slash.
unfoldable pub parent : Text → Text
unfolding has_slash
parent [] = []
parent (c ∷ cs) = let rest = parent cs in if has_slash cs then c ∷ rest else []

-- `create_dir_all` for a directory of the client.
unfoldable pub create_dir_all : Text → Io (Unit {0})
create_dir_all dir d = (ok tt, if has_dir d.dirs dir then d else record d { dirs = dir ∷ d.dirs })

abbrev pub store : Text → Bytes → Disk → Disk
store path content d = record d { files = insert path content d.files }

-- `File::create` makes an empty file in a directory that exists.
unfoldable pub create : Text → Io (Unit {0})
create path d =
    if has_dir d.dirs (parent path) then (ok tt, store path [] d) else (err not_found, d)

-- What a file holds when it is opened.
unfoldable pub read_file : Text → Io Bytes
read_file path d = elim (content_of d path) [
  | some content ↦ (ok content, d)
  | none ↦ (err not_found, d)
]

-- `seek` to an offset and `write_all`: a gap is filled with zeros, and an empty write does nothing.
unfoldable pub write_at : ℕ → Bytes → Bytes → Bytes
write_at offset [] content = content
write_at zero (b ∷ bs) [] = b ∷ bs
write_at zero (b ∷ bs) (c ∷ content) = b ∷ write_at zero bs content
write_at (suc offset) (b ∷ bs) [] = 0 ∷ write_at offset (b ∷ bs) []
write_at (suc offset) (b ∷ bs) (c ∷ content) = c ∷ write_at offset (b ∷ bs) content

unfoldable pub write_file : Text → ℕ → Bytes → Io (Unit {0})
write_file path offset bytes d = elim (content_of d path) [
  | some content ↦ (ok tt, store path (write_at offset bytes content) d)
  | none ↦ (err not_found, d)
]

-- `seek` to an offset and `read_exact`.
unfoldable pub read_exact : ℕ → ℕ → Bytes → Outcome IoError Bytes
read_exact offset n content =
    if leb (offset + n) (length content)
    then ok (take n (drop offset content))
    else if n == 0
    then ok []
    else err unexpected_eof

unfoldable pub rename : Text → Text → Io (Unit {0})
rename from to d = elim (content_of d from) [
  | some content ↦
      if has_dir d.dirs (parent to)
      then (ok tt, record d { files = insert to content (erase from d.files) })
      else (err not_found, d)
  | none ↦ (err not_found, d)
]

unfoldable pub remove_file : Text → Io (Unit {0})
remove_file path d = elim (content_of d path) [
  | some content ↦ (ok tt, record d { files = erase path d.files })
  | none ↦ (err not_found, d)
]
