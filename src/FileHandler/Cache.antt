-- ===== src/FileHandler/Cache.antt =====
-- client/src/file_handler.rs: the text of a `.filecache` file, which `InfoHash::new` writes and reads.
-- The crate `hex` is a parameter. `trim` takes off ASCII white space; a file that is no UTF-8 text is
-- left out.
pub mod RoundTrip
use Prim.Native.String.{String}
use bear_torrent_final_proje.Base.{
  ℕ, ◌+◌, ◌≡◌, Bool, true, false, ◌&&◌, ◌||◌, Option, none, some, List, [], ◌∷◌, ◌++◌, Outcome, ok,
  err, panicked, ◌>>=◌, if◌then◌else◌, ltb, leb, ◌==◌, eqb, bytes_eq, unwrap, All,
}
use bear_torrent_final_proje.Base.Text.{codes}
use bear_torrent_final_proje.Base.Words.{u32_mod, u64_mod}
use bear_torrent_final_proje.Base.Decimal.{decimal, parse_uint}
use bear_torrent_final_proje.Proto.{Text, Bytes, InfoHash, PieceHash}
use bear_torrent_final_proje.FileHandler.Disk.{IoError, invalid_data}

-- A line without the carriage return at its end.
abbrev pub chomp : Text → Text
chomp [] = []
chomp (c ∷ []) = if c == 13 then [] else c ∷ []
chomp (c ∷ d ∷ line) = c ∷ chomp (d ∷ line)

-- `str::lines`, with what is read of the current line. A last line may do without its line feed.
unfoldable pub lines_from : Text → Text → List Text
lines_from [] [] = []
lines_from (c ∷ line) [] = (c ∷ line) ∷ []
lines_from line (c ∷ text) =
    let others = lines_from [] text in
    let more = lines_from (line ++ c ∷ []) text in if c == 10 then chomp line ∷ others else more

abbrev pub lines : Text → List Text
lines text = lines_from [] text

-- `str::strip_prefix`
unfoldable pub strip_prefix : Text → Text → Option Text
strip_prefix [] text = some text
strip_prefix (p ∷ prefix) [] = none
strip_prefix (p ∷ prefix) (c ∷ text) =
    let rest = strip_prefix prefix text in if p == c then rest else none

-- `str::trim`
unfoldable pub is_space : ℕ → Bool
is_space c = c == 32 || (leb 9 c && leb c 13)

unfoldable pub trim_start : Text → Text
unfolding is_space
trim_start [] = []
trim_start (c ∷ text) = let rest = trim_start text in if is_space c then rest else c ∷ text

unfoldable pub trim_end : Text → Text
unfolding is_space
trim_end [] = []
trim_end (c ∷ text) = elim (trim_end text) [
  | [] ↦ if is_space c then [] else c ∷ []
  | d ∷ rest ↦ c ∷ d ∷ rest
]

-- `lines.next().ok_or(…).unwrap()`
abbrev pub next_line : List Text → Outcome IoError (Text × List Text)
next_line [] = panicked
next_line (line ∷ others) = ok (line, others)

module _ (hex_encode : Bytes → Text) (hex_decode : Text → Option Bytes) where
  unfoldable pub hash_lines : List PieceHash → Text
  hash_lines [] = []
  hash_lines (p ∷ pieces) = hex_encode p ++ (10 ∷ hash_lines pieces)

  -- What the `writeln!` calls write, one after the other.
  unfoldable pub cache_text : InfoHash → Text
  cache_text h =
      codes "name: "
      ++ (h.name
          ++ (10
              ∷ (codes "file_length: "
                  ++ (decimal h.file_length
                      ++ (10
                          ∷ (codes "piece_length: "
                              ++ (decimal h.piece_length
                                  ++ (10 ∷ (codes "pieces:" ++ (10 ∷ hash_lines h.pieces))))))))))

  -- The loop over the lines that are left.
  unfoldable pub decode_pieces : List Text → Outcome IoError (List PieceHash)
  decode_pieces [] = ok []
  decode_pieces (line ∷ others) = do
    bytes ← unwrap (hex_decode line)
    pieces ← decode_pieces others
    ok (bytes ∷ pieces)

  -- The arm that loads the cached record.
  unfoldable pub parse_cache : Text → Outcome IoError InfoHash
  parse_cache contents = do
    (name_line, rest) ← next_line (lines contents)
    name ← unwrap (strip_prefix (codes "name: ") name_line)
    (length_line, rest) ← next_line rest
    length_text ← unwrap (strip_prefix (codes "file_length: ") length_line)
    file_length ← unwrap (parse_uint u64_mod length_text)
    (piece_line, rest) ← next_line rest
    piece_text ← unwrap (strip_prefix (codes "piece_length: ") piece_line)
    piece_length ← unwrap (parse_uint u32_mod piece_text)
    (header, rest) ← next_line rest
    if eqb (trim_end (trim_start header)) (codes "pieces:")
        then (do
          pieces ← decode_pieces rest
          ok (record {
            name = name;
            file_length = file_length;
            piece_length = piece_length;
            pieces = pieces;
          }))
        else err invalid_data
