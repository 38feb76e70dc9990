-- ===== src/CommandLine/Words.antt =====
-- The words on the lines of the terminal.
use bear_torrent_final_proje.Base.{◌≡◌, ◌++◌, bytes_eq}
use bear_torrent_final_proje.Proto.{Text, peer_eq}
use bear_torrent_final_proje.CommandLine.{trim}
use bear_torrent_final_proje.CommandLine.Choices.{IsBlank, IsSolid, trim-solid}

-- A line with a word on it, and white space around it.
pub record Says (word text : Text) : Type 0 where
  pub before : Text
  pub behind : Text
  pub blank_before : IsBlank before
  pub blank_behind : IsBlank behind
  pub is : text ≡ before ++ (word ++ behind)

-- Trimming a line gives the word on it.
pub trim-word : (word text : Text) → IsSolid word → Says word text → trim text ≡ word
trim-word word text solid s =
    rw s.is (trim-solid s.before word s.behind s.blank_before solid s.blank_behind)
