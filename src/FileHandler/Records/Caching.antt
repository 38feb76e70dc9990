-- ===== src/FileHandler/Records/Caching.antt =====
-- A record is made once and loaded from its cache afterwards.
use bear_torrent_final_proje.Base.{
  ℕ, zero, suc, ◌+◌, ◌==◌, take, drop, Bool-cases, inl, inr, ◌≡◌, refl, ◌∙◌, ap, true, false,
  Option, none, some, [], ◌∷◌, ok, arith, All, length, eqb, eqb_iff, bytes_eq, list_beq,
}
use bear_torrent_final_proje.Base.Text.{codes}
use bear_torrent_final_proje.Base.Words.{IsU32, IsU64, AreBytes}
use bear_torrent_final_proje.Proto.{Text, Bytes, InfoHash}
use bear_torrent_final_proje.FileHandler.Disk.{
  Disk, content_of, has_dir, has_slash, exists, write_at, store,
}
use bear_torrent_final_proje.FileHandler.Pieces.{
  get_piece_length, get_piece_hashes, hash_loop, hash_piece_data,
}
use bear_torrent_final_proje.FileHandler.Store.{cache_dir, temp_path, file_path, get_file_cache}
use bear_torrent_final_proje.FileHandler.Views.{
  parent-cache, Wrote, written, or_else, get_temp_file_lem, write_file_lem, read_file_lem,
  exists_some, exists_none, store-Wrote, trans-Wrote,
}
use bear_torrent_final_proje.FileHandler.Cache.{cache_text, parse_cache}
use bear_torrent_final_proje.FileHandler.Cache.RoundTrip.{IsInline, HexLaws, parse_cache-cache_text}
use bear_torrent_final_proje.FileHandler.Records.{record_of, generate, load, new}

abbrev pub cache_path : Text → Text
cache_path name = temp_path name (codes ".filecache") (codes "cache")

pub cache-ne-file : (name : Text) → eqb (cache_path name) (file_path name) ≡ false
unfolding temp_path list_beq
cache-ne-file name = refl

pub get_file_cache_lem :
    (name : Text) (d : Disk)
    → has_slash name ≡ false
    → has_dir d.dirs cache_dir ≡ true
    → (d' : Disk) × (get_file_cache name d ≡ (ok (cache_path name, exists (cache_path name) d), d'))
      × Wrote (cache_path name) (or_else (content_of d (cache_path name)) []) d d'
unfolding get_file_cache
get_file_cache_lem name d plain r =
    let (d', e, w) =
      get_temp_file_lem name (codes ".filecache") (codes "cache") d
        (rw (parent-cache name (codes ".filecache") plain (unfold has_slash in refl)) r) in
    (d', rw e, w)

write_at-empty : (bytes : Bytes) → write_at 0 bytes [] ≡ bytes
unfolding write_at
write_at-empty [] = refl
write_at-empty (b ∷ bytes) = refl

pub get_piece_length-IsU32 : (n : ℕ) → IsU32 (get_piece_length n)
unfolding get_piece_length
get_piece_length-IsU32 n = ground arith

module _ (sha1 : Bytes → Bytes) (hex_encode : Bytes → Text) (hex_decode : Text → Option Bytes) where
  hash_loop-AreBytes :
      ((b : Bytes) → AreBytes (sha1 b))
      → (fuel pl : ℕ) (buf rest : Bytes) → All AreBytes (hash_loop sha1 fuel pl buf rest)
  unfolding hash_loop hash_piece_data
  hash_loop-AreBytes x zero pl buf rest = tt
  hash_loop-AreBytes x (suc fuel) pl buf rest = elim (Bool-cases (length (take pl rest) == 0)) [
    | inl e ↦ rw e tt
    | inr e ↦ rw e (x _, hash_loop-AreBytes x fuel pl _ (drop pl rest))
  ]

  get_piece_hashes-AreBytes :
      ((b : Bytes) → AreBytes (sha1 b))
      → (pl : ℕ) (content : Bytes) → All AreBytes (get_piece_hashes sha1 pl content)
  unfolding get_piece_hashes
  get_piece_hashes-AreBytes x pl content = hash_loop-AreBytes x (length content + 1) pl _ content

  new-generates :
      (name : Text) (content : Bytes) (d : Disk)
      → has_slash name ≡ false
      → has_dir d.dirs cache_dir ≡ true
      → content_of d (cache_path name) ≡ none
      → content_of d (file_path name) ≡ some content
      → (d' : Disk) × (new sha1 hex_encode hex_decode name d
          ≡ (ok (record_of sha1 hex_encode hex_decode name content), d'))
        × Wrote
            (cache_path name)
            (cache_text hex_encode hex_decode (record_of sha1 hex_encode hex_decode name content))
            d
            d'
  unfolding new generate
  new-generates name content d plain r none_yet found =
      let (d1, e1, w1) = get_file_cache_lem name d plain r in
      let text =
        cache_text hex_encode hex_decode (record_of sha1 hex_encode hex_decode name content) in
      let empty : content_of d1 (cache_path name) ≡ some [] =
        ground (arith, written _ _ d d1 w1, none_yet) in
      let there : content_of d1 (file_path name) ≡ some content =
        ground (arith, w1.content (file_path name), cache-ne-file name, found) in
      (
        store (cache_path name) text d1,
        rw
            (
              e1,
              exists_none (cache_path name) d none_yet,
              read_file_lem (file_path name) content d1 there,
              write_file_lem (cache_path name) 0 text [] d1 empty,
              write_at-empty text,
            )
            refl,
        trans-Wrote (cache_path name) _ text d d1 _ w1 (store-Wrote (cache_path name) text d1),
      )

  new-loads :
      (name : Text) (h : InfoHash) (d : Disk)
      → has_slash name ≡ false
      → has_dir d.dirs cache_dir ≡ true
      → content_of d (cache_path name) ≡ some (cache_text hex_encode hex_decode h)
      → parse_cache hex_encode hex_decode (cache_text hex_encode hex_decode h) ≡ ok h
      → (d' : Disk) × (new sha1 hex_encode hex_decode name d ≡ (ok h, d'))
        × Wrote (cache_path name) (cache_text hex_encode hex_decode h) d d'
  unfolding new load
  new-loads name h d plain r cached parsed =
      let (d1, e1, w1) = get_file_cache_lem name d plain r in
      let w : Wrote (cache_path name) (cache_text hex_encode hex_decode h) d d1 =
        ground (arith, w1, cached) in
      (
        d1,
        rw
            (
              e1,
              exists_some (cache_path name) _ d cached,
              read_file_lem (cache_path name) _ d1 (written _ _ d d1 w),
              parsed,
            )
            refl,
        w,
      )

  -- The record of a file is made once: on a disk with the file, the directory `cache` and no cache
  -- file, `new` gives the record of the file's content and changes nothing but the cache file, and
  -- `new` on the disk that this leaves gives the same record and changes no file. The name has no
  -- slash and no line break, the length of the content is a `u64`, a digest is of bytes, and `hex`
  -- satisfies its laws.
  pub new-new :
      (name : Text) (content : Bytes) (d : Disk)
      → HexLaws hex_encode hex_decode
      → ((b : Bytes) → AreBytes (sha1 b))
      → has_slash name ≡ false
      → All IsInline name
      → IsU64 (length content)
      → has_dir d.dirs cache_dir ≡ true
      → content_of d (cache_path name) ≡ none
      → content_of d (file_path name) ≡ some content
      → (d' d'' : Disk) × (new sha1 hex_encode hex_decode name d
          ≡ (ok (record_of sha1 hex_encode hex_decode name content), d'))
        × (new sha1 hex_encode hex_decode name d'
            ≡ (ok (record_of sha1 hex_encode hex_decode name content), d''))
        × ((q : Text) → eqb (cache_path name) q ≡ false → content_of d' q ≡ content_of d q)
        × ((q : Text) → content_of d'' q ≡ content_of d' q)
  new-new name content d laws digests plain inline long r none_yet found =
      let h = record_of sha1 hex_encode hex_decode name content in
      let (d', e', w') = new-generates name content d plain r none_yet found in
      let cached = written _ _ d d' w' in
      let (d'', e'', w'') =
        new-loads name h d' plain (ap (λ ds. has_dir ds cache_dir) w'.dirs ∙ r) cached (
          parse_cache-cache_text hex_encode hex_decode h laws inline long
            (get_piece_length-IsU32 (length content))
            (get_piece_hashes-AreBytes digests _ content)) in
      (
        d',
        d'',
        e',
        e'',
        λ q n. ground (arith, w'.content q),
        λ q. ground (arith, w''.content q, eqb_iff (cache_path name) q),
      )
