-- ===== src/FileHandler/Views.antt =====
-- The operations on the files of a download, call by call, as changes of single files.
use bear_torrent_final_proje.Base.{
  ℕ, ◌≡◌, refl, ◌∙◌, true, false, Option, none, some, [], ◌∷◌, ◌++◌, ok, arith, if◌then◌else◌, eqb,
  eqb_iff, eqb_refl, bytes_eq, nat_eq, list_beq, Option-cases, Bool-cases, inl, inr,
}
use bear_torrent_final_proje.Base.Dict.{lookup-insert}
use bear_torrent_final_proje.Base.Text.{codes}
use bear_torrent_final_proje.Proto.{Text, Bytes}
use bear_torrent_final_proje.FileHandler.Disk.{
  Disk, Io, ◌>>=◌, content_of, exists, has_dir, has_slash, parent, create_dir_all, store, create,
  read_file, write_at, write_file,
}
use bear_torrent_final_proje.FileHandler.Store.{
  cache_dir, files_dir, temp_path, get_temp_file, part_path, info_path,
}

-- A path and the directory that it lies in.
has_slash-append :
    (xs ys : Text) → has_slash xs ≡ false → has_slash ys ≡ false → has_slash (xs ++ ys) ≡ false
unfolding has_slash
has_slash-append [] ys h k = k
has_slash-append (x ∷ xs) ys h k = ground (arith, has_slash-append xs ys)

parent-no_slash : (xs : Text) → has_slash xs ≡ false → parent xs ≡ []
unfolding parent
parent-no_slash [] h = refl
parent-no_slash (x ∷ xs) h = ground arith

pub parent-cache :
    (name ext : Text)
    → has_slash name ≡ false
    → has_slash ext ≡ false
    → parent (temp_path name ext (codes "cache")) ≡ cache_dir
unfolding parent temp_path
parent-cache name ext h k = rw (has_slash-append name ext h k)

pub parent-files :
    (name : Text) → has_slash name ≡ false → parent (temp_path name [] (codes "files")) ≡ files_dir
unfolding parent temp_path
parent-files name h = rw (has_slash-append name [] h refl)

pub list_beq-append : (xs ys zs : Text) → list_beq (xs ++ ys) (xs ++ zs) ≡ list_beq ys zs
unfolding list_beq
list_beq-append [] ys zs = refl
list_beq-append (x ∷ xs) ys zs = ground (arith, list_beq-append xs ys zs)

pub part-ne-info : (name : Text) → eqb (part_path name) (info_path name) ≡ false
unfolding temp_path list_beq
part-ne-info name = list_beq-append name (codes ".part") (codes ".info")

-- A call that returns hands its value and its disk to the rest.
pub run-bind :
    {A B : Type 0} (m : Io A) (f : A → Io B) (d d' : Disk) (a : A)
    → m d ≡ (ok a, d')
    → (m >>= f) d ≡ f a d'
run-bind m f d d' a e = rw e

-- `d'` differs from `d` by the content of one file.
pub record Wrote (path : Text) (v : Bytes) (d d' : Disk) : Type 0 where
  pub dirs : d'.dirs ≡ d.dirs
  pub content : (q : Text) → content_of d' q ≡ (if eqb path q then some v else content_of d q)

pub store-Wrote : (path : Text) (v : Bytes) (d : Disk) → Wrote path v d (store path v d)
store-Wrote path v d = record { dirs = refl; content = λ q. lookup-insert path q v d.files }

pub same-Wrote :
    (path : Text) (v : Bytes) (d : Disk) → content_of d path ≡ some v → Wrote path v d d
same-Wrote path v d e = record { dirs = refl; content = λ q. ground (arith, eqb_iff path q) }

pub trans-Wrote :
    (path : Text) (u v : Bytes) (d d' d'' : Disk)
    → Wrote path u d d'
    → Wrote path v d' d''
    → Wrote path v d d''
trans-Wrote path u v d d' d'' w w' = record {
  dirs = w'.dirs ∙ w.dirs;
  content = λ q. ground (arith, w.content q, w'.content q);
}

pub written :
    (path : Text) (v : Bytes) (d d' : Disk) → Wrote path v d d' → content_of d' path ≡ some v
written path v d d' w = ground (arith, w.content path, eqb_refl path)

abbrev pub or_else : Option Bytes → Bytes → Bytes
or_else none b = b
or_else (some a) b = a

-- A call that finds a file, or makes it empty in a directory that is there.
pub get_temp_file_lem :
    (name ext src : Text) (d : Disk)
    → has_dir d.dirs (parent (temp_path name ext src)) ≡ true
    → (d' : Disk) × (get_temp_file name ext src d
        ≡ (ok (temp_path name ext src, exists (temp_path name ext src) d), d'))
      × Wrote (temp_path name ext src) (or_else (content_of d (temp_path name ext src)) []) d d'
unfolding get_temp_file exists create
get_temp_file_lem name ext src d h = elim (Option-cases (content_of d (temp_path name ext src))) [
  | inl e ↦ (store (temp_path name ext src) [] d, ground arith, rw e (store-Wrote _ [] d))
  | inr (c, e) ↦ (d, ground arith, rw e (same-Wrote _ c d e))
]

pub write_file_lem :
    (path : Text) (o : ℕ) (b c : Bytes) (d : Disk)
    → content_of d path ≡ some c
    → write_file path o b d ≡ (ok tt, store path (write_at o b c) d)
unfolding write_file
write_file_lem path o b c d e = rw (e, write_file)

pub exists_some :
    (path : Text) (c : Bytes) (d : Disk) → content_of d path ≡ some c → exists path d ≡ true
unfolding exists
exists_some path c d e = rw (e, exists)

pub exists_none : (path : Text) (d : Disk) → content_of d path ≡ none → exists path d ≡ false
unfolding exists
exists_none path d e = rw (e, exists)

pub read_file_lem :
    (path : Text) (c : Bytes) (d : Disk) → content_of d path ≡ some c → read_file path d ≡ (ok c, d)
unfolding read_file
read_file_lem path c d e = rw (e, read_file)

pub create_dir_all_lem :
    (dir : Text) (d : Disk)
    → (d' : Disk) × (create_dir_all dir d ≡ (ok tt, d'))
      × (has_dir d'.dirs dir ≡ true)
      × ((q : Text) → has_dir d.dirs q ≡ true → has_dir d'.dirs q ≡ true)
      × ((q : Text) → content_of d' q ≡ content_of d q)
unfolding create_dir_all has_dir
create_dir_all_lem dir d = elim (Bool-cases (has_dir d.dirs dir)) [
  | inl e ↦ (d, ground arith, e, λ q h. h, λ q. refl)
  | inr e ↦ (
    record d { dirs = dir ∷ d.dirs },
    ground arith,
    ground (arith, eqb_refl dir),
    λ q h. ground arith,
    λ q. refl,
  )
]
