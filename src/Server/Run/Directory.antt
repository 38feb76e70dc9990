-- ===== src/Server/Run/Directory.antt =====
-- What the service promises its clients, without the six maps: who has which address, who offers
-- which file in which order, and what was last said of a file.
use bear_torrent_final_proje.Base.{
  Option, none, some, List, [], ◌∷◌, ◌++◌, if◌then◌else◌, eqb, bytes_eq,
}
use bear_torrent_final_proje.Proto.{Text, ClientId, PeerId, FileHash, InfoHash, peer_eq}
use bear_torrent_final_proje.Server.State.{Deps}
use bear_torrent_final_proje.Server.Registry.{draw_uid}
use bear_torrent_final_proje.Server.Files.{without}
use bear_torrent_final_proje.Server.Run.{
  Call, registers, updates, advertises, deletes, delists, seeds, awaits_cert, awaits_punch,
  takes_notifier, takes_cert,
}

pub record Directory : Type 0 where
  pub address : ClientId → Option (Option PeerId)
  pub offered : FileHash → List ClientId
  pub described : FileHash → Option InfoHash

abbrev pub nothing : Directory
nothing = record { address = λ c. none; offered = λ h. []; described = λ h. none }

abbrev pub places : Directory → ClientId → Option PeerId → Directory
places a c p = record a { address = λ x. if eqb c x then some p else a.address x }

abbrev pub joins : Directory → Option PeerId → Option Text → Directory
joins a p none = a
joins a p (some []) = a
joins a p (some (c ∷ uid)) = places a (c ∷ uid) p

abbrev pub moves : Directory → Option ClientId → Option PeerId → Directory
moves a none p = a
moves a (some c) none = a
moves a (some c) (some p) = places a c (some p)

abbrev pub offers : Directory → Option FileHash → Option InfoHash → Option ClientId → Directory
offers a none i c = a
offers a (some k) none c = a
offers a (some k) (some i) none = a
offers a (some k) (some i) (some c) = record a {
  offered = λ h. if eqb k h then a.offered h ++ c ∷ [] else a.offered h;
  described = λ h. if eqb k h then some i else a.described h;
}

abbrev pub withdraws : Directory → Option ClientId → Option FileHash → Directory
withdraws a none k = a
withdraws a (some c) none = a
withdraws a (some c) (some k) = record a {
  offered = λ h. if eqb k h then without c (a.offered h) else a.offered h;
}

abbrev pub leaves : Directory → ClientId → Option (Option PeerId) → Directory
leaves a c none = a
leaves a c (some p) = record a {
  address = λ x. if eqb c x then none else a.address x;
  offered = λ h. without c (a.offered h);
}

module _ {D : Deps} where
  -- What a call makes of the directory; the signals leave it alone.
  unfoldable pub told : Directory → Call D → Directory
  told a (registers draws p) = joins a p (draw_uid a.address draws)
  told a (updates r) = moves a r.self_id r.peer_id
  told a (advertises r) = offers a r.hash r.info_hash r.id
  told a (deletes r) = withdraws a r.id r.hash
  told a (delists c) = leaves a c (a.address c)
  told a (seeds p tx) = a
  told a (awaits_cert p tx) = a
  told a (awaits_punch p tx) = a
  told a (takes_notifier p) = a
  told a (takes_cert p) = a

  unfoldable pub told_all : Directory → List (Call D) → Directory
  told_all a [] = a
  told_all a (c ∷ calls) = told_all (told a c) calls
