-- ===== src/Server/Maps.antt =====
-- The concurrent map of the crate `dashmap`, which the server only calls: an interface with its
-- documented laws, and a table that has them.
use bear_torrent_final_proje.Base.{
  ◌≡◌, refl, Option, none, some, [], ◌∷◌, arith, if◌then◌else◌, Eq, eqb, eqb_refl, ◌∙◌,
}
use bear_torrent_final_proje.Base.Dict.{Dict, lookup, erase, lookup-erase}

module _ {K V : Type 0} ⦃e : Eq K⦄ where
  abbrev pub NodupKeys : Dict K V → Type 0
  NodupKeys [] = Unit
  NodupKeys ((k, v) ∷ d) = (lookup k d ≡ none) × NodupKeys d

-- `iter` lists each entry once, in an order of its own.
pub record DashMap (K V : Type 0) ⦃e : Eq K⦄ : Type 1 where
  pub Table : Type 0
  pub empty : Table
  pub get : Table → K → Option V
  pub insert : Table → K → V → Table
  pub remove : Table → K → Table
  pub iter : Table → Dict K V
  pub get-empty : (k : K) → get empty k ≡ none
  pub get-insert :
      (t : Table) (k j : K) (v : V) → get (insert t k v) j ≡ (if eqb k j then some v else get t j)
  pub get-remove : (t : Table) (k j : K) → get (remove t k) j ≡ (if eqb k j then none else get t j)
  pub lookup-iter : (t : Table) (k : K) → lookup k (iter t) ≡ get t k
  pub NodupKeys-iter : (t : Table) → NodupKeys (iter t)

module _ {K V : Type 0} ⦃e : Eq K⦄ where
  -- The first entry of each key.
  unfoldable pub distinct : Dict K V → Dict K V
  distinct [] = []
  distinct ((k, v) ∷ d) = (k, v) ∷ erase k (distinct d)

  pub lookup-distinct : (k : K) (d : Dict K V) → lookup k (distinct d) ≡ lookup k d
  unfolding distinct lookup
  lookup-distinct k [] = refl
  lookup-distinct k ((j, v) ∷ d) =
      ground (arith, lookup-erase j k (distinct d), lookup-distinct k d)

  NodupKeys-erase : (k : K) (d : Dict K V) → NodupKeys d → NodupKeys (erase k d)
  unfolding erase
  NodupKeys-erase k [] h = tt
  NodupKeys-erase k ((j, v) ∷ d) h = ground (arith, NodupKeys-erase k d h.1, lookup-erase k j d)

  pub NodupKeys-distinct : (d : Dict K V) → NodupKeys (distinct d)
  unfolding distinct
  NodupKeys-distinct [] = tt
  NodupKeys-distinct ((k, v) ∷ d) = (
    lookup-erase k k (distinct d) ∙ rw (eqb_refl k),
    NodupKeys-erase k (distinct d) (NodupKeys-distinct d),
  )

  pub lookup-cons :
      (k j : K) (v : V) (d : Dict K V)
      → lookup j ((k, v) ∷ d) ≡ (if eqb k j then some v else lookup j d)
  unfolding lookup
  lookup-cons k j v d = refl

  pub lookup-nil : (k : K) → lookup {V = V} k [] ≡ none
  unfolding lookup
  lookup-nil k = refl

  -- A table for tests and witnesses.
  unfoldable pub table : DashMap K V
  unfolding distinct
  table = record {
    Table = Dict K V;
    empty = [];
    get = λ d k. lookup k d;
    insert = λ d k v. (k, v) ∷ d;
    remove = λ d k. erase k d;
    iter = distinct;
    get-empty = lookup-nil;
    get-insert = λ d k j v. lookup-cons k j v d;
    get-remove = λ d k j. lookup-erase k j d;
    lookup-iter = λ d k. lookup-distinct k d;
    NodupKeys-iter = NodupKeys-distinct;
  }
