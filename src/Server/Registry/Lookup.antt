-- ===== src/Server/Registry/Lookup.antt =====
-- `get_client_id`: which client it finds, and when it panics.
use bear_torrent_final_proje.Base.{
  ◌≡◌, ◌≢◌, ◌⊎◌, refl, sym, ◌∙◌, Option, none, some, [], ◌∷◌, ok, err, panicked, arith, eqb,
  eqb_iff, eqb_refl, bytes_eq, inl, inr, Bool-cases,
}
use bear_torrent_final_proje.Base.Dict.{Dict, lookup}
use bear_torrent_final_proje.Proto.{ClientId, PeerId, peer_eq}
use bear_torrent_final_proje.Server.Maps.{NodupKeys}
use bear_torrent_final_proje.Server.State.{Deps, State, not_found, peer_of}
use bear_torrent_final_proje.Server.Registry.{find_client, get_client_id}

abbrev Entries : Type 0
Entries = Dict ClientId (Option PeerId)

lookup-tail :
    (k c : ClientId) (v x : Option PeerId) (es : Entries)
    → lookup k es ≡ none
    → lookup c es ≡ some x
    → lookup c ((k, v) ∷ es) ≡ some x
unfolding lookup
lookup-tail k c v x es fresh e = ground (arith, eqb_iff k c)

-- What the search finds, when every client has an address.
find_client-lookup :
    (peer : PeerId) (es : Entries)
    → NodupKeys es
    → ((c : ClientId) → lookup c es ≢ some none)
    → ((c : ClientId) × (find_client peer es ≡ ok (some c)) × (lookup c es ≡ some (some peer)))
      ⊎ ((find_client peer es ≡ ok none) × ((c : ClientId) → lookup c es ≢ some (some peer)))
unfolding find_client lookup
find_client-lookup peer [] nd all = inr (refl, λ c e. cc)
find_client-lookup peer ((k, none) ∷ es) nd all = absurd (all k (rw (eqb_refl k) refl))
find_client-lookup peer ((k, some p) ∷ es) nd all = elim (Bool-cases (eqb p peer)) [
  | inl hit ↦ inl (k, rw hit refl, ground (arith, eqb_refl k, eqb_iff p peer))
  | inr miss ↦
      elim (find_client-lookup peer es nd.1
        (λ c e. all c (lookup-tail k c (some p) none es nd.0 e))) [
          | inl (c, e, l) ↦ inl (c, rw miss e, lookup-tail k c (some p) (some peer) es nd.0 l)
          | inr (e, nobody) ↦
              inr (rw miss e, λ c l. ground (arith, eqb_iff k c, eqb_iff p peer, nobody c))
        ]
]

-- A client without an address ends the search in a panic, unless another is found before it.
find_client-panics :
    (peer : PeerId) (es : Entries) (c : ClientId)
    → NodupKeys es
    → ((c : ClientId) → lookup c es ≢ some (some peer))
    → lookup c es ≡ some none
    → find_client peer es ≡ panicked
unfolding find_client lookup
find_client-panics peer [] c nd nobody e = cc
find_client-panics peer ((k, none) ∷ es) c nd nobody e = refl
find_client-panics peer ((k, some p) ∷ es) c nd nobody e = ground (
  arith,
  eqb_refl k,
  eqb_iff p peer,
  nobody k,
  eqb_iff k c,
  find_client-panics peer es c nd.1
      (λ j l. nobody j (lookup-tail k j (some p) (some peer) es nd.0 l)),
)

module _ {D : Deps} where
  -- If every registered client has an address, the search for an address returns a client that is
  -- registered with it, or fails when no client is.
  pub get_client_id-registered :
      (s : State D) (peer : PeerId)
      → ((c : ClientId) → peer_of s c ≢ some none)
      → ((c : ClientId) × (get_client_id s peer ≡ ok c) × (peer_of s c ≡ some (some peer)))
        ⊎ ((get_client_id s peer ≡ err (not_found "No client registered for that peer"))
            × ((c : ClientId) → peer_of s c ≢ some (some peer)))
  unfolding get_client_id
  get_client_id-registered s peer all =
      let es = D.registry.iter s.client_registry in
      let same = D.registry.lookup-iter s.client_registry in
      elim (find_client-lookup peer es (D.registry.NodupKeys-iter s.client_registry)
        (λ c e. all c (sym (same c) ∙ e))) [
          | inl (c, e, l) ↦ inl (c, rw e refl, sym (same c) ∙ l)
          | inr (e, nobody) ↦ inr (rw e refl, λ c l. nobody c (same c ∙ l))
        ]

  -- If no client is registered with the address and some client is registered without one, as a
  -- client is at first, the search panics.
  pub get_client_id-panics :
      (s : State D) (peer : PeerId) (c : ClientId)
      → ((c : ClientId) → peer_of s c ≢ some (some peer))
      → peer_of s c ≡ some none
      → get_client_id s peer ≡ panicked
  unfolding get_client_id
  get_client_id-panics s peer c nobody e =
      let same = D.registry.lookup-iter s.client_registry in
      rw
        (find_client-panics peer (D.registry.iter s.client_registry) c
          (D.registry.NodupKeys-iter s.client_registry) (λ j l. nobody j (sym (same j) ∙ l))
          (same c ∙ e))
        refl
