-- ===== src/Networks/Lost.antt =====
-- The addresses of the previous snapshot that are not active any more, to `track_router_ips` of
-- src/resources/network.py.
use openstack_tenantctl.Base.{
  true, false, none, some, List, [], ◌∷◌, ◌++◌, map, ◌≡◌, refl, sym, arith, String, ◌==◌, ==_iff,
  contains, string_eq, Bool-cases, inl, inr, ◌⊎◌, contains-append,
}
use openstack_tenantctl.Models.Network.{RouterIpEntry}
use openstack_tenantctl.Networks.Tracking.{ids, external_ips, by_id, changed, without_ids_of}

abbrev pub DistinctIds : List RouterIpEntry → Type 0
DistinctIds [] = Unit
DistinctIds (e ∷ entries) = (contains (ids entries) e.id ≡ false) × DistinctIds entries

abbrev Has : RouterIpEntry → List RouterIpEntry → Type 0
Has e [] = ⊥
Has e (x ∷ entries) = (e ≡ x) ⊎ Has e entries

holder :
    (a : String) (entries : List RouterIpEntry)
    → contains (external_ips entries) a ≡ true
    → (e : RouterIpEntry) × Has e entries × (e.external_ip ≡ a)
holder a [] h = absurd (cc)
holder a (x ∷ entries) h = elim (Bool-cases (a == x.external_ip)) [
  | inl same ↦ (x, inl refl, sym ((==_iff a x.external_ip).0 same))
  | inr differ ↦ let (e, here, q) = holder a entries (rw differ at h) in (e, inr here, q)
]

by_id-none :
    (entries : List RouterIpEntry) (id : String)
    → contains (ids entries) id ≡ false
    → by_id entries id ≡ none
unfolding by_id
by_id-none [] id h = refl
by_id-none (x ∷ entries) id h = ground (arith, by_id-none entries id)

-- With distinct ids the dict finds the entry of an id.
by_id-Has :
    (entries : List RouterIpEntry) (e : RouterIpEntry)
    → DistinctIds entries
    → Has e entries
    → by_id entries e.id ≡ some e
unfolding by_id
by_id-Has [] e d h = absurd h
by_id-Has (x ∷ entries) e (new, d) (inl same) =
    rw same (ground (arith, by_id-none entries x.id new))
by_id-Has (x ∷ entries) e (new, d) (inr here) = ground (arith, by_id-Has entries e d here)

changed-contains :
    (previous : List RouterIpEntry) (e : RouterIpEntry)
    → by_id previous e.id ≡ some e
    → (current : List RouterIpEntry) → contains (ids current) e.id ≡ true
    → contains (external_ips current) e.external_ip ≡ false
    → contains (map (λ c. c.0) (changed previous current)) e.external_ip ≡ true
unfolding changed
changed-contains previous e there [] h k = absurd (cc)
changed-contains previous e there (c ∷ current) h k =
    ground (arith, there, changed-contains previous e there current)

without_ids_of-contains :
    (current entries : List RouterIpEntry) (e : RouterIpEntry)
    → Has e entries
    → contains (ids current) e.id ≡ false
    → contains (external_ips (without_ids_of current entries)) e.external_ip ≡ true
without_ids_of-contains current [] e h k = absurd h
without_ids_of-contains current (x ∷ entries) e (inl same) k = rw same (ground (arith, same))
without_ids_of-contains current (x ∷ entries) e (inr here) k =
    ground (arith, without_ids_of-contains current entries e here k)

-- The addresses that a comparison of two snapshots releases.
abbrev pub lost : List RouterIpEntry → List RouterIpEntry → List String
lost previous current =
    external_ips (without_ids_of current previous) ++ map (λ c. c.0) (changed previous current)

pub lost-contains :
    (previous current : List RouterIpEntry) (a : String)
    → DistinctIds previous
    → contains (external_ips previous) a ≡ true
    → contains (external_ips current) a ≡ false
    → contains (lost previous current) a ≡ true
lost-contains previous current a d h k =
    let (e, here, same) = holder a previous h in
    elim (Bool-cases (contains (ids current) e.id)) [
      | inl still ↦ ground (
        arith,
        contains-append a (external_ips (without_ids_of current previous))
            (map (λ c. c.0) (changed previous current)),
        rw same at
            (changed-contains previous e (by_id-Has previous e d here) current still (rw same k)),
      )
      | inr gone ↦ ground (
        arith,
        contains-append a (external_ips (without_ids_of current previous))
            (map (λ c. c.0) (changed previous current)),
        rw same at (without_ids_of-contains current previous e here gone),
      )
    ]
