-- ===== src/Node/PeerFinder.antt =====
-- node/peerfinder.go: the discovered peers of each instance, which the peer managers pull. The set
-- behind the finder's pointer is a field here, and stands for the one set of the process. The
-- hosts are libp2p's: a host is what it answers to `Connectedness(id) == Connected`.
pub mod Pulls
pub mod Tests
use beaconprobe.Base.{
  ℕ, zero, suc, ◌+◌, ◌-◌, ◌*◌, ◌/◌, ◌%◌, ◌^◌, ◌≤◌, ◌<◌, min, max, String, ◌≡◌, refl, sym, ap, ◌∙◌,
  subst, ◌≢◌, ◌↔◌, ◌⊎◌, inl, inr, ite, if_pos, if_neg, Bool, true, false, not, ◌&&◌, ◌||◌, Option,
  none, some, List, [], ◌∷◌, ◌++◌, map, arith, dec_lt, dec_le, ℕ_discrete, String_discrete, lookup,
  insert, delete, lookup-insert, lookup-delete, GoMap, Distinct, delete-Distinct, insert-Distinct,
  delete_absent, length-delete, Bool-cases, Option-cases, Key, nat_key, string_key, ◌==◌, ltb, leb,
  if◌then◌else◌, ltb→lt, lt→ltb, leb→le, le→leb, tests, ==_sound, ==_refl, ==_ne, length, get_elem?,
  take, set, select, any, All, Has, here, there, length-append, length-take, length-select-le,
  get_elem?_total, All_Has,
}
use mathlib.Core.Option
use beaconprobe.Node.PeerSet.{SharedPeerSet, IsValid, assign_or_get}
use beaconprobe.Node.PeerSet.Runs.{assign_or_get_total}

-- The two fields of libp2p's `peer.AddrInfo`, the addresses in their text form.
pub record AddrInfo : Type 0 where
  pub id : String
  pub addrs : List String

abbrev pub Peers : Type 0
Peers = GoMap String AddrInfo

abbrev pub Host : Type 0
Host = String → Bool

pub record PeerFinder : Type 0 where
  pub peer_set : SharedPeerSet
  pub hosts : GoMap String Host
  pub peers : GoMap String Peers

-- One empty map for each host.
empty_peers : GoMap String Host → GoMap String Peers → GoMap String Peers
empty_peers [] m = m
empty_peers ((name, h) ∷ hs) m = empty_peers hs (insert name [] m)

unfoldable pub new_peer_finder : SharedPeerSet → GoMap String Host → PeerFinder
unfolding empty_peers
new_peer_finder s hosts = record { peer_set = s; hosts = hosts; peers = empty_peers hosts [] }

-- The part of `AddPeer` under the finder's mutex.
unfoldable pub store_peer : String → AddrInfo → GoMap String Peers → GoMap String Peers
store_peer owner ai m = elim (lookup owner m) [
  | none ↦ m
  | some ps ↦ insert owner (insert ai.id ai ps) m
]

-- `none` is the panic of `AssignOrGet`.
unfoldable pub add_peer : PeerFinder → AddrInfo → Option PeerFinder
add_peer f ai = elim (assign_or_get f.peer_set ai.id) [
  | none ↦ none
  | some (s, owner) ↦ some (record f { peer_set = s; peers = store_peer owner ai f.peers })
]

-- `Route` is `AddPeer` under the name of the interface `PeerRouter`.
abbrev pub route : PeerFinder → AddrInfo → Option PeerFinder
route = add_peer

-- The IDs that `skip` does not reject; `none` is a nil function.
abbrev pub skipped : Option (String → Bool) → String → Bool
skipped none id = false
skipped (some skip) id = skip id

unfoldable pub eligible : Option (String → Bool) → Peers → List String
eligible skip [] = []
eligible skip ((id, ai) ∷ ps) =
    let rest = eligible skip ps in if skipped skip id then rest else id ∷ rest

-- `m[id]`, with the zero value for a missing key.
abbrev pub info_at : Peers → String → AddrInfo
info_at ps id = elim (lookup id ps) [ none ↦ record { id = ""; addrs = [] } | some ai ↦ ai ]

-- `shuffle` is math/rand's; the order in which Go walks the map is the list's.
unfoldable pub get_peers :
    (List String → List String) → PeerFinder → String → ℕ → Option (String → Bool) → List AddrInfo
get_peers shuffle f inst count skip = elim (lookup inst f.peers) [
  | none ↦ []
  | some ps ↦
      let ids = eligible skip ps in map (info_at ps) (take (min count (length ids)) (shuffle ids))
]

unfoldable pub any_connected : String → GoMap String Host → Bool
any_connected id [] = false
any_connected id ((name, h) ∷ hs) = let rest = any_connected id hs in if h id then true else rest

unfoldable pub is_connected_to_any : PeerFinder → String → Bool
unfolding any_connected
is_connected_to_any f id = any_connected id f.hosts

-- Every stored peer stands under its own ID, in the map of the instance that owns it.
pub record IsSorted (f : PeerFinder) : Type 0 where
  pub set_valid : IsValid f.peer_set
  pub sorted :
      (inst id : String) (ps : Peers) (ai : AddrInfo)
      → lookup inst f.peers ≡ some ps
      → lookup id ps ≡ some ai
      → (ai.id ≡ id) × (lookup id f.peer_set.assignments ≡ some inst)
  pub no_double : (inst : String) (ps : Peers) → lookup inst f.peers ≡ some ps → Distinct ps

lookup-empty_peers :
    (inst : String) (ps : Peers) (hs : GoMap String Host) (m : GoMap String Peers)
    → ((qs : Peers) → lookup inst m ≡ some qs → qs ≡ [])
    → lookup inst (empty_peers hs m) ≡ some ps
    → ps ≡ []
unfolding empty_peers
lookup-empty_peers inst ps [] m h e = h ps e
lookup-empty_peers inst ps ((name, host) ∷ hs) m h e =
    lookup-empty_peers inst ps hs (insert name [] m)
      (λ qs k. ground (arith, lookup-insert inst name [] m, h qs)) e

-- A new finder has stored nothing.
pub new_peer_finder-IsSorted :
    (s : SharedPeerSet) (hosts : GoMap String Host) → IsValid s → IsSorted (new_peer_finder s hosts)
unfolding new_peer_finder lookup
new_peer_finder-IsSorted s hosts v = record {
  set_valid = v;
  sorted = λ inst id ps ai h k.
      ground (arith, lookup-empty_peers inst ps hosts [] (λ qs e. ground arith) h);
  no_double = λ inst ps h. rw (lookup-empty_peers inst ps hosts [] (λ qs e. ground arith) h) tt;
}

-- A map after a write is an old one, or the owner's with the new peer in it.
store_cases :
    (m : GoMap String Peers) (owner : String) (new : AddrInfo) (inst : String) (ps : Peers)
    → lookup inst (store_peer owner new m) ≡ some ps
    → (lookup inst m ≡ some ps)
      ⊎ ((qs : Peers) × (inst ≡ owner) × (lookup owner m ≡ some qs) × (ps ≡ insert new.id new qs))
unfolding store_peer
store_cases m owner new inst ps h = elim (Option-cases (lookup owner m)) [
  | inl e ↦ inl (rw (e, store_peer) at h)
  | inr (qs, e) ↦ split qs e (rw (e, store_peer) at h)
]
  where
    split :
        (qs : Peers)
        → lookup owner m ≡ some qs
        → lookup inst (insert owner (insert new.id new qs) m) ≡ some ps
        → (lookup inst m ≡ some ps)
          ⊎ ((qs : Peers) × (inst ≡ owner)
              × (lookup owner m ≡ some qs)
              × (ps ≡ insert new.id new qs))
    split qs e g = elim (string_key.dec inst owner) [
      | yes p ↦ inr (qs, p, e, ground (arith, lookup-insert inst owner (insert new.id new qs) m))
      | no p ↦ inl (ground (arith, lookup-insert inst owner (insert new.id new qs) m))
    ]

-- What is stored is stored under the owner, which the set already has.
store_sorted :
    (s : SharedPeerSet) (m : GoMap String Peers) (owner : String) (new : AddrInfo)
    → lookup new.id s.assignments ≡ some owner
    → ((inst id : String) (ps : Peers) (ai : AddrInfo)
        → lookup inst m ≡ some ps
        → lookup id ps ≡ some ai
        → (ai.id ≡ id) × (lookup id s.assignments ≡ some inst))
    → (inst id : String) (ps : Peers) (ai : AddrInfo)
    → lookup inst (store_peer owner new m) ≡ some ps
    → lookup id ps ≡ some ai
    → (ai.id ≡ id) × (lookup id s.assignments ≡ some inst)
store_sorted s m owner new own old inst id ps ai h k = elim (store_cases m owner new inst ps h) [
  | inl same ↦ old inst id ps ai same k
  | inr (qs, e, f, g) ↦ elim (string_key.dec id new.id) [
    | yes p ↦ ground (arith, lookup-insert id new.id new qs)
    | no p ↦
        let there : lookup id qs ≡ some ai = ground (arith, lookup-insert id new.id new qs) in
        rw e (old owner id qs ai f there)
  ]
]

store_no_double :
    (m : GoMap String Peers) (owner : String) (new : AddrInfo)
    → ((inst : String) (ps : Peers) → lookup inst m ≡ some ps → Distinct ps)
    → (inst : String) (ps : Peers) → lookup inst (store_peer owner new m) ≡ some ps
    → Distinct ps
store_no_double m owner new old inst ps h = elim (store_cases m owner new inst ps h) [
  | inl same ↦ old inst ps same
  | inr (qs, e, f, g) ↦ rw g (insert-Distinct new.id new qs (old owner qs f))
]

-- What a write shows at each instance.
store_peer_lem :
    (m : GoMap String Peers) (owner inst : String) (ai : AddrInfo)
    → lookup inst (store_peer owner ai m)
      ≡ ite
          (string_key.dec inst owner)
          (Option.map (insert ai.id ai) (lookup owner m))
          (lookup inst m)
unfolding store_peer
store_peer_lem m owner inst ai = elim (Option-cases (lookup owner m)) [
  | inl e ↦ rw (e, store_peer) (ground arith)
  | inr (ps, e) ↦
      rw (e, store_peer) (ground (arith, lookup-insert inst owner (insert ai.id ai ps) m))
]

-- `AddPeer` on a finder that has its peers sorted never panics and keeps them sorted. Afterwards the
-- peer has an owner; the owner's map, if the owner has one, holds the peer with the addresses given,
-- and the map of every other instance is as before.
pub add_peer_stores :
    (f : PeerFinder) (ai : AddrInfo) (inst : String)
    → IsSorted f
    → (f' : PeerFinder) × (owner : String) × (add_peer f ai ≡ some f')
      × IsSorted f'
      × (lookup ai.id f'.peer_set.assignments ≡ some owner)
      × (lookup inst f'.peers
          ≡ ite
              (string_key.dec inst owner)
              (Option.map (insert ai.id ai) (lookup owner f.peers))
              (lookup inst f.peers))
unfolding add_peer
add_peer_stores f ai inst w =
    let (s', owner, done, valid, own, kept) = assign_or_get_total f.peer_set ai.id w.set_valid in
    (
      record f { peer_set = s'; peers = store_peer owner ai f.peers },
      owner,
      rw (done, add_peer),
      record {
        set_valid = valid;
        sorted = store_sorted s' f.peers owner ai own λ inst id ps old h k.
            let (same, held) = w.sorted inst id ps old h k in (same, kept id inst held);
        no_double = store_no_double f.peers owner ai w.no_double;
      },
      own,
      store_peer_lem f.peers owner inst ai,
    )
