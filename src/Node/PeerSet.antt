-- ===== src/Node/PeerSet.antt =====
-- node/sharedpeerset.go: which instance owns which peer. Peer IDs and instance names are Go
-- strings. Each method holds the mutex from its first to its last line, so that it is one step.
pub mod Runs
pub mod RoundRobin
pub mod Ledger
pub mod Tests
use beaconprobe.Base.{
  ℕ, suc, ◌+◌, ◌%◌, ◌<◌, String, ◌≡◌, refl, List, [], ◌∷◌, Option, none, some, Bool, true, false,
  ite, arith, GoMap, lookup, insert, lookup-insert, length, get_elem?, get_elem?_total, Has, Key,
  string_key, ◌==◌, Option-cases, Distinct, insert-Distinct,
}

-- A uint64 wraps here.
abbrev pub u64_mod : ℕ
u64_mod = 18446744073709551616

pub record SharedPeerSet : Type 0 where
  pub assignments : GoMap String String
  pub instances : List String
  pub next_idx : ℕ

-- `none` is the panic.
unfoldable pub new_shared_peer_set : List String → Option SharedPeerSet
new_shared_peer_set [] = none
new_shared_peer_set (x ∷ xs) = some (record { assignments = []; instances = x ∷ xs; next_idx = 0 })

-- The index is taken modulo the number of instances; `none` is the runtime's panic.
next_owner : SharedPeerSet → Option String
next_owner s = elim s.instances [
  | [] ↦ none
  | x ∷ xs ↦ get_elem? (x ∷ xs) (s.next_idx % length (x ∷ xs))
]

assign_to : SharedPeerSet → String → Option String → Option (SharedPeerSet × String)
assign_to s id none = none
assign_to s id (some owner) = some (
  record s { assignments = insert id owner s.assignments; next_idx = (s.next_idx + 1) % u64_mod },
  owner,
)

unfoldable pub assign_or_get : SharedPeerSet → String → Option (SharedPeerSet × String)
unfolding next_owner assign_to
assign_or_get s id = elim (lookup id s.assignments) [
  | some owner ↦ some (s, owner)
  | none ↦ assign_to s id (next_owner s)
]

-- The zero value of a string for a missing key.
pub owner_of : SharedPeerSet → String → String
owner_of s id = elim (lookup id s.assignments) [ none ↦ "" | some owner ↦ owner ]

unfoldable pub claim : SharedPeerSet → String → String → SharedPeerSet × String × Bool
claim s id inst = elim (lookup id s.assignments) [
  | some existing ↦ (s, existing, existing == inst)
  | none ↦ (record s { assignments = insert id inst s.assignments }, inst, true)
]

-- A peer set as `NewSharedPeerSet` makes it and its methods keep it.
pub record IsValid (s : SharedPeerSet) : Type 0 where
  pub inhabited : 0 < length s.instances
  pub in_range : s.next_idx < u64_mod
  pub distinct : Distinct s.assignments

-- The new set is valid and owns nothing.
pub new-IsValid :
    (names : List String) (s : SharedPeerSet)
    → new_shared_peer_set names ≡ some s
    → IsValid s × (s.instances ≡ names) × (s.assignments ≡ [])
unfolding new_shared_peer_set
new-IsValid [] s h = absurd (ground arith)
new-IsValid (x ∷ xs) s h = ground arith

next_owner_total :
    (s : SharedPeerSet)
    → 0 < length s.instances
    → (o : String) × (next_owner s ≡ some o)
      × (get_elem? s.instances (s.next_idx % length s.instances) ≡ some o)
unfolding next_owner
next_owner_total s h = go s.instances h
  where
    go :
        (l : List String)
        → 0 < length l
        → (o : String) × ((elim l [
          | [] ↦ none
          | x ∷ xs ↦ get_elem? (x ∷ xs) (s.next_idx % length (x ∷ xs))
        ])
            ≡ some o)
          × (get_elem? l (s.next_idx % length l) ≡ some o)
    go [] h = elim h [ ]
    go (x ∷ xs) h =
        let (o, e) = get_elem?_total (x ∷ xs) (s.next_idx % length (x ∷ xs)) (grind arith) in
        (o, e, e)

-- An unassigned peer goes to the instance that the index points at, and the index moves on.
pub assign_or_get_fresh :
    (s : SharedPeerSet) (id : String)
    → IsValid s
    → lookup id s.assignments ≡ none
    → (o : String) × (get_elem? s.instances (s.next_idx % length s.instances) ≡ some o)
      × (assign_or_get s id
          ≡ some (
            record s {
              assignments = insert id o s.assignments;
              next_idx = (s.next_idx + 1) % u64_mod;
            },
            o,
          ))
unfolding assign_or_get
assign_or_get_fresh s id v e =
    let (o, found, at) = next_owner_total s v.inhabited in
    (o, at, rw (e, assign_or_get) (rw (found, assign_to)))

pub assign_or_get_known :
    (s : SharedPeerSet) (id o : String)
    → lookup id s.assignments ≡ some o
    → assign_or_get s id ≡ some (s, o)
unfolding assign_or_get
assign_or_get_known s id o e = rw (e, assign_or_get)
