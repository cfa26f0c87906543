-- ===== src/Node/PeerSet/RoundRobin.antt =====
-- Unassigned peers that arrive one after the other are dealt out in turn.
use beaconprobe.Base.{
  ℕ, zero, suc, ◌+◌, ◌%◌, ◌<◌, String, ◌≡◌, refl, sym, ◌≢◌, Option, none, some, List, [], ◌∷◌,
  arith, lookup, insert, lookup-insert, insert-Distinct, nat_key, string_key, length, get_elem?,
  All,
}
use beaconprobe.Node.PeerSet.{SharedPeerSet, IsValid, assign_or_get, assign_or_get_fresh, u64_mod}

-- `AssignOrGet` for each peer of a list, with the owners that it returns.
unfoldable pub assign_all : List String → SharedPeerSet → Option (SharedPeerSet × List String)
assign_all [] s = some (s, [])
assign_all (p ∷ ps) s = elim (assign_or_get s p) [
  | none ↦ none
  | some (s', o) ↦ elim (assign_all ps s') [ none ↦ none | some (t, os) ↦ some (t, o ∷ os) ]
]

-- Peers that differ from each other and that nobody owns.
abbrev pub AreNew : List String → SharedPeerSet → Type 0
AreNew [] s = Unit {0}
AreNew (p ∷ ps) s = (lookup p s.assignments ≡ none) × All (λ q. p ≢ q) ps × AreNew ps s

AreNew-after :
    (ps : List String) (s s' : SharedPeerSet) (p o : String)
    → s'.assignments ≡ insert p o s.assignments
    → All (λ q. p ≢ q) ps
    → AreNew ps s
    → AreNew ps s'
AreNew-after [] s s' p o e ne new = tt
AreNew-after (q ∷ qs) s s' p o e ne new = (
  rw e (ground (arith, lookup-insert q p o s.assignments)),
  new.1,
  AreNew-after qs s s' p o e ne.1 new.2,
)

-- The state after a fresh assignment.
abbrev after_fresh : SharedPeerSet → String → String → SharedPeerSet
after_fresh s p o = record s {
  assignments = insert p o s.assignments;
  next_idx = (s.next_idx + 1) % u64_mod;
}

after_fresh-IsValid : (s : SharedPeerSet) (p o : String) → IsValid s → IsValid (after_fresh s p o)
after_fresh-IsValid s p o v = record {
  inhabited = v.inhabited;
  in_range = omega arith;
  distinct = insert-Distinct p o s.assignments v.distinct;
}

-- The turns after the first peer, as turns counted from it.
turn :
    (names os : List String) (start next n : ℕ) (o : String)
    → next ≡ start + 1
    → get_elem? names (start % length names) ≡ some o
    → ((i : ℕ) → i < n → get_elem? os i ≡ get_elem? names ((next + i) % length names))
    → (i : ℕ) → i < suc n
    → get_elem? (o ∷ os) i ≡ get_elem? names ((start + i) % length names)
turn names os start next n o e at turns zero h =
    let z : start + 0 ≡ start = omega arith in rw z (sym at)
turn names os start next n o e at turns (suc i) h =
    let z : start + suc i ≡ next + i = omega arith in rw z (turns i (omega arith))

assign_all_turns :
    (ps : List String) (s : SharedPeerSet)
    → IsValid s
    → AreNew ps s
    → s.next_idx + length ps < u64_mod
    → (s' : SharedPeerSet) × (os : List String) × (assign_all ps s ≡ some (s', os))
      × (s'.next_idx ≡ s.next_idx + length ps)
      × (length os ≡ length ps)
      × ((i : ℕ)
          → i < length ps
          → get_elem? os i ≡ get_elem? s.instances ((s.next_idx + i) % length s.instances))
unfolding assign_all
assign_all_turns [] s v new room = (s, [], refl, omega arith, refl, λ i h. elim h [ ])
assign_all_turns (p ∷ ps) s v new room =
    let (o, at, done) = assign_or_get_fresh s p v new.0 in
    let (s', os, ran, idx, len, turns) =
      assign_all_turns ps (after_fresh s p o) (after_fresh-IsValid s p o v)
        (AreNew-after ps s (after_fresh s p o) p o refl new.1 new.2) (omega arith) in
    (
      s',
      o ∷ os,
      rw (done, assign_all) (rw ran),
      omega arith,
      omega arith,
      turn s.instances os s.next_idx (after_fresh s p o).next_idx (length ps) o (omega arith) at
          turns,
    )

-- On a valid set, new peers that arrive in a row are all assigned, and the i-th of them to the
-- instance i places on from the index in the cycle of the instances, as long as the uint64 index
-- does not wrap on the way; the index ends past the last of them.
assign_all_in_turn :
    (ps : List String) (s : SharedPeerSet) (i : ℕ)
    → IsValid s
    → AreNew ps s
    → s.next_idx + length ps < u64_mod
    → i < length ps
    → (s' : SharedPeerSet) × (os : List String) × (assign_all ps s ≡ some (s', os))
      × (s'.next_idx ≡ s.next_idx + length ps)
      × (length os ≡ length ps)
      × (get_elem? os i ≡ get_elem? s.instances ((s.next_idx + i) % length s.instances))
assign_all_in_turn ps s i v new room h =
    let (s', os, ran, idx, len, turns) = assign_all_turns ps s v new room in
    (s', os, ran, idx, len, turns i h)
