-- ===== src/Node/PeerFinder/Tests.antt =====
-- Runs of the peer finder, and its theorems at concrete finders.
use beaconprobe.Base.{
  min, String, ◌≡◌, refl, subst, ◌≢◌, ite, false, Option, none, some, [], ◌∷◌, arith,
  String_discrete, lookup, insert, delete, nat_key, string_key, length, All, here,
}
use mathlib.Core.List.Permᴰ
use mathlib.Core.List.{reverse}
use mathlib.Core.Option
use text.Mathlib.TextEquality.{eq_iff}
use beaconprobe.Node.PeerSet.{SharedPeerSet, IsValid, assign_or_get}
use beaconprobe.Node.PeerFinder.{
  AddrInfo, PeerFinder, new_peer_finder, store_peer, add_peer, eligible, get_peers, IsSorted,
  new_peer_finder-IsSorted, add_peer_stores,
}
use beaconprobe.Node.PeerFinder.Pulls.{
  Shuffles, AllDiffer, MayPull, ids_of, get_peers_pulls, unskipped, pulls_disjoint,
}

abbrev two : SharedPeerSet
two = record { assignments = []; instances = "a" ∷ "b" ∷ []; next_idx = 0 }

two-IsValid : IsValid two
two-IsValid = record { inhabited = omega arith; in_range = omega arith; distinct = tt }

abbrev empty : PeerFinder
empty = record {
  peer_set = two;
  hosts = ("a", λ id. false) ∷ ("b", λ id. false) ∷ [];
  peers = ("b", []) ∷ ("a", []) ∷ [];
}

empty_new : new_peer_finder two empty.hosts ≡ empty
unfolding new_peer_finder insert delete String_discrete
empty_new = refl

abbrev info : String → AddrInfo
info id = record { id = id; addrs = [] }

-- Two peers go to the two instances.
abbrev full : PeerFinder
full = record empty {
  peer_set = record two { assignments = ("q", "b") ∷ ("p", "a") ∷ []; next_idx = 2 };
  peers = ("b", ("q", info "q") ∷ []) ∷ ("a", ("p", info "p") ∷ []) ∷ [];
}

abbrev then_add : Option PeerFinder → AddrInfo → Option PeerFinder
then_add none ai = none
then_add (some f) ai = add_peer f ai

full_added : then_add (add_peer empty (info "p")) (info "q") ≡ some full
unfolding add_peer assign_or_get store_peer lookup insert delete String_discrete
full_added = refl

empty-IsSorted : IsSorted empty
empty-IsSorted = subst IsSorted empty_new (new_peer_finder-IsSorted two empty.hosts two-IsValid)

IsSorted-after :
    (f g : PeerFinder) (ai : AddrInfo) → IsSorted f → add_peer f ai ≡ some g → IsSorted g
IsSorted-after f g ai w e =
    let (f', _, done, sorted, _, _) = add_peer_stores f ai "" w in
    let same : f' ≡ g = cc in subst IsSorted same sorted

abbrev half : PeerFinder
half = record empty {
  peer_set = record two { assignments = ("p", "a") ∷ []; next_idx = 1 };
  peers = ("a", ("p", info "p") ∷ []) ∷ ("b", []) ∷ [];
}

half-IsSorted : IsSorted half
unfolding add_peer assign_or_get store_peer lookup insert delete String_discrete
half-IsSorted = IsSorted-after empty half (info "p") empty-IsSorted refl

full-IsSorted : IsSorted full
unfolding add_peer assign_or_get store_peer lookup insert delete String_discrete
full-IsSorted = IsSorted-after half full (info "q") half-IsSorted refl

same_order : Shuffles (λ xs. xs)
same_order xs = Permᴰ.refl xs

backwards : Shuffles reverse
backwards xs = Permᴰ.reverse xs

add_peer_stores_example :
    (f : PeerFinder) × (owner : String) × (add_peer half (info "q") ≡ some f)
    × IsSorted f
    × (lookup "q" f.peer_set.assignments ≡ some owner)
    × (lookup "a" f.peers
        ≡ ite
            (string_key.dec "a" owner)
            (Option.map (insert "q" (info "q")) (lookup owner half.peers))
            (lookup "a" half.peers))
add_peer_stores_example = add_peer_stores half (info "q") "a" half-IsSorted

get_peers_pulls_example :
    All (MayPull full "a" none (("p", info "p") ∷ [])) (get_peers reverse full "a" 50 none)
    × AllDiffer (ids_of (get_peers reverse full "a" 50 none))
    × (length (get_peers reverse full "a" 50 none)
        ≡ min 50 (length (unskipped none (("p", info "p") ∷ []))))
unfolding lookup String_discrete
get_peers_pulls_example =
    get_peers_pulls reverse full "a" 50 none (("p", info "p") ∷ []) backwards full-IsSorted refl

p_pulled : get_peers reverse full "a" 50 none ≡ info "p" ∷ []
unfolding get_peers eligible lookup String_discrete
p_pulled = refl

q_pulled : get_peers (λ xs. xs) full "b" 1 none ≡ info "q" ∷ []
unfolding get_peers eligible lookup String_discrete
q_pulled = refl

pulls_disjoint_example : ◌≢◌ {A = String} "p" "q"
unfolding get_peers eligible lookup String_discrete
pulls_disjoint_example =
    pulls_disjoint reverse (λ xs. xs) full "a" "b" 50 1 none none (("p", info "p") ∷ [])
      (("q", info "q") ∷ []) (info "p") (info "q") backwards same_order full-IsSorted refl refl here
      here (ground (arith, eq_iff "a" "b"))
