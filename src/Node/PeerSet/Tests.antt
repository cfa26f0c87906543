-- ===== src/Node/PeerSet/Tests.antt =====
-- Runs of the shared peer set, and its theorems at concrete sets.
use beaconprobe.Base.{
  true, false, String, ◌≡◌, ◌⊎◌, refl, ◌≢◌, Option, none, some, List, [], ◌∷◌, arith,
  String_discrete, lookup, insert, nat_key, string_key,
}
use beaconprobe.Node.PeerSet.{
  SharedPeerSet, IsValid, new_shared_peer_set, assign_or_get, owner_of, new-IsValid,
}
use beaconprobe.Node.PeerSet.Runs.{assigns, claims, run, run_keeps_owners}
use beaconprobe.Node.PeerSet.Ledger.{
  Query, Reply, answers, entry, entries, blank, Keeps, answers_refine,
}
use beaconprobe.Node.PeerSet.RoundRobin.{assign_all, AreNew}
use text.Mathlib.TextEquality.{eq_iff}

p_q : ◌≢◌ {A = String} "p" "q"
p_q = ground (arith, eq_iff "p" "q")

p_r : ◌≢◌ {A = String} "p" "r"
p_r = ground (arith, eq_iff "p" "r")

q_r : ◌≢◌ {A = String} "q" "r"
q_r = ground (arith, eq_iff "q" "r")

abbrev two : SharedPeerSet
two = record { assignments = []; instances = "a" ∷ "b" ∷ []; next_idx = 0 }

abbrev owned : SharedPeerSet
owned = record two { assignments = ("p", "b") ∷ []; next_idx = 1 }

two-IsValid : IsValid two
unfolding new_shared_peer_set
two-IsValid = (new-IsValid ("a" ∷ "b" ∷ []) two refl).0

owned-IsValid : IsValid owned
unfolding lookup
owned-IsValid = record { inhabited = omega arith; in_range = omega arith; distinct = (refl, tt) }

abbrev owners : Option (SharedPeerSet × List String) → List String
owners none = []
owners (some (s, os)) = os

-- Three new peers go round the two instances.
dealt :
    (owner_of two "p" ≡ "")
    × (owners (assign_all ("p" ∷ "q" ∷ "r" ∷ []) two) ≡ "a" ∷ "b" ∷ "a" ∷ [])
unfolding assign_all assign_or_get owner_of lookup insert String_discrete
dealt = (refl, refl)

-- A set needs an instance.
no_instances : new_shared_peer_set [] ≡ none
unfolding new_shared_peer_set
no_instances = refl

run_keeps_owners_example :
    (s : SharedPeerSet) × (run (assigns "q" ∷ claims "p" "a" ∷ []) owned ≡ some s)
    × IsValid s
    × ((lookup "p" owned.assignments ≡ none)
        ⊎ (lookup "p" s.assignments ≡ lookup "p" owned.assignments))
run_keeps_owners_example =
    run_keeps_owners (assigns "q" ∷ claims "p" "a" ∷ []) owned "p" owned-IsValid

three_new : AreNew ("p" ∷ "q" ∷ "r" ∷ []) two
unfolding lookup
three_new = (refl, (p_q, (p_r, tt)), (refl, (q_r, tt), (refl, tt, tt)))

abbrev two_new : SharedPeerSet
two_new = record { assignments = []; instances = "a" ∷ "b" ∷ []; next_idx = 0 }

abbrev queries : List Query
queries =
    Query.assigns "p"
    ∷ Query.claims "q" "a"
    ∷ Query.asks "q"
    ∷ Query.asks "r"
    ∷ Query.assigns "r"
    ∷ Query.claims "p" "b"
    ∷ []

-- The second peer that is assigned goes to the second instance, though one was claimed in between.
entries_run :
    (entries ("a" ∷ "b" ∷ []) queries blank).1
    ≡ Reply.owned "a"
      ∷ Reply.claimed "a" true
      ∷ Reply.told "a"
      ∷ Reply.told ""
      ∷ Reply.owned "b"
      ∷ Reply.claimed "a" false
      ∷ []
unfolding entries entry String_discrete
entries_run = refl

answers_refine_example :
    (s' : SharedPeerSet) × (answers queries two_new
      ≡ some (s', (entries ("a" ∷ "b" ∷ []) queries blank).1))
    × Keeps ("a" ∷ "b" ∷ []) s' (entries ("a" ∷ "b" ∷ []) queries blank).0
unfolding new_shared_peer_set
answers_refine_example = answers_refine ("a" ∷ "b" ∷ []) queries two_new refl (omega arith)
