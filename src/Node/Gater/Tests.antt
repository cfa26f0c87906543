-- ===== src/Node/Gater/Tests.antt =====
-- Runs of the gaters and of the inbound handler, and their theorems at concrete instances.
use beaconprobe.Base.{
  String, ◌≡◌, refl, true, false, some, List, [], ◌∷◌, arith, String_discrete, lookup, insert,
  nat_key, string_key, here, there,
}
use beaconprobe.Node.PeerSet.{SharedPeerSet, IsValid, claim}
use beaconprobe.Node.Gater.{
  SiblingGater, is_sibling, intercept_secured, done, closed, changed, handle_change,
  handle_inbound_peers,
}
use beaconprobe.Node.Gater.Exclusive.{
  Event, secured, connectedness, Hold, event_step, events, holds_exclusive,
}

abbrev two : SharedPeerSet
two = record { assignments = []; instances = "a" ∷ "b" ∷ []; next_idx = 0 }

two-IsValid : IsValid two
two-IsValid = record { inhabited = omega arith; in_range = omega arith; distinct = tt }

abbrev gater_a : SiblingGater
gater_a = record { sibling_ids = ("b_id", tt) ∷ []; my_name = "a" }

abbrev gater_b : SiblingGater
gater_b = record { sibling_ids = ("a_id", tt) ∷ []; my_name = "b" }

-- Both instances see the peer; only the first to claim it holds it.
abbrev history : List Event
history = secured gater_a false "p" ∷ secured gater_b false "p" ∷ connectedness "a" "p" true ∷ []

abbrev after : SharedPeerSet
after = record two { assignments = ("p", "a") ∷ [] }

abbrev a_holds_p : Hold
a_holds_p = record { holder = "a"; peer = "p" }

history_run : events history two ≡ some (after, a_holds_p ∷ a_holds_p ∷ [])
unfolding events event_step intercept_secured handle_change claim is_sibling lookup insert
    String_discrete
history_run = refl

-- The handler of an instance closes the peer that it does not own, until its channel is closed.
inbound_run :
    handle_inbound_peers "b" (changed "p" true ∷ changed "q" true ∷ closed ∷ done ∷ []) after
    ≡ (record two { assignments = ("q", "b") ∷ ("p", "a") ∷ [] }, "p" ∷ [])
unfolding handle_inbound_peers handle_change claim lookup insert String_discrete
inbound_run = refl

holds_exclusive_example : ◌≡◌ {A = String} "a" "a"
holds_exclusive_example =
    holds_exclusive history two after (a_holds_p ∷ a_holds_p ∷ []) a_holds_p a_holds_p two-IsValid
      history_run here (there here) refl
