-- ===== src/Node/UserAgent/Tests.antt =====
-- The agents of the package's own test, and a run of the loop.
use beaconprobe.Base.{
  ◌≡◌, refl, true, false, none, some, List, [], ◌∷◌, map, String_discrete, lookup, insert, delete,
  nat_key, string_key, ◌==◌, if◌then◌else◌,
}
use beaconprobe.Base.Int.{pos, ◌+ℤ◌, ◌-ℤ◌}
use beaconprobe.Node.UserAgent.{
  normalize_user_agent, major_of, no_agents, value_at, count_down, count_up, gauge_down, uncount,
  identified, connectedness_changed, Input, done, identify, connectedness, tick, track_user_agents,
}
use beaconprobe.Node.UserAgent.Tally.{tally, counts_tally}

normalized :
    map normalize_user_agent (
      "Prysm/v5.2.1/linux-amd64" ∷ "Lighthouse/4.1.0" ∷ "nimbus" ∷ "" ∷ "Lodestar/v1.25.0/537dc08"
      ∷ "something/" ∷ [])
    ≡ "Prysm/v5" ∷ "Lighthouse/4" ∷ "nimbus" ∷ "unknown" ∷ "Lodestar/v1" ∷ "something/" ∷ []
unfolding normalize_user_agent major_of String_discrete
normalized = refl

-- The peer p identifies itself again with another version, and q leaves.
abbrev inputs : List Input
inputs =
    identify "p" "Prysm/v5.2.1"
    ∷ identify "q" "Prysm/v5.0"
    ∷ identify "p" "Prysm/v6.0"
    ∷ tick
    ∷ connectedness "p" false
    ∷ connectedness "q" true
    ∷ connectedness "q" true
    ∷ done
    ∷ identify "r" ""
    ∷ []

track_run : track_user_agents inputs no_agents ≡ record {
  peers = ("p", "Prysm/v6") ∷ [];
  counts = ("Prysm/v6", pos 1) ∷ [];
  gauge = ("Prysm/v5", pos 0) ∷ ("Prysm/v6", pos 1) ∷ [];
}
unfolding track_user_agents identified connectedness_changed uncount count_down count_up gauge_down
    normalize_user_agent major_of lookup insert delete String_discrete ◌+ℤ◌ ◌-ℤ◌
track_run = refl

counts_tally_example :
    let s = track_user_agents inputs no_agents in
    (lookup "Prysm/v5" s.counts
      ≡ (if tally "Prysm/v5" s.peers == 0 then none else some (pos (tally "Prysm/v5" s.peers))))
    × (value_at "Prysm/v5" s.gauge ≡ pos (tally "Prysm/v5" s.peers))
counts_tally_example = counts_tally inputs "Prysm/v5"
