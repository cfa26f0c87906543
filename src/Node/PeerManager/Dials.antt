-- ===== src/Node/PeerManager/Dials.antt =====
-- When node/peermanager.go dials a candidate, and what a dial leaves behind.
use beaconprobe.Base.{
  ℕ, ◌+◌, ◌≤◌, String, ◌≡◌, refl, ◌∙◌, Bool, true, false, not, ◌&&◌, some, List, arith, lookup,
  nat_key, string_key, ◌==◌, ltb, if◌then◌else◌, Has, All_Has,
}
use beaconprobe.Base.Int.{pos, ltb_ℤ, leb_ℤ}
use beaconprobe.Node.PeerManager.{
  PeerManager, Answers, Outcome, dial_failed, dialled, in_backoff, should_skip, dial,
  handle_candidate, record_failure, clear_backoff, entry_of, backoff_after,
}
use beaconprobe.Node.PeerManager.Backoff.{in_backoff-record_failure, clear_backoff_forgets}
use beaconprobe.Node.PeerFinder.{PeerFinder, AddrInfo, Peers, IsSorted, get_peers}
use beaconprobe.Node.PeerFinder.Pulls.{Shuffles, MayPull, get_peers_pulls}

-- The cap lets the dial through: there is none, or the host has fewer peers.
abbrev pub below_cap : PeerManager → ℕ → Bool
below_cap pm peers = not (ltb_ℤ (pos 0) pm.max_peers && leb_ℤ pm.max_peers (pos peers))

-- The three conditions under which a candidate is dialled.
abbrev pub may_dial : PeerManager → Answers → String → Bool
may_dial pm a id =
    not a.connected && (not (in_backoff pm a.check_time id) && below_cap pm a.peer_count)

abbrev pub is_dial : Outcome → Bool
is_dial dial_failed = true
is_dial dialled = true
is_dial _ = false

-- A candidate is dialled exactly if it is not connected, not in backoff and the cap allows it. A dial
-- counts one attempt, and nothing else counts one.
pub handle_candidate_dials :
    (pm : PeerManager) (a : Answers) (id : String)
    → (is_dial (handle_candidate pm a id).1 ≡ may_dial pm a id)
      × ((handle_candidate pm a id).0.dial_attempts
          ≡ (if may_dial pm a id then pm.dial_attempts + 1 else pm.dial_attempts))
      × ((handle_candidate pm a id).0.max_peers ≡ pm.max_peers)
unfolding handle_candidate dial record_failure clear_backoff
handle_candidate_dials pm a id = ground arith

-- After a candidate has been handled, every other peer is in backoff at exactly the times at which
-- it was before, and so is the candidate if it was not dialled. A candidate whose dial succeeded is
-- in no backoff, and one whose dial failed is in backoff at exactly the times before the end of the
-- wait for its new number of failures.
pub in_backoff-handle_candidate :
    (pm : PeerManager) (a : Answers) (id q : String) (t : ℕ)
    → in_backoff (handle_candidate pm a id).0 t q ≡ (
        if (q == id) && may_dial pm a id
        then (if a.dial_succeeds
            then false
            else ltb t (a.failure_time + backoff_after ((entry_of pm id).fail_count + 1)))
        else in_backoff pm t q)
unfolding handle_candidate dial
in_backoff-handle_candidate pm a id q t = ground (
  arith,
  in_backoff-record_failure (record pm { dial_attempts = pm.dial_attempts + 1 }) a.failure_time t id
      q,
  clear_backoff_forgets (record pm { dial_attempts = pm.dial_attempts + 1 }) t id q,
)

not_skipped :
    (pm : PeerManager) (connected : String → Bool) (now later : ℕ) (id : String)
    → should_skip pm connected now id ≡ false
    → now ≤ later
    → (connected id ≡ false) × (in_backoff pm later id ≡ false)
unfolding should_skip in_backoff
not_skipped pm connected now later id h le = ground arith

-- What `Run` pulls it dials: a peer that `GetPeers` returned with `shouldSkip` is, unless a
-- connection to it has come up meanwhile, dialled exactly if the cap allows it, provided that the clock does
-- not run backwards and the manager has recorded no failure in between.
pub pulled_is_dialled :
    (shuffle : List String → List String) (f : PeerFinder) (pm : PeerManager) (a : Answers)
    (connected : String → Bool) (now count : ℕ) (ps : Peers) (ai : AddrInfo)
    → Shuffles shuffle
    → IsSorted f
    → lookup pm.instance_name f.peers ≡ some ps
    → Has ai (get_peers shuffle f pm.instance_name count (some (should_skip pm connected now)))
    → now ≤ a.check_time
    → a.connected ≡ connected ai.id
    → is_dial (handle_candidate pm a ai.id).1 ≡ below_cap pm a.peer_count
pulled_is_dialled shuffle f pm a connected now count ps ai sh w h m le same =
    let skip = some (should_skip pm connected now) in
    let (may, _, _) = get_peers_pulls shuffle f pm.instance_name count skip ps sh w h in
    let (_, _, stays) = All_Has (MayPull f pm.instance_name skip ps) may m in
    let (apart, ready) = not_skipped pm connected now a.check_time ai.id stays le in
    let (dials, _, _) = handle_candidate_dials pm a ai.id in dials ∙ rw (same, apart, ready) refl
