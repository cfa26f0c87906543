-- ===== src/Node/PeerManager/Tests.antt =====
-- Runs of the peer manager, and its theorems at concrete managers.
use beaconprobe.Base.{
  ◌*◌, ◌+◌, ltb, ◌==◌, ◌&&◌, ◌^◌, ◌≤◌, String, ◌≡◌, refl, sym, ap, ◌∙◌, subst, ite, false, some, [],
  ◌∷◌, arith, dec_le, String_discrete, lookup, insert, delete, Distinct, nat_key, string_key,
  if◌then◌else◌, length, Has, here,
}
use mathlib.Core.List.Permᴰ
use beaconprobe.Base.Int.{pos}
use beaconprobe.Node.PeerFinder.{AddrInfo, PeerFinder, IsSorted, eligible, get_peers}
use beaconprobe.Node.PeerFinder.Pulls.{Shuffles}
use beaconprobe.Node.PeerManager.{
  PeerManager, Answers, in_backoff, entry_of, new_peer_manager, should_skip, too_many_in_flight,
  backoff_after, record_failure, backoff_duration, handle_candidate, second, initial_backoff,
  max_backoff, max_concurrent_dials,
}
use beaconprobe.Node.PeerManager.Backoff.{backoff_schedule, fail_at}
use beaconprobe.Node.PeerManager.Dials.{
  below_cap, is_dial, may_dial, handle_candidate_dials, in_backoff-handle_candidate,
  pulled_is_dialled,
}
use beaconprobe.Node.PeerManager.Drain.{
  left_to_do, Steps, done, then_one, IsDrained, stopped_terminates,
}
use beaconprobe.Node.PeerManager.Loop.{
  stopped, batch_done, pull_nothing, rest_cancelled, release, RunState, Reach, begin, then_step,
  free, pull, batch_next, acquire, count, launch, room_for, Fits, GoesOn, dials_bounded,
  never_stuck, next_of,
}

abbrev manager : PeerManager
manager = record {
  max_peers = pos 80;
  instance_name = "a";
  backoff = [];
  dial_attempts = 0;
  dial_backoffs = 0;
}

manager_new : new_peer_manager (pos 80) "a" ≡ manager
unfolding new_peer_manager
manager_new = refl

-- The third failure in a row makes the peer wait two minutes.
third_failure :
    backoff_duration (fail_at (0 ∷ 40 * second ∷ 200 * second ∷ []) "p" manager) (200 * second) "p"
    ≡ 120 * second
unfolding backoff_duration fail_at record_failure lookup insert delete String_discrete
third_failure = refl

backoff_schedule_example : backoff_after 9 ≡ ite (dec_le 9 6) (initial_backoff * 2 ^ 8) max_backoff
backoff_schedule_example = backoff_schedule 9 (omega arith)

abbrev failing : Answers
failing = record {
  connected = false;
  check_time = 3;
  peer_count = 7;
  dial_succeeds = false;
  failure_time = 9;
}

in_backoff-handle_candidate_example : in_backoff (handle_candidate manager failing "p").0 5 "p" ≡ (
    if ◌==◌ {A = String} "p" "p" && may_dial manager failing "p"
    then (if failing.dial_succeeds
        then false
        else ltb 5 (failing.failure_time + backoff_after ((entry_of manager "p").fail_count + 1)))
    else in_backoff manager 5 "p")
in_backoff-handle_candidate_example = in_backoff-handle_candidate manager failing "p" "p" 5

handle_candidate_dials_example :
    (is_dial (handle_candidate manager failing "p").1 ≡ may_dial manager failing "p")
    × ((handle_candidate manager failing "p").0.dial_attempts
        ≡ (if may_dial manager failing "p" then 1 else 0))
    × ((handle_candidate manager failing "p").0.max_peers ≡ pos 80)
handle_candidate_dials_example = handle_candidate_dials manager failing "p"

abbrev info : AddrInfo
info = record { id = "p"; addrs = [] }

abbrev finder : PeerFinder
finder = record {
  peer_set = record { assignments = ("p", "a") ∷ []; instances = "a" ∷ []; next_idx = 1 };
  hosts = [];
  peers = ("a", ("p", info) ∷ []) ∷ [];
}

one_found :
    {V : Type 0} (j k : String) (v w : V) → lookup j ((k, v) ∷ []) ≡ some w → (j ≡ k) × (w ≡ v)
unfolding lookup
one_found j k v w h = ground arith

p_owner : lookup "p" finder.peer_set.assignments ≡ some "a"
unfolding lookup String_discrete
p_owner = refl

finder-IsSorted : IsSorted finder
unfolding lookup
finder-IsSorted = record {
  set_valid = record { inhabited = omega arith; in_range = omega arith; distinct = (refl, tt) };
  sorted = λ inst id ps ai h k.
      let (i, e) = one_found inst "a" (("p", info) ∷ []) ps h in
      let (j, f) = one_found id "p" info ai (subst (λ m. lookup id m ≡ some ai) e k) in
      (
        ap (λ (x : AddrInfo). x.id) f ∙ sym j,
        ap (λ x. lookup x finder.peer_set.assignments) j ∙ p_owner ∙ ap some (sym i),
      );
  no_double = λ inst ps h.
      let (i, e) = one_found inst "a" (("p", info) ∷ []) ps h in
      subst (λ m. Distinct m) (sym e) (refl, tt);
}

same_order : Shuffles (λ xs. xs)
same_order xs = Permᴰ.refl xs

p_pulled :
    get_peers (λ xs. xs) finder "a" 50 (some (should_skip manager (λ id. false) 2)) ≡ info ∷ []
unfolding get_peers eligible should_skip lookup String_discrete
p_pulled = refl

pulled_is_dialled_example : is_dial (handle_candidate manager failing "p").1 ≡ below_cap manager 7
unfolding lookup String_discrete
pulled_is_dialled_example =
    pulled_is_dialled (λ xs. xs) finder manager failing (λ id. false) 2 50 (("p", info) ∷ []) info
      same_order finder-IsSorted refl (subst (Has info) (sym p_pulled) here) (omega arith) refl

-- One dial under way.
abbrev dialling_p : RunState
dialling_p = record { place = next_of []; sem = 1; in_flight = 1; dialling = "p" ∷ []; leaving = 0 }

dialling_p-Reach : Reach (pos 80) dialling_p
unfolding too_many_in_flight
dialling_p-Reach =
    then_step
      (then_step
        (then_step
          (then_step (then_step (then_step begin (free 0 refl refl)) (pull "p" [] refl))
            (batch_next 0 "p" [] refl refl))
          (acquire "p" [] refl (omega arith)))
        (count "p" [] refl))
      (launch "p" [] refl)

dials_bounded_example :
    (length dialling_p.dialling ≤ max_concurrent_dials) × Fits (room_for (pos 80)) 1
dials_bounded_example = dials_bounded (pos 80) dialling_p dialling_p-Reach

never_stuck_example : GoesOn (pos 80) dialling_p
never_stuck_example = never_stuck (pos 80) dialling_p dialling_p-Reach (λ e. cc)

-- The loop is cancelled while it rests, with a dial under way.
abbrev stopped_p : RunState
stopped_p = record dialling_p { place = stopped }

stopped_p-Reach : Reach (pos 80) stopped_p
unfolding too_many_in_flight
stopped_p-Reach =
    then_step
      (then_step (then_step (then_step dialling_p-Reach (batch_done refl)) (free 0 refl refl))
        (pull_nothing refl))
      (rest_cancelled refl)

stopped_terminates_example :
    (1 ≤ left_to_do stopped_p)
    × ((u : RunState) × Steps
          (pos 80)
          (record stopped_p { sem = 0; dialling = []; leaving = 1 })
          1
          u
        × IsDrained u)
stopped_terminates_example =
    stopped_terminates (pos 80) stopped_p (record stopped_p { sem = 0; dialling = []; leaving = 1 })
      1 stopped_p-Reach refl (then_one done (release [] [] "p" refl))
