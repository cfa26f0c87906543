-- ===== src/Node/Block/Tests.antt =====
-- Runs of the block listener, and its theorems at concrete inputs.
use beaconprobe.Base.{
  ℕ, ◌+◌, ◌*◌, ◌≤◌, ◌≡◌, refl, Option, none, some, List, [], ◌∷◌, arith, ℕ_discrete, lookup, insert,
  nat_key, string_key, ltb, if◌then◌else◌,
}
use beaconprobe.Base.Int.{pos}
use beaconprobe.Node.Block.{
  get_block_arrival, record_block, cleanup, Message, read_error, undecodable, block_received,
  Listener, log_block, report_block, tidy, handle_block, listen_for_blocks,
}
use beaconprobe.Node.Block.Cleanup.{early_block_wipes, InOrder, listen_bounded, listen_keeps_first}

-- Slots of 12 seconds, in nanoseconds, and none for the slots from 1000.
slot_time : ℕ → Option ℕ
slot_time slot = if ltb slot 1000 then some (slot * 12000000000) else none

abbrev idle : Listener
idle = record {
  tracker = [];
  last_cleanup = 0;
  blocks_received = 0;
  observed = [];
  file_log = some [];
}

-- A second arrival of a block is counted and not recorded, and the first is cleaned up in time.
abbrev messages : List Message
messages =
    block_received 10 120000000003
    ∷ undecodable
    ∷ block_received 10 120000000009
    ∷ block_received 80 960000000001
    ∷ read_error
    ∷ block_received 81 972000000001
    ∷ []

listen_run : listen_for_blocks slot_time messages idle ≡ record {
  tracker = (80, 960000000001) ∷ [];
  last_cleanup = 80;
  blocks_received = 3;
  observed = pos 3 ∷ pos 9 ∷ pos 1 ∷ [];
  file_log = some ((10, pos 0) ∷ (10, pos 0) ∷ (80, pos 0) ∷ []);
}
unfolding listen_for_blocks handle_block report_block tidy record_block cleanup log_block lookup
    insert slot_time ℕ_discrete
listen_run = refl

in_order : InOrder 0 81 messages
in_order = omega arith

abbrev seen_80 : Listener
seen_80 = record idle { tracker = (80, 960000000001) ∷ []; last_cleanup = 80 }

seen : get_block_arrival seen_80.tracker 80 ≡ some 960000000001
unfolding get_block_arrival lookup ℕ_discrete
seen = refl

starts : slot_time 3 ≡ some 36000000000
unfolding slot_time
starts = refl

early_block_wipes_example :
    (get_block_arrival (handle_block slot_time seen_80 3 36000000000).tracker 80 ≡ none)
    × ((handle_block slot_time seen_80 3 36000000000).last_cleanup ≡ 3)
early_block_wipes_example =
    early_block_wipes slot_time seen_80 3 36000000000 36000000000 80 starts (omega arith)
      (omega arith) (omega arith) (omega arith)

found_80 :
    get_block_arrival (listen_for_blocks slot_time messages idle).tracker 80 ≡ some 960000000001
unfolding get_block_arrival listen_for_blocks handle_block report_block tidy record_block cleanup
    log_block lookup insert slot_time ℕ_discrete
found_80 = refl

listen_bounded_example :
    ((listen_for_blocks slot_time messages idle).last_cleanup ≤ 80 + 64)
    × (80 ≤ (listen_for_blocks slot_time messages idle).last_cleanup + 64)
listen_bounded_example =
    listen_bounded slot_time messages idle 0 81 80 960000000001 refl (omega arith) (omega arith)
      in_order found_80

abbrev later : List Message
later = block_received 100 1200000000001 ∷ block_received 140 1680000000001 ∷ []

listen_keeps_first_example :
    get_block_arrival (listen_for_blocks slot_time later seen_80).tracker 80 ≡ some 960000000001
listen_keeps_first_example =
    listen_keeps_first slot_time later seen_80 80 144 80 960000000001 (omega arith) (omega arith)
      (omega arith) (omega arith) seen
