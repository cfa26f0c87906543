-- ===== src/Node/Attestation/Tests.antt =====
-- Runs of the attestation buffer, and its theorems at concrete inputs.
use beaconprobe.Base.{
  ℕ, ◌+◌, ◌*◌, ◌≡◌, refl, false, Option, none, some, List, [], ◌∷◌, ℕ_discrete, String_discrete,
  lookup, insert, Distinct, nat_key, string_key,
}
use beaconprobe.Base.Int.{pos, negsuc, ◌-ℤ◌}
use beaconprobe.Node.Block.{BlockTracker}
use beaconprobe.Node.Attestation.{
  BufferedAttestation, read_error, undecodable, attestation, collect_subnet, entries_of, buffer,
  flushed, kept, Input, done, entry, tick, Flusher, tick_step, flush_slots, log_entry,
  block_reference, reference_of, log_slot_attestations,
}
use beaconprobe.Node.Attestation.Conserves.{received, all_of, flush_conserves}

-- An entry of the slot, received two milliseconds after the block.
at_slot : ℕ → ℕ → BufferedAttestation
at_slot slot idx = record {
  receive_time = slot * 12000000000 + 2000000;
  subnet_id = 5;
  slot = slot;
  attester_idx = idx;
}

collect_run :
    collect_subnet 5
      (undecodable ∷ attestation 7 1 84002000000 ∷ read_error ∷ attestation 8 2 0 ∷ [])
    ≡ at_slot 7 1 ∷ []
unfolding collect_subnet at_slot
collect_run = refl

-- An attestation of the running slot stays in the buffer; one that comes late has its slot flushed
-- again.
abbrev inputs : List Input
inputs =
    entry (at_slot 7 1)
    ∷ entry (at_slot 8 2)
    ∷ entry (at_slot 7 3)
    ∷ tick 8
    ∷ entry (at_slot 7 4)
    ∷ tick 9
    ∷ entry (at_slot 9 5)
    ∷ done
    ∷ entry (at_slot 9 6)
    ∷ []

abbrev no_work : Flusher
no_work = record { pending = []; jobs = [] }

flush_run : flush_slots inputs no_work ≡ record {
  pending = (9, at_slot 9 5 ∷ []) ∷ [];
  jobs = (7, at_slot 7 1 ∷ at_slot 7 3 ∷ []) ∷ (7, at_slot 7 4 ∷ []) ∷ (8, at_slot 8 2 ∷ []) ∷ [];
}
unfolding flush_slots tick_step kept flushed buffer entries_of lookup insert at_slot ℕ_discrete
flush_run = refl

flush_conserves_example : all_of 7 (flush_slots inputs no_work) ≡ received 7 inputs
flush_conserves_example = flush_conserves inputs 7

abbrev two_slots : Flusher
two_slots = record { pending = (8, at_slot 8 2 ∷ []) ∷ (7, at_slot 7 1 ∷ []) ∷ []; jobs = [] }

two_slots-Distinct : Distinct two_slots.pending
unfolding lookup ℕ_discrete
two_slots-Distinct = (refl, (refl, tt))

slot_time : ℕ → Option ℕ
slot_time slot = some (slot * 12000000000)

abbrev tracker : BlockTracker
tracker = (7, 84000000000) ∷ []

-- With no block, an attestation two milliseconds into the slot is early by almost four seconds.
missed_run :
    log_slot_attestations slot_time none 7 (at_slot 7 1 ∷ [])
    ≡ (
      record {
        subnet = 5;
        latency = negsuc 3997999999;
        latency_from_four_seconds = negsuc 3997999999;
        arrival_in_slot = pos 2000000;
        late = false;
      },
      record {
        subnet = 5;
        slot = 7;
        time_in_slot_ms = pos 2;
        arrival_delay_ms = negsuc 3997;
        attester = 1;
        block = "missed";
        block_time_in_slot_ms = none;
      },
    )
      ∷ []
unfolding log_slot_attestations log_entry block_reference reference_of slot_time at_slot
    String_discrete ◌-ℤ◌
missed_run = refl
