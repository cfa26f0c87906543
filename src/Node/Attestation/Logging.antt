-- ===== src/Node/Attestation/Logging.antt =====
-- What node/attestation.go logs and measures for the entries of a slot.
use beaconprobe.Base.{ℕ, Bool, ltb, ◌+◌, ◌*◌, ◌≡◌, Option, none, some, nat_key, string_key}
use beaconprobe.Base.Int.{ℤ, sub_ℕ, ◌+ℤ◌}
use beaconprobe.Node.PeerManager.{second}
use beaconprobe.Node.Block.{BlockTracker, get_block_arrival}
use beaconprobe.Node.Attestation.{BufferedAttestation, Sample, Line}

-- The arrival of a slot's block, as a tracker that may be nil knows it.
abbrev pub arrival_in : Option BlockTracker → ℕ → Option ℕ
arrival_in none slot = none
arrival_in (some bt) slot = get_block_arrival bt slot

-- With a block that arrived at `bt` the latency is counted from the block; with none it is counted
-- from four seconds into the slot.
abbrev pub IsMeasured : ℕ → ℕ → Option ℕ → Sample × Line → Type 0
IsMeasured slot slot_start none (m, l) =
    (m.latency ≡ m.latency_from_four_seconds) × (l.block ≡ "missed") × (l.slot ≡ slot)
IsMeasured slot slot_start (some bt) (m, l) =
    (m.latency +ℤ sub_ℕ bt slot_start ≡ m.arrival_in_slot)
    × (l.block ≡ "proposed")
    × (l.slot ≡ slot)

-- The subnet of the sample, the attester of the line, the time in the slot and whether it is late.
abbrev pub reported : Sample × Line → ℕ × ℕ × ℤ × Bool
reported (m, l) = (m.subnet, l.attester, m.arrival_in_slot, m.late)

-- The same of an entry, for a slot that starts at b: late is more than eight seconds after it.
abbrev pub sent : ℕ → BufferedAttestation → ℕ × ℕ × ℤ × Bool
sent b e =
    (e.subnet_id, e.attester_idx, sub_ℕ e.receive_time b, ltb (b + 8 * second) e.receive_time)
