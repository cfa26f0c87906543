-- ===== src/Node/Attestation.antt =====
-- node/attestation.go: attestations are buffered for each slot and logged once the slot is over.
-- Decoding a message is prysm's, and shows here as what a message turns out to be; the prysm
-- function `slots.StartTime` is the parameter `start_time`, and a tick carries the answer of
-- `slots.CurrentSlot`. A duration is a number of nanoseconds, where the metrics take seconds.
pub mod Conserves
pub mod Logging
pub mod Tests
use beaconprobe.Base.{
  ℕ, zero, suc, ◌+◌, ◌-◌, ◌*◌, ◌/◌, ◌%◌, ◌^◌, ◌≤◌, ◌<◌, min, max, String, ◌≡◌, refl, sym, ap, ◌∙◌,
  subst, ◌≢◌, ◌↔◌, ◌⊎◌, inl, inr, ite, if_pos, if_neg, Bool, true, false, not, ◌&&◌, ◌||◌, Option,
  none, some, List, [], ◌∷◌, ◌++◌, map, arith, dec_lt, dec_le, ℕ_discrete, String_discrete, lookup,
  insert, delete, lookup-insert, lookup-delete, GoMap, Distinct, delete-Distinct, insert-Distinct,
  delete_absent, length-delete, Bool-cases, Option-cases, Key, nat_key, string_key, ◌==◌, ltb, leb,
  if◌then◌else◌, ltb→lt, lt→ltb, leb→le, le→leb, tests, ==_sound, ==_refl, ==_ne, length, get_elem?,
  take, set, select, any, All, Has, here, there, length-append, length-take, length-select-le,
  get_elem?_total, All_Has,
}
use beaconprobe.Base.Int.{ℤ, pos, sub_ℕ, ◌-ℤ◌, ltb_ℤ, milliseconds}
use beaconprobe.Node.PeerManager.{second}
use beaconprobe.Node.Block.{BlockTracker, get_block_arrival, sub_u64}

pub record BufferedAttestation : Type 0 where
  pub receive_time : ℕ
  pub subnet_id : ℕ
  pub slot : ℕ
  pub attester_idx : ℕ

-- What one round of `collectSubnet` reads; an attestation comes with its slot, its attester and the
-- time of its receipt.
pub data Message : Type 0 where
  read_error undecodable : Message
  attestation : ℕ → ℕ → ℕ → Message

-- The entries that the loop sends on the channel.
pub collect_subnet : ℕ → List Message → List BufferedAttestation
collect_subnet subnet [] = []
collect_subnet subnet (read_error ∷ ms) = []
collect_subnet subnet (undecodable ∷ ms) = collect_subnet subnet ms
collect_subnet subnet (attestation slot idx now ∷ ms) =
    record { receive_time = now; subnet_id = subnet; slot = slot; attester_idx = idx }
    ∷ collect_subnet subnet ms

abbrev pub Pending : Type 0
Pending = GoMap ℕ (List BufferedAttestation)

-- `pending[s]`, with nil for a missing key.
pub entries_of : ℕ → Pending → List BufferedAttestation
entries_of s m = elim (lookup s m) [ none ↦ [] | some es ↦ es ]

pub buffer : BufferedAttestation → Pending → Pending
unfolding entries_of
buffer e m = insert e.slot (entries_of e.slot m ++ e ∷ []) m

-- The slots that the loop over the map hands to `logSlotAttestations`, and what it leaves.
pub flushed : ℕ → Pending → List (ℕ × List BufferedAttestation)
flushed completed [] = []
flushed completed ((s, es) ∷ m) =
    let rest = flushed completed m in if leb s completed then (s, es) ∷ rest else rest

pub kept : ℕ → Pending → Pending
kept completed [] = []
kept completed ((s, es) ∷ m) =
    let rest = kept completed m in if leb s completed then rest else (s, es) ∷ rest

-- What the loop of `flushSlots` selects: the end of the context, an entry from the channel, or the
-- timer, with the current slot at that moment.
pub data Input : Type 0 where
  done : Input
  entry : BufferedAttestation → Input
  tick : ℕ → Input

-- The map, and the goroutines started so far, in order.
pub record Flusher : Type 0 where
  pub pending : Pending
  pub jobs : List (ℕ × List BufferedAttestation)

pub tick_step : ℕ → Flusher → Flusher
unfolding flushed kept
tick_step current f =
    let completed = sub_u64 current 1 in
    record { pending = kept completed f.pending; jobs = f.jobs ++ flushed completed f.pending }

pub flush_slots : List Input → Flusher → Flusher
flush_slots [] f = f
flush_slots (done ∷ is) f = f
flush_slots (entry e ∷ is) f = flush_slots is (record f { pending = buffer e f.pending })
flush_slots (tick current ∷ is) f = flush_slots is (tick_step current f)

-- The metrics of one entry: its label is the subnet.
pub record Sample : Type 0 where
  pub subnet : ℕ
  pub latency : ℤ
  pub latency_from_four_seconds : ℤ
  pub arrival_in_slot : ℤ
  pub late : Bool

-- A line of the file log.
pub record Line : Type 0 where
  pub subnet : ℕ
  pub slot : ℕ
  pub time_in_slot_ms : ℤ
  pub arrival_delay_ms : ℤ
  pub attester : ℕ
  pub block : String
  pub block_time_in_slot_ms : Option ℤ

-- The status of the slot's block, its time, or four seconds into the slot, and its time in the slot.
abbrev Reference : Type 0
Reference = record { status : String; time : ℕ; in_slot : ℤ }

reference_of : ℕ → Option ℕ → Reference
reference_of slot_start none = record {
  status = "missed";
  time = slot_start + 4 * second;
  in_slot = pos 0;
}
reference_of slot_start (some bt) = record {
  status = "proposed";
  time = bt;
  in_slot = sub_ℕ bt slot_start;
}

-- A nil tracker knows no block.
block_reference : Option BlockTracker → ℕ → ℕ → Reference
unfolding reference_of
block_reference none slot slot_start = reference_of slot_start none
block_reference (some bt) slot slot_start = reference_of slot_start (get_block_arrival bt slot)

log_entry : ℕ → ℕ → Reference → BufferedAttestation → Sample × Line
log_entry slot slot_start r e =
    let into_slot = sub_ℕ e.receive_time slot_start in
    let delay = sub_ℕ e.receive_time r.time in
    (
      record {
        subnet = e.subnet_id;
        latency = delay;
        latency_from_four_seconds = into_slot -ℤ pos (4 * second);
        arrival_in_slot = into_slot;
        late = ltb_ℤ (pos (8 * second)) into_slot;
      },
      record {
        subnet = e.subnet_id;
        slot = slot;
        time_in_slot_ms = milliseconds into_slot;
        arrival_delay_ms = milliseconds delay;
        attester = e.attester_idx;
        block = r.status;
        block_time_in_slot_ms =
            if r.status == "proposed" then some (milliseconds r.in_slot) else none;
      },
    )

pub log_slot_attestations :
    (ℕ → Option ℕ) → Option BlockTracker → ℕ → List BufferedAttestation → List (Sample × Line)
unfolding block_reference log_entry
log_slot_attestations start_time tracker slot es = elim (start_time slot) [
  | none ↦ []
  | some slot_start ↦ map (log_entry slot slot_start (block_reference tracker slot slot_start)) es
]
