-- ===== src/Node/Block.antt =====
-- node/block.go: the arrival times of blocks. A slot is a uint64, a time a number of nanoseconds.
-- prysm's `slots.StartTime` for the genesis time is the parameter `start_time`, `none` its error.
pub mod Cleanup
pub mod Tests
use beaconprobe.Base.{
  ℕ, zero, suc, ◌+◌, ◌-◌, ◌*◌, ◌/◌, ◌%◌, ◌^◌, ◌≤◌, ◌<◌, min, max, String, ◌≡◌, refl, sym, ap, ◌∙◌,
  subst, ◌≢◌, ◌↔◌, ◌⊎◌, inl, inr, ite, if_pos, if_neg, Bool, true, false, not, ◌&&◌, ◌||◌, Option,
  none, some, List, [], ◌∷◌, ◌++◌, map, arith, dec_lt, dec_le, ℕ_discrete, String_discrete, lookup,
  insert, delete, lookup-insert, lookup-delete, GoMap, Distinct, delete-Distinct, insert-Distinct,
  delete_absent, length-delete, Bool-cases, Option-cases, Key, nat_key, string_key, ◌==◌, ltb, leb,
  if◌then◌else◌, ltb→lt, lt→ltb, leb→le, le→leb, tests, ==_sound, ==_refl, ==_ne, length, get_elem?,
  take, set, select, any, All, Has, here, there, length-append, length-take, length-select-le,
  get_elem?_total, All_Has,
}
use beaconprobe.Base.Int.{ℤ, sub_ℕ, milliseconds}
use beaconprobe.Node.PeerSet.{u64_mod}

-- `BlockTracker` without its mutex: each method is one step.
abbrev pub BlockTracker : Type 0
BlockTracker = GoMap ℕ ℕ

abbrev new_block_tracker : BlockTracker
new_block_tracker = []

pub record_block : BlockTracker → ℕ → ℕ → BlockTracker
record_block bt slot t = elim (lookup slot bt) [ none ↦ insert slot t bt | some _ ↦ bt ]

pub get_block_arrival : BlockTracker → ℕ → Option ℕ
get_block_arrival bt slot = lookup slot bt

-- The loop of `cleanup`: Go's `range` visits each key, and may delete the one that it visits.
pub cleanup : BlockTracker → ℕ → BlockTracker
cleanup [] min_slot = []
cleanup ((s, t) ∷ bt) min_slot =
    let rest = cleanup bt min_slot in if ltb s min_slot then rest else (s, t) ∷ rest

-- What one round of the loop reads: an error of the subscription, data that is no block, or the slot
-- of a block and the time at which it was received.
pub data Message : Type 0 where
  read_error undecodable : Message
  block_received : ℕ → ℕ → Message

-- The loop's variable, the tracker, and what it reports: the counter `BlocksReceived`, the values
-- that `BlockArrivalInSlot` observes, and the lines of the file log, which may be absent.
pub record Listener : Type 0 where
  pub tracker : BlockTracker
  pub last_cleanup : ℕ
  pub blocks_received : ℕ
  pub observed : List ℤ
  pub file_log : Option (List (ℕ × ℤ))

-- Subtraction of uint64.
abbrev pub sub_u64 : ℕ → ℕ → ℕ
sub_u64 a b = (a + u64_mod - b) % u64_mod

log_block : Option (List (ℕ × ℤ)) → ℕ → ℤ → Option (List (ℕ × ℤ))
log_block none slot d = none
log_block (some ls) slot d = some (ls ++ (slot, milliseconds d) ∷ [])

report_block : Listener → ℕ → ℕ → ℕ → Listener
unfolding log_block
report_block l slot t slot_start =
    let d = sub_ℕ t slot_start in
    record l {
      tracker = record_block l.tracker slot t;
      blocks_received = l.blocks_received + 1;
      observed = l.observed ++ d ∷ [];
      file_log = log_block l.file_log slot d;
    }

pub tidy : Listener → ℕ → Listener
tidy l slot =
    if ltb 64 (sub_u64 slot l.last_cleanup)
    then record l { last_cleanup = slot; tracker = cleanup l.tracker (sub_u64 slot 64) }
    else l

pub handle_block : (ℕ → Option ℕ) → Listener → ℕ → ℕ → Listener
unfolding report_block tidy
handle_block start_time l slot t = elim (start_time slot) [
  | none ↦ l
  | some slot_start ↦ tidy (report_block l slot t slot_start) slot
]

pub listen_for_blocks : (ℕ → Option ℕ) → List Message → Listener → Listener
listen_for_blocks start_time [] l = l
listen_for_blocks start_time (read_error ∷ ms) l = l
listen_for_blocks start_time (undecodable ∷ ms) l = listen_for_blocks start_time ms l
listen_for_blocks start_time (block_received slot t ∷ ms) l =
    listen_for_blocks start_time ms (handle_block start_time l slot t)

-- The first arrival of a slot stays, and no other slot is touched.
pub lookup-record_block :
    (bt : BlockTracker) (slot t s : ℕ)
    → get_block_arrival (record_block bt slot t) s ≡ elim (get_block_arrival bt s) [
      | some old ↦ some old
      | none ↦ ite (ℕ_discrete s slot) (some t) none
    ]
unfolding get_block_arrival record_block
lookup-record_block bt slot t s = ground (arith, lookup-insert s slot t bt)

-- `cleanup` removes exactly the slots below the bound.
pub lookup-cleanup :
    (bt : BlockTracker) (min_slot s : ℕ)
    → get_block_arrival (cleanup bt min_slot) s
      ≡ (if ltb s min_slot then none else get_block_arrival bt s)
unfolding get_block_arrival cleanup lookup
lookup-cleanup [] min_slot s = ground arith
lookup-cleanup ((r, t) ∷ bt) min_slot s = ground (arith, lookup-cleanup bt min_slot s)
