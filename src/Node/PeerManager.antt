-- ===== src/Node/PeerManager.antt =====
-- node/peermanager.go: the dials of one instance, with backoff and a cap on peers. Times and
-- durations are nanoseconds; a time is an argument of each call that asks the clock, and so is each
-- answer of the libp2p host. A host.Connect that fails is the outcome `false`.
pub mod Backoff
pub mod Dials
pub mod Loop
pub mod Drain
pub mod Tests
use beaconprobe.Base.{
  ℕ, zero, suc, ◌+◌, ◌-◌, ◌*◌, ◌/◌, ◌%◌, ◌^◌, ◌≤◌, ◌<◌, min, max, String, ◌≡◌, refl, sym, ap, ◌∙◌,
  subst, ◌≢◌, ◌↔◌, ◌⊎◌, inl, inr, ite, if_pos, if_neg, Bool, true, false, not, ◌&&◌, ◌||◌, Option,
  none, some, List, [], ◌∷◌, ◌++◌, map, arith, dec_lt, dec_le, ℕ_discrete, String_discrete, lookup,
  insert, delete, lookup-insert, lookup-delete, GoMap, Distinct, delete-Distinct, insert-Distinct,
  delete_absent, length-delete, Bool-cases, Option-cases, Key, nat_key, string_key, ◌==◌, ltb, leb,
  if◌then◌else◌, ltb→lt, lt→ltb, leb→le, le→leb, tests, ==_sound, ==_refl, ==_ne, length, get_elem?,
  take, set, select, any, All, Has, here, there, length-append, length-take, length-select-le,
  get_elem?_total, All_Has,
}
use beaconprobe.Base.Int.{ℤ, pos, negsuc, pos_part, neg_part, add_up, ltb_ℤ, leb_ℤ}

abbrev pub second : ℕ
second = 1000000000

abbrev pub max_concurrent_dials : ℕ
max_concurrent_dials = 500

abbrev pub initial_backoff : ℕ
initial_backoff = 30 * second

abbrev pub max_backoff : ℕ
max_backoff = 30 * 60 * second

pub record BackoffEntry : Type 0 where
  pub fail_count : ℕ
  pub next_dial : ℕ

-- The two counters of the manager's metrics that these methods touch stand beside its own fields.
pub record PeerManager : Type 0 where
  pub max_peers : ℤ
  pub instance_name : String
  pub backoff : GoMap String BackoffEntry
  pub dial_attempts : ℕ
  pub dial_backoffs : ℕ

pub new_peer_manager : ℤ → String → PeerManager
new_peer_manager max_peers name = record {
  max_peers = max_peers;
  instance_name = name;
  backoff = [];
  dial_attempts = 0;
  dial_backoffs = 0;
}

pub in_backoff : PeerManager → ℕ → String → Bool
in_backoff pm now id = elim (lookup id pm.backoff) [
  | none ↦ false
  | some entry ↦ ltb now entry.next_dial
]

pub should_skip : PeerManager → (String → Bool) → ℕ → String → Bool
unfolding in_backoff
should_skip pm connected now id = if connected id then true else in_backoff pm now id

-- A cap of 0 is no cap; the margin is 20, which wraps for a cap at the end of an int64.
pub too_many_in_flight : ℤ → ℕ → ℕ → Bool
too_many_in_flight (pos zero) peers in_flight = false
too_many_in_flight max_peers peers in_flight = leb_ℤ (add_up max_peers 20) (pos (peers + in_flight))

-- The wait after the n-th failure in a row.
pub backoff_after : ℕ → ℕ
backoff_after n = min (initial_backoff * 2 ^ min (n - 1) 10) max_backoff

-- `pm.backoff[id]`, the zero entry for a missing key.
abbrev pub entry_of : PeerManager → String → BackoffEntry
entry_of pm id = elim (lookup id pm.backoff) [
  | none ↦ record { fail_count = 0; next_dial = 0 }
  | some entry ↦ entry
]

pub record_failure : PeerManager → ℕ → String → PeerManager
unfolding backoff_after
record_failure pm now id =
    let n = (entry_of pm id).fail_count + 1 in
    record pm {
      backoff = insert id (record { fail_count = n; next_dial = now + backoff_after n }) pm.backoff;
    }

pub clear_backoff : PeerManager → String → PeerManager
clear_backoff pm id = record pm { backoff = delete id pm.backoff }

-- A negative duration is answered by 0, as `-` does here.
pub backoff_duration : PeerManager → ℕ → String → ℕ
backoff_duration pm now id = elim (lookup id pm.backoff) [
  | none ↦ 0
  | some entry ↦ entry.next_dial - now
]

-- What the host and the clock answer while one candidate is handled: the first check of the
-- connection, the peers that the host then has, the clock at the check of the backoff and at a
-- failure, and whether the dial succeeds.
pub record Answers : Type 0 where
  pub connected : Bool
  pub check_time : ℕ
  pub peer_count : ℕ
  pub dial_succeeds : Bool
  pub failure_time : ℕ

pub data Outcome : Type 0 where
  already_connected backing_off at_cap dial_failed dialled : Outcome

pub dial : PeerManager → Answers → String → PeerManager × Outcome
unfolding record_failure clear_backoff
dial pm a id =
    let counted = record pm { dial_attempts = pm.dial_attempts + 1 } in
    if a.dial_succeeds
    then (clear_backoff counted id, dialled)
    else (record_failure counted a.failure_time id, dial_failed)

pub handle_candidate : PeerManager → Answers → String → PeerManager × Outcome
unfolding in_backoff dial
handle_candidate pm a id =
    if a.connected
    then (pm, already_connected)
    else if in_backoff pm a.check_time id
    then (record pm { dial_backoffs = pm.dial_backoffs + 1 }, backing_off)
    else if ltb_ℤ (pos 0) pm.max_peers && leb_ℤ pm.max_peers (pos a.peer_count)
    then (pm, at_cap)
    else dial pm a id
