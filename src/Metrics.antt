-- ===== src/Metrics.antt =====
-- metrics/metrics.go: the collectors of the process, and the view of them that each instance gets.
-- The Prometheus library is a parameter; a vector has labels that are bound, and others that are free.
-- Values, buckets and help texts are left out.
pub mod Apart
pub mod Tests
use beaconprobe.Base.{
  ℕ, zero, suc, ◌+◌, ◌-◌, ◌*◌, ◌/◌, ◌%◌, ◌^◌, ◌≤◌, ◌<◌, min, max, String, ◌≡◌, refl, sym, ap, ◌∙◌,
  subst, ◌≢◌, ◌↔◌, ◌⊎◌, inl, inr, ite, if_pos, if_neg, Bool, true, false, not, ◌&&◌, ◌||◌, Option,
  none, some, List, [], ◌∷◌, ◌++◌, map, arith, dec_lt, dec_le, ℕ_discrete, String_discrete, lookup,
  insert, delete, lookup-insert, lookup-delete, GoMap, Distinct, delete-Distinct, insert-Distinct,
  delete_absent, length-delete, Bool-cases, Option-cases, Key, nat_key, string_key, ◌==◌, ltb, leb,
  if◌then◌else◌, ltb→lt, lt→ltb, leb→le, le→leb, tests, ==_sound, ==_refl, ==_ne, length, get_elem?,
  take, set, select, any, All, Has, here, there, length-append, length-take, length-select-le,
  get_elem?_total, All_Has, All-map, All-append, get_or, length-set, get_or-set_self, get_or-set_ne,
}
use mathlib.Core.Option

-- A collector, or a view of one: the labels that have a value, and the names of those that have not.
pub record Vec : Type 0 where
  pub name : String
  pub bound : List (String × String)
  pub free : List String

-- One time series.
pub record Series : Type 0 where
  pub name : String
  pub labels : List (String × String)

abbrev new_vec : String → List String → Vec
new_vec name labels = record { name = name; bound = []; free = labels }

abbrev attestation_latency : Vec
attestation_latency = new_vec "beaconprobe_attestation_latency_seconds" ("probe" ∷ "subnet_id" ∷ [])

abbrev attestation_latency_from_four_seconds : Vec
attestation_latency_from_four_seconds =
    new_vec "beaconprobe_attestation_latency_from_4s_seconds" ("probe" ∷ "subnet_id" ∷ [])

abbrev attestation_arrival_in_slot : Vec
attestation_arrival_in_slot =
    new_vec "beaconprobe_attestation_arrival_in_slot_seconds" ("probe" ∷ "subnet_id" ∷ [])

abbrev pub attestations_received : Vec
attestations_received =
    new_vec "beaconprobe_attestations_received_total" ("probe" ∷ "subnet_id" ∷ [])

abbrev late_attestations : Vec
late_attestations = new_vec "beaconprobe_late_attestations_total" ("probe" ∷ "subnet_id" ∷ [])

abbrev block_arrival_in_slot : Vec
block_arrival_in_slot = new_vec "beaconprobe_block_arrival_in_slot_seconds" ("probe" ∷ [])

abbrev blocks_received : Vec
blocks_received = new_vec "beaconprobe_blocks_received_total" ("probe" ∷ [])

abbrev connected_peers : Vec
connected_peers = new_vec "beaconprobe_connected_peers" ("probe" ∷ [])

abbrev quic_peers : Vec
quic_peers = new_vec "beaconprobe_quic_peers" ("probe" ∷ [])

abbrev tcp_peers : Vec
tcp_peers = new_vec "beaconprobe_tcp_peers" ("probe" ∷ [])

abbrev pub peer_user_agents : Vec
peer_user_agents = new_vec "beaconprobe_peer_user_agents" ("probe" ∷ "user_agent" ∷ [])

abbrev dial_attempts : Vec
dial_attempts = new_vec "beaconprobe_dial_attempts_total" ("probe" ∷ [])

abbrev dial_backoffs : Vec
dial_backoffs = new_vec "beaconprobe_dial_backoffs_total" ("probe" ∷ [])

-- The free labels without one; `none` if it is not among them.
pub without : String → List String → Option (List String)
without l [] = none
without l (k ∷ ks) =
    let rest = without l ks in
    if k == l then some ks else elim rest [ none ↦ none | some ls ↦ some (k ∷ ls) ]

abbrev pub zip : List String → List String → List (String × String)
zip (k ∷ ks) (v ∷ vs) = (k, v) ∷ zip ks vs
zip _ _ = []

-- The calls of the Prometheus library; `none` is a panic.
pub record Prometheus : Type 0 where
  pub must_curry_with : Vec → String → String → Option Vec
  pub with_label_values : Vec → List String → Option Series

-- What it documents: `MustCurryWith` binds a label that is free, `WithLabelValues` gives the free labels
-- their values in order, and panics on another number of values than of free labels.
pub record IsPrometheus (lib : Prometheus) : Type 0 where
  pub curries :
      (v : Vec) (label value : String) (ls : List String)
      → without label v.free ≡ some ls
      → lib.must_curry_with v label value
        ≡ some (record v { bound = v.bound ++ (label, value) ∷ []; free = ls })
  pub completes :
      (v : Vec) (values : List String)
      → length values ≡ length v.free
      → lib.with_label_values v values
        ≡ some (record { name = v.name; labels = v.bound ++ zip v.free values })
  pub refuses :
      (v : Vec) (values : List String)
      → length values ≢ length v.free
      → lib.with_label_values v values ≡ none

-- The view of one instance: vectors that ask for one more label, and series.
pub record Metrics : Type 0 where
  pub attestation_latency_view : Vec
  pub attestation_latency_from_four_seconds_view : Vec
  pub attestation_arrival_in_slot_view : Vec
  pub attestations_received_view : Vec
  pub late_attestations_view : Vec
  pub block_arrival_in_slot_view : Series
  pub blocks_received_view : Series
  pub connected_peers_view : Series
  pub quic_peers_view : Series
  pub tcp_peers_view : Series
  pub peer_user_agents_view : Vec
  pub dial_attempts_view : Series
  pub dial_backoffs_view : Series

infixl 5 ◌>>=◌
abbrev pub ◌>>=◌ : {A B : Type 0} → Option A → (A → Option B) → Option B
none >>= f = none
some a >>= f = f a

pub new_metrics : Prometheus → String → Option Metrics
new_metrics lib probe_name = do
  f_attestation_latency ← lib.must_curry_with attestation_latency "probe" probe_name
  f_attestation_latency_from_four_seconds ←
      lib.must_curry_with attestation_latency_from_four_seconds "probe" probe_name
  f_attestation_arrival_in_slot ← lib.must_curry_with attestation_arrival_in_slot "probe" probe_name
  f_attestations_received ← lib.must_curry_with attestations_received "probe" probe_name
  f_late_attestations ← lib.must_curry_with late_attestations "probe" probe_name
  f_block_arrival_in_slot ← lib.with_label_values block_arrival_in_slot (probe_name ∷ [])
  f_blocks_received ← lib.with_label_values blocks_received (probe_name ∷ [])
  f_connected_peers ← lib.with_label_values connected_peers (probe_name ∷ [])
  f_quic_peers ← lib.with_label_values quic_peers (probe_name ∷ [])
  f_tcp_peers ← lib.with_label_values tcp_peers (probe_name ∷ [])
  f_peer_user_agents ← lib.must_curry_with peer_user_agents "probe" probe_name
  f_dial_attempts ← lib.with_label_values dial_attempts (probe_name ∷ [])
  f_dial_backoffs ← lib.with_label_values dial_backoffs (probe_name ∷ [])
  some (record {
    attestation_latency_view = f_attestation_latency;
    attestation_latency_from_four_seconds_view = f_attestation_latency_from_four_seconds;
    attestation_arrival_in_slot_view = f_attestation_arrival_in_slot;
    attestations_received_view = f_attestations_received;
    late_attestations_view = f_late_attestations;
    block_arrival_in_slot_view = f_block_arrival_in_slot;
    blocks_received_view = f_blocks_received;
    connected_peers_view = f_connected_peers;
    quic_peers_view = f_quic_peers;
    tcp_peers_view = f_tcp_peers;
    peer_user_agents_view = f_peer_user_agents;
    dial_attempts_view = f_dial_attempts;
    dial_backoffs_view = f_dial_backoffs;
  })
