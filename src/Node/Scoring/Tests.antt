-- ===== src/Node/Scoring/Tests.antt =====
-- Runs of the scores with mainnet's slots, and their theorems there.
use beaconprobe.Base.{
  ℕ, suc, ◌*◌, ◌/◌, ◌-◌, max, String, ◌≡◌, refl, ◌↔◌, Bool, true, false, not, some, List, [], ◌∷◌,
  map, arith, ℕ_discrete, lookup, nat_key, string_key, ◌==◌, if◌then◌else◌, Has,
}
use beaconprobe.Base.Int.{ℤ, pos, negsuc}
use beaconprobe.Node.Scoring.{
  score_decay, mul_64, in_mesh_cap, mul_64, Floats, BeaconConfig, TopicScoreParams, PeerScoreParams,
  PeerScoreThresholds, one_slot_duration, one_epoch_duration, attestation_topic_score_params,
  peer_score_config, second, quot_64,
}
use beaconprobe.Base.Int.{leb_ℤ}
use beaconprobe.Node.Gossipsub.Options.{
  scored_topics, Options, gossip_sub_options, gossip_sub_params, options_score_topics,
  degrees_ordered,
}
use beaconprobe.Node.Scoring.Decay.{Spans, decays_span, decay_over}

-- Whole numbers with a sign, which keep the laws; a power is its base.
abbrev Whole : Type 0
Whole = Bool × ℕ

abbrev times_sign : Bool → Bool → Bool
times_sign true s = not s
times_sign false s = s

abbrev whole_of : ℤ → Whole
whole_of (pos n) = (false, n)
whole_of (negsuc n) = (true, suc n)

abbrev whole : Floats Whole
whole = record {
  lit = λ m decimals. whole_of m;
  of_int = whole_of;
  mul = λ x y. (times_sign x.0 y.0, x.1 * y.1);
  div = λ x y. (times_sign x.0 y.0, x.1 / y.1);
  neg = λ x. (not x.0, x.1);
  power = λ x y. x;
}

abbrev mainnet : BeaconConfig
mainnet = record { seconds_per_slot = 12; slots_per_epoch = 32 }

epoch_run : one_epoch_duration mainnet ≡ 384 * second
unfolding one_epoch_duration mul_64 one_slot_duration
epoch_run = refl

-- A negative duration is divided towards zero: -7 by 2 is -3.
quot_run : quot_64 18446744073709551609 2 ≡ some 18446744073709551613
unfolding quot_64 ℕ_discrete
quot_run = refl

given : (p : TopicScoreParams Whole) × (attestation_topic_score_params whole mainnet ≡ some p)
unfolding attestation_topic_score_params in_mesh_cap quot_64 ℕ_discrete one_slot_duration mul_64
    score_decay one_epoch_duration
given = (_, refl)

decays_span_example :
    ((p : TopicScoreParams Whole) × (attestation_topic_score_params whole mainnet ≡ some p)
      × Spans whole mainnet p)
    × ((s : PeerScoreParams Whole (List String)) × (t : PeerScoreThresholds Whole)
        × (peer_score_config whole mainnet ("topic" ∷ []) ≡ some (s, t))
        × (s.behaviour_penalty_decay ≡ decay_over whole mainnet 320)
        × (s.retain_score ≡ 38400 * second))
decays_span_example =
    decays_span whole mainnet ("topic" ∷ []) (λ z. ground arith) (λ z. ground arith) (omega arith)

-- The options of an instance with degree 8 and two subnets.
abbrev topic_of : ℕ → String
topic_of id = if id == 0 then "subnet 0" else "subnet 1"

options :
    (o : Options Whole) × (gossip_sub_options whole mainnet topic_of
        (pos 8)
        true
        (0 ∷ 1 ∷ [])
        "gossip.log"
      ≡ some o)
unfolding gossip_sub_options scored_topics attestation_topic_score_params in_mesh_cap quot_64
    ℕ_discrete one_slot_duration mul_64 score_decay one_epoch_duration peer_score_config
options = (_, refl)

options_score_topics_example :
    (lookup "subnet 1" options.0.score_params.topics ≡ some given.0)
    ↔ Has "subnet 1" (map topic_of (0 ∷ 1 ∷ []))
options_score_topics_example =
    options_score_topics whole mainnet topic_of (pos 8) true (0 ∷ 1 ∷ []) "gossip.log" options.0
      given.0 "subnet 1" options.1 given.1

degrees_ordered_example :
    (leb_ℤ (pos 1) (gossip_sub_params (pos 8)).dlo ≡ true)
    × (leb_ℤ (gossip_sub_params (pos 8)).dlo (gossip_sub_params (pos 8)).d ≡ true)
    × (leb_ℤ (gossip_sub_params (pos 8)).d (gossip_sub_params (pos 8)).dhi ≡ true)
    × ((gossip_sub_params (pos 8)).dhi ≡ pos 12)
    × ((gossip_sub_params (pos 8)).dlo ≡ pos (max 1 (8 - 2)))
degrees_ordered_example = degrees_ordered 8 (λ z. ground arith) (omega arith)
