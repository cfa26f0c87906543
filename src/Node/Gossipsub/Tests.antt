-- ===== src/Node/Gossipsub/Tests.antt =====
-- A library that keeps a list of the topics in use, and numbers printed as strokes.
use beaconprobe.Base.{
  ℕ, zero, suc, String, ◌≡◌, refl, sym, ap, ◌≢◌, Bool, false, none, some, List, [], ◌∷◌, map, arith,
  String_discrete, nat_key, string_key, ◌==◌, if◌then◌else◌, any,
}
use Prim.Native.String
use text.Mathlib.TextEquality.{eq_iff}
use text.Mathlib.TextLemmas.{append_cancel_right, append-ne-nil_of_right_ne-nil}
use beaconprobe.Node.Gossipsub.{
  subnet_topic, block_topic, Pubsub, subscribed, failed, join_failed, open_subnet, subscribe_all,
  subscribe_subnets,
}
use beaconprobe.Node.Gossipsub.Options.{BlocksOutcome, BlocksFailure, subscribe_blocks}
use beaconprobe.Node.Gossipsub.Topics.{IsPubsub, IdsDiffer, subscribe_subnets_total}

abbrev in_use : List String → String → Bool
in_use s t = any (◌==◌ t) s

abbrev pubsub : Pubsub (List String)
pubsub = record {
  register_topic_validator = λ s t. some s;
  join = λ s t. if in_use s t then none else some s;
  subscribe = λ s t. some (t ∷ s);
}

opens :
    (s : List String) (t : String)
    → in_use s t ≡ false
    → (s₁ : List String) × (s₂ : List String) × (s₃ : List String)
      × (pubsub.register_topic_validator s t ≡ some s₁)
      × (pubsub.join s₁ t ≡ some s₂)
      × (pubsub.subscribe s₂ t ≡ some s₃)
      × ((u : String) → u ≢ t → in_use s₃ u ≡ in_use s u)
opens s t free = (s, s, t ∷ s, refl, ground arith, refl, λ u ne. ground arith)

pubsub-IsPubsub : IsPubsub pubsub in_use
pubsub-IsPubsub = record { opens = opens }

strokes : ℕ → String
strokes zero = ""
strokes (suc n) = String.◌++◌ (strokes n) "1"

stroke_ne : ◌≢◌ {A = String} "1" ""
stroke_ne = ground (arith, eq_iff "1" "")

strokes_inj : (a b : ℕ) → strokes a ≡ strokes b → a ≡ b
unfolding strokes
strokes_inj zero zero h = refl
strokes_inj zero (suc b) h = absurd (append-ne-nil_of_right_ne-nil (strokes b) stroke_ne (sym h))
strokes_inj (suc a) zero h = absurd (append-ne-nil_of_right_ne-nil (strokes a) stroke_ne h)
strokes_inj (suc a) (suc b) h =
    ap suc (strokes_inj a b (append_cancel_right (strokes a) (strokes b) "1" h))

abbrev hex : List ℕ → String
hex bytes = "6a95a1a9"

topic_run : subnet_topic hex strokes [] 2 ≡ "/eth2/6a95a1a9/beacon_attestation_11/ssz_snappy"
unfolding subnet_topic strokes
topic_run = refl

block_topic_run : block_topic hex [] ≡ "/eth2/6a95a1a9/beacon_block/ssz_snappy"
unfolding block_topic
block_topic_run = refl

-- A subnet that is listed twice cannot be joined twice.
twice_run :
    subscribe_subnets pubsub hex strokes [] [] (2 ∷ 2 ∷ [])
    ≡ failed ("/eth2/6a95a1a9/beacon_attestation_11/ssz_snappy" ∷ []) (join_failed 2)
unfolding subscribe_subnets subscribe_all open_subnet subnet_topic strokes String_discrete
twice_run = refl

ids_differ : IdsDiffer (1 ∷ 2 ∷ [])
ids_differ = ((omega arith, tt), (tt, tt))

subscribe_subnets_total_example :
    (s : List String) × (subscribe_subnets pubsub hex strokes [] [] (1 ∷ 2 ∷ [])
      ≡ subscribed s (map (λ id. (id, subnet_topic hex strokes [] id)) (1 ∷ 2 ∷ [])))
subscribe_subnets_total_example =
    subscribe_subnets_total pubsub in_use hex strokes [] [] (1 ∷ 2 ∷ []) pubsub-IsPubsub strokes_inj
      ids_differ (refl, (refl, tt))

-- The topic of the blocks can be joined once.
blocks_run :
    (subscribe_blocks pubsub hex [] []
      ≡ BlocksOutcome.subscribed
          ("/eth2/6a95a1a9/beacon_block/ssz_snappy" ∷ [])
          "/eth2/6a95a1a9/beacon_block/ssz_snappy")
    × (subscribe_blocks pubsub hex [] ("/eth2/6a95a1a9/beacon_block/ssz_snappy" ∷ [])
        ≡ BlocksOutcome.failed
            ("/eth2/6a95a1a9/beacon_block/ssz_snappy" ∷ [])
            BlocksFailure.join_failed)
unfolding subscribe_blocks block_topic String_discrete
blocks_run = (refl, refl)
