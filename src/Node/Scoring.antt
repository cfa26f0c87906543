-- ===== src/Node/Scoring.antt =====
-- node/scoring.go: the scores that pubsub keeps of the peers. A float64 and its operations are a
-- parameter. A `time.Duration` is its 64 bits, read as a number, and as a signed one where the code
-- divides or converts it. `SecondsPerSlot` and `SlotsPerEpoch` are prysm's.
pub mod Decay
pub mod Tests
use beaconprobe.Base.{
  ℕ, zero, suc, ◌+◌, ◌-◌, ◌*◌, ◌/◌, ◌%◌, ◌^◌, ◌≤◌, ◌<◌, min, max, String, ◌≡◌, refl, sym, ap, ◌∙◌,
  subst, ◌≢◌, ◌↔◌, ◌⊎◌, inl, inr, ite, if_pos, if_neg, Bool, true, false, not, ◌&&◌, ◌||◌, Option,
  none, some, List, [], ◌∷◌, ◌++◌, map, arith, dec_lt, dec_le, ℕ_discrete, String_discrete, lookup,
  insert, delete, lookup-insert, lookup-delete, GoMap, Distinct, delete-Distinct, insert-Distinct,
  delete_absent, length-delete, Bool-cases, Option-cases, Key, nat_key, string_key, ◌==◌, ltb, leb,
  if◌then◌else◌, ltb→lt, lt→ltb, leb→le, le→leb, tests, ==_sound, ==_refl, ==_ne, length, get_elem?,
  take, set, select, any, All, Has, here, there, length-append, length-take, length-select-le,
  get_elem?_total, All_Has, All-map, All-append, get_or, length-set, get_or-set_self, get_or-set_ne,
}
use beaconprobe.Base.Int.{ℤ, pos, negsuc}
use beaconprobe.Node.PeerSet.{u64_mod}

-- A literal is a mantissa and a number of decimals.
pub record Floats (F : Type 0) : Type 0 where
  pub lit : ℤ → ℕ → F
  pub of_int : ℤ → F
  pub mul : F → F → F
  pub div : F → F → F
  pub neg : F → F
  pub power : F → F → F

abbrev int64_min : ℕ
int64_min = 9223372036854775808

abbrev negative : ℕ → Bool
negative d = leb int64_min d

abbrev magnitude : ℕ → ℕ
magnitude d = if negative d then u64_mod - d else d

-- The bits as a signed number.
pub signed : ℕ → ℤ
signed d = if negative d then negsuc (u64_mod - d - 1) else pos d

pub mul_64 : ℕ → ℕ → ℕ
mul_64 a b = (a * b) % u64_mod

abbrev same : Bool → Bool → Bool
same true b = b
same false b = not b

-- The signed quotient, rounded towards zero; `none` is the panic of a division by zero.
pub quot_64 : ℕ → ℕ → Option ℕ
quot_64 a b =
    if b == 0
    then none
    else if same (negative a) (negative b)
    then some (magnitude a / magnitude b % u64_mod)
    else some ((u64_mod - magnitude a / magnitude b) % u64_mod)

abbrev pub second : ℕ
second = 1000000000

pub record BeaconConfig : Type 0 where
  pub seconds_per_slot : ℕ
  pub slots_per_epoch : ℕ

pub one_slot_duration : BeaconConfig → ℕ
one_slot_duration b = mul_64 b.seconds_per_slot second

pub one_epoch_duration : BeaconConfig → ℕ
one_epoch_duration b = mul_64 b.slots_per_epoch (one_slot_duration b)

pub record TopicScoreParams (F : Type 0) : Type 0 where
  pub skip_atomic_validation : Bool
  pub topic_weight : F
  pub time_in_mesh_weight : F
  pub time_in_mesh_quantum : ℕ
  pub time_in_mesh_cap : F
  pub first_message_deliveries_weight : F
  pub first_message_deliveries_decay : F
  pub first_message_deliveries_cap : F
  pub mesh_message_deliveries_weight : F
  pub mesh_message_deliveries_decay : F
  pub mesh_message_deliveries_cap : F
  pub mesh_message_deliveries_threshold : F
  pub mesh_message_deliveries_window : ℕ
  pub mesh_message_deliveries_activation : ℕ
  pub mesh_failure_penalty_weight : F
  pub mesh_failure_penalty_decay : F
  pub invalid_message_deliveries_weight : F
  pub invalid_message_deliveries_decay : F

pub record PeerScoreParams (F T : Type 0) : Type 0 where
  pub skip_atomic_validation : Bool
  pub topics : T
  pub topic_score_cap : F
  pub app_specific_score : String → F
  pub app_specific_weight : F
  pub ip_colocation_factor_weight : F
  pub ip_colocation_factor_threshold : ℕ
  pub ip_colocation_factor_whitelist : List String
  pub behaviour_penalty_weight : F
  pub behaviour_penalty_threshold : F
  pub behaviour_penalty_decay : F
  pub decay_interval : ℕ
  pub decay_to_zero : F
  pub retain_score : ℕ

pub record PeerScoreThresholds (F : Type 0) : Type 0 where
  pub gossip_threshold : F
  pub publish_threshold : F
  pub graylist_threshold : F
  pub accept_px_threshold : F
  pub opportunistic_graft_threshold : F

infixl 5 ◌>>=◌
abbrev ◌>>=◌ : {A B : Type 0} → Option A → (A → Option B) → Option B
none >>= f = none
some a >>= f = f a

abbrev max_in_mesh_score : ℕ
max_in_mesh_score = 10

abbrev max_first_delivery_score : ℕ
max_first_delivery_score = 40

module _ {F : Type 0} (fl : Floats F) (b : BeaconConfig) where
  -- An untyped constant, which the compiler converts.
  abbrev const : ℕ → F
  const n = fl.of_int (pos n)

  abbrev pub decay_to_zero : F
  decay_to_zero = fl.lit (pos 1) 2

  unfoldable pub score_decay : ℕ → Option F
  score_decay total_duration = do
    num_slots ← quot_64 total_duration (one_slot_duration b)
    some (fl.power decay_to_zero (fl.div (const 1) (fl.of_int (signed num_slots))))

  unfoldable pub score_by_weight : F → F → F
  score_by_weight weight threshold =
      let max_score = fl.mul (const (max_in_mesh_score + max_first_delivery_score)) weight in
      fl.div max_score (fl.mul (fl.mul weight threshold) threshold)

  unfoldable pub in_mesh_cap : Option F
  in_mesh_cap = do
    slots ← quot_64 (mul_64 3600 second) (one_slot_duration b)
    some (fl.of_int (signed slots))

  unfoldable pub peer_score_config :
      {T : Type 0} → T → Option (PeerScoreParams F T × PeerScoreThresholds F)
  peer_score_config topic_scores = do
    decay ← score_decay (mul_64 10 (one_epoch_duration b))
    some (
      record {
        skip_atomic_validation = true;
        topics = topic_scores;
        topic_score_cap = fl.lit (pos 3272) 2;
        app_specific_score = λ id. const 0;
        app_specific_weight = const 1;
        ip_colocation_factor_weight = const 0;
        ip_colocation_factor_threshold = 10;
        ip_colocation_factor_whitelist = [];
        behaviour_penalty_weight = fl.neg (fl.lit (pos 1592) 2);
        behaviour_penalty_threshold = const 6;
        behaviour_penalty_decay = decay;
        decay_interval = one_slot_duration b;
        decay_to_zero = decay_to_zero;
        retain_score = mul_64 100 (one_epoch_duration b);
      },
      record {
        gossip_threshold = fl.neg (const 4000);
        publish_threshold = fl.neg (const 8000);
        graylist_threshold = fl.neg (const 16000);
        accept_px_threshold = const 100;
        opportunistic_graft_threshold = const 5;
      },
    )

  unfoldable pub attestation_topic_score_params : Option (TopicScoreParams F)
  attestation_topic_score_params = do
    cap ← in_mesh_cap
    first_decay ← score_decay (mul_64 1 (one_epoch_duration b))
    mesh_decay ← score_decay (mul_64 4 (one_epoch_duration b))
    failure_decay ← score_decay (mul_64 4 (one_epoch_duration b))
    some (record {
      skip_atomic_validation = true;
      topic_weight = const 1;
      time_in_mesh_weight = fl.div (const max_in_mesh_score) cap;
      time_in_mesh_quantum = one_slot_duration b;
      time_in_mesh_cap = cap;
      first_message_deliveries_weight = const 1;
      first_message_deliveries_decay = first_decay;
      first_message_deliveries_cap = const max_first_delivery_score;
      mesh_message_deliveries_weight = fl.neg (score_by_weight (const 1) (const 5));
      mesh_message_deliveries_decay = mesh_decay;
      mesh_message_deliveries_cap = const 20;
      mesh_message_deliveries_threshold = const 5;
      mesh_message_deliveries_window = mul_64 2 second;
      mesh_message_deliveries_activation = mul_64 1 (one_epoch_duration b);
      mesh_failure_penalty_weight = fl.neg (score_by_weight (const 1) (const 5));
      mesh_failure_penalty_decay = failure_decay;
      invalid_message_deliveries_weight = const 0;
      invalid_message_deliveries_decay = const 0;
    })
