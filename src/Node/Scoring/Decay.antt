-- ===== src/Node/Scoring/Decay.antt =====
-- Over how many slots the counters of node/scoring.go decay.
use beaconprobe.Base.{
  ℕ, zero, suc, ◌*◌, ◌/◌, ◌≤◌, ◌≡◌, refl, sym, ap, ◌∙◌, ◌≢◌, inl, inr, some, arith, Option-cases,
  nat_key, string_key, set,
}
use native.Mathlib.Nat.{
  mul_assoc, mul_comm, suc-mul, mul-div_cancel, mul-div-mul_right, div-le_self,
}
use beaconprobe.Base.Int.{pos}
use beaconprobe.Node.Scoring.{
  Floats, BeaconConfig, TopicScoreParams, PeerScoreParams, PeerScoreThresholds, const,
  decay_to_zero, score_decay, in_mesh_cap, attestation_topic_score_params, peer_score_config,
  signed, mul_64, quot_64, second, one_slot_duration, one_epoch_duration,
}

-- The bits of durations below 2^63 are the durations.
abbrev int64_max : ℕ
int64_max = 9223372036854775807

quot_small : (a b : ℕ) → a ≤ int64_max → b ≤ int64_max → b ≢ 0 → quot_64 a b ≡ some (a / b)
unfolding quot_64
quot_small a b ha hb ne = ground (arith, div-le_self a b)

signed_small : (a : ℕ) → a ≤ int64_max → signed a ≡ pos a
unfolding signed
signed_small a h = ground arith

mul_small : (a b : ℕ) → a * b ≤ int64_max → mul_64 a b ≡ a * b
unfolding mul_64
mul_small a b h = omega arith

module _ {F : Type 0} (fl : Floats F) (b : BeaconConfig) where
  abbrev slot : ℕ
  slot = b.seconds_per_slot * second

  slot_lem : slot ≤ int64_max → one_slot_duration b ≡ slot
  unfolding one_slot_duration
  slot_lem h = mul_small b.seconds_per_slot second h

  epoch_lem :
      slot ≤ int64_max
      → b.slots_per_epoch * slot ≤ int64_max
      → one_epoch_duration b ≡ b.slots_per_epoch * slot
  unfolding one_epoch_duration
  epoch_lem h k = rw (slot_lem h) (mul_small b.slots_per_epoch slot k)

  le_times : (k n : ℕ) → k ≢ 0 → n ≤ k * n
  le_times zero n ne = absurd (ne refl)
  le_times (suc k) n ne = omega (arith, suc-mul k n)

  epochs_lem :
      (k : ℕ)
      → k ≢ 0
      → b.slots_per_epoch ≢ 0
      → k * (b.slots_per_epoch * slot) ≤ int64_max
      → mul_64 k (one_epoch_duration b) ≡ k * (b.slots_per_epoch * slot)
  epochs_lem k nk ns room =
      let below = le_times k (b.slots_per_epoch * slot) nk in
      let lower = le_times b.slots_per_epoch slot ns in
      rw (epoch_lem (omega arith) (omega arith)) (mul_small k (b.slots_per_epoch * slot) room)

  -- Over k epochs the decay is that of k epochs' slots.
  abbrev pub decay_over : ℕ → F
  decay_over slots = fl.power (decay_to_zero fl b) (fl.div (const fl b 1) (fl.of_int (pos slots)))

  score_decay_epochs :
      (k : ℕ)
      → k ≢ 0
      → b.seconds_per_slot ≢ 0
      → b.slots_per_epoch ≢ 0
      → k * (b.slots_per_epoch * slot) ≤ int64_max
      → score_decay fl b (mul_64 k (one_epoch_duration b))
        ≡ some (decay_over (k * b.slots_per_epoch))
  unfolding score_decay
  score_decay_epochs k nk nz ns room =
      let times = k * b.slots_per_epoch in
      let same : k * (b.slots_per_epoch * slot) ≡ times * slot =
        sym (mul_assoc k b.slots_per_epoch slot) in
      let below = le_times k (b.slots_per_epoch * slot) nk in
      let lower = le_times b.slots_per_epoch slot ns in
      let fewer = le_times slot times (λ z. nz (omega arith)) in
      let quotient : k * (b.slots_per_epoch * slot) / slot ≡ times =
        ap (λ n. n / slot) same ∙ mul-div_cancel times (omega arith) in
      let flipped = mul_comm slot times in
      let small : times ≤ int64_max = omega (arith, fewer, flipped, same) in
      rw
        (
          score_decay,
          epochs_lem k nk ns room,
          slot_lem (omega arith),
          quot_small (k * (b.slots_per_epoch * slot)) slot room (omega arith)
              (λ z. nz (omega arith)),
          quotient,
          signed_small times small,
        )
        refl

  in_mesh_cap_lem :
      b.seconds_per_slot ≢ 0
      → slot ≤ int64_max
      → in_mesh_cap fl b ≡ some (fl.of_int (pos (3600 / b.seconds_per_slot)))
  unfolding in_mesh_cap
  in_mesh_cap_lem nz room =
      let quotient : 3600 * second / slot ≡ 3600 / b.seconds_per_slot =
        mul-div-mul_right {m = second} 3600 b.seconds_per_slot (omega arith) in
      let less = div-le_self 3600 b.seconds_per_slot in
      rw
        (
          in_mesh_cap,
          mul_small 3600 second (omega arith),
          slot_lem room,
          quot_small (3600 * second) slot (omega arith) room (λ z. nz (omega arith)),
          quotient,
          signed_small (3600 / b.seconds_per_slot) (omega arith),
        )
        refl

  -- What the durations of the topic's parameters come to.
  pub record Spans (p : TopicScoreParams F) : Type 0 where
    pub mesh_cap : p.time_in_mesh_cap ≡ fl.of_int (pos (3600 / b.seconds_per_slot))
    pub first : p.first_message_deliveries_decay ≡ decay_over (1 * b.slots_per_epoch)
    pub mesh : p.mesh_message_deliveries_decay ≡ decay_over (4 * b.slots_per_epoch)
    pub failure : p.mesh_failure_penalty_decay ≡ decay_over (4 * b.slots_per_epoch)
    pub activation : p.mesh_message_deliveries_activation ≡ 1 * (b.slots_per_epoch * slot)

  params_given :
      (hour first mesh : F)
      → in_mesh_cap fl b ≡ some hour
      → score_decay fl b (mul_64 1 (one_epoch_duration b)) ≡ some first
      → score_decay fl b (mul_64 4 (one_epoch_duration b)) ≡ some mesh
      → (p : TopicScoreParams F) × (attestation_topic_score_params fl b ≡ some p)
        × (p.time_in_mesh_cap ≡ hour)
        × (p.first_message_deliveries_decay ≡ first)
        × (p.mesh_message_deliveries_decay ≡ mesh)
        × (p.mesh_failure_penalty_decay ≡ mesh)
        × (p.mesh_message_deliveries_activation ≡ mul_64 1 (one_epoch_duration b))
  unfolding attestation_topic_score_params
  params_given hour first mesh h k l = elim (Option-cases (attestation_topic_score_params fl b)) [
    | inl e ↦ absurd (ground (arith, h, k, l))
    | inr (p, e) ↦ (
      p,
      e,
      ground (arith, h, k, l),
      ground (arith, h, k, l),
      ground (arith, h, k, l),
      ground (arith, h, k, l),
      ground (arith, h, k, l),
    )
  ]

  config_given :
      {T : Type 0} (topics : T) (decay : F)
      → score_decay fl b (mul_64 10 (one_epoch_duration b)) ≡ some decay
      → (s : PeerScoreParams F T) × (t : PeerScoreThresholds F) × (peer_score_config fl b topics
          ≡ some (s, t))
        × (s.behaviour_penalty_decay ≡ decay)
        × (s.retain_score ≡ mul_64 100 (one_epoch_duration b))
  unfolding peer_score_config
  config_given topics decay h = elim (Option-cases (peer_score_config fl b topics)) [
    | inl e ↦ absurd (ground (arith, h))
    | inr ((s, t), e) ↦ (s, t, e, ground (arith, h), ground (arith, h))
  ]

-- With slots and epochs that are not empty, and a hundred epochs that fit an int64 of nanoseconds,
-- nothing in the scores panics or overflows: the decay of the first deliveries runs over the slots of
-- one epoch, those of the mesh over four, that of the behaviour over ten, the time in the mesh is
-- capped at the whole slots of an hour, the mesh penalty starts after one epoch, and a score is kept
-- for a hundred.
pub decays_span :
    {F T : Type 0} (fl : Floats F) (b : BeaconConfig) (topics : T)
    → b.seconds_per_slot ≢ 0
    → b.slots_per_epoch ≢ 0
    → 100 * (b.slots_per_epoch * (b.seconds_per_slot * second)) ≤ int64_max
    → ((p : TopicScoreParams F) × (attestation_topic_score_params fl b ≡ some p) × Spans fl b p)
      × ((s : PeerScoreParams F T) × (t : PeerScoreThresholds F) × (peer_score_config fl b topics
            ≡ some (s, t))
          × (s.behaviour_penalty_decay ≡ decay_over fl b (10 * b.slots_per_epoch))
          × (s.retain_score ≡ 100 * (b.slots_per_epoch * (b.seconds_per_slot * second))))
decays_span fl b topics nz ns room =
    let epoch : ℕ = b.slots_per_epoch * (b.seconds_per_slot * second) in
    let lower = le_times fl b b.slots_per_epoch (b.seconds_per_slot * second) ns in
    let hour = in_mesh_cap_lem fl b nz (omega arith) in
    let one = score_decay_epochs fl b 1 (λ z. ground arith) nz ns (omega arith) in
    let four = score_decay_epochs fl b 4 (λ z. ground arith) nz ns (omega arith) in
    let ten = score_decay_epochs fl b 10 (λ z. ground arith) nz ns (omega arith) in
    let (p, made, c, f, m, g, a) = params_given fl b _ _ _ hour one four in
    let (s, t, set, d, r) = config_given fl b topics _ ten in
    (
      (
        p,
        made,
        record {
          mesh_cap = c;
          first = f;
          mesh = m;
          failure = g;
          activation = a ∙ epochs_lem fl b 1 (λ z. ground arith) ns (omega arith);
        },
      ),
      (s, t, set, d, r ∙ epochs_lem fl b 100 (λ z. ground arith) ns room),
    )
