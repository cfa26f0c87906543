-- ===== src/Node/Gossipsub/Options.antt =====
-- What `NewGossipSub` of node/gossipsub.go sets up the pubsub library with, and `SubscribeBlocks`.
use beaconprobe.Base.{
  ℕ, suc, ◌+◌, ◌-◌, ◌*◌, ◌/◌, ◌<◌, max, String, ◌≡◌, refl, sym, subst, ◌≢◌, ◌↔◌, ◌⊎◌, inl, inr,
  Bool, true, Option, none, some, List, [], ◌∷◌, map, arith, String_discrete, lookup, insert,
  lookup-insert, GoMap, Option-cases, nat_key, string_key, if◌then◌else◌, Has, here, there,
}
use beaconprobe.Base.Int.{ℤ, pos, negsuc, sub_ℕ, ◌+ℤ◌, ◌-ℤ◌, leb_ℤ, wrap_int}
use beaconprobe.Node.Scoring.{
  Floats, BeaconConfig, TopicScoreParams, PeerScoreParams, PeerScoreThresholds,
  attestation_topic_score_params, peer_score_config, second,
}
use beaconprobe.Node.Gossipsub.{block_topic, Pubsub}

-- The parameters that the code sets; durations are in nanoseconds.
pub record GossipSubParams : Type 0 where
  pub d : ℤ
  pub dlo : ℤ
  pub dhi : ℤ
  pub dlazy : ℕ
  pub heartbeat_interval : ℕ
  pub fanout_ttl : ℕ
  pub history_length : ℕ
  pub history_gossip : ℕ

abbrev max_ℤ : ℤ → ℤ → ℤ
max_ℤ a b = if leb_ℤ a b then b else a

-- Go's `d/2`, rounded towards zero.
abbrev half : ℤ → ℤ
half (pos n) = pos (n / 2)
half (negsuc n) = sub_ℕ 0 (suc n / 2)

pub gossip_sub_params : ℤ → GossipSubParams
gossip_sub_params d = record {
  d = d;
  dlo = max_ℤ (wrap_int (d -ℤ pos 2)) (pos 1);
  dhi = wrap_int (d +ℤ half d);
  dlazy = 6;
  heartbeat_interval = 700000000;
  fanout_ttl = 60 * second;
  history_length = 6;
  history_gossip = 3;
}

-- The scores by topic, which the loop over the subnets fills in.
topic_scores : {P : Type 0} → P → (ℕ → String) → List ℕ → GoMap String P → GoMap String P
topic_scores params topic_of [] m = m
topic_scores params topic_of (id ∷ ids) m =
    topic_scores params topic_of ids (insert (topic_of id) params m)

-- `none` is a panic in the scores, which an empty list of subnets does not compute.
unfoldable pub scored_topics :
    {F : Type 0}
    → Floats F
    → BeaconConfig
    → (ℕ → String)
    → List ℕ
    → Option (GoMap String (TopicScoreParams F))
unfolding topic_scores
scored_topics fl b topic_of [] = some []
scored_topics fl b topic_of (id ∷ ids) = elim (attestation_topic_score_params fl b) [
  | none ↦ none
  | some p ↦ some (topic_scores p topic_of (id ∷ ids) [])
]

-- What `pubsub.NewGossipSub` is called with, but the constants and the functions of the options.
pub record Options (F : Type 0) : Type 0 where
  pub params : GossipSubParams
  pub score_params : PeerScoreParams F (GoMap String (TopicScoreParams F))
  pub score_thresholds : PeerScoreThresholds F
  pub disable_ihave : Bool
  pub tracer : String

unfoldable pub gossip_sub_options :
    {F : Type 0}
    → Floats F
    → BeaconConfig
    → (ℕ → String)
    → ℤ
    → Bool
    → List ℕ
    → String
    → Option (Options F)
gossip_sub_options fl b topic_of d disable_ihave subnet_ids gossip_log_file =
    elim (scored_topics fl b topic_of subnet_ids) [
      | none ↦ none
      | some m ↦ elim (peer_score_config fl b m) [
        | none ↦ none
        | some (s, t) ↦ some (record {
          params = gossip_sub_params d;
          score_params = s;
          score_thresholds = t;
          disable_ihave = disable_ihave;
          tracer = gossip_log_file;
        })
      ]
    ]

pub data BlocksFailure : Type 0 where
  register_failed join_failed subscribe_failed : BlocksFailure

pub data BlocksOutcome (S : Type 0) : Type 0 where
  subscribed : S → String → BlocksOutcome S
  failed : S → BlocksFailure → BlocksOutcome S

-- The three calls for the topic of the blocks.
unfoldable pub subscribe_blocks :
    {S : Type 0} → Pubsub S → (List ℕ → String) → List ℕ → S → BlocksOutcome S
subscribe_blocks ps hex fork_digest s =
    let topic = block_topic hex fork_digest in
    elim (ps.register_topic_validator s topic) [
      | none ↦ failed s register_failed
      | some registered ↦ elim (ps.join registered topic) [
        | none ↦ failed registered join_failed
        | some joined ↦ elim (ps.subscribe joined topic) [
          | none ↦ failed joined subscribe_failed
          | some done ↦ subscribed done topic
        ]
      ]
    ]

-- For a positive degree the bounds of the mesh are in order, if one and a half of it fit an int64: at
-- least one peer, no more than the degree below and no less above, two below it where there are that
-- many, and half of it above.
pub degrees_ordered :
    (n : ℕ)
    → n ≢ 0
    → n + n / 2 < 9223372036854775808
    → let g = gossip_sub_params (pos n) in
      (leb_ℤ (pos 1) g.dlo ≡ true)
      × (leb_ℤ g.dlo g.d ≡ true)
      × (leb_ℤ g.d g.dhi ≡ true)
      × (g.dhi ≡ pos (n + n / 2))
      × (g.dlo ≡ pos (max 1 (n - 2)))
unfolding gossip_sub_params ◌-ℤ◌ ◌+ℤ◌
degrees_ordered n ne fits = (ground arith, ground arith, ground arith, ground arith, ground arith)

lookup-topic_scores :
    {P : Type 0} (params : P) (topic_of : ℕ → String) (t : String) (ids : List ℕ)
    (m : GoMap String P)
    → (lookup t (topic_scores params topic_of ids m) ≡ some params)
      ↔ ((lookup t m ≡ some params) ⊎ Has t (map topic_of ids))
unfolding topic_scores
lookup-topic_scores params topic_of t [] m = (inl, λ h. elim h [ inl e ↦ e | inr k ↦ elim k [ ] ])
lookup-topic_scores params topic_of t (id ∷ ids) m =
    let (read, kept) = lookup-topic_scores params topic_of t ids (insert (topic_of id) params m) in
    (
      λ h. elim (read h) [
        | inl e ↦ elim (String_discrete t (topic_of id)) [
          | yes same ↦ inr (subst (λ u. Has u (topic_of id ∷ map topic_of ids)) (sym same) here)
          | no ne ↦ inl (ground (arith, lookup-insert t (topic_of id) params m))
        ]
        | inr k ↦ inr (there k)
      ],
      λ h. kept (go (topic_of id) refl h),
    )
  where
    go :
        (u : String)
        → topic_of id ≡ u
        → (lookup t m ≡ some params) ⊎ Has t (u ∷ map topic_of ids)
        → (lookup t (insert (topic_of id) params m) ≡ some params) ⊎ Has t (map topic_of ids)
    go u e (inl h) = inl (ground (arith, lookup-insert t (topic_of id) params m))
    go u e (inr here) = inl (ground (arith, lookup-insert t (topic_of id) params m))
    go u e (inr (there k)) = inr k

config_topics :
    {F T : Type 0} (fl : Floats F) (b : BeaconConfig) (topics : T) (s : PeerScoreParams F T)
    (t : PeerScoreThresholds F)
    → peer_score_config fl b topics ≡ some (s, t)
    → s.topics ≡ topics
unfolding peer_score_config
config_topics fl b topics s t h = ground arith

options_topics :
    {F : Type 0} (fl : Floats F) (b : BeaconConfig) (topic_of : ℕ → String) (d : ℤ) (ihave : Bool)
    (ids : List ℕ) (file : String) (o : Options F)
    → gossip_sub_options fl b topic_of d ihave ids file ≡ some o
    → scored_topics fl b topic_of ids ≡ some o.score_params.topics
unfolding gossip_sub_options
options_topics fl b topic_of d ihave ids file o h =
    elim (Option-cases (scored_topics fl b topic_of ids)) [
      | inl e ↦ absurd (ground arith)
      | inr (m, e) ↦ elim (Option-cases (peer_score_config fl b m)) [
        | inl f ↦ absurd (ground arith)
        | inr ((s, t), f) ↦ ground (arith, config_topics fl b m s t f)
      ]
    ]

scored-Has :
    {F : Type 0} (fl : Floats F) (b : BeaconConfig) (topic_of : ℕ → String) (ids : List ℕ)
    (p : TopicScoreParams F) (m : GoMap String (TopicScoreParams F)) (t : String)
    → attestation_topic_score_params fl b ≡ some p
    → scored_topics fl b topic_of ids ≡ some m
    → (lookup t m ≡ some p) ↔ Has t (map topic_of ids)
unfolding scored_topics lookup
scored-Has fl b topic_of [] p m t made h =
    let same : [] ≡ m = ground arith in
    (λ q. absurd (subst (λ l. lookup t l ≢ some p) same (λ r. ground arith) q), λ k. elim k [ ])
scored-Has fl b topic_of (id ∷ ids) p m t made h =
    let same : topic_scores p topic_of (id ∷ ids) [] ≡ m = ground arith in
    let (read, kept) = lookup-topic_scores p topic_of t (id ∷ ids) [] in
    subst (λ l. (lookup t l ≡ some p) ↔ Has t (map topic_of (id ∷ ids))) same
      (λ q. elim (read q) [ inl none_yet ↦ absurd (ground arith) | inr k ↦ k ], λ k. kept (inr k))

-- In the scores that `NewGossipSub` hands to the library, the topics that have the parameters of the
-- attestation subnets are exactly those of the given subnets, whatever the degree and the rest.
pub options_score_topics :
    {F : Type 0} (fl : Floats F) (b : BeaconConfig) (topic_of : ℕ → String) (d : ℤ) (ihave : Bool)
    (ids : List ℕ) (file : String) (o : Options F) (p : TopicScoreParams F) (t : String)
    → gossip_sub_options fl b topic_of d ihave ids file ≡ some o
    → attestation_topic_score_params fl b ≡ some p
    → (lookup t o.score_params.topics ≡ some p) ↔ Has t (map topic_of ids)
options_score_topics fl b topic_of d ihave ids file o p t h made =
    scored-Has fl b topic_of ids p o.score_params.topics t made
      (options_topics fl b topic_of d ihave ids file o h)
