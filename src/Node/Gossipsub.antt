-- ===== src/Node/Gossipsub.antt =====
-- The topics and the subscriptions of node/gossipsub.go. The pubsub library with its state, and the
-- printing of hex and decimal numbers, are parameters.
pub mod Topics
pub mod Options
pub mod Tests
use beaconprobe.Base.{
  ℕ, zero, suc, ◌+◌, ◌-◌, ◌*◌, ◌/◌, ◌%◌, ◌^◌, ◌≤◌, ◌<◌, min, max, String, ◌≡◌, refl, sym, ap, ◌∙◌,
  subst, ◌≢◌, ◌↔◌, ◌⊎◌, inl, inr, ite, if_pos, if_neg, Bool, true, false, not, ◌&&◌, ◌||◌, Option,
  none, some, List, [], ◌∷◌, ◌++◌, map, arith, dec_lt, dec_le, ℕ_discrete, String_discrete, lookup,
  insert, delete, lookup-insert, lookup-delete, GoMap, Distinct, delete-Distinct, insert-Distinct,
  delete_absent, length-delete, Bool-cases, Option-cases, Key, nat_key, string_key, ◌==◌, ltb, leb,
  if◌then◌else◌, ltb→lt, lt→ltb, leb→le, le→leb, tests, ==_sound, ==_refl, ==_ne, length, get_elem?,
  take, set, select, any, All, Has, here, there, length-append, length-take, length-select-le,
  get_elem?_total, All_Has, All-map, All-append, get_or, length-set, get_or-set_self, get_or-set_ne,
}
use Prim.Native.String

pub subnet_topic : (List ℕ → String) → (ℕ → String) → List ℕ → ℕ → String
subnet_topic hex decimal fork_digest subnet_id = String.◌++◌ "/eth2/" (
    String.◌++◌ (hex fork_digest)
      (String.◌++◌ "/beacon_attestation_" (String.◌++◌ (decimal subnet_id) "/ssz_snappy")))

pub block_topic : (List ℕ → String) → List ℕ → String
block_topic hex fork_digest =
    String.◌++◌ "/eth2/" (String.◌++◌ (hex fork_digest) "/beacon_block/ssz_snappy")

-- RegisterTopicValidator, Join and Subscribe for a topic; `none` is an error.
pub record Pubsub (S : Type 0) : Type 0 where
  pub register_topic_validator : S → String → Option S
  pub join : S → String → Option S
  pub subscribe : S → String → Option S

pub data Failure : Type 0 where
  register_failed join_failed subscribe_failed : ℕ → Failure

-- The library's state at the end, with the subscriptions, which are IDs and topics, or the failure.
pub data Outcome (S : Type 0) : Type 0 where
  subscribed : S → List (ℕ × String) → Outcome S
  failed : S → Failure → Outcome S

module _ {S : Type 0} (ps : Pubsub S) (topic_of : ℕ → String) where
  -- The three calls for one subnet.
  pub open_subnet : S → ℕ → Outcome S
  open_subnet s id = elim (ps.register_topic_validator s (topic_of id)) [
    | none ↦ failed s (register_failed id)
    | some registered ↦ elim (ps.join registered (topic_of id)) [
      | none ↦ failed registered (join_failed id)
      | some joined ↦ elim (ps.subscribe joined (topic_of id)) [
        | none ↦ failed joined (subscribe_failed id)
        | some done ↦ subscribed done ((id, topic_of id) ∷ [])
      ]
    ]
  ]

  pub subscribe_all : S → List ℕ → List (ℕ × String) → Outcome S
  unfolding open_subnet
  subscribe_all s [] subs = subscribed s subs
  subscribe_all s (id ∷ ids) subs = elim (open_subnet s id) [
    | failed s' why ↦ failed s' why
    | subscribed s' sub ↦ subscribe_all s' ids (subs ++ sub)
  ]

pub subscribe_subnets :
    {S : Type 0} → Pubsub S → (List ℕ → String) → (ℕ → String) → List ℕ → S → List ℕ → Outcome S
subscribe_subnets ps hex decimal fork_digest s ids =
    subscribe_all ps (subnet_topic hex decimal fork_digest) s ids []
