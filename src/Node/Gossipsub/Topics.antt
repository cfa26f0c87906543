-- ===== src/Node/Gossipsub/Topics.antt =====
-- Each subnet of node/gossipsub.go gets a topic and a subscription of its own.
use beaconprobe.Base.{
  ℕ, String, ◌≡◌, refl, sym, ap, ◌∙◌, ◌≢◌, Bool, false, some, List, [], ◌∷◌, ◌++◌, map, nat_key,
  string_key, All,
}
use mathlib.Core.List.{append_assoc, append-nil}
use text.Mathlib.TextLemmas.{append_cancel_left, append_cancel_right}
use beaconprobe.Node.Gossipsub.{
  subnet_topic, Pubsub, subscribed, open_subnet, subscribe_all, subscribe_subnets,
}

topic_inj :
    (hex : List ℕ → String) (decimal : ℕ → String) (fork_digest : List ℕ) (a b : ℕ)
    → subnet_topic hex decimal fork_digest a ≡ subnet_topic hex decimal fork_digest b
    → decimal a ≡ decimal b
unfolding subnet_topic
topic_inj hex decimal fork_digest a b h =
    append_cancel_right (decimal a) (decimal b) "/ssz_snappy" (
      append_cancel_left "/beacon_attestation_" _ _
        (append_cancel_left (hex fork_digest) _ _ (append_cancel_left "/eth2/" _ _ h)))

-- What is documented of the library: the three calls succeed for a topic that is not in use, and
-- take no other topic into use.
pub record IsPubsub {S : Type 0} (ps : Pubsub S) (in_use : S → String → Bool) : Type 0 where
  pub opens :
      (s : S) (t : String)
      → in_use s t ≡ false
      → (s₁ : S) × (s₂ : S) × (s₃ : S) × (ps.register_topic_validator s t ≡ some s₁)
        × (ps.join s₁ t ≡ some s₂)
        × (ps.subscribe s₂ t ≡ some s₃)
        × ((u : String) → u ≢ t → in_use s₃ u ≡ in_use s u)

-- The IDs differ from each other.
abbrev pub IdsDiffer : List ℕ → Type 0
IdsDiffer [] = Unit
IdsDiffer (a ∷ ids) = All (λ b. b ≢ a) ids × IdsDiffer ids

abbrev with_topic : (ℕ → String) → ℕ → ℕ × String
with_topic topic_of id = (id, topic_of id)

module _ {S : Type 0} (ps : Pubsub S) (in_use : S → String → Bool) (topic_of : ℕ → String)
    (law : IsPubsub ps in_use) (differ : (a b : ℕ) → b ≢ a → topic_of b ≢ topic_of a) where
  opened :
      (s s₁ s₂ s₃ : S) (id : ℕ)
      → ps.register_topic_validator s (topic_of id) ≡ some s₁
      → ps.join s₁ (topic_of id) ≡ some s₂
      → ps.subscribe s₂ (topic_of id) ≡ some s₃
      → open_subnet ps topic_of s id ≡ subscribed s₃ (with_topic topic_of id ∷ [])
  unfolding open_subnet
  opened s s₁ s₂ s₃ id r j d = rw (r, open_subnet) (rw j (rw d refl))

  subscribe_all_lem :
      (s : S) (ids : List ℕ) (subs : List (ℕ × String))
      → IdsDiffer ids
      → All (λ id. in_use s (topic_of id) ≡ false) ids
      → (s' : S) × (subscribe_all ps topic_of s ids subs
          ≡ subscribed s' (subs ++ map (with_topic topic_of) ids))
  unfolding subscribe_all
  subscribe_all_lem s [] subs d free = (s, ap (subscribed s) (sym (append-nil subs)))
  subscribe_all_lem s (id ∷ ids) subs d free =
      let (s₁, s₂, s₃, registered, joined, done, others) = law.opens s (topic_of id) free.0 in
      let (s', rest) =
        subscribe_all_lem s₃ ids (subs ++ with_topic topic_of id ∷ []) d.1
          (still_free ids d.0 free.1 s₃ others) in
      (
        s',
        rw (opened s s₁ s₂ s₃ id registered joined done, subscribe_all)
            (rest
              ∙ ap (subscribed s') (
                  append_assoc subs (with_topic topic_of id ∷ []) (map (with_topic topic_of) ids))),
      )
    where
      still_free :
          (bs : List ℕ)
          → All (λ b. b ≢ id) bs
          → All (λ b. in_use s (topic_of b) ≡ false) bs
          → (t : S) → ((u : String) → u ≢ topic_of id → in_use t u ≡ in_use s u)
          → All (λ b. in_use t (topic_of b) ≡ false) bs
      still_free [] ne free t others = tt
      still_free (b ∷ bs) ne free t others =
          (others (topic_of b) (differ id b ne.0) ∙ free.0, still_free bs ne.1 free.1 t others)

-- With a library that opens any topic not in use, and a printing of numbers that tells them apart:
-- for IDs that differ from each other, whose topics are not in use, every subscription succeeds, and
-- the result has one for each ID, in order and with the topic of its own subnet.
pub subscribe_subnets_total :
    {S : Type 0} (ps : Pubsub S) (in_use : S → String → Bool) (hex : List ℕ → String)
    (decimal : ℕ → String) (fork_digest : List ℕ) (s : S) (ids : List ℕ)
    → IsPubsub ps in_use
    → ((a b : ℕ) → decimal a ≡ decimal b → a ≡ b)
    → IdsDiffer ids
    → All (λ id. in_use s (subnet_topic hex decimal fork_digest id) ≡ false) ids
    → (s' : S) × (subscribe_subnets ps hex decimal fork_digest s ids
        ≡ subscribed s' (map (λ id. (id, subnet_topic hex decimal fork_digest id)) ids))
unfolding subscribe_subnets
subscribe_subnets_total ps in_use hex decimal fork_digest s ids law decimal_inj d free =
    subscribe_all_lem ps in_use (subnet_topic hex decimal fork_digest) law
      (λ a b ne e. ne (decimal_inj b a (topic_inj hex decimal fork_digest b a e))) s ids [] d free
