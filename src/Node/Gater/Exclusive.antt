-- ===== src/Node/Gater/Exclusive.antt =====
-- The gaters and the inbound handlers of all instances, over one peer set, in any order of their
-- calls and of discovery's: no peer is held by two instances.
use beaconprobe.Base.{
  String, ◌≡◌, refl, subst, inl, inr, Bool, true, false, not, ◌&&◌, Option, none, some, List, [],
  ◌∷◌, ◌++◌, arith, lookup, Bool-cases, nat_key, string_key, ◌==◌, if◌then◌else◌, ==_sound, All,
  Has, All_Has, All-append,
}
use beaconprobe.Node.PeerSet.{SharedPeerSet, IsValid, claim}
use beaconprobe.Node.PeerSet.Runs.{
  assigns, step, step-Writes, claim-Writes, Writes-IsValid, Writes-lookup, claim_owner,
}
use beaconprobe.Node.Gater.{SiblingGater, is_sibling, intercept_secured, handle_change}

-- A connection that some gater is asked about, a connectedness event at some instance's handler, or
-- a peer that discovery adds.
pub data Event : Type 0 where
  secured : SiblingGater → Bool → String → Event
  connectedness : String → String → Bool → Event
  discovered : String → Event

-- An instance has verified that it owns a peer: an inbound connection let in, or a connection that
-- the handler leaves open.
pub record Hold : Type 0 where
  pub holder : String
  pub peer : String

abbrev hold_if : Bool → String → String → List Hold
hold_if b name p = if b then (record { holder = name; peer = p } ∷ []) else []

abbrev left_open : Option String → Bool
left_open none = true
left_open (some p) = false

unfoldable pub event_step : SharedPeerSet → Event → Option (SharedPeerSet × List Hold)
event_step s (secured g outbound p) =
    let (s', ok) = intercept_secured g outbound p s in
    some (s', hold_if (not outbound && ok) g.my_name p)
event_step s (connectedness name p connected) =
    let (s', shut) = handle_change name p connected s in
    some (s', hold_if (connected && left_open shut) name p)
event_step s (discovered p) = elim (step s (assigns p)) [ none ↦ none | some s' ↦ some (s', []) ]

unfoldable pub events : List Event → SharedPeerSet → Option (SharedPeerSet × List Hold)
events [] s = some (s, [])
events (e ∷ es) s = elim (event_step s e) [
  | none ↦ none
  | some (s', new) ↦ elim (events es s') [ none ↦ none | some (t, hs) ↦ some (t, new ++ hs) ]
]

abbrev Owned : SharedPeerSet → Hold → Type 0
Owned s h = lookup h.peer s.assignments ≡ some h.holder

-- What one event leaves behind.
abbrev Stepped : SharedPeerSet → Event → Type 0
Stepped s e =
    (s' : SharedPeerSet) × (new : List Hold) × (event_step s e ≡ some (s', new))
    × IsValid s'
    × ((p o : String) → lookup p s.assignments ≡ some o → lookup p s'.assignments ≡ some o)
    × All (Owned s') new

claim_holds :
    (s : SharedPeerSet) (p name : String)
    → ((claim s p name).1 == name) ≡ true
    → lookup p (claim s p name).0.assignments ≡ some name
claim_holds s p name h = ground (arith, claim_owner s p name, ==_sound (claim s p name).1 name)

claimed :
    (s : SharedPeerSet) (p name : String)
    → IsValid s
    → IsValid (claim s p name).0
      × ((q o : String)
          → lookup q s.assignments ≡ some o
          → lookup q (claim s p name).0.assignments ≡ some o)
claimed s p name v =
    let w = claim-Writes s p name v in (Writes-IsValid w v, λ q o h. Writes-lookup q o w h)

-- An event whose outcome is that of `Claim`.
claim-Stepped :
    (s : SharedPeerSet) (p name : String) (e : Event)
    → IsValid s
    → event_step s e ≡ some ((claim s p name).0, hold_if ((claim s p name).1 == name) name p)
    → Stepped s e
claim-Stepped s p name e v h =
    let (valid, kept) = claimed s p name v in
    (
      (claim s p name).0,
      hold_if ((claim s p name).1 == name) name p,
      h,
      valid,
      kept,
      held ((claim s p name).1 == name) (claim_holds s p name),
    )
  where
    held :
        (b : Bool)
        → (b ≡ true → lookup p (claim s p name).0.assignments ≡ some name)
        → All (Owned (claim s p name).0) (hold_if b name p)
    held true owns = (owns refl, tt)
    held false owns = tt

-- An event that touches nothing.
idle_Stepped :
    (s : SharedPeerSet) (e : Event) → IsValid s → event_step s e ≡ some (s, []) → Stepped s e
idle_Stepped s e v h = (s, [], h, v, λ q o k. k, tt)

outbound_idle :
    (s : SharedPeerSet) (g : SiblingGater) (p : String)
    → event_step s (secured g true p) ≡ some (s, [])
unfolding event_step intercept_secured
outbound_idle s g p = ground arith

sibling_idle :
    (s : SharedPeerSet) (g : SiblingGater) (p : String)
    → is_sibling g p ≡ true
    → event_step s (secured g false p) ≡ some (s, [])
unfolding event_step intercept_secured
sibling_idle s g p h = ground arith

inbound_claims :
    (s : SharedPeerSet) (g : SiblingGater) (p : String)
    → is_sibling g p ≡ false
    → event_step s (secured g false p)
      ≡ some ((claim s p g.my_name).0, hold_if ((claim s p g.my_name).1 == g.my_name) g.my_name p)
unfolding event_step intercept_secured
inbound_claims s g p h = ground arith

change_claims :
    (s : SharedPeerSet) (name p : String)
    → event_step s (connectedness name p true)
      ≡ some ((claim s p name).0, hold_if ((claim s p name).1 == name) name p)
unfolding event_step handle_change
change_claims s name p = ground arith

discovered_step :
    (s s' : SharedPeerSet) (p : String)
    → step s (assigns p) ≡ some s'
    → event_step s (discovered p) ≡ some (s', [])
unfolding event_step
discovered_step s s' p h = rw (h, event_step)

not_connected :
    (s : SharedPeerSet) (name p : String) → event_step s (connectedness name p false) ≡ some (s, [])
unfolding event_step handle_change
not_connected s name p = refl

-- Every event succeeds, keeps the owners that there are, and any hold that it adds is the owner's.
event_Stepped : (s : SharedPeerSet) (e : Event) → IsValid s → Stepped s e
event_Stepped s (secured g true p) v = idle_Stepped s (secured g true p) v (outbound_idle s g p)
event_Stepped s (secured g false p) v = elim (Bool-cases (is_sibling g p)) [
  | inl sib ↦ idle_Stepped s (secured g false p) v (sibling_idle s g p sib)
  | inr other ↦ claim-Stepped s p g.my_name (secured g false p) v (inbound_claims s g p other)
]
event_Stepped s (connectedness name p true) v =
    claim-Stepped s p name (connectedness name p true) v (change_claims s name p)
event_Stepped s (connectedness name p false) v =
    idle_Stepped s (connectedness name p false) v (not_connected s name p)
event_Stepped s (discovered p) v =
    let (s', ran, w) = step-Writes s (assigns p) v in
    (s', [], discovered_step s s' p ran, Writes-IsValid w v, λ q o h. Writes-lookup q o w h, tt)

Owned-later :
    (s t : SharedPeerSet)
    → ((p o : String) → lookup p s.assignments ≡ some o → lookup p t.assignments ≡ some o)
    → (hs : List Hold) → All (Owned s) hs
    → All (Owned t) hs
Owned-later s t kept [] a = tt
Owned-later s t kept (h ∷ hs) a = (kept h.peer h.holder a.0, Owned-later s t kept hs a.1)

events-All :
    (es : List Event) (s : SharedPeerSet)
    → IsValid s
    → (t : SharedPeerSet) × (hs : List Hold) × (events es s ≡ some (t, hs))
      × IsValid t
      × ((p o : String) → lookup p s.assignments ≡ some o → lookup p t.assignments ≡ some o)
      × All (Owned t) hs
unfolding events
events-All [] s v = (s, [], refl, v, λ p o h. h, tt)
events-All (e ∷ es) s v =
    let (s', new, stepped, v', kept, owned) = event_Stepped s e v in
    let (t, hs, ran, vt, later, rest) = events-All es s' v' in
    (
      t,
      new ++ hs,
      rw (stepped, events) (rw ran),
      vt,
      λ p o h. later p o (kept p o h),
      All-append (Owned t) new hs (Owned-later s' t later new owned) rest,
    )

-- Over any history of events from a valid set nothing panics, the set stays valid, and in the end
-- every peer that some instance held at some time has that instance for its owner.
events-Owned :
    (es : List Event) (s : SharedPeerSet)
    → IsValid s
    → (t : SharedPeerSet) × (hs : List Hold) × (events es s ≡ some (t, hs))
      × IsValid t
      × All (Owned t) hs
events-Owned es s v =
    let (t, hs, ran, valid, _, owned) = events-All es s v in (t, hs, ran, valid, owned)

holders_agree :
    (t : SharedPeerSet) (a b : Hold) → Owned t a → Owned t b → a.peer ≡ b.peer → a.holder ≡ b.holder
holders_agree t a b p q e = ground arith

-- In any history of the gaters, the inbound handlers and discovery, from a valid set and with no
-- panic, two instances that ever hold the same peer are one instance.
pub holds_exclusive :
    (es : List Event) (s t : SharedPeerSet) (hs : List Hold) (a b : Hold)
    → IsValid s
    → events es s ≡ some (t, hs)
    → Has a hs
    → Has b hs
    → a.peer ≡ b.peer
    → a.holder ≡ b.holder
holds_exclusive es s t hs a b v ran ha hb e =
    let (u, ks, ran', _, owned) = events-Owned es s v in
    let same : (◌≡◌ {A = SharedPeerSet × List Hold} (u, ks) (t, hs)) = cc in
    let all : All (Owned t) hs = subst (λ r. All (Owned r.0) r.1) same owned in
    holders_agree t a b (All_Has (Owned t) all ha) (All_Has (Owned t) all hb) e
