-- ===== src/Node/Gater.antt =====
-- node/gater.go and node/inbound.go: which connections an instance lets in, and which it closes.
-- The peer set behind the gater's pointer is shared by all instances, and passed along here.
-- `network.Direction` is libp2p's: the code only asks whether it is `DirOutbound`.
pub mod Exclusive
pub mod Tests
use beaconprobe.Base.{
  ℕ, zero, suc, ◌+◌, ◌-◌, ◌*◌, ◌/◌, ◌%◌, ◌^◌, ◌≤◌, ◌<◌, min, max, String, ◌≡◌, refl, sym, ap, ◌∙◌,
  subst, ◌≢◌, ◌↔◌, ◌⊎◌, inl, inr, ite, if_pos, if_neg, Bool, true, false, not, ◌&&◌, ◌||◌, Option,
  none, some, List, [], ◌∷◌, ◌++◌, map, arith, dec_lt, dec_le, ℕ_discrete, String_discrete, lookup,
  insert, delete, lookup-insert, lookup-delete, GoMap, Distinct, delete-Distinct, insert-Distinct,
  delete_absent, length-delete, Bool-cases, Option-cases, Key, nat_key, string_key, ◌==◌, ltb, leb,
  if◌then◌else◌, ltb→lt, lt→ltb, leb→le, le→leb, tests, ==_sound, ==_refl, ==_ne, length, get_elem?,
  take, set, select, any, All, Has, here, there, length-append, length-take, length-select-le,
  get_elem?_total, All_Has,
}
use beaconprobe.Node.PeerSet.{SharedPeerSet, claim}

pub record SiblingGater : Type 0 where
  pub sibling_ids : GoMap String (Unit {0})
  pub my_name : String

-- The map that the loop of the constructor fills.
add_siblings : List String → GoMap String (Unit {0}) → GoMap String (Unit {0})
add_siblings [] ids = ids
add_siblings (id ∷ rest) ids = add_siblings rest (insert id tt ids)

unfoldable pub new_sibling_gater : String → List String → SiblingGater
unfolding add_siblings
new_sibling_gater my_name ids = record { sibling_ids = add_siblings ids []; my_name = my_name }

pub is_sibling : SiblingGater → String → Bool
is_sibling g p = elim (lookup p g.sibling_ids) [ none ↦ false | some _ ↦ true ]

pub intercept_peer_dial : SiblingGater → String → Bool
unfolding is_sibling
intercept_peer_dial g p = not (is_sibling g p)

pub intercept_secured : SiblingGater → Bool → String → SharedPeerSet → SharedPeerSet × Bool
unfolding is_sibling
intercept_secured g outbound p s =
    if is_sibling g p
    then (s, false)
    else if outbound
    then (s, true)
    else (let (s', owner, _) = claim s p g.my_name in (s', owner == g.my_name))

-- What the loop of `HandleInboundPeers` waits for: the context, the channel, an event.
pub data Input : Type 0 where
  done closed : Input
  changed : String → Bool → Input

-- One connectedness event of instance `name`; the second part is the peer to close.
pub handle_change : String → String → Bool → SharedPeerSet → SharedPeerSet × Option String
handle_change name p connected s =
    if connected
    then (let (s', owner, _) = claim s p name in (s', if owner == name then none else some p))
    else (s, none)

abbrev push_closed : Option String → List String → List String
push_closed none ps = ps
push_closed (some p) ps = p ∷ ps

-- The whole loop over the inputs that it meets: the peers that it closes, in order.
pub handle_inbound_peers : String → List Input → SharedPeerSet → SharedPeerSet × List String
unfolding handle_change
handle_inbound_peers name [] s = (s, [])
handle_inbound_peers name (done ∷ _) s = (s, [])
handle_inbound_peers name (closed ∷ _) s = (s, [])
handle_inbound_peers name (changed p connected ∷ is) s =
    let (s', shut) = handle_change name p connected s in
    let (t, rest) = handle_inbound_peers name is s' in (t, push_closed shut rest)

lookup-add_siblings :
    (p : String) (ids : List String) (m : GoMap String (Unit {0}))
    → lookup p m ≡ some tt
    → lookup p (add_siblings ids m) ≡ some tt
unfolding add_siblings
lookup-add_siblings p [] m h = h
lookup-add_siblings p (id ∷ ids) m h =
    lookup-add_siblings p ids (insert id tt m) (ground (arith, lookup-insert p id tt m))

add_siblings_all :
    (p : String) (ids : List String) (m : GoMap String (Unit {0}))
    → Has p ids
    → lookup p (add_siblings ids m) ≡ some tt
unfolding add_siblings
add_siblings_all p [] m h = elim h [ ]
add_siblings_all p (id ∷ ids) m here =
    lookup-add_siblings p ids (insert p tt m) (ground (arith, lookup-insert p p tt m))
add_siblings_all p (id ∷ ids) m (there h) = add_siblings_all p ids (insert id tt m) h

-- A gater lets no connection to or from a sibling pass, in either direction, dials none, and
-- claims nothing when it refuses one.
pub siblings_refused :
    (name : String) (ids : List String) (p : String) (outbound : Bool) (s : SharedPeerSet)
    → Has p ids
    → (intercept_peer_dial (new_sibling_gater name ids) p ≡ false)
      × (intercept_secured (new_sibling_gater name ids) outbound p s ≡ (s, false))
unfolding intercept_peer_dial intercept_secured new_sibling_gater is_sibling
siblings_refused name ids p outbound s h = ground (arith, add_siblings_all p ids [] h)

add_siblings_only :
    (p : String) (ids : List String) (m : GoMap String (Unit {0}))
    → lookup p (add_siblings ids m) ≡ some tt
    → (lookup p m ≡ some tt) ⊎ Has p ids
unfolding add_siblings
add_siblings_only p [] m h = inl h
add_siblings_only p (id ∷ ids) m h = elim (add_siblings_only p ids (insert id tt m) h) [
  | inr k ↦ inr (there k)
  | inl e ↦ elim (String_discrete p id) [
    | yes same ↦ inr (subst (λ q. Has q (id ∷ ids)) (sym same) here)
    | no ne ↦ inl (ground (arith, lookup-insert p id tt m))
  ]
]

-- The siblings of a new gater are the IDs that it is given.
pub is_sibling-new :
    (name : String) (ids : List String) (p : String)
    → is_sibling (new_sibling_gater name ids) p ≡ true
    → Has p ids
unfolding is_sibling new_sibling_gater lookup
is_sibling-new name ids p h = elim (Option-cases (lookup p (add_siblings ids []))) [
  | inl e ↦ absurd (ground arith)
  | inr (u, e) ↦ elim (add_siblings_only p ids [] e) [
    | inl none_yet ↦ absurd (ground arith)
    | inr k ↦ k
  ]
]
