-- ===== src/Discovery/Bootstrap.antt =====
-- `RouteBootstrapPeers` of discovery/discovery.go. A line comes with the hosts as they are when the
-- router is asked about it. go-ethereum's `enode.Parse` and `RequestENR`, prysm's fork ID, Go's
-- `strings.TrimSpace` and math/rand's shuffle are parameters.
pub mod Admitted
use beaconprobe.Base.{
  ℕ, zero, suc, ◌+◌, ◌-◌, ◌*◌, ◌/◌, ◌%◌, ◌^◌, ◌≤◌, ◌<◌, min, max, String, ◌≡◌, refl, sym, ap, ◌∙◌,
  subst, ◌≢◌, ◌↔◌, ◌⊎◌, inl, inr, ite, if_pos, if_neg, Bool, true, false, not, ◌&&◌, ◌||◌, Option,
  none, some, List, [], ◌∷◌, ◌++◌, map, arith, dec_lt, dec_le, ℕ_discrete, String_discrete, lookup,
  insert, delete, lookup-insert, lookup-delete, GoMap, Distinct, delete-Distinct, insert-Distinct,
  delete_absent, length-delete, Bool-cases, Option-cases, Key, nat_key, string_key, ◌==◌, ltb, leb,
  if◌then◌else◌, ltb→lt, lt→ltb, leb→le, le→leb, tests, ==_sound, ==_refl, ==_ne, length, get_elem?,
  take, set, select, any, All, Has, here, there, length-append, length-take, length-select-le,
  get_elem?_total, All_Has, All-map, All-append, get_or, length-set, get_or-set_self, get_or-set_ne,
}
use beaconprobe.Node.PeerFinder.{
  AddrInfo, PeerFinder, Host, IsSorted, is_connected_to_any, route, add_peer_stores,
}
use beaconprobe.Rpc.Attnets.{has_subnet_overlap}
use beaconprobe.Discovery.Filters.{Node, matches_fork_digest, has_quic_addr}

-- A line, or the moment at which the context is found to be cancelled.
pub data Line : Type 0 where
  cancelled : Line
  line : String → GoMap String Host → Line

-- What the function is called with.
pub record Bootstrap : Type 0 where
  pub parse : String → Option Node
  pub request_enr : Node → Option Node
  pub unmarshal : List ℕ → Option (List ℕ)
  pub fork_digest : List ℕ
  pub subnet_ids : List ℕ
  pub quic_only : Bool

-- The fresh record, or the old one if the request fails.
pub refresh : Bootstrap → Node → Node
refresh b node = elim (b.request_enr node) [ none ↦ node | some fresh ↦ fresh ]

unfoldable pub admissible : Bootstrap → Node → Option AddrInfo
admissible b node =
    if not (matches_fork_digest b.unmarshal node.eth2 b.fork_digest)
    then none
    else if not (has_subnet_overlap node.attnets b.subnet_ids)
    then none
    else elim node.addr_info [
      | none ↦ none
      | some ai ↦ if b.quic_only && not (has_quic_addr ai) then none else some ai
    ]

unfoldable pub candidate : Bootstrap → String → Option AddrInfo
unfolding refresh
candidate b text = elim (b.parse text) [ none ↦ none | some node ↦ admissible b (refresh b node) ]

-- The router and the peers routed, after one line; `none` is the router's panic.
unfoldable pub line_step :
    Bootstrap → PeerFinder → String → GoMap String Host → Option (PeerFinder × List AddrInfo)
line_step b f text hosts = elim (candidate b text) [
  | none ↦ some (record f { hosts = hosts }, [])
  | some ai ↦
      if is_connected_to_any (record f { hosts = hosts }) ai.id
      then some (record f { hosts = hosts }, [])
      else elim (route (record f { hosts = hosts }) ai) [
        | none ↦ none
        | some f' ↦ some (f', ai ∷ [])
      ]
]

unfoldable pub route_lines :
    Bootstrap → List Line → PeerFinder → Option (PeerFinder × List AddrInfo)
route_lines b [] f = some (f, [])
route_lines b (cancelled ∷ ls) f = some (f, [])
route_lines b (line text hosts ∷ ls) f = elim (line_step b f text hosts) [
  | none ↦ none
  | some (f', sent) ↦ elim (route_lines b ls f') [
    | none ↦ none
    | some (g, rest) ↦ some (g, sent ++ rest)
  ]
]

-- The lines in the order in which they are visited, from the i-th visit on: each visit finds the
-- context cancelled, which is `none`, or the hosts as they are.
unfoldable pub lines_at : (ℕ → Option (GoMap String Host)) → ℕ → List String → List Line
lines_at moments i [] = []
lines_at moments i (text ∷ texts) =
    elim (moments i) [ none ↦ cancelled | some hosts ↦ line text hosts ]
    ∷ lines_at moments (suc i) texts

-- The lines of the file without the space around them, and without those that are empty.
unfoldable pub node_strings : (String → String) → List String → List String
node_strings trim [] = []
node_strings trim (text ∷ texts) =
    let rest = node_strings trim texts in if trim text == "" then rest else trim text ∷ rest

-- A file that cannot be opened is `none`.
unfoldable pub route_bootstrap_peers :
    (String → String)
    → (List String → List String)
    → Bootstrap
    → (ℕ → Option (GoMap String Host))
    → Option (List String)
    → PeerFinder
    → Option (PeerFinder × List AddrInfo)
route_bootstrap_peers trim shuffle b moments none f = some (f, [])
route_bootstrap_peers trim shuffle b moments (some texts) f =
    route_lines b (lines_at moments 0 (shuffle (node_strings trim texts))) f
