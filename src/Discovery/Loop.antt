-- ===== src/Discovery/Loop.antt =====
-- The loop `discoverPeers` of discovery/discovery.go over the nodes of its iterator. A round that
-- nothing comes between is `found_step`. With a discv4 port two loops run, step by step, over one router,
-- the `PeerFinder`, and one crawl file, which the notifee tells of the peers that connect.
use beaconprobe.Base.{
  ℕ, ◌+◌, String, Bool, true, not, ◌&&◌, Option, none, some, List, [], ◌∷◌, ◌++◌, GoMap, nat_key,
  string_key, ◌==◌, if◌then◌else◌,
}
use beaconprobe.Node.PeerFinder.{AddrInfo, PeerFinder, Host, is_connected_to_any, route}
use beaconprobe.Rpc.Attnets.{has_subnet_overlap}
use beaconprobe.Discovery.Filters.{Node, has_quic_addr}
use beaconprobe.Discovery.CrawlFile.{CrawlFileWriter, has_peer, register_enr, write_connected}

-- The fields of `Config` that the loop reads.
pub record Config : Type 0 where
  pub crawl_file : String
  pub subnet_ids : List ℕ
  pub quic_only : Bool

-- What the loop changes: the router, the crawl file, the counter of the peers found; and the peers
-- that it has routed, in order.
pub record Discovery : Type 0 where
  pub router : PeerFinder
  pub crawl_writer : Option CrawlFileWriter
  pub peers_found : ℕ
  pub routed : List AddrInfo

-- The checks of a node before the router is asked.
unfoldable pub wanted : Config → Node → Option AddrInfo
wanted cfg node =
    if cfg.crawl_file == "" && not (has_subnet_overlap node.attnets cfg.subnet_ids)
    then none
    else elim node.addr_info [
      | none ↦ none
      | some ai ↦ if cfg.quic_only && not (has_quic_addr ai) then none else some ai
    ]

unfoldable pub send : Discovery → AddrInfo → Option Discovery
send d ai = elim (route d.router ai) [
  | none ↦ none
  | some f ↦ some (record d { router = f; routed = d.routed ++ ai ∷ [] })
]

-- The crawl file's part: a peer that it has is passed over, another is registered and routed.
unfoldable pub offer : Discovery → Option CrawlFileWriter → AddrInfo → String → Option Discovery
offer d none ai text = send d ai
offer d (some w) ai text =
    if has_peer w ai.id
    then some d
    else send (record d { crawl_writer = some (register_enr w ai.id text) }) ai

unfoldable pub consider : Config → Discovery → Node → Option Discovery
consider cfg d node = elim (wanted cfg node) [
  | none ↦ some d
  | some ai ↦
      if is_connected_to_any d.router ai.id then some d else offer d d.crawl_writer ai node.text
]

-- `none` is the router's panic.
unfoldable pub found_step : Config → Discovery → Node → GoMap String Host → Option Discovery
found_step cfg d node hosts =
    let seen = record d {
      router = record (d.router) { hosts = hosts };
      peers_found = d.peers_found + 1;
    } in
    consider cfg seen node

abbrev pub notify : Discovery → String → Discovery
notify d id = record d {
  crawl_writer = elim d.crawl_writer [ none ↦ none | some w ↦ some (write_connected w id) ];
}

-- Where a loop stands: between two nodes, past the crawl file's answer that it has not got a peer, or
-- past the registration of the peer, where there is a crawl file.
pub data Place : Type 0 where
  between : Place
  checked : AddrInfo → String → Place
  registered : AddrInfo → Place

-- One loop, with what it has routed, in order.
pub record Loop : Type 0 where
  pub place : Place
  pub sent : List AddrInfo

-- The steps of a loop that another goroutine may come between; a node comes with the hosts as they are
-- when the loop asks the router about it.
pub data Move : Type 0 where
  looks : Node → GoMap String Host → Move
  registers routes : Move

unfoldable pub ask_file : Option CrawlFileWriter → AddrInfo → String → Place
ask_file none ai text = registered ai
ask_file (some w) ai text = if has_peer w ai.id then between else checked ai text

-- What a loop that finds a node does up to the answer of the crawl file.
unfoldable pub look : Config → Discovery → Node → Place
unfolding ask_file
look cfg d node = elim (wanted cfg node) [
  | none ↦ between
  | some ai ↦
      if is_connected_to_any d.router ai.id then between else ask_file d.crawl_writer ai node.text
]

unfoldable pub enroll : Option CrawlFileWriter → AddrInfo → String → Option CrawlFileWriter
enroll none ai text = none
enroll (some w) ai text = some (register_enr w ai.id text)

-- A step that is not the loop's next one changes nothing; `none` is the router's panic.
unfoldable pub move : Config → Discovery → Loop → Move → Option (Discovery × Loop)
unfolding look enroll
move cfg d l (looks node hosts) = elim l.place [
  | between ↦
      let seen = record d {
        router = record (d.router) { hosts = hosts };
        peers_found = d.peers_found + 1;
      } in
      some (seen, record l { place = look cfg seen node })
  | _ ↦ some (d, l)
]
move cfg d l registers = elim l.place [
  | checked ai text ↦ some (
    record d { crawl_writer = enroll d.crawl_writer ai text },
    record l { place = registered ai },
  )
  | _ ↦ some (d, l)
]
move cfg d l routes = elim l.place [
  | registered ai ↦ elim (send d ai) [
    | none ↦ none
    | some d' ↦ some (d', record { place = between; sent = l.sent ++ ai ∷ [] })
  ]
  | _ ↦ some (d, l)
]

-- The loops over discv5 and over discv4, which share the router and the crawl file.
pub record Loops : Type 0 where
  pub shared : Discovery
  pub v5_loop : Loop
  pub v4_loop : Loop

pub data Input : Type 0 where
  v5_moves v4_moves : Move → Input
  connected : String → Input

unfoldable pub discover_peers : Config → List Input → Loops → Option Loops
discover_peers cfg [] s = some s
discover_peers cfg (v5_moves m ∷ is) s = elim (move cfg s.shared s.v5_loop m) [
  | none ↦ none
  | some (d, l) ↦ discover_peers cfg is (record s { shared = d; v5_loop = l })
]
discover_peers cfg (v4_moves m ∷ is) s = elim (move cfg s.shared s.v4_loop m) [
  | none ↦ none
  | some (d, l) ↦ discover_peers cfg is (record s { shared = d; v4_loop = l })
]
discover_peers cfg (connected id ∷ is) s =
    discover_peers cfg is (record s { shared = notify s.shared id })

-- A node is routed if it passes every check.
abbrev pub passes : Config → Discovery → AddrInfo → GoMap String Host → Bool
passes cfg d ai hosts =
    not (is_connected_to_any (record (d.router) { hosts = hosts }) ai.id)
    && elim d.crawl_writer [ none ↦ true | some w ↦ not (has_peer w ai.id) ]
