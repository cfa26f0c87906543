-- ===== src/Discovery/Tests.antt =====
-- A loop over found nodes, a crawl file and a bootstrap file, and the theorems at them.
use beaconprobe.Base.{
  ℕ, String, ◌≡◌, ◌++◌, refl, true, false, Option, none, some, List, [], ◌∷◌, map, arith,
  ℕ_discrete, String_discrete, lookup, insert, delete, GoMap, nat_key, string_key, ◌==◌, ltb,
  if◌then◌else◌, length, All,
}
use beaconprobe.Node.PeerSet.{SharedPeerSet, IsValid, assign_or_get}
use beaconprobe.Node.PeerFinder.{
  AddrInfo, PeerFinder, Host, IsSorted, new_peer_finder, store_peer, add_peer, is_connected_to_any,
  any_connected, new_peer_finder-IsSorted,
}
use beaconprobe.Node.PeerFinder.Pulls.{AllDiffer}
use beaconprobe.Discovery.Filters.{Node}
use beaconprobe.Discovery.CrawlFile.{
  new_crawl_file_writer, has_peer, register_enr, write_line, write_connected, Call, registers,
  connects, calls, ids_in, written_once,
}
use beaconprobe.Discovery.Loop.{
  Config, Discovery, Move, looks, routes, ask_file, look, enroll, move, Loops, Input, v5_moves,
  v4_moves, connected, wanted, send, discover_peers,
}
use beaconprobe.Discovery.Routed.{Done, found_step_total}
use beaconprobe.Discovery.Once.{sent_ids, fresh_loop, crawl_routes_once}
use mathlib.Core.List.Permᴰ
use mathlib.Core.List.{reverse}
use beaconprobe.Node.PeerFinder.Pulls.{Shuffles}
use beaconprobe.Base.Bytes.{test_bit}
use beaconprobe.Rpc.Attnets.{has_subnet_overlap, has_subnet}
use beaconprobe.Discovery.Filters.{matches_fork_digest, has_quic_addr}
use beaconprobe.Discovery.Bootstrap.{
  Bootstrap, admissible, candidate, line_step, route_lines, lines_at, node_strings,
  route_bootstrap_peers,
}
use beaconprobe.Discovery.Bootstrap.Admitted.{IsAdmissible, bootstrap_total}

abbrev one : SharedPeerSet
one = record { assignments = []; instances = "a" ∷ []; next_idx = 0 }

one-IsValid : IsValid one
one-IsValid = record { inhabited = omega arith; in_range = omega arith; distinct = tt }

abbrev nobody : GoMap String Host
nobody = ("a", λ id. false) ∷ []

empty-IsSorted : IsSorted (new_peer_finder one nobody)
empty-IsSorted = new_peer_finder-IsSorted one nobody one-IsValid

-- A node of the subnet 5 with a QUIC address.
abbrev node : String → Node
node id = record {
  eth2 = some (1 ∷ 2 ∷ 3 ∷ 4 ∷ 0 ∷ []);
  attnets = some (32 ∷ 0 ∷ 0 ∷ 0 ∷ 0 ∷ 0 ∷ 0 ∷ 0 ∷ []);
  addr_info = some (record { id = id; addrs = "/ip4/1.2.3.4/udp/9001/quic-v1" ∷ [] });
  text = "enr:-";
}

abbrev cfg : Config
cfg = record { crawl_file = "crawl.txt"; subnet_ids = 5 ∷ []; quic_only = false }

abbrev idle : Discovery
idle = record {
  router = new_peer_finder one nobody;
  crawl_writer = some (new_crawl_file_writer []);
  peers_found = 0;
  routed = [];
}

-- The loop over discv4 asks about p between the check and the registration of the other loop: both
-- route it. A later sighting is passed over, as the record stays in the crawl file's maps.
abbrev inputs : List Input
inputs =
    v5_moves (looks (node "p") nobody)
    ∷ v4_moves (looks (node "p") nobody)
    ∷ v5_moves Move.registers
    ∷ v5_moves routes
    ∷ v4_moves Move.registers
    ∷ v4_moves routes
    ∷ connected "p"
    ∷ v5_moves (looks (node "p") nobody)
    ∷ v5_moves Move.registers
    ∷ v5_moves routes
    ∷ []

abbrev loops : Loops
loops = record { shared = idle; v5_loop = fresh_loop; v4_loop = fresh_loop }

abbrev outcome : Option Loops → List (List String)
outcome none = []
outcome (some s) =
    sent_ids s.v5_loop
    ∷ sent_ids s.v4_loop
    ∷ elim s.shared.crawl_writer [ none ↦ [] | some c ↦ ids_in c.lines ]
    ∷ []

discover_run : outcome (discover_peers cfg inputs loops) ≡ ("p" ∷ []) ∷ ("p" ∷ []) ∷ ("p" ∷ []) ∷ []
unfolding discover_peers move look ask_file enroll send wanted add_peer assign_or_get store_peer
    is_connected_to_any any_connected new_peer_finder has_peer register_enr write_connected
    write_line lookup insert delete String_discrete ℕ_discrete
discover_run = refl

found_step_total_example : Done cfg idle (node "p") nobody
found_step_total_example = found_step_total cfg idle (node "p") nobody empty-IsSorted

crawl_routes_once_example :
    (t : Loops) × (discover_peers cfg inputs loops ≡ some t)
    × AllDiffer (sent_ids t.v5_loop)
    × AllDiffer (sent_ids t.v4_loop)
crawl_routes_once_example =
    crawl_routes_once cfg inputs idle (new_crawl_file_writer []) empty-IsSorted refl

abbrev sightings : List Call
sightings =
    registers "p" "enr:-1"
    ∷ connects "p"
    ∷ connects "q"
    ∷ registers "p" "enr:-2"
    ∷ connects "p"
    ∷ []

calls_run :
    (calls sightings (new_crawl_file_writer (("p", "enr:-0") ∷ []))).lines
    ≡ ("p", "enr:-0") ∷ ("p", "enr:-1") ∷ []
unfolding calls register_enr write_connected write_line lookup insert delete String_discrete
calls_run = refl

written_once_example :
    let c = calls sightings (new_crawl_file_writer (("p", "enr:-0") ∷ [])) in
    (new : List (String × String)) × (c.lines ≡ (("p", "enr:-0") ∷ []) ++ new)
    × AllDiffer (ids_in new)
    × (length new ≡ length c.seen)
written_once_example = written_once (("p", "enr:-0") ∷ []) sightings

abbrev bootstrap : Bootstrap
bootstrap = record {
  parse = λ text. if text == "" then none else some (node text);
  request_enr = λ n. none;
  unmarshal = λ bytes. some bytes;
  fork_digest = 1 ∷ 2 ∷ 3 ∷ 4 ∷ [];
  subnet_ids = 5 ∷ [];
  quic_only = true;
}

-- The blank line is dropped, and the context is cancelled before the third visit.
abbrev moments : ℕ → Option (GoMap String Host)
moments i = if ltb i 2 then some nobody else none

abbrev file : List String
file = "p" ∷ "" ∷ "q" ∷ "r" ∷ []

abbrev admitted_ids : Option (PeerFinder × List AddrInfo) → List String
admitted_ids none = []
admitted_ids (some (f, sent)) = map (λ ai. ai.id) sent

bootstrap_run :
    admitted_ids (
      route_bootstrap_peers
        (λ text. text)
        reverse
        bootstrap
        moments
        (some file)
        (new_peer_finder one nobody))
    ≡ "r" ∷ "q" ∷ []
unfolding route_bootstrap_peers node_strings lines_at route_lines line_step candidate admissible
    matches_fork_digest has_subnet_overlap has_subnet has_quic_addr add_peer assign_or_get
    store_peer is_connected_to_any any_connected new_peer_finder lookup insert delete
    String_discrete ℕ_discrete test_bit
bootstrap_run = refl

backwards : Shuffles reverse
backwards xs = Permᴰ.reverse xs

bootstrap_total_example :
    (g : PeerFinder) × (sent : List AddrInfo) × (route_bootstrap_peers
        (λ text. text)
        reverse
        bootstrap
        moments
        (some file)
        (new_peer_finder one nobody)
      ≡ some (g, sent))
    × IsSorted g
    × All (IsAdmissible bootstrap (node_strings (λ text. text) file)) sent
bootstrap_total_example =
    bootstrap_total (λ text. text) reverse bootstrap moments file (new_peer_finder one nobody)
      backwards empty-IsSorted
