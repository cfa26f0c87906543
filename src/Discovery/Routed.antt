-- ===== src/Discovery/Routed.antt =====
-- What the loop of discovery/discovery.go routes.
use beaconprobe.Base.{
  ◌+◌, Bool, true, not, ◌&&◌, ◌||◌, ◌==◌, any, String, ◌≡◌, refl, sym, ap, ◌∙◌, inl, inr, Option,
  none, some, List, [], ◌∷◌, ◌++◌, arith, GoMap, Bool-cases, Option-cases, nat_key, string_key,
  if◌then◌else◌,
}
use mathlib.Core.List.{append-nil}
use beaconprobe.Node.PeerFinder.{
  AddrInfo, PeerFinder, Host, IsSorted, any_connected, is_connected_to_any, add_peer_stores,
}
use beaconprobe.Discovery.Filters.{Node, has_quic_addr}
use beaconprobe.Discovery.CrawlFile.{CrawlFileWriter, holds, has_peer, register_enr}
use beaconprobe.Base.Text.{contains}
use beaconprobe.Rpc.Attnets.{has_subnet_overlap}
use beaconprobe.Discovery.Loop.{
  Config, Discovery, wanted, send, offer, consider, found_step, passes,
}

-- The checks of a node with an address, each on its own: the subnet overlap, which crawl mode skips,
-- QUIC where that is asked for, no connection to any instance, and not being in the crawl file.
abbrev serves : Config → Node → Bool
serves cfg node = not (cfg.crawl_file == "") || has_subnet_overlap node.attnets cfg.subnet_ids

abbrev reachable : Config → AddrInfo → Bool
reachable cfg ai = not cfg.quic_only || any (λ a. contains a "/quic-v1") ai.addrs

abbrev apart_from : GoMap String Host → String → Bool
apart_from hosts id = not (any (λ h. h.1 id) hosts)

abbrev unwritten : Option CrawlFileWriter → String → Bool
unwritten none id = true
unwritten (some w) id = not (holds id w.seen) && not (holds id w.pending)

-- The peers that one node adds to those routed.
abbrev routes : Config → Discovery → Node → GoMap String Host → List AddrInfo
routes cfg d node hosts = elim node.addr_info [
  | none ↦ []
  | some ai ↦
      if serves cfg node
        && (reachable cfg ai && (apart_from hosts ai.id && unwritten d.crawl_writer ai.id))
      then ai ∷ []
      else []
]

any_connected-any :
    (id : String) (hosts : GoMap String Host) → any_connected id hosts ≡ any (λ h. h.1 id) hosts
unfolding any_connected
any_connected-any id [] = refl
any_connected-any id ((name, h) ∷ hosts) = ground (arith, any_connected-any id hosts)

unwritten-has_peer :
    (c : Option CrawlFileWriter) (id : String)
    → unwritten c id ≡ elim c [ none ↦ true | some w ↦ not (has_peer w id) ]
unfolding has_peer
unwritten-has_peer none id = refl
unwritten-has_peer (some w) id = ground arith

-- The loop's checks are these.
routes-wanted :
    (cfg : Config) (d : Discovery) (node : Node) (hosts : GoMap String Host)
    → routes cfg d node hosts ≡ elim (wanted cfg node) [
      | none ↦ []
      | some ai ↦ if passes cfg d ai hosts then ai ∷ [] else []
    ]
unfolding wanted is_connected_to_any has_quic_addr
routes-wanted cfg d node hosts = elim (Option-cases node.addr_info) [
  | inl e ↦ rw e (ground arith)
  | inr (ai, e) ↦
      rw (e, unwritten-has_peer d.crawl_writer ai.id)
        (ground (arith, any_connected-any ai.id hosts))
]

pub with_hosts-IsSorted :
    (f : PeerFinder) (hosts : GoMap String Host)
    → IsSorted f
    → IsSorted (record f { hosts = hosts })
with_hosts-IsSorted f hosts w = record {
  set_valid = w.set_valid;
  sorted = w.sorted;
  no_double = w.no_double;
}

pub send_total :
    (d : Discovery) (ai : AddrInfo)
    → IsSorted d.router
    → (f : PeerFinder) × (send d ai ≡ some (record d { router = f; routed = d.routed ++ ai ∷ [] }))
      × IsSorted f
unfolding send
send_total d ai w =
    let (f, _, done, sorted, _, _) = add_peer_stores d.router ai "" w in
    (f, rw (done, send), sorted)

-- The writer that has been told of the peers routed.
abbrev registers : Option CrawlFileWriter → List AddrInfo → String → Option CrawlFileWriter
registers none ais text = none
registers (some w) [] text = some w
registers (some w) (ai ∷ ais) text = some (register_enr w ai.id text)

-- A step that is done, with what it leaves.
abbrev pub Done : Config → Discovery → Node → GoMap String Host → Type 0
Done cfg d node hosts =
    (d' : Discovery) × (found_step cfg d node hosts ≡ some d')
    × IsSorted d'.router
    × (d'.routed ≡ d.routed ++ routes cfg d node hosts)
    × (d'.crawl_writer ≡ registers d.crawl_writer (routes cfg d node hosts) node.text)
    × (d'.peers_found ≡ d.peers_found + 1)

module _ (cfg : Config) (d : Discovery) (node : Node) (hosts : GoMap String Host)
    (w : IsSorted d.router) where
  abbrev seen : Discovery
  seen = record d { router = record (d.router) { hosts = hosts }; peers_found = d.peers_found + 1 }

  passed_over :
      found_step cfg d node hosts ≡ some seen → routes cfg d node hosts ≡ [] → Done cfg d node hosts
  passed_over e r = (
    seen,
    e,
    with_hosts-IsSorted d.router hosts w,
    rw r (sym (append-nil d.routed)),
    rw r (same d.crawl_writer),
    refl,
  )
    where
      same : (c : Option CrawlFileWriter) → c ≡ registers c [] node.text
      same none = refl
      same (some c) = refl

  sent :
      (ai : AddrInfo) (c : Option CrawlFileWriter)
      → found_step cfg d node hosts ≡ send (record seen { crawl_writer = c }) ai
      → routes cfg d node hosts ≡ ai ∷ []
      → c ≡ registers d.crawl_writer (ai ∷ []) node.text
      → Done cfg d node hosts
  sent ai c e r h =
      let (f, done, sorted) =
        send_total (record seen { crawl_writer = c }) ai (with_hosts-IsSorted d.router hosts w) in
      (
        record seen { crawl_writer = c; router = f; routed = d.routed ++ ai ∷ [] },
        e ∙ done,
        sorted,
        ap (λ x. d.routed ++ x) (sym r),
        h ∙ ap (λ x. registers d.crawl_writer x node.text) (sym r),
        refl,
      )

-- From a router that has its peers sorted, handling a node never panics and keeps them sorted. The
-- node is counted, and its peer is routed exactly if the node passes every check: the subnet overlap,
-- which crawl mode skips, an address, QUIC where that is asked for, no connection to any instance, and
-- not being in the crawl file. What is routed is registered in the crawl file, if there is one.
pub found_step_total :
    (cfg : Config) (d : Discovery) (node : Node) (hosts : GoMap String Host)
    → IsSorted d.router
    → Done cfg d node hosts
unfolding found_step consider offer
found_step_total cfg d node hosts w = elim (Option-cases (wanted cfg node)) [
  | inl e ↦
      passed_over cfg d node hosts w (ground arith) (ground (arith, routes-wanted cfg d node hosts))
  | inr (ai, e) ↦
      elim (Bool-cases (is_connected_to_any (record (d.router) { hosts = hosts }) ai.id)) [
        | inl con ↦
            passed_over cfg d node hosts w (ground arith)
              (ground (arith, routes-wanted cfg d node hosts))
        | inr apart ↦ elim (Option-cases d.crawl_writer) [
          | inl no_file ↦
              sent cfg d node hosts w ai none (ground arith)
                (ground (arith, routes-wanted cfg d node hosts)) (ground arith)
          | inr (c, file) ↦ elim (Bool-cases (has_peer c ai.id)) [
            | inl old ↦
                passed_over cfg d node hosts w (ground arith)
                  (ground (arith, routes-wanted cfg d node hosts))
            | inr new ↦
                sent cfg d node hosts w ai (some (register_enr c ai.id node.text)) (ground arith)
                  (ground (arith, routes-wanted cfg d node hosts)) (ground arith)
          ]
        ]
      ]
]
