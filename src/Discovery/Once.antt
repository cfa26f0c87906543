-- ===== src/Discovery/Once.antt =====
-- With a crawl file no loop of discovery/discovery.go routes a peer twice, though two loops may each
-- route it once.
use beaconprobe.Base.{
  ◌+◌, String, ◌≡◌, refl, ap, ◌∙◌, ◌≢◌, inl, inr, true, false, some, List, [], ◌∷◌, ◌++◌, map,
  arith, Bool-cases, Option-cases, nat_key, string_key, All, All-map, All-append,
}
use beaconprobe.Node.PeerFinder.{AddrInfo, IsSorted, is_connected_to_any}
use beaconprobe.Node.PeerFinder.Pulls.{AllDiffer}
use beaconprobe.Discovery.Filters.{Node}
use beaconprobe.Discovery.CrawlFile.{
  CrawlFileWriter, has_peer, register_enr, write_connected, has_peer-register_enr,
  has_peer-write_connected, differ_snoc,
}
use beaconprobe.Discovery.Loop.{
  Config, Discovery, Place, between, checked, registered, Loop, Move, looks, registers, routes,
  ask_file, look, enroll, move, Loops, Input, v5_moves, v4_moves, connected, wanted, notify,
  discover_peers,
}
use beaconprobe.Discovery.Routed.{with_hosts-IsSorted, send_total}

abbrev pub sent_ids : Loop → List String
sent_ids l = map (λ ai. ai.id) l.sent

-- The peer that a loop is about to route is none that it has routed.
abbrev IsFresh : CrawlFileWriter → Place → List String → Type 0
IsFresh w between ids = Unit
IsFresh w (checked ai text) ids = All (λ q. q ≢ ai.id) ids
IsFresh w (registered ai) ids = All (λ q. q ≢ ai.id) ids × (has_peer w ai.id ≡ true)

-- The crawl file knows every peer that the loop has routed, and it has routed none twice.
record IsCrawl (w : CrawlFileWriter) (l : Loop) : Type 0 where
  known : All (λ id. has_peer w id ≡ true) (sent_ids l)
  differ : AllDiffer (sent_ids l)
  fresh : IsFresh w l.place (sent_ids l)

abbrev Grows : CrawlFileWriter → CrawlFileWriter → Type 0
Grows w v = (q : String) → has_peer w q ≡ true → has_peer v q ≡ true

IsFresh-grown :
    (w v : CrawlFileWriter) (p : Place) (ids : List String)
    → Grows w v
    → IsFresh w p ids
    → IsFresh v p ids
IsFresh-grown w v between ids g f = tt
IsFresh-grown w v (checked ai text) ids g f = f
IsFresh-grown w v (registered ai) ids g f = (f.0, g ai.id f.1)

IsCrawl-grown : (w v : CrawlFileWriter) (l : Loop) → Grows w v → IsCrawl w l → IsCrawl v l
IsCrawl-grown w v l g k = record {
  known = All-map _ (λ id. has_peer v id ≡ true) (sent_ids l) g k.known;
  differ = k.differ;
  fresh = IsFresh-grown w v l.place (sent_ids l) g k.fresh;
}

known_ne :
    (c : CrawlFileWriter) (id q : String) → has_peer c id ≡ false → has_peer c q ≡ true → q ≢ id
known_ne c id q h k = ground arith

register-Grows : (w : CrawlFileWriter) (id text : String) → Grows w (register_enr w id text)
register-Grows w id text q h = ground (arith, has_peer-register_enr w id text q)

registered_known :
    (w : CrawlFileWriter) (id text : String) → has_peer (register_enr w id text) id ≡ true
registered_known w id text = ground (arith, has_peer-register_enr w id text id)

-- What a look leaves is fresh.
ask_file-IsFresh :
    (w : CrawlFileWriter) (ai : AddrInfo) (text : String) (ids : List String)
    → All (λ id. has_peer w id ≡ true) ids
    → IsFresh w (ask_file (some w) ai text) ids
unfolding ask_file
ask_file-IsFresh w ai text ids k = elim (Bool-cases (has_peer w ai.id)) [
  | inl old ↦ rw old tt
  | inr new ↦ rw new (All-map _ (λ q. q ≢ ai.id) ids (λ q. known_ne w ai.id q new) k)
]

look-IsFresh :
    (cfg : Config) (d : Discovery) (w : CrawlFileWriter) (node : Node) (ids : List String)
    → d.crawl_writer ≡ some w
    → All (λ id. has_peer w id ≡ true) ids
    → IsFresh w (look cfg d node) ids
unfolding look
look-IsFresh cfg d w node ids e k = elim (Option-cases (wanted cfg node)) [
  | inl none_wanted ↦ rw (none_wanted, look) tt
  | inr (ai, found) ↦ elim (Bool-cases (is_connected_to_any d.router ai.id)) [
    | inl con ↦ rw (found, look) (rw con tt)
    | inr apart ↦ rw (found, look) (rw (apart, e) (ask_file-IsFresh w ai node.text ids k))
  ]
]

sent_ids-append :
    (xs : List AddrInfo) (ai : AddrInfo)
    → map (λ a. a.id) (xs ++ ai ∷ []) ≡ map (λ a. a.id) xs ++ ai.id ∷ []
sent_ids-append [] ai = refl
sent_ids-append (x ∷ xs) ai = ap (◌∷◌ x.id) (sent_ids-append xs ai)

sent-IsCrawl :
    (w : CrawlFileWriter) (sent : List AddrInfo) (ai : AddrInfo)
    → IsCrawl w (record { place = registered ai; sent = sent })
    → IsCrawl w (record { place = between; sent = sent ++ ai ∷ [] })
sent-IsCrawl w sent ai k = record {
  known = rw (sent_ids-append sent ai) (
      All-append (λ id. has_peer w id ≡ true) (map (λ a. a.id) sent) (ai.id ∷ []) k.known
        (k.fresh.1, tt));
  differ =
      rw (sent_ids-append sent ai) (differ_snoc (map (λ a. a.id) sent) ai.id k.differ k.fresh.0);
  fresh = tt;
}

-- What both loops rely on: the router has its peers sorted, and the crawl file is w.
record IsShared (w : CrawlFileWriter) (d : Discovery) : Type 0 where
  sorted : IsSorted d.router
  open_file : d.crawl_writer ≡ some w

-- A step of one loop never panics and keeps that loop right, and the crawl file forgets nothing.
abbrev Moves : Config → CrawlFileWriter → Discovery → Loop → Move → Type 0
Moves cfg w d l m =
    (d' : Discovery) × (l' : Loop) × (v : CrawlFileWriter) × (move cfg d l m ≡ some (d', l'))
    × IsShared v d'
    × Grows w v
    × IsCrawl v l'

move-IsCrawl :
    (cfg : Config) (w : CrawlFileWriter) (d : Discovery) (p : Place) (sent : List AddrInfo)
    (m : Move)
    → IsShared w d
    → IsCrawl w (record { place = p; sent = sent })
    → Moves cfg w d (record { place = p; sent = sent }) m
unfolding move enroll
move-IsCrawl cfg w d between sent (looks node hosts) s k = (
  _,
  _,
  w,
  refl,
  record { sorted = with_hosts-IsSorted d.router hosts s.sorted; open_file = s.open_file },
  λ q h. h,
  record {
    known = k.known;
    differ = k.differ;
    fresh =
        look-IsFresh cfg
          (record d {
            router = record (d.router) { hosts = hosts };
            peers_found = d.peers_found + 1;
          })
          w node (map (λ a. a.id) sent) s.open_file k.known;
  },
)
move-IsCrawl cfg w d (checked ai text) sent registers s k = (
  _,
  _,
  register_enr w ai.id text,
  refl,
  record { sorted = s.sorted; open_file = rw s.open_file refl },
  register-Grows w ai.id text,
  record {
    known =
        All-map _ (λ id. has_peer (register_enr w ai.id text) id ≡ true) (map (λ a. a.id) sent)
          (register-Grows w ai.id text) k.known;
    differ = k.differ;
    fresh = (k.fresh, registered_known w ai.id text);
  },
)
move-IsCrawl cfg w d (registered ai) sent routes s k =
    let (f, done, sorted) = send_total d ai s.sorted in
    (
      record d { router = f; routed = d.routed ++ ai ∷ [] },
      record { place = between; sent = sent ++ ai ∷ [] },
      w,
      rw (done, move) refl,
      record { sorted = sorted; open_file = s.open_file },
      λ q h. h,
      sent-IsCrawl w sent ai k,
    )
move-IsCrawl cfg w d (checked ai text) sent (looks node hosts) s k = (_, _, w, refl, s, λ q h. h, k)
move-IsCrawl cfg w d (registered ai) sent (looks node hosts) s k = (_, _, w, refl, s, λ q h. h, k)
move-IsCrawl cfg w d between sent registers s k = (_, _, w, refl, s, λ q h. h, k)
move-IsCrawl cfg w d (registered ai) sent registers s k = (_, _, w, refl, s, λ q h. h, k)
move-IsCrawl cfg w d between sent routes s k = (_, _, w, refl, s, λ q h. h, k)
move-IsCrawl cfg w d (checked ai text) sent routes s k = (_, _, w, refl, s, λ q h. h, k)

notify-IsShared :
    (w : CrawlFileWriter) (d : Discovery) (id : String)
    → IsShared w d
    → IsShared (write_connected w id) (notify d id)
notify-IsShared w d id s = record { sorted = s.sorted; open_file = rw s.open_file refl }

run-IsCrawl :
    (cfg : Config) (is : List Input) (s : Loops) (w : CrawlFileWriter)
    → IsShared w s.shared
    → IsCrawl w s.v5_loop
    → IsCrawl w s.v4_loop
    → (t : Loops) × (v : CrawlFileWriter) × (discover_peers cfg is s ≡ some t)
      × IsCrawl v t.v5_loop
      × IsCrawl v t.v4_loop
unfolding discover_peers
run-IsCrawl cfg [] s w h a b = (s, w, refl, a, b)
run-IsCrawl cfg (v5_moves m ∷ is) s w h a b =
    let (d, l, v, done, shared, grows, own) =
      move-IsCrawl cfg w s.shared s.v5_loop.place s.v5_loop.sent m h a in
    let (t, u, ran, x, y) =
      run-IsCrawl cfg is (record s { shared = d; v5_loop = l }) v shared own
        (IsCrawl-grown w v s.v4_loop grows b) in
    (t, u, rw (done, discover_peers) ran, x, y)
run-IsCrawl cfg (v4_moves m ∷ is) s w h a b =
    let (d, l, v, done, shared, grows, own) =
      move-IsCrawl cfg w s.shared s.v4_loop.place s.v4_loop.sent m h b in
    let (t, u, ran, x, y) =
      run-IsCrawl cfg is (record s { shared = d; v4_loop = l }) v shared
        (IsCrawl-grown w v s.v5_loop grows a) own in
    (t, u, rw (done, discover_peers) ran, x, y)
run-IsCrawl cfg (connected id ∷ is) s w h a b =
    let grows : Grows w (write_connected w id) = λ q k. has_peer-write_connected w id q ∙ k in
    run-IsCrawl cfg is (record s { shared = notify s.shared id }) (write_connected w id)
      (notify-IsShared w s.shared id h) (IsCrawl-grown w (write_connected w id) s.v5_loop grows a)
      (IsCrawl-grown w (write_connected w id) s.v4_loop grows b)

abbrev pub fresh_loop : Loop
fresh_loop = record { place = between; sent = [] }

-- With a crawl file, and from the start of the loops over discv5 and discv4, neither loop ever routes a
-- peer a second time nor panics, whatever nodes the two find, however their steps interleave, and
-- whichever peers connect meanwhile. The two loops may each route the same peer once.
pub crawl_routes_once :
    (cfg : Config) (is : List Input) (d : Discovery) (w : CrawlFileWriter)
    → IsSorted d.router
    → d.crawl_writer ≡ some w
    → (t : Loops) × (discover_peers cfg is
          (record { shared = d; v5_loop = fresh_loop; v4_loop = fresh_loop })
        ≡ some t)
      × AllDiffer (sent_ids t.v5_loop)
      × AllDiffer (sent_ids t.v4_loop)
crawl_routes_once cfg is d w sorted e =
    let begin : IsCrawl w fresh_loop = record { known = tt; differ = tt; fresh = tt } in
    let (t, v, ran, a, b) =
      run-IsCrawl cfg is (record { shared = d; v5_loop = fresh_loop; v4_loop = fresh_loop }) w
        (record { sorted = sorted; open_file = e }) begin begin in
    (t, ran, a.differ, b.differ)
