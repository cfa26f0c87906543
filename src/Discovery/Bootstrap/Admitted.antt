-- ===== src/Discovery/Bootstrap/Admitted.antt =====
-- What `RouteBootstrapPeers` of discovery/discovery.go routes.
use beaconprobe.Base.{
  ℕ, suc, String, ◌≡◌, refl, ◌⊎◌, inl, inr, true, false, Option, some, List, [], ◌∷◌, ◌++◌, arith,
  GoMap, Bool-cases, Option-cases, nat_key, string_key, All, Has, here, there, All_Has, All-map,
  All-append,
}
use mathlib.Core.List.{Permᴰ}
use beaconprobe.Node.PeerFinder.{
  AddrInfo, PeerFinder, Host, IsSorted, is_connected_to_any, add_peer_stores,
}
use beaconprobe.Node.PeerFinder.Pulls.{Shuffles, All-Permᴰ}
use beaconprobe.Rpc.Attnets.{has_subnet_overlap}
use beaconprobe.Discovery.Filters.{Node, matches_fork_digest, has_quic_addr}
use beaconprobe.Discovery.Bootstrap.{
  Bootstrap, refresh, admissible, candidate, line_step, route_lines, lines_at, node_strings,
  route_bootstrap_peers,
}

-- The node of the text, with its fresh record if there is one, has the peer and passes the filters.
abbrev Gives : Bootstrap → String → AddrInfo → Type 0
Gives b text ai =
    (old : Node) × (b.parse text ≡ some old)
    × ((refresh b old).addr_info ≡ some ai)
    × (matches_fork_digest b.unmarshal (refresh b old).eth2 b.fork_digest ≡ true)
    × (has_subnet_overlap (refresh b old).attnets b.subnet_ids ≡ true)
    × ((b.quic_only ≡ false) ⊎ (has_quic_addr ai ≡ true))

-- One of the texts gives the peer.
abbrev pub IsAdmissible : Bootstrap → List String → AddrInfo → Type 0
IsAdmissible b texts ai = (text : String) × Has text texts × Gives b text ai

admissible-Gives :
    (b : Bootstrap) (text : String) (old : Node) (ai : AddrInfo)
    → b.parse text ≡ some old
    → admissible b (refresh b old) ≡ some ai
    → Gives b text ai
unfolding admissible
admissible-Gives b text old ai e h =
    (old, e, ground arith, ground arith, ground arith, ground arith)

candidate-Gives :
    (b : Bootstrap) (text : String) (ai : AddrInfo) → candidate b text ≡ some ai → Gives b text ai
unfolding candidate
candidate-Gives b text ai h = elim (Option-cases (b.parse text)) [
  | inl e ↦ absurd (ground arith)
  | inr (old, e) ↦ admissible-Gives b text old ai e (ground arith)
]

line_step_total :
    (b : Bootstrap) (f : PeerFinder) (text : String) (hosts : GoMap String Host)
    → IsSorted f
    → (g : PeerFinder) × (sent : List AddrInfo) × (line_step b f text hosts ≡ some (g, sent))
      × IsSorted g
      × All (Gives b text) sent
unfolding line_step
line_step_total b f text hosts w =
    let here = record f { hosts = hosts } in
    let w' : IsSorted here = record {
      set_valid = w.set_valid;
      sorted = w.sorted;
      no_double = w.no_double;
    } in
    elim (Option-cases (candidate b text)) [
      | inl e ↦ (here, [], ground arith, w', tt)
      | inr (ai, e) ↦ elim (Bool-cases (is_connected_to_any here ai.id)) [
        | inl con ↦ (here, [], ground arith, w', tt)
        | inr apart ↦
            let (g, _, done, sorted, _, _) = add_peer_stores here ai "" w' in
            (g, ai ∷ [], ground arith, sorted, (candidate-Gives b text ai e, tt))
      ]
    ]

first-Gives :
    (b : Bootstrap) (text : String) (texts : List String) (ai : AddrInfo)
    → Gives b text ai
    → IsAdmissible b (text ∷ texts) ai
first-Gives b text texts ai g = (text, here, g)

later-Gives :
    (b : Bootstrap) (text : String) (texts : List String) (ai : AddrInfo)
    → IsAdmissible b texts ai
    → IsAdmissible b (text ∷ texts) ai
later-Gives b text texts ai (found, at, g) = (found, there at, g)

lines_total :
    (b : Bootstrap) (moments : ℕ → Option (GoMap String Host)) (i : ℕ) (texts : List String)
    (f : PeerFinder)
    → IsSorted f
    → (g : PeerFinder) × (sent : List AddrInfo) × (route_lines b (lines_at moments i texts) f
        ≡ some (g, sent))
      × IsSorted g
      × All (IsAdmissible b texts) sent
unfolding route_lines lines_at
lines_total b moments i [] f w = (f, [], refl, w, tt)
lines_total b moments i (text ∷ texts) f w = elim (Option-cases (moments i)) [
  | inl stopped ↦ (f, [], rw stopped refl, w, tt)
  | inr (hosts, on) ↦
      let (g, sent, done, sorted, good) = line_step_total b f text hosts w in
      let (h, rest, ran, kept, others) = lines_total b moments (suc i) texts g sorted in
      (
        h,
        sent ++ rest,
        rw (on, done, route_lines) (rw ran),
        kept,
        All-append (IsAdmissible b (text ∷ texts)) sent rest
            (All-map (Gives b text) (IsAdmissible b (text ∷ texts)) sent (first-Gives b text texts)
              good)
            (All-map (IsAdmissible b texts) (IsAdmissible b (text ∷ texts)) rest
              (later-Gives b text texts) others),
      )
]

All-here : (xs : List String) → All (λ x. Has x xs) xs
All-here [] = tt
All-here (x ∷ xs) =
    (here, All-map (λ y. Has y xs) (λ y. Has y (x ∷ xs)) xs (λ y h. there h) (All-here xs))

Has-Permᴰ : (xs ys : List String) (x : String) → Permᴰ xs ys → Has x xs → Has x ys
Has-Permᴰ xs ys x d h = All_Has (λ y. Has y ys) (All-Permᴰ (λ y. Has y ys) d (All-here ys)) h

-- With any shuffle that permutes, from a router that has its peers sorted: reading the bootstrap file
-- never panics and keeps the peers sorted. Every peer that it routes is the peer of a line of the
-- file, or of the fresh record of its node, and that node is of the fork, on one of the subnets, and
-- has a QUIC address where one is asked for.
pub bootstrap_total :
    (trim : String → String) (shuffle : List String → List String) (b : Bootstrap)
    (moments : ℕ → Option (GoMap String Host)) (texts : List String) (f : PeerFinder)
    → Shuffles shuffle
    → IsSorted f
    → (g : PeerFinder) × (sent : List AddrInfo) × (route_bootstrap_peers trim shuffle b moments
          (some texts)
          f
        ≡ some (g, sent))
      × IsSorted g
      × All (IsAdmissible b (node_strings trim texts)) sent
unfolding route_bootstrap_peers
bootstrap_total trim shuffle b moments texts f p w =
    let ordered = shuffle (node_strings trim texts) in
    let (g, sent, ran, sorted, good) = lines_total b moments 0 ordered f w in
    (
      g,
      sent,
      ran,
      sorted,
      All-map (IsAdmissible b ordered) (IsAdmissible b (node_strings trim texts)) sent
          (λ ai (text, at, gives). (
            text,
            Has-Permᴰ ordered (node_strings trim texts) text (p (node_strings trim texts)) at,
            gives,
          ))
          good,
    )
