-- ===== src/Node/Connectivity/Counts.antt =====
-- What node/connectivity.go reports, against the connections of the host.
use beaconprobe.Base.{
  ℕ, suc, ◌+◌, String, ◌≡◌, refl, ap, ◌∙◌, Bool, false, not, ◌&&◌, List, [], ◌∷◌, arith, nat_key,
  string_key, ◌==◌, if◌then◌else◌, length, any,
}
use mathlib.Core.List.{Permᴰ}
use beaconprobe.Node.Connectivity.{
  is_quic_conn, count_peer, count_peers, count_peers_by_transport, report_connectivity,
}

abbrev pub is_up : (String → List String) → String → Bool
is_up conns_to p = not (length (conns_to p) == 0)

abbrev pub has_quic : (String → List String) → String → Bool
has_quic conns_to p = any is_quic_conn (conns_to p)

-- The peers of a list that pass a test.
abbrev pub how_many : (String → Bool) → List String → ℕ
how_many test [] = 0
how_many test (p ∷ ps) = let rest = how_many test ps in if test p then suc rest else rest

none_up : (conns : List String) → length conns ≡ 0 → any is_quic_conn conns ≡ false
none_up [] e = refl
none_up (c ∷ cs) e = absurd (omega arith)

abbrev pub has_tcp_only : (String → List String) → String → Bool
has_tcp_only conns_to p = is_up conns_to p && not (has_quic conns_to p)

count_peers_lem :
    (conns_to : String → List String) (ps : List String) (quic tcp : ℕ)
    → count_peers conns_to ps (quic, tcp)
      ≡ (quic + how_many (has_quic conns_to) ps, tcp + how_many (has_tcp_only conns_to) ps)
unfolding count_peers count_peer
count_peers_lem conns_to [] quic tcp = ground arith
count_peers_lem conns_to (p ∷ ps) quic tcp = ground (
  arith,
  none_up (conns_to p),
  count_peers_lem conns_to ps quic tcp,
  count_peers_lem conns_to ps (quic + 1) tcp,
  count_peers_lem conns_to ps quic (tcp + 1),
)

how_many_split :
    (conns_to : String → List String) (ps : List String)
    → how_many (has_quic conns_to) ps + how_many (has_tcp_only conns_to) ps
      ≡ how_many (is_up conns_to) ps
how_many_split conns_to [] = refl
how_many_split conns_to (p ∷ ps) = ground (arith, none_up (conns_to p), how_many_split conns_to ps)

-- A tick reports as connected exactly the peers that have a connection, as QUIC peers those with a
-- connection over UDP among theirs, and as TCP peers the others; no peer is counted for both.
pub report_counts :
    (conns_to : String → List String) (peers : List String)
    → report_connectivity conns_to peers ≡ (
      how_many (is_up conns_to) peers,
      how_many (has_quic conns_to) peers,
      how_many (has_tcp_only conns_to) peers,
    )
unfolding report_connectivity count_peers_by_transport
report_counts conns_to peers =
    ground (arith, count_peers_lem conns_to peers 0 0, how_many_split conns_to peers)

how_many-Permᴰ :
    (test : String → Bool) {xs ys : List String} → Permᴰ xs ys → how_many test xs ≡ how_many test ys
how_many-Permᴰ test Permᴰ.nil = refl
how_many-Permᴰ test (Permᴰ.cons {a = x} {b = y} e d) =
    ground (arith, how_many-Permᴰ test d, ap test e)
how_many-Permᴰ test (Permᴰ.swap {a = x} {b = y} e f) = ground (arith, ap test e, ap test f)
how_many-Permᴰ test (Permᴰ.trans d e) = how_many-Permᴰ test d ∙ how_many-Permᴰ test e

-- The order in which the host lists its peers, which it leaves open, does not matter.
report_any_order :
    (conns_to : String → List String) (xs ys : List String)
    → Permᴰ xs ys
    → report_connectivity conns_to xs ≡ report_connectivity conns_to ys
report_any_order conns_to xs ys d = ground (
  arith,
  report_counts conns_to xs,
  report_counts conns_to ys,
  how_many-Permᴰ (is_up conns_to) d,
  how_many-Permᴰ (has_quic conns_to) d,
  how_many-Permᴰ (has_tcp_only conns_to) d,
)
