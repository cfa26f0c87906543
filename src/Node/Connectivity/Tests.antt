-- ===== src/Node/Connectivity/Tests.antt =====
-- A host with peers over both transports.
use beaconprobe.Base.{
  String, ◌≡◌, refl, List, [], ◌∷◌, ℕ_discrete, String_discrete, nat_key, string_key, ◌==◌,
  if◌then◌else◌,
}
use beaconprobe.Node.Connectivity.{
  is_quic_conn, count_peer, count_peers, count_peers_by_transport, report_connectivity,
}
use beaconprobe.Node.Connectivity.Counts.{is_up, has_quic, has_tcp_only, how_many, report_counts}

-- The peer q has gone since the host listed it.
conns_to : String → List String
conns_to p =
    if p == "p"
    then "/ip4/1.2.3.4/tcp/9000" ∷ "/ip4/1.2.3.4/udp/9001/quic-v1" ∷ []
    else if p == "q"
    then []
    else "/ip4/5.6.7.8/tcp/9000" ∷ []

report_run : report_connectivity conns_to ("p" ∷ "q" ∷ "r" ∷ []) ≡ (2, 1, 1)
unfolding report_connectivity count_peers_by_transport count_peers count_peer is_quic_conn conns_to
    String_discrete ℕ_discrete
report_run = refl

report_counts_example : report_connectivity conns_to ("p" ∷ "q" ∷ "r" ∷ []) ≡ (
  how_many (is_up conns_to) ("p" ∷ "q" ∷ "r" ∷ []),
  how_many (has_quic conns_to) ("p" ∷ "q" ∷ "r" ∷ []),
  how_many (has_tcp_only conns_to) ("p" ∷ "q" ∷ "r" ∷ []),
)
report_counts_example = report_counts conns_to ("p" ∷ "q" ∷ "r" ∷ [])
