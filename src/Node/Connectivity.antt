-- ===== src/Node/Connectivity.antt =====
-- node/connectivity.go: the peers of a host, counted by transport. The peers and their connections,
-- as the remote addresses, are what the host's network answers.
pub mod Counts
pub mod Tests
use beaconprobe.Base.{
  ℕ, zero, suc, ◌+◌, ◌-◌, ◌*◌, ◌/◌, ◌%◌, ◌^◌, ◌≤◌, ◌<◌, min, max, String, ◌≡◌, refl, sym, ap, ◌∙◌,
  subst, ◌≢◌, ◌↔◌, ◌⊎◌, inl, inr, ite, if_pos, if_neg, Bool, true, false, not, ◌&&◌, ◌||◌, Option,
  none, some, List, [], ◌∷◌, ◌++◌, map, arith, dec_lt, dec_le, ℕ_discrete, String_discrete, lookup,
  insert, delete, lookup-insert, lookup-delete, GoMap, Distinct, delete-Distinct, insert-Distinct,
  delete_absent, length-delete, Bool-cases, Option-cases, Key, nat_key, string_key, ◌==◌, ltb, leb,
  if◌then◌else◌, ltb→lt, lt→ltb, leb→le, le→leb, tests, ==_sound, ==_refl, ==_ne, length, get_elem?,
  take, set, select, any, All, Has, here, there, length-append, length-take, length-select-le,
  get_elem?_total, All_Has, All-map, All-append, get_or, length-set, get_or-set_self, get_or-set_ne,
}
use beaconprobe.Base.Text.{contains}

pub is_quic_conn : String → Bool
is_quic_conn remote_addr = contains remote_addr "/udp/"

-- One round of the loop, with what has been counted: QUIC peers, then TCP peers.
pub count_peer : List String → ℕ × ℕ → ℕ × ℕ
unfolding is_quic_conn
count_peer conns (quic, tcp) =
    if length conns == 0
    then (quic, tcp)
    else if any is_quic_conn conns
    then (quic + 1, tcp)
    else (quic, tcp + 1)

pub count_peers : (String → List String) → List String → ℕ × ℕ → ℕ × ℕ
unfolding count_peer
count_peers conns_to [] counts = counts
count_peers conns_to (p ∷ ps) counts = count_peers conns_to ps (count_peer (conns_to p) counts)

pub count_peers_by_transport : (String → List String) → List String → ℕ × ℕ
unfolding count_peers
count_peers_by_transport conns_to peers = count_peers conns_to peers (0, 0)

-- What one tick sets: the connected peers, the QUIC peers and the TCP peers.
pub report_connectivity : (String → List String) → List String → ℕ × ℕ × ℕ
unfolding count_peers_by_transport
report_connectivity conns_to peers =
    let (quic, tcp) = count_peers_by_transport conns_to peers in (quic + tcp, quic, tcp)
