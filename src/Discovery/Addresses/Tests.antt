-- ===== src/Discovery/Addresses/Tests.antt =====
-- Runs of `enodeToAddrInfo`, and its theorem at a concrete record.
use beaconprobe.Base.{
  ℕ, String, ◌≡◌, refl, true, none, some, [], ◌∷◌, ℕ_discrete, nat_key, string_key, ◌==◌,
  if◌then◌else◌,
}
use beaconprobe.Discovery.Addresses.{
  Record, Parsers, ok, ip_type, quic_text, tcp_text, with_addr, peer_id_of, addrs_at,
  retrieve_multi_addrs, enode_to_addr_info,
}

-- The addresses of one peer, whose texts are kept as they are.
abbrev parsers : Parsers ℕ ℕ String
parsers = record {
  decimal = λ n. if n == 9000 then "9000" else "9001";
  convert_pubkey = some;
  id_from_public_key = λ k. some "id";
  new_multiaddr = some;
  infos_from_p2p_addrs = λ ms. some (record { id = "id"; addrs = ms } ∷ []);
}

abbrev both : Record ℕ
both = record {
  pubkey = some 5;
  ip = some (record { text = "10.0.0.1"; is_v4 = true; is_v6 = true });
  quic_port = some 9001;
  tcp_port = 9000;
}

-- QUIC comes before TCP.
both_run :
    enode_to_addr_info parsers both
    ≡ ok (
        some (record {
          id = "id";
          addrs = "/ip4/10.0.0.1/udp/9001/quic-v1/p2p/id" ∷ "/ip4/10.0.0.1/tcp/9000/p2p/id" ∷ [];
        }))
unfolding enode_to_addr_info retrieve_multi_addrs peer_id_of addrs_at with_addr ℕ_discrete quic_text
    tcp_text ip_type
both_run = refl

-- Without a port there is no peer, and no error.
no_ports : enode_to_addr_info parsers (record both { quic_port = none; tcp_port = 0 }) ≡ ok none
unfolding enode_to_addr_info retrieve_multi_addrs peer_id_of addrs_at with_addr ℕ_discrete
no_ports = refl
