-- ===== src/Config/Tests.antt =====
-- A configuration for two probes and its theorems at it; a configuration with a port collision.
use beaconprobe.Base.{
  String, ◌≡◌, refl, ◌↔◌, false, Option, none, some, [], ◌∷◌, ℕ_discrete, String_discrete, lookup,
  insert, nat_key, string_key, ◌==◌, if◌then◌else◌,
}
use beaconprobe.Base.Int.{pos}
use beaconprobe.Config.{
  InstanceConfig, Config, port_collision, duplicate_name, ok, err, tcp_port, quic_port,
  disc_v5_port, check_names, check_crawl, check_probe_instances, check_base_ports, add_port,
  add_instance_ports, check_ports, validate, key_file, defaults, with_max_peers, load,
}
use beaconprobe.Config.Validity.{IsConsistent, validate-IsConsistent}
use beaconprobe.Config.Loading.{IsLoaded, load-IsConsistent}

abbrev pub probe_a : InstanceConfig
probe_a = record {
  name = "a";
  gossip_d = pos 8;
  log_file = "a.log";
  gossip_sub_log_file = "";
  disable_ihave = false;
  max_peers = pos 0;
  quic_only = false;
}

abbrev probe_b : InstanceConfig
probe_b = record probe_a { name = "b"; log_file = "b.log"; max_peers = pos 5 }

abbrev two_probes : Config
two_probes = record defaults {
  base_tcp_port = 9000;
  base_quic_port = 9001;
  base_disc_v5_port = 9100;
  instances = probe_a ∷ probe_b ∷ [];
}

-- The TCP port of the second instance is the discovery port.
ports_collide :
    validate (record two_probes { disc_v4_port = 9002 })
    ≡ err (port_collision 9002 "b/tcp" "discv4")
unfolding validate check_names check_crawl check_probe_instances check_base_ports check_ports
    add_instance_ports add_port tcp_port quic_port disc_v5_port lookup insert String_discrete
    ℕ_discrete
ports_collide = refl

names_collide :
    validate (record two_probes { instances = probe_a ∷ probe_a ∷ [] }) ≡ err (duplicate_name "a")
unfolding validate check_names check_crawl check_probe_instances check_base_ports check_ports
    add_instance_ports add_port tcp_port quic_port disc_v5_port lookup insert String_discrete
    ℕ_discrete
names_collide = refl

validate-IsConsistent_example : (validate two_probes ≡ ok tt) ↔ IsConsistent two_probes
validate-IsConsistent_example = validate-IsConsistent two_probes

-- A decoder that knows one file.
pub read_two : String → Config → Option Config
read_two text c = if text == "two" then some two_probes else none

abbrev pub loaded : Config
loaded = record two_probes { instances = record probe_a { max_peers = pos 80 } ∷ probe_b ∷ [] }

pub load_run : load (some "two") read_two ≡ ok loaded
unfolding read_two load with_max_peers validate check_names check_crawl check_probe_instances
    check_base_ports check_ports add_instance_ports add_port tcp_port quic_port disc_v5_port lookup
    insert String_discrete ℕ_discrete
load_run = refl

load-IsConsistent_example :
    (read : Config) × (read_two "two" defaults ≡ some read) × IsLoaded read loaded
load-IsConsistent_example = load-IsConsistent "two" read_two loaded load_run

key_file_run : key_file (λ a b. b) two_probes 1 ≡ some "b.key"
unfolding key_file
key_file_run = refl
