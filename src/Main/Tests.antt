-- ===== src/Main/Tests.antt =====
-- Runs of main.go's set-up, and its theorems at concrete configurations.
use beaconprobe.Base.{
  ℕ, ◌≤◌, String, ◌≡◌, refl, ◌≢◌, ◌↔◌, true, false, none, some, [], ◌∷◌, arith, ℕ_discrete,
  String_discrete, nat_key, string_key, ◌==◌, if◌then◌else◌, length,
}
use beaconprobe.Config.{Config, key_file, quic_port, disc_v5_port}
use beaconprobe.Config.Tests.{probe_a, loaded, load_run, read_two}
use beaconprobe.Config.Validity.{IsConsistent}
use beaconprobe.Config.Loading.{load_any-IsConsistent}
use beaconprobe.Node.PeerSet.{new_shared_peer_set}
use beaconprobe.Node.Host.{Disk, Codec, not_exist, load_or_generate_key, quic, listen_addrs}
use beaconprobe.Base.Setup.{exited, running, pure, ◌>>=◌, ◌>>◌, or_exit, check}
use beaconprobe.Main.Probe.{
  Answers, Call, Exit, World, Probe, call, open_key, load_key, load_keys, discovery_config,
  start_discoveries, run_probe, sibling_ids, gossip_log_file,
}
use beaconprobe.Main.Crawl.{main, create_host, crawl_config, crawl_with, run_crawl, subnet_ids}
use beaconprobe.Main.Binds.{calls_of, times_bound}
use beaconprobe.Main.Binds.Modes.{main_binds_once}
use beaconprobe.Main.Panics.Modes.{main_no_panic}
use beaconprobe.Main.Wires.Starts.{AllGranted, run_probe_starts}

-- A disk that has no file and forgets what is written.
abbrev no_disk : Disk (Unit {0})
no_disk = record { read_file = λ s file. not_exist; write_file = λ s file bytes. (s, true) }

abbrev codec : Codec ℕ
codec = record {
  to_ecdsa = λ bytes. none;
  from_ecdsa = λ k. k ∷ [];
  hex_encode = λ bytes. bytes;
  hex_decode = some;
}

abbrev join : String → String → String
join dir file = file

-- Everything is granted.
abbrev granting : Answers ℕ
granting = record {
  generated = some;
  peer_id = λ k. some (if k == 0 then "id a" else "id b");
  new_host = λ i k g. some (λ id. false);
  new_gossip_sub = λ i. true;
  subscribe_subnets = λ i. true;
  open_log = λ i. true;
  subscribe_blocks = λ i. true;
  start_discovery = λ i. true;
}

-- The metrics are served at port 8080.
abbrev metrics_at : String → ℕ
metrics_at addr = 8080

abbrev start : World (Unit {0})
start = record { files = tt; calls = [] }

loaded-IsConsistent : IsConsistent loaded
loaded-IsConsistent = load_any-IsConsistent (some "two") read_two loaded load_run

keys_run :
    load_keys no_disk codec join granting loaded 0 loaded.instances start
    ≡ running start ((0, "id a") ∷ (1, "id b") ∷ [])
unfolding load_keys load_key open_key ◌>>=◌ or_exit pure key_file load_or_generate_key
    String_discrete ℕ_discrete
keys_run = refl

main_binds_once_example :
    times_bound 9000 (
      calls_of (
        main no_disk codec join granting "config.yaml"
          (some "two")
          read_two
          (λ level. true)
          metrics_at
          start))
    ≤ 1
main_binds_once_example =
    main_binds_once no_disk codec join granting "config.yaml" (some "two") read_two (λ level. true)
      metrics_at tt 9000 (omega arith) (λ c e h. ground arith)

main_no_panic_example :
    main no_disk codec join granting "config.yaml"
      (some "two")
      read_two
      (λ level. true)
      metrics_at
      start
    ≢ exited start Exit.panicked
main_no_panic_example =
    main_no_panic no_disk codec join granting "config.yaml" (some "two") read_two (λ level. true)
      metrics_at start start

run_probe_starts_example :
    ((w' : World (Unit {0})) × (p : Probe) × (run_probe no_disk codec join granting loaded start
        ≡ running w' p))
    ↔ AllGranted no_disk codec join granting loaded tt
run_probe_starts_example =
    run_probe_starts no_disk codec join granting loaded start loaded-IsConsistent

-- The discovery of the second instance fails: the program exits after it has bound its ports.
abbrev refusing : Answers ℕ
refusing = record granting { start_discovery = λ i. i == 0 }

refused_run :
    calls_of (start_discoveries no_disk codec join refusing loaded 0 loaded.instances [] start)
    ≡ Call.start_discovery "a" (record {
      disc_port = 9100;
      disc_v4_port = 0;
      quic_only = false;
      active_crawl = true;
      crawl_file = "";
    })
      ∷ Call.start_discovery "b" (record {
        disc_port = 9101;
        disc_v4_port = 0;
        quic_only = false;
        active_crawl = false;
        crawl_file = "";
      })
      ∷ []
unfolding start_discoveries discovery_config ◌>>◌ call check pure disc_v5_port ℕ_discrete
refused_run = refl

abbrev crawl_only : Config
crawl_only = record loaded {
  mode = "crawl";
  crawl_file = "peers.txt";
  base_disc_v5_port = 9100;
  disc_v4_port = 9200;
  instances = record probe_a { quic_only = true } ∷ [];
}

crawl_run :
    calls_of (run_crawl no_disk codec join granting crawl_only start)
    ≡ Call.new_host "a" (quic 9001 ∷ [])
      ∷ Call.track_user_agents "a"
      ∷ Call.register_handlers "a"
      ∷ Call.send_status_on_connect "a"
      ∷ Call.run_peer_manager "a"
      ∷ Call.report_connectivity "a"
      ∷ Call.start_discovery "a" (record {
        disc_port = 9100;
        disc_v4_port = 9200;
        quic_only = true;
        active_crawl = true;
        crawl_file = "peers.txt";
      })
      ∷ []
unfolding run_crawl ◌>>=◌ or_exit crawl_with create_host open_key key_file load_or_generate_key
    String_discrete ◌>>◌ call new_shared_peer_set check pure listen_addrs crawl_config quic_port
    disc_v5_port
crawl_run = refl

-- The second of three instances has the other two for its siblings.
sibling_ids_run : sibling_ids 1 0 ("x" ∷ "y" ∷ "z" ∷ []) ≡ "x" ∷ "z" ∷ []
unfolding sibling_ids ℕ_discrete
sibling_ids_run = refl

gossip_log_file_run : gossip_log_file probe_a ≡ "a.log.gossipsub"
unfolding gossip_log_file String_discrete
gossip_log_file_run = refl

-- A probe takes the subnets of the file, a crawl all of them.
subnets_run :
    (subnet_ids (record loaded { subnets = 5 ∷ [] }) ≡ 5 ∷ [])
    × (length (subnet_ids crawl_only) ≡ 64)
unfolding subnet_ids String_discrete
subnets_run = (refl, refl)
