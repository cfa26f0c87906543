-- ===== src/Discovery/Start/Tests.antt =====
-- Runs of `StartDiscovery`, and its theorems at a concrete configuration.
use beaconprobe.Base.{
  ℕ, ◌≡◌, refl, true, false, none, some, List, [], ◌∷◌, ◌++◌, ℕ_discrete, String_discrete, nat_key,
  string_key, ◌==◌, if◌then◌else◌, take,
}
use beaconprobe.Base.Setup.{exited, running, ◌>>=◌, ◌>>◌, or_exit, check}
use beaconprobe.Discovery.Start.{
  Settings, Libraries, v4, v5, Call, set_entry, udp, listen, notify, discover, no_v4, boot_nodes,
  say, open_crawl, scan_v4, crawl, start_discovery,
}
use beaconprobe.Discovery.Start.Loops.{Leaves, start_discovery-Leaves}

-- Two bootnodes are known, one of them with an address that cannot be parsed.
abbrev libs : Libraries ℕ
libs = record {
  open_db = true;
  far_future_epoch = 18446744073709551615;
  marshal_ssz = λ digest version epoch. some (digest ++ version);
  att_subnet_key = "attnets";
  bootstrap_nodes = "bad" ∷ "good" ∷ [];
  parse = λ addr. if addr == "good" then some 7 else none;
  listen_udp = λ port. true;
  listen_v5 = λ nodes. true;
  listen_v4 = λ nodes. true;
  open_file = λ path. true;
}

abbrev settings : Settings
settings = record {
  disc_port = 9100;
  disc_v4_port = 9200;
  fork_digest = 1 ∷ 2 ∷ 3 ∷ 4 ∷ [];
  attnets_bytes = 255 ∷ [];
  active_crawl = true;
  crawl_file = "peers.txt";
}

abbrev started : List (Call ℕ)
started =
    set_entry "eth2" (1 ∷ 2 ∷ 3 ∷ 4 ∷ 1 ∷ 2 ∷ 3 ∷ 4 ∷ [])
    ∷ set_entry "attnets" (255 ∷ [])
    ∷ udp 9100
    ∷ listen v5 (7 ∷ [])
    ∷ notify
    ∷ discover v5
    ∷ udp 9200
    ∷ listen v4 (7 ∷ [])
    ∷ discover v4
    ∷ []

start_run : start_discovery libs settings [] ≡ running started tt
unfolding start_discovery ◌>>◌ check ◌>>=◌ or_exit say crawl open_crawl String_discrete scan_v4
    ℕ_discrete boot_nodes
start_run = refl

-- The first crawl runs on when the discv4 listener fails.
v4_fails :
    start_discovery (record libs { listen_v4 = λ nodes. false }) settings []
    ≡ exited (take 7 started) no_v4
unfolding start_discovery ◌>>◌ check ◌>>=◌ or_exit say crawl open_crawl String_discrete scan_v4
    ℕ_discrete boot_nodes
v4_fails = refl

start_discovery-Leaves_example : Leaves settings started
start_discovery-Leaves_example = start_discovery-Leaves libs settings started start_run
