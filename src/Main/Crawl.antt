-- ===== src/Main/Crawl.antt =====
-- `runCrawl` of main.go, and `main` up to its wait for a signal.
use beaconprobe.Base.{
  none, ℕ, zero, suc, String, Bool, true, not, Option, List, [], ◌∷◌, nat_key, string_key, ◌==◌,
  if◌then◌else◌, get_elem?,
}
use beaconprobe.Base.Int.{pos}
use beaconprobe.Config.{
  Result, ok, err, InstanceConfig, Config, tcp_port, quic_port, disc_v5_port, load,
}
use beaconprobe.Node.PeerSet.{new_shared_peer_set}
use beaconprobe.Node.PeerFinder.{Host, PeerFinder, new_peer_finder}
use beaconprobe.Node.PeerManager.{PeerManager, new_peer_manager}
use beaconprobe.Node.Host.{Disk, Codec, listen_addrs}
use beaconprobe.Base.Setup.{exited, running, Setup, pure, ◌>>=◌, ◌>>◌, or_exit, check}
use beaconprobe.Main.Probe.{
  Answers, DiscoveryConfig, Call, Exit, World, Probe, call, open_key, run_probe,
}

-- What `runCrawl` leaves running.
pub record Crawl : Type 0 where
  pub host : Host
  pub peer_finder : PeerFinder
  pub manager : PeerManager
  pub discovery : DiscoveryConfig

-- What `main` waits with.
pub data Started : Type 0 where
  crawling : Crawl → Started
  probing : Probe → Started

-- 0, 1, and so on, n numbers from i on.
numbers_from : ℕ → ℕ → List ℕ
numbers_from i zero = []
numbers_from i (suc n) = i ∷ numbers_from (suc i) n

-- The subnets that the program asks for: in crawl mode all 64.
unfoldable pub subnet_ids : Config → List ℕ
unfolding numbers_from
subnet_ids c = if c.mode == "crawl" then numbers_from 0 64 else c.subnets

module _ {S K : Type 0} (disk : Disk S) (codec : Codec K) (join : String → String → String)
    (a : Answers K) where
  -- `NewHost`, which loads the key first and makes a host without a gater.
  unfoldable pub create_host : Config → InstanceConfig → Setup (World S) Exit Host
  create_host c inst = do
    k ← open_key disk codec join a c 0 (Exit.host_failed inst.name)
    call (Call.new_host inst.name (listen_addrs (tcp_port c 0) (quic_port c 0) inst.quic_only))
    or_exit (a.new_host 0 k none) (Exit.host_failed inst.name)

  unfoldable pub crawl_config : Config → InstanceConfig → DiscoveryConfig
  crawl_config c inst = record {
    disc_port = disc_v5_port c 0;
    disc_v4_port = c.disc_v4_port;
    quic_only = inst.quic_only;
    active_crawl = true;
    crawl_file = c.crawl_file;
  }

  -- What the first instance runs, once it is there.
  unfoldable pub crawl_with : Config → InstanceConfig → Setup (World S) Exit Crawl
  crawl_with c inst = do
    h ← create_host c inst
    call (Call.track_user_agents inst.name)
    call (Call.register_handlers inst.name)
    call (Call.send_status_on_connect inst.name)
    s ← or_exit (new_shared_peer_set (inst.name ∷ [])) Exit.panicked
    let finder = new_peer_finder s ((inst.name, h) ∷ [])
    call (Call.run_peer_manager inst.name)
    call (Call.report_connectivity inst.name)
    call (Call.start_discovery inst.name (crawl_config c inst))
    check (a.start_discovery 0) (Exit.discovery_failed inst.name)
    pure (record {
      host = h;
      peer_finder = finder;
      manager = new_peer_manager (pos 0) inst.name;
      discovery = crawl_config c inst;
    })

  unfoldable pub run_crawl : Config → Setup (World S) Exit Crawl
  run_crawl c = do inst ← or_exit (get_elem? c.instances 0) Exit.panicked; crawl_with c inst

  -- The configuration, or the exit with the error.
  unfoldable pub load_or_exit : Result Config → Setup (World S) Exit Config
  load_or_exit (err e) w = exited w (Exit.config_failed e)
  load_or_exit (ok c) w = running w c

  -- The mode decides what runs.
  unfoldable pub run_mode : Config → Setup (World S) Exit Started
  run_mode c =
      if c.mode == "crawl"
      then (do r ← run_crawl c; pure (crawling r))
      else (do r ← run_probe disk codec join a c; pure (probing r))

  -- `main` up to its wait: the path of the configuration is `--config`, its text what os.ReadFile
  -- answers, `is_level` says whether slog knows a log level, and `addr_port` which port net/http makes of the
  -- address of the metrics.
  unfoldable pub main :
      {Bytes : Type 0}
      → String
      → Option Bytes
      → (Bytes → Config → Option Config)
      → (String → Bool)
      → (String → ℕ)
      → Setup (World S) Exit Started
  main path text unmarshal is_level addr_port = do
    check (not (path == "")) Exit.config_required
    c ← load_or_exit (load text unmarshal)
    check (is_level c.log_level) Exit.bad_log_level
    call (Call.serve_metrics c.metrics_addr (addr_port c.metrics_addr))
    run_mode c
