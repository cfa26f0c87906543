-- ===== src/Main/Probe.antt =====
-- `runProbe` of main.go. What the libraries answer is a record of answers for the i-th instance; the
-- state is the file system of the keys and the calls made so far.
use beaconprobe.Base.{
  ℕ, suc, String, Bool, ◌&&◌, Option, none, some, List, [], ◌∷◌, ◌++◌, map, insert, GoMap, nat_key,
  string_key, ◌==◌, if◌then◌else◌,
}
use Prim.Native.String
use beaconprobe.Base.Int.{ℤ}
use beaconprobe.Config.{Error, InstanceConfig, Config, tcp_port, quic_port, disc_v5_port, key_file}
use beaconprobe.Node.PeerSet.{new_shared_peer_set}
use beaconprobe.Node.Gater.{SiblingGater, new_sibling_gater}
use beaconprobe.Node.PeerFinder.{Host, PeerFinder, new_peer_finder}
use beaconprobe.Node.PeerManager.{PeerManager, new_peer_manager}
use beaconprobe.Node.Host.{Disk, Codec, key, load_or_generate_key, Listen, listen_addrs}
use beaconprobe.Base.Setup.{exited, running, Setup, pure, ◌>>=◌, ◌>>◌, or_exit, check}

-- What the libraries answer when the i-th instance is set up.
pub record Answers (K : Type 0) : Type 0 where
  pub generated : ℕ → Option K
  pub peer_id : K → Option String
  pub new_host : ℕ → K → Option SiblingGater → Option Host
  pub new_gossip_sub : ℕ → Bool
  pub subscribe_subnets : ℕ → Bool
  pub open_log : ℕ → Bool
  pub subscribe_blocks : ℕ → Bool
  pub start_discovery : ℕ → Bool

-- The fields of discovery's `Config` that depend on the mode and the instance, but the private key.
pub record DiscoveryConfig : Type 0 where
  pub disc_port : ℕ
  pub disc_v4_port : ℕ
  pub quic_only : Bool
  pub active_crawl : Bool
  pub crawl_file : String

-- The calls that leave a trace outside, in order; the name is that of the instance. The server of the
-- metrics has its address, and the port that net/http makes of it.
pub data Call : Type 0 where
  new_host : String → List Listen → Call
  register_handlers send_status_on_connect track_user_agents run_peer_manager : String → Call
  report_connectivity handle_inbound_peers subscribe_subnets : String → Call
  new_gossip_sub : String → ℤ → String → Call
  open_log : String → String → Call
  subscribe_blocks listen_for_blocks listen_for_attestations : String → Call
  start_discovery : String → DiscoveryConfig → Call
  route_bootstrap_peers : String → Call
  serve_metrics : String → ℕ → Call

-- Why the program exits; `panicked` is an index out of range, or a peer set without instances.
pub data Exit : Type 0 where
  panicked config_required bad_log_level : Exit
  config_failed : Error → Exit
  key_failed peer_id_failed host_failed gossip_failed subnets_failed : String → Exit
  log_failed blocks_failed discovery_failed : String → Exit

pub record World (S : Type 0) : Type 0 where
  pub files : S
  pub calls : List Call

pub record Hosts : Type 0 where
  pub hosts : GoMap String Host
  pub gaters : GoMap String SiblingGater

pub record Services : Type 0 where
  pub managers : List PeerManager
  pub log_files : List String

-- What `runProbe` leaves running.
pub record Probe : Type 0 where
  pub peer_finder : PeerFinder
  pub hosts : Hosts
  pub services : Services
  pub discoveries : List DiscoveryConfig

-- The peer IDs but the i-th, the next of which is the j-th.
unfoldable pub sibling_ids : ℕ → ℕ → List String → List String
sibling_ids i j [] = []
sibling_ids i j (id ∷ ids) =
    let rest = sibling_ids i (suc j) ids in if j == i then rest else id ∷ rest

abbrev pub names_of : List InstanceConfig → List String
names_of = map (λ inst. inst.name)

unfoldable pub gossip_log_file : InstanceConfig → String
gossip_log_file inst =
    if inst.gossip_sub_log_file == ""
    then String.◌++◌ inst.log_file ".gossipsub"
    else inst.gossip_sub_log_file

module _ {S : Type 0} where
  unfoldable pub call : Call → Setup (World S) Exit (Unit {0})
  call k w = running (record w { calls = w.calls ++ k ∷ [] }) tt

module _ {S K : Type 0} (disk : Disk S) (codec : Codec K) (join : String → String → String)
    (a : Answers K) (c : Config) where
  -- `LoadOrGenerateKey` for the key file of the i-th instance.
  unfoldable pub open_key : ℕ → Exit → Setup (World S) Exit K
  open_key i e w = elim (key_file join c i) [
    | none ↦ exited w panicked
    | some file ↦
        let (files, outcome) = load_or_generate_key disk codec (a.generated i) file w.files in
        elim outcome [
          | key k ↦ running (record w { files = files }) k
          | _ ↦ exited (record w { files = files }) e
        ]
  ]

  -- One round of the loop that loads the keys and derives the peer IDs.
  unfoldable pub load_key : ℕ → InstanceConfig → Setup (World S) Exit (K × String)
  load_key i inst = do
    k ← open_key i (key_failed inst.name)
    id ← or_exit (a.peer_id k) (peer_id_failed inst.name)
    pure (k, id)

  unfoldable pub load_keys : ℕ → List InstanceConfig → Setup (World S) Exit (List (K × String))
  load_keys i [] = pure []
  load_keys i (inst ∷ insts) = do k ← load_key i inst; ks ← load_keys (suc i) insts; pure (k ∷ ks)

  -- The loop that makes the hosts, each with its key and its gater.
  unfoldable pub create_hosts :
      List String → ℕ → List InstanceConfig → List K → Hosts → Setup (World S) Exit Hosts
  create_hosts ids i [] ks hs = pure hs
  create_hosts ids i (inst ∷ insts) [] hs = or_exit none panicked
  create_hosts ids i (inst ∷ insts) (k ∷ ks) hs = do
    let gater = new_sibling_gater inst.name (sibling_ids i 0 ids)
    call (new_host inst.name (listen_addrs (tcp_port c i) (quic_port c i) inst.quic_only))
    h ← or_exit (a.new_host i k (some gater)) (host_failed inst.name)
    create_hosts ids (suc i) insts ks
        (record { hosts = insert inst.name h hs.hosts; gaters = insert inst.name gater hs.gaters })

  -- Only the first instance listens for blocks.
  unfoldable pub set_up_blocks : ℕ → InstanceConfig → Setup (World S) Exit (Unit {0})
  set_up_blocks i inst =
      if i == 0 && c.listen_blocks
      then (do
        call (subscribe_blocks inst.name)
        check (a.subscribe_blocks i) (blocks_failed inst.name)
        call (listen_for_blocks inst.name))
      else pure tt

  -- The services of one instance.
  unfoldable pub set_up : ℕ → InstanceConfig → Setup (World S) Exit (Unit {0})
  set_up i inst = do
    call (register_handlers inst.name)
    call (send_status_on_connect inst.name)
    call (track_user_agents inst.name)
    call (run_peer_manager inst.name)
    call (report_connectivity inst.name)
    call (handle_inbound_peers inst.name)
    call (new_gossip_sub inst.name inst.gossip_d (gossip_log_file inst))
    check (a.new_gossip_sub i) (gossip_failed inst.name)
    call (subscribe_subnets inst.name)
    check (a.subscribe_subnets i) (subnets_failed inst.name)
    call (open_log inst.name inst.log_file)
    check (a.open_log i) (log_failed inst.name)
    set_up_blocks i inst
    call (listen_for_attestations inst.name)

  unfoldable pub set_up_all : ℕ → List InstanceConfig → Services → Setup (World S) Exit Services
  set_up_all i [] sv = pure sv
  set_up_all i (inst ∷ insts) sv = do
    set_up i inst
    set_up_all (suc i) insts (record {
      managers = sv.managers ++ new_peer_manager inst.max_peers inst.name ∷ [];
      log_files = sv.log_files ++ inst.log_file ∷ [];
    })

  unfoldable pub discovery_config : ℕ → InstanceConfig → DiscoveryConfig
  discovery_config i inst = record {
    disc_port = disc_v5_port c i;
    disc_v4_port = if i == 0 then c.disc_v4_port else 0;
    quic_only = inst.quic_only;
    active_crawl = i == 0;
    crawl_file = "";
  }

  unfoldable pub start_discoveries :
      ℕ → List InstanceConfig → List DiscoveryConfig → Setup (World S) Exit (List DiscoveryConfig)
  start_discoveries i [] ds = pure ds
  start_discoveries i (inst ∷ insts) ds = do
    call (start_discovery inst.name (discovery_config i inst))
    check (a.start_discovery i) (discovery_failed inst.name)
    start_discoveries (suc i) insts (ds ++ discovery_config i inst ∷ [])

  unfoldable pub start_bootstrap : Setup (World S) Exit (Unit {0})
  start_bootstrap =
      if c.bootstrap_file == "" then pure tt else call (route_bootstrap_peers c.bootstrap_file)

  -- `runProbe` from its third step on, with the keys and the peer IDs.
  unfoldable pub start_probe : List (K × String) → Setup (World S) Exit Probe
  start_probe ks = do
    s ← or_exit (new_shared_peer_set (names_of c.instances)) panicked
    hs ←
        create_hosts (map (λ k. k.1) ks) 0 c.instances (map (λ k. k.0) ks)
          (record { hosts = []; gaters = [] })
    let finder = new_peer_finder s hs.hosts
    sv ← set_up_all 0 c.instances (record { managers = []; log_files = [] })
    ds ← start_discoveries 0 c.instances []
    start_bootstrap
    pure (record { peer_finder = finder; hosts = hs; services = sv; discoveries = ds })

  unfoldable pub run_probe : Setup (World S) Exit Probe
  run_probe = do ks ← load_keys 0 c.instances; start_probe ks

-- What the cleanup closes: the hosts, and the log files.
cleanup_probe : Probe → List String × List String
cleanup_probe p = (map (λ h. h.0) p.hosts.hosts, p.services.log_files)
