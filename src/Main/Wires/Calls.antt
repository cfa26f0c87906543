-- ===== src/Main/Wires/Calls.antt =====
-- Which calls `runProbe` of main.go has made when it does not exit.
use beaconprobe.Base.{
  ℕ, suc, String, ap, Bool, true, false, ◌&&◌, List, [], ◌∷◌, ◌++◌, map, nat_key, string_key, ◌==◌,
  if◌then◌else◌,
}
use mathlib.Core.List.{append_assoc, append-nil}
use beaconprobe.Config.{InstanceConfig, Config, tcp_port, quic_port}
use beaconprobe.Node.PeerSet.{new_shared_peer_set}
use beaconprobe.Node.Host.{Disk, Codec, listen_addrs}
use beaconprobe.Base.Setup.{pure, ◌>>◌, check}
use beaconprobe.Main.Probe.{
  Answers, DiscoveryConfig, Call, Exit, Hosts, Services, call, names_of, gossip_log_file,
  create_hosts, set_up_blocks, set_up, set_up_all, discovery_config, start_discoveries,
  start_bootstrap, start_probe,
}
use beaconprobe.Main.Wires.Emits.{
  Emits, Emits-bind, Emits-next, Emits-pure, Emits-call, Emits-or_exit, Emits-none, Emits-cast,
  said, granted,
}

module _ {S K : Type 0} (disk : Disk S) (codec : Codec K) (join : String → String → String)
    (a : Answers K) (c : Config) where
  -- One host for each instance, on its ports.
  pub host_calls : ℕ → List InstanceConfig → List Call
  host_calls i [] = []
  host_calls i (inst ∷ insts) =
      Call.new_host inst.name (listen_addrs (tcp_port c i) (quic_port c i) inst.quic_only)
      ∷ host_calls (suc i) insts

  pub block_calls : ℕ → String → List Call
  block_calls i name =
      if i == 0 && c.listen_blocks
      then Call.subscribe_blocks name ∷ Call.listen_for_blocks name ∷ []
      else []

  -- What each instance is served with: the first one has the blocks too.
  pub service_calls : ℕ → List InstanceConfig → List Call
  service_calls i [] = []
  service_calls i (inst ∷ insts) =
      Call.register_handlers inst.name
        ∷ Call.send_status_on_connect inst.name
        ∷ Call.track_user_agents inst.name
        ∷ Call.run_peer_manager inst.name
        ∷ Call.report_connectivity inst.name
        ∷ Call.handle_inbound_peers inst.name
        ∷ Call.new_gossip_sub inst.name inst.gossip_d (gossip_log_file inst)
        ∷ Call.subscribe_subnets inst.name
        ∷ Call.open_log inst.name inst.log_file
        ∷ block_calls i inst.name
      ++ Call.listen_for_attestations inst.name ∷ service_calls (suc i) insts

  pub discovery_calls : ℕ → List InstanceConfig → List Call
  discovery_calls i [] = []
  discovery_calls i (inst ∷ insts) =
      Call.start_discovery inst.name (discovery_config disk codec join a c i inst)
      ∷ discovery_calls (suc i) insts

  pub bootstrap_calls : List Call
  bootstrap_calls =
      if c.bootstrap_file == "" then [] else Call.route_bootstrap_peers c.bootstrap_file ∷ []

  -- First all hosts, then all services, then all discoveries, then the bootstrap file.
  pub probe_calls : List Call
  probe_calls =
      host_calls 0 c.instances
      ++ (service_calls 0 c.instances ++ (discovery_calls 0 c.instances ++ bootstrap_calls))

  Emits-create_hosts :
      (ids : List String) (i : ℕ) (insts : List InstanceConfig) (ks : List K) (hs : Hosts)
      → Emits (create_hosts disk codec join a c ids i insts ks hs) (host_calls i insts)
  unfolding create_hosts host_calls
  Emits-create_hosts ids i [] ks hs = Emits-pure hs
  Emits-create_hosts ids i (inst ∷ insts) [] hs = Emits-none _
  Emits-create_hosts ids i (inst ∷ insts) (k ∷ ks) hs =
      said _ (Emits-bind (Emits-or_exit _ _) λ h. Emits-create_hosts ids (suc i) insts ks _)

  Emits-set_up_blocks :
      (i : ℕ) (inst : InstanceConfig)
      → Emits (set_up_blocks disk codec join a c i inst) (block_calls i inst.name)
  unfolding set_up_blocks block_calls
  Emits-set_up_blocks i inst = go (i == 0 && c.listen_blocks)
    where
      go :
          (b : Bool)
          → Emits {S = S}
              (if b
                then (do
                  call (Call.subscribe_blocks inst.name)
                  check (a.subscribe_blocks i) (Exit.blocks_failed inst.name)
                  call (Call.listen_for_blocks inst.name))
                else pure tt)
              (if b
                then Call.subscribe_blocks inst.name ∷ Call.listen_for_blocks inst.name ∷ []
                else [])
      go true = granted _ _ _ (Emits-call _)
      go false = Emits-pure tt

  Emits-set_up_all :
      (i : ℕ) (insts : List InstanceConfig) (sv : Services)
      → Emits (set_up_all disk codec join a c i insts sv) (service_calls i insts)
  unfolding set_up_all set_up service_calls
  Emits-set_up_all i [] sv = Emits-pure sv
  Emits-set_up_all i (inst ∷ insts) sv =
      Emits-cast
        (Emits-next
          (said _ (
            said _ (
              said _ (
                said _ (
                  said _ (
                    said _ (
                      granted _ _ _ (
                        granted _ _ _ (
                          granted _ _ _
                            (Emits-next (Emits-set_up_blocks i inst) (Emits-call _)))))))))))
          (Emits-set_up_all (suc i) insts _))
        (ap
          (λ l.
            Call.register_handlers inst.name
            ∷ Call.send_status_on_connect inst.name
            ∷ Call.track_user_agents inst.name
            ∷ Call.run_peer_manager inst.name
            ∷ Call.report_connectivity inst.name
            ∷ Call.handle_inbound_peers inst.name
            ∷ Call.new_gossip_sub inst.name inst.gossip_d (gossip_log_file inst)
            ∷ Call.subscribe_subnets inst.name
            ∷ Call.open_log inst.name inst.log_file
            ∷ l)
          (append_assoc (block_calls i inst.name) (Call.listen_for_attestations inst.name ∷ [])
            (service_calls (suc i) insts)))

  Emits-start_discoveries :
      (i : ℕ) (insts : List InstanceConfig) (ds : List DiscoveryConfig)
      → Emits (start_discoveries disk codec join a c i insts ds) (discovery_calls i insts)
  unfolding start_discoveries discovery_calls
  Emits-start_discoveries i [] ds = Emits-pure ds
  Emits-start_discoveries i (inst ∷ insts) ds =
      granted _ _ _ (Emits-start_discoveries (suc i) insts _)

  Emits-start_bootstrap : Emits (start_bootstrap disk codec join a c) bootstrap_calls
  unfolding start_bootstrap bootstrap_calls
  Emits-start_bootstrap = go (c.bootstrap_file == "")
    where
      go :
          (b : Bool)
          → Emits {S = S}
              (if b then pure tt else call (Call.route_bootstrap_peers c.bootstrap_file))
              (if b then [] else Call.route_bootstrap_peers c.bootstrap_file ∷ [])
      go true = Emits-pure tt
      go false = Emits-call _

  pub Emits-start_probe :
      (ks : List (K × String)) → Emits (start_probe disk codec join a c ks) probe_calls
  unfolding start_probe probe_calls
  Emits-start_probe ks =
      Emits-cast
        (Emits-bind (Emits-or_exit (new_shared_peer_set (names_of c.instances)) _) λ s.
          Emits-bind (Emits-create_hosts (map (λ k. k.1) ks) 0 c.instances _ _) λ hs.
            Emits-bind (Emits-set_up_all 0 c.instances _) λ sv.
              Emits-bind (Emits-start_discoveries 0 c.instances [])
                λ ds. Emits-next Emits-start_bootstrap (Emits-pure _))
        (ap
          (λ l.
            host_calls 0 c.instances
            ++ (service_calls 0 c.instances ++ (discovery_calls 0 c.instances ++ l)))
          (append-nil bootstrap_calls))
