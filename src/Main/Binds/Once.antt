-- ===== src/Main/Binds/Once.antt =====
-- `runProbe` of main.go binds no port twice.
use beaconprobe.Base.{
  ℕ, zero, suc, ◌+◌, ◌≤◌, String, ◌≡◌, refl, ◌≢◌, Bool, true, false, ◌&&◌, List, [], ◌∷◌, ◌++◌, map,
  arith, ℕ_discrete, nat_key, string_key, ◌==◌, if◌then◌else◌, All,
}
use beaconprobe.Config.{InstanceConfig, Config, tcp_port, quic_port, disc_v5_port}
use beaconprobe.Config.Ports.{instance_ports, all_ports, Apart, AllApart}
use beaconprobe.Node.PeerSet.{new_shared_peer_set}
use beaconprobe.Node.Host.{Disk, Codec, listen_addrs}
use beaconprobe.Base.Setup.{pure, ◌>>◌, check}
use beaconprobe.Main.Probe.{
  Answers, DiscoveryConfig, Call, Exit, Hosts, Services, call, open_key, load_key, load_keys,
  create_hosts, set_up_blocks, set_up, set_up_all, discovery_config, names_of, start_discoveries,
  start_bootstrap, start_probe, run_probe,
}
use beaconprobe.Main.Binds.{
  port_of, ports_of, occurrences, Binds, Binds-bind, Binds-next, Binds-weaken, Binds-pure,
  Binds-call, Binds-check, Binds-or_exit, quiet, checked,
}

module _ {S K : Type 0} (disk : Disk S) (codec : Codec K) (join : String → String → String)
    (a : Answers K) (c : Config) where
  pub Binds-open_key : (p i : ℕ) (e : Exit) → Binds p (open_key disk codec join a c i e) 0
  unfolding open_key
  Binds-open_key p i e = record { bound = λ w. ground arith }

  Binds-load_key :
      (p i : ℕ) (inst : InstanceConfig) → Binds p (load_key disk codec join a c i inst) 0
  unfolding load_key
  Binds-load_key p i inst =
      Binds-bind (Binds-open_key p i _)
        λ k. Binds-bind (Binds-or_exit (a.peer_id k) _) λ id. Binds-pure _

  Binds-load_keys :
      (p i : ℕ) (insts : List InstanceConfig) → Binds p (load_keys disk codec join a c i insts) 0
  unfolding load_keys
  Binds-load_keys p i [] = Binds-pure _
  Binds-load_keys p i (inst ∷ insts) =
      Binds-bind (Binds-load_key p i inst)
        λ k. Binds-bind (Binds-load_keys p (suc i) insts) λ ks. Binds-pure _

  Binds-set_up_blocks :
      (p i : ℕ) (inst : InstanceConfig) → Binds p (set_up_blocks disk codec join a c i inst) 0
  unfolding set_up_blocks
  Binds-set_up_blocks p i inst = go (i == 0 && c.listen_blocks)
    where
      go :
          (b : Bool)
          → Binds {S = S} p
              (if b
                then (do
                  call (Call.subscribe_blocks inst.name)
                  check (a.subscribe_blocks i) (Exit.blocks_failed inst.name)
                  call (Call.listen_for_blocks inst.name))
                else pure tt)
              0
      go true =
          checked _ _ (Call.subscribe_blocks _) refl (Binds-call (Call.listen_for_blocks inst.name))
      go false = Binds-pure _

  Binds-set_up : (p i : ℕ) (inst : InstanceConfig) → Binds p (set_up disk codec join a c i inst) 0
  unfolding set_up
  Binds-set_up p i inst = quiet (Call.register_handlers _) refl (
      quiet (Call.send_status_on_connect _) refl (
        quiet (Call.track_user_agents _) refl (
          quiet (Call.run_peer_manager _) refl (
            quiet (Call.report_connectivity _) refl (
              quiet (Call.handle_inbound_peers _) refl (
                checked _ _ (Call.new_gossip_sub _ _ _) refl (
                  checked _ _ (Call.subscribe_subnets _) refl (
                    checked _ _ (Call.open_log _ _) refl (
                      Binds-next (Binds-set_up_blocks p i inst)
                        (Binds-call (Call.listen_for_attestations inst.name)))))))))))

  Binds-set_up_all :
      (p i : ℕ) (insts : List InstanceConfig) (sv : Services)
      → Binds p (set_up_all disk codec join a c i insts sv) 0
  unfolding set_up_all
  Binds-set_up_all p i [] sv = Binds-pure _
  Binds-set_up_all p i (inst ∷ insts) sv =
      Binds-next (Binds-set_up p i inst) (Binds-set_up_all p (suc i) insts _)

  -- The ports of the instances' hosts, and those of their discovery.
  host_ports : ℕ → List InstanceConfig → List ℕ
  host_ports i [] = []
  host_ports i (inst ∷ insts) = tcp_port c i ∷ quic_port c i ∷ host_ports (suc i) insts

  disc_ports : ℕ → List InstanceConfig → List ℕ
  disc_ports i [] = []
  disc_ports i (inst ∷ insts) = disc_v5_port c i ∷ disc_ports (suc i) insts

  Binds-create_hosts :
      (p : ℕ) (ids : List String) (i : ℕ) (insts : List InstanceConfig) (ks : List K) (hs : Hosts)
      → Binds p
          (create_hosts disk codec join a c ids i insts ks hs)
          (occurrences p (host_ports i insts))
  unfolding create_hosts host_ports listen_addrs
  Binds-create_hosts p ids i [] ks hs = Binds-pure _
  Binds-create_hosts p ids i (inst ∷ insts) [] hs = Binds-weaken (Binds-or_exit _ _) (omega arith)
  Binds-create_hosts p ids i (inst ∷ insts) (k ∷ ks) hs =
      Binds-weaken
        (Binds-next
          (Binds-call
            (Call.new_host inst.name (listen_addrs (tcp_port c i) (quic_port c i) inst.quic_only)))
          (Binds-bind (Binds-or_exit (a.new_host i k _) _)
            λ h. Binds-create_hosts p ids (suc i) insts ks _))
        (listens inst.quic_only)
    where
      listens :
          (q : Bool)
          → occurrences p (map port_of (listen_addrs (tcp_port c i) (quic_port c i) q))
              + (0 + occurrences p (host_ports (suc i) insts))
            ≤ occurrences p (host_ports i (inst ∷ insts))
      listens true = omega arith
      listens false = omega arith

  v4_ports : ℕ → List ℕ
  v4_ports zero = c.disc_v4_port ∷ []
  v4_ports (suc i) = []

  Binds-start_discoveries :
      (p i : ℕ) (insts : List InstanceConfig) (ds : List DiscoveryConfig)
      → p ≢ 0
      → Binds p
          (start_discoveries disk codec join a c i insts ds)
          (occurrences p (disc_ports i insts) + occurrences p (v4_ports i))
  unfolding start_discoveries disc_ports discovery_config v4_ports
  Binds-start_discoveries p i [] ds ne = Binds-weaken (Binds-pure _) (omega arith)
  Binds-start_discoveries p i (inst ∷ insts) ds ne =
      Binds-weaken
        (Binds-next
          (Binds-call
            (Call.start_discovery inst.name (discovery_config disk codec join a c i inst)))
          (Binds-next (Binds-check (a.start_discovery i) _)
            (Binds-start_discoveries p (suc i) insts _ ne)))
        (listens i)
    where
      listens :
          (i : ℕ)
          → occurrences p (
                ports_of
                  (Call.start_discovery inst.name (discovery_config disk codec join a c i inst)))
              + (0 + (occurrences p (disc_ports (suc i) insts) + occurrences p (v4_ports (suc i))))
            ≤ occurrences p (disc_ports i (inst ∷ insts)) + occurrences p (v4_ports i)
      listens zero = ground arith
      listens (suc i) = ground arith

  Binds-start_bootstrap : (p : ℕ) → Binds p (start_bootstrap disk codec join a c) 0
  unfolding start_bootstrap
  Binds-start_bootstrap p = go (c.bootstrap_file == "")
    where
      go :
          (b : Bool)
          → Binds {S = S} p
              (if b then pure tt else call (Call.route_bootstrap_peers c.bootstrap_file))
              0
      go true = Binds-pure _
      go false = Binds-call (Call.route_bootstrap_peers c.bootstrap_file)

  occurrences-instance_ports :
      (p i : ℕ) (insts : List InstanceConfig)
      → occurrences p (instance_ports c i insts ++ c.disc_v4_port ∷ [])
        ≡ occurrences p (host_ports i insts)
          + (occurrences p (disc_ports i insts) + occurrences p (c.disc_v4_port ∷ []))
  unfolding host_ports disc_ports
  occurrences-instance_ports p i [] = omega arith
  occurrences-instance_ports p i (inst ∷ insts) =
      omega (arith, occurrences-instance_ports p (suc i) insts)

  pub Binds-run_probe :
      (p : ℕ) → p ≢ 0 → Binds p (run_probe disk codec join a c) (occurrences p (all_ports c))
  unfolding run_probe start_probe v4_ports
  Binds-run_probe p ne =
      Binds-weaken
        (Binds-bind (Binds-load_keys p 0 c.instances) λ ks.
          Binds-bind (Binds-or_exit (new_shared_peer_set (names_of c.instances)) _) λ s.
            Binds-bind (Binds-create_hosts p (map (λ k. k.1) ks) 0 c.instances _ _) λ hs.
              Binds-bind (Binds-set_up_all p 0 c.instances _) λ sv.
                Binds-bind (Binds-start_discoveries p 0 c.instances [] ne)
                  λ ds. Binds-next (Binds-start_bootstrap p) (Binds-pure _))
        (omega (arith, occurrences-instance_ports p 0 c.instances))

Apart-absent : (p q : ℕ) (ps : List ℕ) → p ≢ 0 → q ≡ p → All (Apart q) ps → occurrences p ps ≡ 0
Apart-absent p q [] ne e h = refl
Apart-absent p q (r ∷ ps) ne e h = ground (arith, Apart-absent p q ps ne e h.1)

pub apart_once : (p : ℕ) (ps : List ℕ) → p ≢ 0 → AllApart ps → occurrences p ps ≤ 1
apart_once p [] ne h = omega arith
apart_once p (q ∷ ps) ne h = elim (ℕ_discrete q p) [
  | yes e ↦ ground (arith, Apart-absent p q ps ne e h.0)
  | no d ↦ ground (arith, apart_once p ps ne h.1)
]
