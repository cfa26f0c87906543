-- ===== src/Main/Wires/Starts.antt =====
-- `runProbe` of main.go starts exactly if nothing that it asks for fails.
use beaconprobe.Base.{
  ℕ, suc, String, ◌≡◌, refl, subst, ◌∙◌, ◌↔◌, Bool, true, false, ◌&&◌, some, List, [], ◌∷◌, map,
  arith, nat_key, string_key, ◌==◌, if◌then◌else◌,
}
use beaconprobe.Config.{InstanceConfig, Config}
use beaconprobe.Config.Validity.{IsConsistent}
use beaconprobe.Node.PeerSet.{SharedPeerSet, new_shared_peer_set}
use beaconprobe.Node.PeerFinder.{Host}
use beaconprobe.Node.Host.{Disk, Codec}
use beaconprobe.Base.Setup.{running, pure, ◌>>◌, check}
use beaconprobe.Main.Probe.{
  Answers, DiscoveryConfig, Call, Exit, World, Hosts, Services, Probe, call, names_of, load_keys,
  create_hosts, set_up_blocks, set_up, set_up_all, start_discoveries, start_bootstrap, start_probe,
  run_probe, sibling_ids,
}
use beaconprobe.Main.Wires.{Each}
use beaconprobe.Main.Wires.Loads.{peer_set_made}
use beaconprobe.Node.Gater.{new_sibling_gater}
use beaconprobe.Main.Wires.Keys.{AreKeysOf, load_keys_complete}
use beaconprobe.Main.Wires.Parts.{EachWith, IsHosted, IsServed, IsDiscovering}
use beaconprobe.Main.Wires.Probes.{run_probe-IsWired}
use beaconprobe.Main.Wires.Passes.{
  Passes, goes_on, Passes-bind, Passes-next, Passes-pure, Passes-call, Passes-check, Passes-or_exit,
  silent, checked,
}

module _ {S K : Type 0} (disk : Disk S) (codec : Codec K) (join : String → String → String)
    (a : Answers K) (c : Config) where
  -- The host of the i-th instance is made, with its key and the gater of its siblings.
  abbrev pub HostMade : List String → ℕ → InstanceConfig → K → Type 0
  HostMade ids i inst k =
      (h : Host) × (a.new_host i k (some (new_sibling_gater inst.name (sibling_ids i 0 ids)))
        ≡ some h)

  Passes-create_hosts :
      (ids : List String) (i : ℕ) (insts : List InstanceConfig) (ks : List K) (hs : Hosts)
      → EachWith disk codec join a c (HostMade ids) i insts ks
      → Passes (create_hosts disk codec join a c ids i insts ks hs)
  unfolding create_hosts
  Passes-create_hosts ids i [] ks hs made = Passes-pure hs
  Passes-create_hosts ids i (inst ∷ insts) [] hs made = elim made [ ]
  Passes-create_hosts ids i (inst ∷ insts) (k ∷ ks) hs made = Passes-next (Passes-call _) (
      Passes-bind (Passes-or_exit (a.new_host i k _) made.0.0 _ made.0.1)
        λ h. Passes-create_hosts ids (suc i) insts ks _ made.1)

  Passes-set_up_blocks :
      (i : ℕ) (inst : InstanceConfig)
      → IsServed disk codec join a c i inst
      → Passes (set_up_blocks disk codec join a c i inst)
  unfolding set_up_blocks
  Passes-set_up_blocks i inst s =
      go (i == 0 && c.listen_blocks) (λ e. s.blocks (ground arith) (ground arith))
    where
      go :
          (b : Bool)
          → (b ≡ true → a.subscribe_blocks i ≡ true)
          → Passes {S = S} (
              if b
              then (do
                call (Call.subscribe_blocks inst.name)
                check (a.subscribe_blocks i) (Exit.blocks_failed inst.name)
                call (Call.listen_for_blocks inst.name))
              else pure tt)
      go true f =
          Passes-next (Passes-call _) (Passes-next (Passes-check _ _ (f refl)) (Passes-call _))
      go false f = Passes-pure tt

  Passes-set_up :
      (i : ℕ) (inst : InstanceConfig)
      → IsServed disk codec join a c i inst
      → Passes (set_up disk codec join a c i inst)
  unfolding set_up
  Passes-set_up i inst s = silent _ (
      silent _ (
        silent _ (
          silent _ (
            silent _ (
              silent _ (
                checked _ _ _ s.gossips (
                  checked _ _ _ s.subscribed (
                    checked _ _ _ s.logs
                      (Passes-next (Passes-set_up_blocks i inst s) (Passes-call _))))))))))

  Passes-set_up_all :
      (i : ℕ) (insts : List InstanceConfig) (sv : Services)
      → Each (IsServed disk codec join a c) i insts
      → Passes (set_up_all disk codec join a c i insts sv)
  unfolding set_up_all
  Passes-set_up_all i [] sv s = Passes-pure sv
  Passes-set_up_all i (inst ∷ insts) sv s =
      Passes-next (Passes-set_up i inst s.0) (Passes-set_up_all (suc i) insts _ s.1)

  Passes-start_discoveries :
      (i : ℕ) (insts : List InstanceConfig) (ds : List DiscoveryConfig)
      → Each (IsDiscovering disk codec join a c) i insts
      → Passes (start_discoveries disk codec join a c i insts ds)
  unfolding start_discoveries
  Passes-start_discoveries i [] ds s = Passes-pure ds
  Passes-start_discoveries i (inst ∷ insts) ds s =
      checked _ _ _ s.0 (Passes-start_discoveries (suc i) insts _ s.1)

  Passes-start_bootstrap : Passes (start_bootstrap disk codec join a c)
  unfolding start_bootstrap
  Passes-start_bootstrap = go (c.bootstrap_file == "")
    where
      go :
          (b : Bool)
          → Passes {S = S}
              (if b then pure tt else call (Call.route_bootstrap_peers c.bootstrap_file))
      go true = Passes-pure tt
      go false = Passes-call _

  -- Nothing that `runProbe` asks for fails: from the files, the keys and their peer IDs, then the hosts
  -- with them, the services and the discoveries.
  pub record AllGranted (files : S) : Type 0 where
    pub keys : List (K × String)
    pub keys_given : AreKeysOf disk codec join a c 0 c.instances files keys
    pub hosts_made :
        EachWith disk codec join a c
          (HostMade (map (λ k. k.1) keys))
          0
          c.instances
          (map (λ k. k.0) keys)
    pub all_served : Each (IsServed disk codec join a c) 0 c.instances
    pub all_discovering : Each (IsDiscovering disk codec join a c) 0 c.instances

  Passes-start_probe :
      (s : SharedPeerSet) (files : S)
      → new_shared_peer_set (names_of c.instances) ≡ some s
      → (g : AllGranted files) → Passes (start_probe disk codec join a c g.keys)
  unfolding start_probe
  Passes-start_probe s files made g =
      Passes-bind (Passes-or_exit (new_shared_peer_set (names_of c.instances)) s _ made) λ s.
        Passes-bind
          (Passes-create_hosts (map (λ k. k.1) g.keys) 0 c.instances (map (λ k. k.0) g.keys) _
            g.hosts_made)
          λ hs. Passes-bind (Passes-set_up_all 0 c.instances _ g.all_served) λ sv.
            Passes-bind (Passes-start_discoveries 0 c.instances [] g.all_discovering)
              λ ds. Passes-next Passes-start_bootstrap (Passes-pure _)

  made_with :
      (ids : List String) (hs : Hosts) (i : ℕ) (inst : InstanceConfig) (k : K)
      (h : IsHosted disk codec join a c ids hs i inst k)
      → a.new_host i k (some (new_sibling_gater inst.name (sibling_ids i 0 ids))) ≡ some h.host
  made_with ids hs i inst k h =
      subst (λ g. a.new_host i k (some g) ≡ some h.host) h.own_gater h.made

  hosts_of :
      (ids : List String) (hs : Hosts) (i : ℕ) (insts : List InstanceConfig) (ks : List K)
      → EachWith disk codec join a c (IsHosted disk codec join a c ids hs) i insts ks
      → EachWith disk codec join a c (HostMade ids) i insts ks
  hosts_of ids hs i [] ks h = tt
  hosts_of ids hs i (inst ∷ insts) [] h = h
  hosts_of ids hs i (inst ∷ insts) (k ∷ ks) h =
      ((h.0.host, made_with ids hs i inst k h.0), hosts_of ids hs (suc i) insts ks h.1)

-- Under a consistent configuration, and from any files, `runProbe` starts exactly if each instance's
-- key file yields a key, or a new one is generated and saved where there is none, each key has a peer
-- ID, each host is made with its key and gater, each instance's services start, blocks included where
-- the first one listens for them, and each discovery starts; otherwise it exits.
pub run_probe_starts :
    {S K : Type 0} (disk : Disk S) (codec : Codec K) (join : String → String → String)
    (a : Answers K) (c : Config) (w : World S)
    → IsConsistent c
    → ((w' : World S) × (p : Probe) × (run_probe disk codec join a c w ≡ running w' p))
      ↔ AllGranted disk codec join a c w.files
unfolding run_probe
run_probe_starts {S} {K} disk codec join a c w ok = (needs, suffices)
  where
    needs :
        ((w' : World S) × (p : Probe) × (run_probe disk codec join a c w ≡ running w' p))
        → AllGranted disk codec join a c w.files
    needs (w', p, e) =
        let wired = run_probe-IsWired disk codec join a c w w' p ok e in
        record {
          keys = wired.keys;
          keys_given = wired.keyed;
          hosts_made =
              hosts_of disk codec join a c (map (λ k. k.1) wired.keys) p.hosts 0 c.instances
                (map (λ k. k.0) wired.keys) wired.connected.hosted;
          all_served = wired.connected.served;
          all_discovering = wired.connected.discovering;
        }

    suffices :
        AllGranted disk codec join a c w.files
        → (w' : World S) × (p : Probe) × (run_probe disk codec join a c w ≡ running w' p)
    suffices g =
        let (s, made) = peer_set_made c.instances ok.inhabited in
        let (w', loaded) =
          load_keys_complete disk codec join a c 0 c.instances w g.keys g.keys_given in
        let (v, p, e) = (Passes-start_probe disk codec join a c s w.files made g).passed w' in
        (
          v,
          p,
          goes_on (load_keys disk codec join a c 0 c.instances) (start_probe disk codec join a c) w
                w' g.keys loaded
              ∙ e,
        )
