-- ===== src/Main/Wires/Probes.antt =====
-- `runProbe` of main.go when it does not exit: how what it has set up is connected.
use beaconprobe.Base.{
  String, ◌≡◌, refl, sym, subst, ap, ◌∙◌, ◌++◌, List, [], map, nat_key, string_key,
}
use beaconprobe.Config.{Config}
use beaconprobe.Config.Validity.{IsConsistent, AllNamed}
use beaconprobe.Node.PeerSet.{new_shared_peer_set, new-IsValid}
use beaconprobe.Node.PeerFinder.{new_peer_finder, IsSorted, new_peer_finder-IsSorted}
use beaconprobe.Node.Host.{Disk, Codec}
use beaconprobe.Base.Setup.{running}
use beaconprobe.Main.Probe.{
  Answers, World, Probe, names_of, start_bootstrap, load_keys, start_probe, run_probe,
}
use beaconprobe.Main.Wires.{Each, Leaves, Leaves-bind, Leaves-next, Leaves-pure, Leaves-or_exit}
use beaconprobe.Main.Wires.Passes.{both_ran}
use beaconprobe.Main.Wires.Keys.{AreKeysOf, load_keys_sound}
use beaconprobe.Main.Wires.Calls.{probe_calls, Emits-start_probe}
use beaconprobe.Main.Wires.Parts.{
  IsHosted, IsServed, IsDiscovering, OnlyFirst, manager_of, discovery_configs, Leaves-create_hosts,
  Leaves-set_up_all, Leaves-start_discoveries, EachWith, first_crawls,
}

module _ {S K : Type 0} (disk : Disk S) (codec : Codec K) (join : String → String → String)
    (a : Answers K) (c : Config) where
  -- A probe that is connected as the configuration says, for its keys and their peer IDs.
  pub record IsConnected (ks : List (K × String)) (p : Probe) : Type 0 where
    pub hosted :
        EachWith disk codec join a c
          (IsHosted disk codec join a c (map (λ k. k.1) ks) p.hosts)
          0
          c.instances
          (map (λ k. k.0) ks)
    pub served : Each (IsServed disk codec join a c) 0 c.instances
    pub discovering : Each (IsDiscovering disk codec join a c) 0 c.instances
    pub managed : p.services.managers ≡ map (manager_of disk codec join a c) c.instances
    pub logged : p.services.log_files ≡ map (λ inst. inst.log_file) c.instances
    pub finder_hosts : p.peer_finder.hosts ≡ p.hosts.hosts
    pub finder_names : p.peer_finder.peer_set.instances ≡ names_of c.instances
    pub finder_empty : p.peer_finder.peer_set.assignments ≡ []
    pub finder-IsSorted : IsSorted p.peer_finder
    pub first_crawls : OnlyFirst disk codec join a c p.discoveries
    pub one_discovery_each : p.discoveries ≡ discovery_configs disk codec join a c 0 c.instances

  -- Such a probe, with where its keys come from and all that has been called.
  pub record IsWired (w w' : World S) (p : Probe) : Type 0 where
    pub keys : List (K × String)
    pub keyed : AreKeysOf disk codec join a c 0 c.instances w.files keys
    pub connected : IsConnected keys p
    pub called : w'.calls ≡ w.calls ++ probe_calls disk codec join a c

  Leaves-start_bootstrap : Leaves (start_bootstrap disk codec join a c) (λ _. Unit)
  unfolding start_bootstrap
  Leaves-start_bootstrap = record { left = λ w w' u h. tt }

  Leaves-start_probe :
      (ks : List (K × String))
      → AllNamed (names_of c.instances)
      → Leaves (start_probe disk codec join a c ks) (IsConnected ks)
  unfolding start_probe new_peer_finder
  Leaves-start_probe ks named =
      Leaves-bind _ (Leaves-or_exit (new_shared_peer_set (names_of c.instances)) _) λ s made.
        Leaves-bind _
          (Leaves-create_hosts disk codec join a c (map (λ k. k.1) ks) 0 c.instances _ _ named)
          λ hs hosted.
            Leaves-bind _ (Leaves-set_up_all disk codec join a c 0 c.instances _) λ sv served.
              Leaves-bind _ (Leaves-start_discoveries disk codec join a c 0 c.instances [])
                λ ds discovering. Leaves-next Unit Leaves-start_bootstrap λ _.
                  let (valid, names, empty) = new-IsValid (names_of c.instances) s made in
                  Leaves-pure _ (record {
                    hosted = hosted.1;
                    served = served.2;
                    discovering = discovering.1;
                    managed = served.0;
                    logged = served.1;
                    finder_hosts = refl;
                    finder_names = names;
                    finder_empty = empty;
                    finder-IsSorted = new_peer_finder-IsSorted s hs.hosts valid;
                    first_crawls =
                        subst (OnlyFirst disk codec join a c) (sym discovering.0)
                          (first_crawls disk codec join a c c.instances);
                    one_discovery_each = discovering.0;
                  })

pub run_probe-IsWired :
    {S K : Type 0} (disk : Disk S) (codec : Codec K) (join : String → String → String)
    (a : Answers K) (c : Config) (w w' : World S) (p : Probe)
    → IsConsistent c
    → run_probe disk codec join a c w ≡ running w' p
    → IsWired disk codec join a c w w' p
unfolding run_probe
run_probe-IsWired disk codec join a c w w' p ok h =
    let (v, ks, loaded, started) =
      both_ran (load_keys disk codec join a c 0 c.instances) (start_probe disk codec join a c) w w'
        p h in
    let (keyed, quiet) = load_keys_sound disk codec join a c 0 c.instances w v ks loaded in
    record {
      keys = ks;
      keyed = keyed;
      connected = (Leaves-start_probe disk codec join a c ks ok.named).left v w' p started;
      called =
          (Emits-start_probe disk codec join a c ks).emitted v w' p started
          ∙ ap (λ l. l ++ probe_calls disk codec join a c) quiet;
    }
