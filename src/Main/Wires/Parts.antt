-- ===== src/Main/Wires/Parts.antt =====
-- The loops of `runProbe` of main.go when they do not exit: what each leaves behind.
use beaconprobe.Base.{
  ℕ, suc, String, ◌≡◌, refl, sym, ◌∙◌, ◌≢◌, Bool, true, false, ◌&&◌, none, some, List, [], ◌∷◌,
  ◌++◌, map, arith, lookup, insert, lookup-insert, GoMap, nat_key, string_key, ◌==◌, if◌then◌else◌,
  All,
}
use mathlib.Core.List.{append_assoc, append-nil}
use beaconprobe.Config.{InstanceConfig, Config}
use beaconprobe.Config.Validity.{AllNamed}
use beaconprobe.Node.Gater.{SiblingGater, new_sibling_gater}
use beaconprobe.Node.PeerFinder.{Host}
use beaconprobe.Node.PeerManager.{PeerManager, new_peer_manager}
use beaconprobe.Node.Host.{Disk, Codec}
use beaconprobe.Base.Setup.{pure, ◌>>◌, check}
use beaconprobe.Main.Probe.{
  Answers, DiscoveryConfig, Call, Exit, Hosts, Services, call, names_of, create_hosts,
  set_up_blocks, set_up, set_up_all, discovery_config, start_discoveries, sibling_ids,
}
use beaconprobe.Main.Wires.{
  Each, Leaves, Leaves-bind, Leaves-imply, Leaves-next, Leaves-pure, Leaves-call, Leaves-or_exit,
  after_call, after_check,
}
use beaconprobe.Main.Wires.Siblings.{Guards, new_sibling_gater-Guards}

module _ {S K : Type 0} (disk : Disk S) (codec : Codec K) (join : String → String → String)
    (a : Answers K) (c : Config) where
  -- A predicate of each instance, its index and its key.
  abbrev pub EachWith :
      (ℕ → InstanceConfig → K → Type 0) → ℕ → List InstanceConfig → List K → Type 0
  EachWith P i [] ks = Unit
  EachWith P i (inst ∷ insts) [] = ⊥
  EachWith P i (inst ∷ insts) (k ∷ ks) = P i inst k × EachWith P (suc i) insts ks

  -- The host of the i-th instance, made with its key and its gater, and the gater stand under its
  -- name.
  pub record IsHosted (ids : List String) (hs : Hosts) (i : ℕ) (inst : InstanceConfig) (k : K)
      : Type 0 where
    pub host : Host
    pub gater : SiblingGater
    pub made : a.new_host i k (some gater) ≡ some host
    pub host_at : lookup inst.name hs.hosts ≡ some host
    pub gater_at : lookup inst.name hs.gaters ≡ some gater
    pub own_gater : gater ≡ new_sibling_gater inst.name (sibling_ids i 0 ids)
    pub guards : Guards inst.name i ids gater

  -- The hosts that are there stay, but under the given names.
  abbrev pub Keeps : Hosts → Hosts → List String → Type 0
  Keeps old new names =
      (n : String)
      → All (λ m. n ≢ m) names
      → (lookup n new.hosts ≡ lookup n old.hosts) × (lookup n new.gaters ≡ lookup n old.gaters)

  abbrev with_host : List String → ℕ → InstanceConfig → Host → Hosts → Hosts
  with_host ids i inst h hs = record {
    hosts = insert inst.name h hs.hosts;
    gaters = insert inst.name (new_sibling_gater inst.name (sibling_ids i 0 ids)) hs.gaters;
  }

  with_host-IsHosted :
      (ids : List String) (i : ℕ) (inst : InstanceConfig) (k : K) (names : List String) (h : Host)
      (hs hs' : Hosts)
      → a.new_host i k (some (new_sibling_gater inst.name (sibling_ids i 0 ids))) ≡ some h
      → All (λ m. inst.name ≢ m) names
      → Keeps (with_host ids i inst h hs) hs' names
      → Keeps hs hs' (inst.name ∷ names) × IsHosted ids hs' i inst k
  with_host-IsHosted ids i inst k names h hs hs' made apart kept = (
    λ n others.
        let (host, gater) = kept n others.1 in
        (
          host ∙ lookup_other n others.0 h hs.hosts,
          gater
              ∙ lookup_other n others.0 (new_sibling_gater inst.name (sibling_ids i 0 ids))
                  hs.gaters,
        ),
    record {
      host = h;
      made = made;
      host_at = (kept inst.name apart).0 ∙ lookup_own h hs.hosts;
      gater = new_sibling_gater inst.name (sibling_ids i 0 ids);
      gater_at =
          (kept inst.name apart).1
          ∙ lookup_own (new_sibling_gater inst.name (sibling_ids i 0 ids)) hs.gaters;
      own_gater = refl;
      guards = new_sibling_gater-Guards inst.name i ids;
    },
  )
    where
      lookup_other :
          {V : Type 0} (n : String)
          → n ≢ inst.name
          → (v : V) (m : GoMap String V) → lookup n (insert inst.name v m) ≡ lookup n m
      lookup_other n ne v m = ground (arith, lookup-insert n inst.name v m)

      lookup_own :
          {V : Type 0} (v : V) (m : GoMap String V)
          → lookup inst.name (insert inst.name v m) ≡ some v
      lookup_own v m = ground (arith, lookup-insert inst.name inst.name v m)

  pub Leaves-create_hosts :
      (ids : List String) (i : ℕ) (insts : List InstanceConfig) (ks : List K) (hs : Hosts)
      → AllNamed (names_of insts)
      → Leaves
          (create_hosts disk codec join a c ids i insts ks hs)
          (λ hs'. Keeps hs hs' (names_of insts) × EachWith (IsHosted ids hs') i insts ks)
  unfolding create_hosts
  Leaves-create_hosts ids i [] ks hs named = Leaves-pure hs (λ n h. (refl, refl), tt)
  Leaves-create_hosts ids i (inst ∷ insts) [] hs named =
      Leaves-imply _ (Leaves-or_exit none _) (λ x e. absurd (ground arith))
  Leaves-create_hosts ids i (inst ∷ insts) (k ∷ ks) hs named = after_call _ (
      Leaves-bind _ (Leaves-or_exit (a.new_host i k _) _) λ h made.
        Leaves-imply
          (λ hs'.
            Keeps (with_host ids i inst h hs) hs' (names_of insts)
            × EachWith (IsHosted ids hs') (suc i) insts ks)
          (Leaves-create_hosts ids (suc i) insts ks (with_host ids i inst h hs) named.2)
          λ hs' r.
            let (kept, own) =
              with_host-IsHosted ids i inst k (names_of insts) h hs hs' made named.1 r.0 in
            (kept, (own, r.1)))

  -- The services of the i-th instance have started.
  pub record IsServed (i : ℕ) (inst : InstanceConfig) : Type 0 where
    pub gossips : a.new_gossip_sub i ≡ true
    pub subscribed : a.subscribe_subnets i ≡ true
    pub logs : a.open_log i ≡ true
    pub blocks : (i ≡ 0) → (c.listen_blocks ≡ true) → (a.subscribe_blocks i ≡ true)

  pub Leaves-set_up_blocks :
      (i : ℕ) (inst : InstanceConfig)
      → Leaves
          (set_up_blocks disk codec join a c i inst)
          (λ _. (i ≡ 0) → (c.listen_blocks ≡ true) → (a.subscribe_blocks i ≡ true))
  unfolding set_up_blocks
  Leaves-set_up_blocks i inst = go (i == 0 && c.listen_blocks) (λ h k. ground arith)
    where
      go :
          (b : Bool)
          → ((i ≡ 0) → (c.listen_blocks ≡ true) → (b ≡ true))
          → Leaves {S = S}
              (if b
                then (do
                  call (Call.subscribe_blocks inst.name)
                  check (a.subscribe_blocks i) (Exit.blocks_failed inst.name)
                  call (Call.listen_for_blocks inst.name))
                else pure tt)
              (λ _. (i ≡ 0) → (c.listen_blocks ≡ true) → (a.subscribe_blocks i ≡ true))
      go true f = after_check _ _ _ (λ e. Leaves-imply (λ _. Unit) (Leaves-call _) (λ _ _ _ _. e))
      go false f = Leaves-pure tt (λ h k. absurd (ground (arith, f h k)))

  pub Leaves-set_up :
      (i : ℕ) (inst : InstanceConfig)
      → Leaves (set_up disk codec join a c i inst) (λ _. IsServed i inst)
  unfolding set_up
  Leaves-set_up i inst = after_call _ (
      after_call _ (
        after_call _ (
          after_call _ (
            after_call _ (
              after_call _ (
                after_check _ _ _ λ g. after_check _ _ _ λ s. after_check _ _ _ λ l.
                  Leaves-next ((i ≡ 0) → (c.listen_blocks ≡ true) → (a.subscribe_blocks i ≡ true))
                    (Leaves-set_up_blocks i inst)
                    λ b.
                      Leaves-imply (λ _. Unit) (Leaves-call _)
                        (λ _ _. record { gossips = g; subscribed = s; logs = l; blocks = b })))))))

  abbrev pub manager_of : InstanceConfig → PeerManager
  manager_of inst = new_peer_manager inst.max_peers inst.name

  pub Leaves-set_up_all :
      (i : ℕ) (insts : List InstanceConfig) (sv : Services)
      → Leaves (set_up_all disk codec join a c i insts sv) (λ sv'.
        (sv'.managers ≡ sv.managers ++ map manager_of insts)
        × (sv'.log_files ≡ sv.log_files ++ map (λ inst. inst.log_file) insts)
        × Each IsServed i insts)
  unfolding set_up_all
  Leaves-set_up_all i [] sv =
      Leaves-pure sv (sym (append-nil sv.managers), sym (append-nil sv.log_files), tt)
  Leaves-set_up_all i (inst ∷ insts) sv =
      Leaves-next (IsServed i inst) (Leaves-set_up i inst) λ own.
        Leaves-imply _ (Leaves-set_up_all (suc i) insts _) λ sv' r. (
          r.0 ∙ append_assoc sv.managers (manager_of inst ∷ []) _,
          r.1 ∙ append_assoc sv.log_files (inst.log_file ∷ []) _,
          (own, r.2),
        )

  abbrev pub IsDiscovering : ℕ → InstanceConfig → Type 0
  IsDiscovering i inst = a.start_discovery i ≡ true

  -- The settings of discovery, the next of which is instance i.
  pub discovery_configs : ℕ → List InstanceConfig → List DiscoveryConfig
  discovery_configs i [] = []
  discovery_configs i (inst ∷ insts) =
      discovery_config disk codec join a c i inst ∷ discovery_configs (suc i) insts

  pub Leaves-start_discoveries :
      (i : ℕ) (insts : List InstanceConfig) (ds : List DiscoveryConfig)
      → Leaves
          (start_discoveries disk codec join a c i insts ds)
          (λ ds'. (ds' ≡ ds ++ discovery_configs i insts) × Each IsDiscovering i insts)
  unfolding start_discoveries discovery_configs
  Leaves-start_discoveries i [] ds = Leaves-pure ds (sym (append-nil ds), tt)
  Leaves-start_discoveries i (inst ∷ insts) ds = after_check _ _ _ λ own.
      Leaves-imply _ (Leaves-start_discoveries (suc i) insts _)
        λ ds' r. (r.0 ∙ append_assoc ds _ _, (own, r.1))

  -- The first discovery crawls actively, and on the discv4 port; the others do neither.
  abbrev pub OnlyFirst : List DiscoveryConfig → Type 0
  OnlyFirst [] = Unit
  OnlyFirst (d ∷ ds) =
      (d.active_crawl ≡ true)
      × (d.disc_v4_port ≡ c.disc_v4_port)
      × All (λ e. (e.active_crawl ≡ false) × (e.disc_v4_port ≡ 0)) ds

  later_idle :
      (i : ℕ) (insts : List InstanceConfig)
      → All (λ e. (e.active_crawl ≡ false) × (e.disc_v4_port ≡ 0)) (discovery_configs (suc i) insts)
  unfolding discovery_configs discovery_config
  later_idle i [] = tt
  later_idle i (inst ∷ insts) = ((ground arith, ground arith), later_idle (suc i) insts)

  pub first_crawls : (insts : List InstanceConfig) → OnlyFirst (discovery_configs 0 insts)
  unfolding discovery_configs discovery_config
  first_crawls [] = tt
  first_crawls (inst ∷ insts) = (ground arith, ground arith, later_idle 0 insts)
